-- ===== src/Gateway/Drain.antt =====
-- The loop over the inbound ring against the list of the messages that the ring holds.
use lob_engine.Prelude.{
  ℕ, zero, suc, ◌+◌, ◌<◌, ◌≡◌, refl, ap, subst, ◌∙◌, Bool, none, some, List, [], arith, length, Run,
  ok, fault, out_of_fuel, ◌>>=◌, inl, inr,
}
use lob_engine.Core.{Timestamp}
use lob_engine.SpscQueue.{DropQueue, pop, dequeue}
use lob_engine.SpscQueue.Refine.{Holds, pop_refines}
use lob_engine.Gateway.Events.{OrderMessage, ExchangeEvent}
use lob_engine.Gateway.Loop.{Outputs, handle, handle_all, exchange_drain}

chain {ℓ κ μ} :
    {A : Type ℓ} {B : Type κ} {C : Type μ} (r : Run A) (f : A → Run C) (g : A → Run B)
    (k : B → Run C)
    → ((x : A) → f x ≡ (g x >>= k))
    → (r >>= f) ≡ (r >>= g >>= k)
chain out_of_fuel f g k e = refl
chain (fault why) f g k e = refl
chain (ok x) f g k e = e x

module _ {Symbol Line : Type 0} (same : Symbol → Symbol → Bool)
    (serialize : ExchangeEvent Symbol → Line) (in_bits out_bits log_bits : ℕ)
    (clock : ℕ → Timestamp) where
  drain-stops :
      (rounds fuel n : ℕ) (inbound : DropQueue (OrderMessage Symbol)) (out : Outputs Symbol Line)
      → (pop in_bits inbound.ring).1 ≡ none
      → exchange_drain same serialize in_bits out_bits log_bits clock
          (suc rounds)
          fuel
          n
          inbound
          out
        ≡ ok (inbound, out)
  unfolding exchange_drain dequeue
  drain-stops rounds fuel n inbound out e = rw (exchange_drain, e) refl

  drain-goes_on :
      (rounds fuel n : ℕ) (inbound : DropQueue (OrderMessage Symbol)) (out : Outputs Symbol Line)
      (msg : OrderMessage Symbol)
      → (pop in_bits inbound.ring).1 ≡ some msg
      → exchange_drain same serialize in_bits out_bits log_bits clock
          (suc rounds)
          fuel
          n
          inbound
          out
        ≡ (handle same serialize in_bits out_bits log_bits clock fuel n out msg >>= (λ out'.
            exchange_drain same serialize in_bits out_bits log_bits clock rounds fuel
              (n + 2)
              (record inbound { ring = (pop in_bits inbound.ring).0 })
              out'))
  unfolding exchange_drain dequeue
  drain-goes_on rounds fuel n inbound out msg e = rw (exchange_drain, e) refl

  -- With more rounds than the inbound ring holds messages, the loop of the exchange thread
  -- processes each of these messages once, in the order in which they were pushed, with the
  -- outcome of processing them as a list, and leaves the ring empty and its drop counter as it was.
  pub exchange_drain_refines :
      (rounds fuel : ℕ) (inbound : DropQueue (OrderMessage Symbol))
      (msgs : List (OrderMessage Symbol))
      → Holds in_bits inbound.ring msgs
      → length msgs < rounds
      → (inbound' : DropQueue (OrderMessage Symbol)) × Holds in_bits inbound'.ring []
        × (inbound'.drops ≡ inbound.drops)
        × ((n : ℕ) (out : Outputs Symbol Line)
            → exchange_drain same serialize in_bits out_bits log_bits clock rounds fuel n inbound
                out
              ≡ (handle_all same serialize in_bits out_bits log_bits clock fuel n out msgs
                  >>= (λ out'. ok (inbound', out'))))
  unfolding exchange_drain
  exchange_drain_refines zero fuel inbound msgs v w = absurd (omega (arith, w))
  exchange_drain_refines (suc rounds) fuel inbound msgs v w =
      elim (pop_refines in_bits inbound.ring msgs v) [
        | inl (e, done) ↦ (
          inbound,
          subst (Holds in_bits inbound.ring) e v,
          refl,
          λ n out. drain-stops rounds fuel n inbound out (ap (λ r. r.1) done) ∙ rw e refl,
        )
        | inr (msg, rest, e, done, v') ↦
            let (left, held, same_drops, run) =
              exchange_drain_refines rounds fuel
                (record inbound { ring = (pop in_bits inbound.ring).0 }) rest v'
                (omega (arith, w, ap length e)) in
            (
              left,
              held,
              same_drops,
              λ n out.
                  drain-goes_on rounds fuel n inbound out msg done
                  ∙ rw e (
                      chain (handle same serialize in_bits out_bits log_bits clock fuel n out msg) _
                        _ _ (λ out'. run (n + 2) out')),
            )
      ]
