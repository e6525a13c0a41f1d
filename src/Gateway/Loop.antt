-- ===== src/Gateway/Loop.antt =====
-- src/gateway/gateway.cpp: the receiver's step and the exchange thread's loop, and the `log` of
-- replay_logger.cpp. Parameters: the JSON texts with their parser and printer, and the readings of
-- the clock, in their order.
use lob_engine.Prelude.{
  ℕ, zero, suc, ◌+◌, Bool, true, false, Option, none, some, List, [], ◌∷◌, if◌then◌else◌, Run, ok,
  out_of_fuel, ◌>>=◌, add64,
}
use lob_engine.Core.{Timestamp}
use lob_engine.SpscQueue.{DropQueue, push, enqueue, enqueue_all, dequeue}
use lob_engine.Gateway.Events.{OrderMessage, ExchangeEvent, snapshot_taken, SnapshotEvent}
use lob_engine.Gateway.Exchange.{ExchangeManager, process, snapshot_all, has_symbol}

-- What the exchange thread writes to: the engines and the two outgoing rings. `Line` is a
-- serialized event.
pub record Outputs (Symbol Line : Type 0) : Type 0 where
  pub exchange : ExchangeManager Symbol
  pub dispatcher : DropQueue (ExchangeEvent Symbol)
  pub replay : DropQueue Line

unfoldable pub inbound_push {ℓ} : {A : Type ℓ} → ℕ → DropQueue A → A → DropQueue A × Bool
unfolding push
inbound_push bits d msg =
    let (r, pushed) = push bits d.ring msg in
    if pushed then (record d { ring = r }, true) else (record d { drops = add64 d.drops 1 }, false)

module _ {Symbol : Type 0} (same : Symbol → Symbol → Bool) (in_bits : ℕ) where
  -- What the receiver does with one text: it passes over what does not parse and over unknown
  -- symbols.
  unfoldable pub receive :
      {Text : Type 0}
      → (Text → Option (OrderMessage Symbol))
      → ExchangeManager Symbol
      → DropQueue (OrderMessage Symbol)
      → Text
      → DropQueue (OrderMessage Symbol)
  unfolding inbound_push
  receive deserialize_order m inbound raw = elim (deserialize_order raw) [
    | none ↦ inbound
    | some msg ↦
        if has_symbol same m msg.symbol then (inbound_push in_bits inbound msg).0 else inbound
  ]

module _ {Symbol Line : Type 0} (same : Symbol → Symbol → Bool)
    (serialize : ExchangeEvent Symbol → Line) (in_bits out_bits log_bits : ℕ)
    (clock : ℕ → Timestamp) where
  -- `ReplayLogger::log`
  unfoldable pub log : DropQueue Line → ExchangeEvent Symbol → DropQueue Line
  unfolding enqueue
  log d ev = enqueue log_bits d (serialize ev)

  unfoldable pub log_all : DropQueue Line → List (ExchangeEvent Symbol) → DropQueue Line
  unfolding log
  log_all d [] = d
  log_all d (ev ∷ evs) = log_all (log d ev) evs

  -- The body of the loop over the inbound ring. A message takes two readings of the clock, from
  -- the one with number `n` on.
  unfoldable pub handle :
      ℕ → ℕ → Outputs Symbol Line → OrderMessage Symbol → Run (Outputs Symbol Line)
  unfolding log_all
  handle fuel n out msg = do
    (m, evs) ← process same fuel (clock n) (clock (n + 1)) out.exchange msg
    ok (record {
      exchange = m;
      dispatcher = enqueue_all out_bits out.dispatcher evs;
      replay = log_all out.replay evs;
    })

  -- `while (inbound_pop(msg)) ...`, with the number of rounds bounded.
  unfoldable pub exchange_drain :
      ℕ
      → ℕ
      → ℕ
      → DropQueue (OrderMessage Symbol)
      → Outputs Symbol Line
      → Run (DropQueue (OrderMessage Symbol) × Outputs Symbol Line)
  unfolding handle dequeue
  exchange_drain zero fuel n inbound out = out_of_fuel
  exchange_drain (suc rounds) fuel n inbound out =
      let (inbound', popped) = dequeue in_bits inbound in
      elim popped [
        | none ↦ ok (inbound, out)
        | some msg ↦
            handle fuel n out msg >>= (λ out'. exchange_drain rounds fuel (n + 2) inbound' out')
      ]

  -- The snapshots of one interval, each logged and enqueued.
  unfoldable pub publish_snapshots :
      Outputs Symbol Line → List (SnapshotEvent Symbol) → Outputs Symbol Line
  unfolding log
  publish_snapshots out [] = out
  publish_snapshots out (s ∷ ss) =
      publish_snapshots
        (record out {
          replay = log out.replay (snapshot_taken s);
          dispatcher = enqueue out_bits out.dispatcher (snapshot_taken s);
        })
        ss

  unfoldable pub take_snapshots : ℕ → Outputs Symbol Line → Outputs Symbol Line
  unfolding publish_snapshots
  take_snapshots n out = publish_snapshots out (snapshot_all clock n out.exchange)

  -- The messages of a list, one after the other.
  abbrev pub handle_all :
      ℕ → ℕ → Outputs Symbol Line → List (OrderMessage Symbol) → Run (Outputs Symbol Line)
  handle_all fuel n out [] = ok out
  handle_all fuel n out (msg ∷ msgs) =
      handle fuel n out msg >>= (λ out'. handle_all fuel (n + 2) out' msgs)
