-- ===== src/Gateway/Routing.antt =====
-- `ExchangeManager::process`: which engines a message changes.
use lob_engine.Prelude.{
  ℕ, ◌+◌, ◌<◌, ◌≡◌, refl, sym, subst, ◌∙◌, ◌↔◌, Bool, true, false, some, [], ◌∷◌, arith, ok,
  Bool-cases, Option-cases, inl, inr,
}
use lob_engine.Core.{Timestamp, CancelOrderEvent}
use lob_engine.Engine.State.{MatchResult, Engine, no_result}
use lob_engine.Engine.Submit.{submit, dispatch}
use lob_engine.Engine.Weight.{engine_weight}
use lob_engine.Engine.Valid.{Frame, one, ◌⊕◌, Valid}
use lob_engine.Engine.Stops.{Lands}
use lob_engine.Engine.Total.{process_new_order-Lands, anyone-Submits, anyone-Waiting}
use lob_engine.Engine.Cancels.{process_cancel-Traced}
use lob_engine.Engine.Trace.{weaken-Traced, anyone}
use lob_engine.Engine.History.{process_cancel-Valid, event_load, counted, counted-Valid}
use lob_engine.Gateway.Events.{OrderAction, OrderMessage}
use lob_engine.Gateway.Exchange.{
  ExchangeManager, order_of, find_instrument, put_engine, process, event_of, event_for,
  translate_result, has_symbol,
}

module _ {Symbol : Type 0} (same : Symbol → Symbol → Bool)
    (same_iff : (a b : Symbol) → (same a b ≡ true) ↔ (a ≡ b)) where
  find_instrument-put_engine :
      (s : Symbol) (e e0 : Engine) (m : ExchangeManager Symbol)
      → find_instrument same s m ≡ some e0
      → find_instrument same s (put_engine same s e m) ≡ some e
  unfolding find_instrument put_engine
  find_instrument-put_engine s e e0 [] h = absurd (cc h)
  find_instrument-put_engine s e e0 (i ∷ is) h = elim (Bool-cases (same i.symbol s)) [
    | inl t ↦ rw t (rw t refl)
    | inr t ↦ rw t (rw t (find_instrument-put_engine s e e0 is (sym (rw t refl) ∙ h)))
  ]

  two_symbols : (a b c : Symbol) → same b c ≡ false → same a b ≡ true → same a c ≡ false
  two_symbols a b c n t = subst (λ x. same x c ≡ false) (sym ((same_iff a b).0 t)) n

  put_engine-other :
      (s s' : Symbol) (e : Engine) (m : ExchangeManager Symbol)
      → same s s' ≡ false
      → find_instrument same s' (put_engine same s e m) ≡ find_instrument same s' m
  unfolding find_instrument put_engine
  put_engine-other s s' e [] n = refl
  put_engine-other s s' e (i ∷ is) n = elim (Bool-cases (same i.symbol s)) [
    | inl t ↦ rw t (rw (two_symbols i.symbol s s' n t) refl)
    | inr t ↦ rw (t, put_engine-other s s' e is n) refl
  ]

  -- The ids that must be unused for a message: that of a new order, and none for a cancel.
  abbrev pub unused_for : OrderAction → Frame → OrderMessage Symbol → Frame
  unused_for OrderAction.new_order h msg = h ⊕ one msg.order_id
  unused_for OrderAction.cancel_order h msg = h

  event_for-Lands :
      (action : OrderAction) (fuel : ℕ) (h : Frame) (now : Timestamp) (e : Engine)
      (msg : OrderMessage Symbol)
      → Valid (unused_for action h msg) e
      → engine_weight e + event_load (event_for action now msg) + 1 < fuel
      → Lands false anyone h
          (counted e)
          no_result
          (engine_weight e + event_load (event_for action now msg))
          (submit fuel e (event_for action now msg))
  unfolding submit dispatch counted
  event_for-Lands OrderAction.new_order fuel h now e msg v w =
      let (m, done, v', w', t) =
        process_new_order-Lands anyone fuel (counted e) h (order_of now msg) (counted-Valid e v) w
          (anyone-Submits (order_of now msg)) (anyone-Waiting e.pending_stops) in
      (m, done, v', w', weaken-Traced (λ n. absurd (cc n)) t)
  event_for-Lands OrderAction.cancel_order fuel h now e msg v w =
      let c : CancelOrderEvent = record { order_id = msg.order_id; timestamp = msg.timestamp } in
      let (v1, w1) = process_cancel-Valid (counted e) c (counted-Valid e v) in
      (_, refl, v1, omega (arith, w1), process_cancel-Traced anyone (counted e) c tt)

  -- A message for a known symbol, a new order whose id is unused in the engine of that symbol or a
  -- cancel of any id, runs through on enough fuel: the submission to that engine gives an engine and a result, the engine
  -- is valid and takes the place of the old one, the events are the translation of the result, and
  -- the engines of all other symbols are as before.
  pub process_routes :
      (fuel : ℕ) (now ts : Timestamp) (h : Frame) (m : ExchangeManager Symbol)
      (msg : OrderMessage Symbol) (e : Engine)
      → find_instrument same msg.symbol m ≡ some e
      → Valid (unused_for msg.action h msg) e
      → engine_weight e + event_load (event_of now msg) + 1 < fuel
      → (r : Engine × MatchResult) × (m' : ExchangeManager Symbol) × (submit fuel e
            (event_of now msg)
          ≡ ok r)
        × (process same fuel now ts m msg ≡ ok (m', translate_result ts msg r.1 r.0.book))
        × (find_instrument same msg.symbol m' ≡ some r.0)
        × Valid h r.0
        × ((s : Symbol)
            → same msg.symbol s ≡ false
            → find_instrument same s m' ≡ find_instrument same s m)
  unfolding process event_of
  process_routes fuel now ts h m msg e known v w =
      let (r, done, v', _, _) = event_for-Lands msg.action fuel h now e msg v w in
      (
        r,
        put_engine same msg.symbol r.0 m,
        done,
        rw (known, process) (rw done refl),
        find_instrument-put_engine msg.symbol r.0 e m known,
        v',
        λ s n. put_engine-other msg.symbol s r.0 m n,
      )

  -- A message for an unknown symbol changes no engine and gives no event.
  pub process_unknown :
      (fuel : ℕ) (now ts : Timestamp) (m : ExchangeManager Symbol) (msg : OrderMessage Symbol)
      → has_symbol same m msg.symbol ≡ false
      → process same fuel now ts m msg ≡ ok (m, [])
  unfolding process has_symbol
  process_unknown fuel now ts m msg h = elim (Option-cases (find_instrument same msg.symbol m)) [
    | inl n ↦ rw (n, process) refl
    | inr (e, n) ↦
        let known : has_symbol same m msg.symbol ≡ true = rw (n, has_symbol) refl in
        absurd (cc (h, known))
  ]
