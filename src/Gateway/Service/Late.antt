-- ===== src/Gateway/Service/Late.antt =====
-- A message that arrives while `stop` of src/gateway/gateway.cpp is called.
use lob_engine.Prelude.{ℕ, ◌<◌, ◌≡◌, refl, true, some, [], ◌∷◌, Bytes, arith, same_bytes, inl, inr}
use lob_engine.Core.{Timestamp}
use lob_engine.SpscQueue.{capacity, push, pop}
use lob_engine.SpscQueue.Refine.{push_refines, initial-Holds}
use lob_engine.Gateway.Exchange.{ExchangeManager, has_symbol}
use lob_engine.Gateway.Worker.{Work}
use lob_engine.Gateway.Service.{
  Message, Event, StopPc, Service, GatewayConfig, started, Step, Reach, start, ◌|>◌, admitted,
}
use lob_engine.Serialization.{JsonReader, JsonWriter, deserialize_order}

-- The receiver passes its test of the flag; `stop` clears the flag; the exchange thread sees it,
-- drains the empty ring and ends; then the receiver takes a valid message for a known symbol, and
-- pushes it. `stop` returns with this message accepted and never processed.
pub late_message_lost :
    (r : JsonReader) (w : JsonWriter) (cfg : GatewayConfig) (messages : ℕ → Message)
    (events : ℕ → Event) (engines : ExchangeManager Bytes) (file : Bytes) (now : Timestamp)
    (raw : Bytes) (msg : Message)
    → 1 < capacity cfg.inbound_bits
    → deserialize_order r raw ≡ some msg
    → has_symbol same_bytes engines msg.symbol ≡ true
    → (s : Service) × Reach r w cfg (started r w cfg messages events engines file now) s
      × (s.stop ≡ StopPc.returned)
      × (s.accepted ≡ msg ∷ [])
      × (s.handled ≡ [])
unfolding pop
late_message_lost r w cfg messages events engines file now raw msg room parsed known =
    let begun = started r w cfg messages events engines file now in
    let taken : (push cfg.inbound_bits begun.inbound.ring msg).1 ≡ true =
      elim (push_refines cfg.inbound_bits begun.inbound.ring [] msg
        (initial-Holds cfg.inbound_bits messages (omega (arith, room)))) [
          | inl (full, e) ↦ absurd (omega (arith, full, room))
          | inr (free, e, v) ↦ e
        ] in
    (
      _,
      start
          |> Step.receiver_enters refl refl
          |> Step.stop_called refl
          |> Step.exchange_leaves refl refl
          |> Step.finally_empty refl refl
          |> Step.received raw refl
          |> Step.receiver_leaves refl refl
          |> Step.receiver_joined refl refl
          |> Step.exchange_joined refl refl
          |> Step.published (Work.leave refl refl)
          |> Step.published (Work.drain_empty refl refl)
          |> Step.publisher_joined refl refl
          |> Step.wrote (Work.leave refl refl)
          |> Step.wrote (Work.drain_empty refl refl)
          |> Step.writer_joined refl refl,
      refl,
      rw (admitted, parsed, known, taken) refl,
      refl,
    )
