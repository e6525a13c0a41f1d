-- ===== src/Gateway/Service/Shutdown.antt =====
-- What the service of src/gateway/gateway.cpp has delivered, at any time and after `stop`.
use lob_engine.Prelude.{ℕ, ◌≤◌, ◌<◌, ◌≡◌, ap, ◌∙◌, List, [], ◌++◌, map, length, Bytes, arith}
use lob_engine.Core.{Timestamp}
use lob_engine.SpscQueue.{capacity}
use lob_engine.Gateway.Exchange.{ExchangeManager}
use lob_engine.Gateway.Publish.Sends.{send_all, write_all, lines_text}
use lob_engine.Gateway.Worker.Flushes.{flushed}
use lob_engine.Gateway.Service.{
  Message, Event, StopPc, Service, GatewayConfig, publisher_job, writer_job, started, Reach, start,
  later,
}
use lob_engine.Gateway.Service.Known.{stage, IsServing, started-IsServing}
use lob_engine.Gateway.Service.Kept.{Step-IsServing}
use lob_engine.Serialization.{JsonReader, JsonWriter, serialize_event}

module _ (r : JsonReader) (w : JsonWriter) (cfg : GatewayConfig) where
  Reach-IsServing :
      {file : Bytes} {s t : Service}
      → Reach r w cfg s t
      → IsServing r w cfg file s
      → IsServing r w cfg file t
  Reach-IsServing start v = v
  Reach-IsServing {file} (later q m) v = Step-IsServing r w cfg file m (Reach-IsServing q v)

  module _ (messages : ℕ → Message) (events : ℕ → Event) (engines : ExchangeManager Bytes)
      (file : Bytes) (now : Timestamp) (a : 0 < capacity cfg.inbound_bits)
      (b : 0 < capacity cfg.outbound_bits) (c : 0 < capacity cfg.replay_bits) {s : Service}
      (q : Reach r w cfg (started r w cfg messages events engines file now) s) where
    serving : IsServing r w cfg file s
    serving = Reach-IsServing q (started-IsServing r w cfg file messages events engines now a b c)

    -- In every order of the steps of the threads, at every moment: the messages that the exchange
    -- thread has processed are the first of those that the inbound ring accepted, in order; what was
    -- handed to the socket is the serialization of the first of the events that the dispatcher's
    -- ring took, in order; and the replay file holds the first of the lines that the logger's ring
    -- took, in order, each with its end. No more are outstanding than fit into the rings.
    pub service_in_order :
        ((left : List Message) × (s.accepted ≡ s.handled ++ left)
          × (length left < capacity cfg.inbound_bits))
        × ((sent : List Event) × (left : List Event) × (s.dispatcher.given ≡ sent ++ left)
            × (s.dispatcher.out ≡ map (serialize_event w) sent)
            × (length left < capacity cfg.outbound_bits))
        × ((written : List Bytes) × (left : List Bytes) × (s.replay.given ≡ written ++ left)
            × (s.replay.out ≡ file ++ lines_text written)
            × (length left < capacity cfg.replay_bits))
    service_in_order =
        let v = serving in
        (
          (v.msgs, v.told, v.inbound.room),
          (
            s.dispatcher.taken,
            v.events,
            v.publisher.told,
            v.publisher.emitted ∙ send_all w cfg.outbound_bits [] s.dispatcher.taken,
            v.publisher.holds.room,
          ),
          (
            s.replay.taken,
            v.lines,
            v.writer.told,
            v.writer.emitted ∙ write_all cfg.replay_bits file s.replay.taken,
            v.writer.holds.room,
          ),
        )

    -- When `stop` has returned, every event that the dispatcher's ring took has been handed to the
    -- socket, serialized and in order, every line that the logger's ring took is in the file, and at
    -- most one message that the inbound ring accepted has not been processed.
    pub stop_flushes :
        s.stop ≡ StopPc.returned
        → (s.dispatcher.out ≡ map (serialize_event w) s.dispatcher.given)
          × (s.replay.out ≡ file ++ lines_text s.replay.given)
          × (left : List Message) × (s.accepted ≡ s.handled ++ left)
          × (length left ≤ 1)
    stop_flushes e =
        let v = serving in
        let at : stage s.stop ≡ 5 = ap stage e in
        let sent =
          flushed (publisher_job r w cfg) [] v.events v.publisher
            (v.joined.publisher_done (omega (arith, at))) in
        let written =
          flushed (writer_job r w cfg) file v.lines v.writer
            (v.joined.writer_done (omega (arith, at))) in
        (
          sent.1 ∙ send_all w cfg.outbound_bits [] s.dispatcher.given,
          written.1 ∙ write_all cfg.replay_bits file s.replay.given,
          v.msgs,
          v.told,
          omega (arith, v.late (v.joined.exchange_done (omega (arith, at)))),
        )
