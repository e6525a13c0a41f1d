-- ===== src/Gateway/Service/Others.antt =====
-- The steps of the receiver, of the publisher and the writer, and of `stop`, keep what holds of the
-- service.
use lob_engine.Prelude.{
  ◌+◌, ◌≤◌, ◌≡◌, refl, sym, ap, ◌∙◌, Bool, true, false, List, [], ◌∷◌, ◌++◌, length, Bytes, arith,
  append_assoc, append-nil, Option-cases, Bool-cases, inl, inr, same_bytes, length-append,
}
use lob_engine.SpscQueue.Refine.{Holds, push_refines}
use lob_engine.Gateway.Exchange.{has_symbol}
use lob_engine.Gateway.Loop.{receive, inbound_push}
use lob_engine.Gateway.Worker.{Worker, Work}
use lob_engine.Gateway.Worker.Flushes.{IsWorking, Work-IsWorking, Work-running, Work-finished}
use lob_engine.Gateway.Service.{
  Message, Event, ReceiverPc, StopPc, Service, GatewayConfig, publisher_job, writer_job, admitted,
}
use lob_engine.Gateway.Service.Known.{has_left, in_flight, is_over, is_last, IsJoined, IsServing}
use lob_engine.Serialization.{JsonReader, JsonWriter, deserialize_order}

module _ (r : JsonReader) (w : JsonWriter) (cfg : GatewayConfig) (file : Bytes) {s : Service}
    (v : IsServing r w cfg file s) where
  pub receiver_moves :
      (p : ReceiverPc)
      → has_left s.receiver ≡ false
      → (is_over s.exchange ≡ true → in_flight p ≤ in_flight s.receiver)
      → IsServing r w cfg file (record s { receiver = p })
  receiver_moves p before fewer = record {
    msgs = v.msgs;
    inbound = v.inbound;
    told = v.told;
    late = λ h. omega (arith, v.late h, fewer h);
    last = v.last;
    events = v.events;
    publisher = v.publisher;
    lines = v.lines;
    writer = v.writer;
    joined = record {
      receiver_done = λ h. absurd (cc (v.joined.receiver_done h, before));
      exchange_done = v.joined.exchange_done;
      publisher_done = v.joined.publisher_done;
      writer_done = v.joined.writer_done;
      dispatcher_on = v.joined.dispatcher_on;
      replay_on = v.joined.replay_on;
    };
  }

  pub publishes :
      {d : Worker Event _}
      → Work (publisher_job r w cfg) s.dispatcher d
      → IsServing r w cfg file (record s { dispatcher = d })
  publishes m =
      let (events, publisher) = Work-IsWorking (publisher_job r w cfg) [] v.events m v.publisher in
      let active = Work-finished (publisher_job r w cfg) [] m in
      let flag = Work-running (publisher_job r w cfg) [] m in
      record {
        msgs = v.msgs;
        inbound = v.inbound;
        told = v.told;
        late = v.late;
        last = v.last;
        events = events;
        publisher = publisher;
        lines = v.lines;
        writer = v.writer;
        joined = record {
          receiver_done = v.joined.receiver_done;
          exchange_done = v.joined.exchange_done;
          publisher_done = λ h. absurd (cc (v.joined.publisher_done h, active));
          writer_done = v.joined.writer_done;
          dispatcher_on = λ off. v.joined.dispatcher_on (sym flag ∙ off);
          replay_on = v.joined.replay_on;
        };
      }

  pub writes :
      {d : Worker Bytes Bytes}
      → Work (writer_job r w cfg) s.replay d
      → IsServing r w cfg file (record s { replay = d })
  writes m =
      let (lines, writer) = Work-IsWorking (writer_job r w cfg) file v.lines m v.writer in
      let active = Work-finished (writer_job r w cfg) file m in
      let flag = Work-running (writer_job r w cfg) file m in
      record {
        msgs = v.msgs;
        inbound = v.inbound;
        told = v.told;
        late = v.late;
        last = v.last;
        events = v.events;
        publisher = v.publisher;
        lines = lines;
        writer = writer;
        joined = record {
          receiver_done = v.joined.receiver_done;
          exchange_done = v.joined.exchange_done;
          publisher_done = v.joined.publisher_done;
          writer_done = λ h. absurd (cc (v.joined.writer_done h, active));
          dispatcher_on = v.joined.dispatcher_on;
          replay_on = λ off. v.joined.replay_on (sym flag ∙ off);
        };
      }

  -- The parts of the state that `stop` changes.
  pub stops :
      (p : StopPc) (d l : Bool)
      → IsJoined (record s {
        stop = p;
        dispatcher = record s.dispatcher { running = d };
        replay = record s.replay { running = l };
      })
      → (is_last s.exchange ≡ true → s.running ≡ false)
      → ((events : List Event)
          → IsWorking (publisher_job r w cfg) [] s.dispatcher events
          → IsWorking (publisher_job r w cfg) [] (record s.dispatcher { running = d }) events)
      → ((lines : List Bytes)
          → IsWorking (writer_job r w cfg) file s.replay lines
          → IsWorking (writer_job r w cfg) file (record s.replay { running = l }) lines)
      → IsServing r w cfg file (record s {
        stop = p;
        dispatcher = record s.dispatcher { running = d };
        replay = record s.replay { running = l };
      })
  stops p d l joined last publisher writer = record {
    msgs = v.msgs;
    inbound = v.inbound;
    told = v.told;
    late = v.late;
    last = last;
    events = v.events;
    publisher = publisher v.events v.publisher;
    lines = v.lines;
    writer = writer v.lines v.writer;
    joined = joined;
  }

  pub flag_cleared : IsServing r w cfg file (record s { running = false })
  flag_cleared = record {
    msgs = v.msgs;
    inbound = v.inbound;
    told = v.told;
    late = v.late;
    last = λ h. refl;
    events = v.events;
    publisher = v.publisher;
    lines = v.lines;
    writer = v.writer;
    joined = record {
      receiver_done = v.joined.receiver_done;
      exchange_done = v.joined.exchange_done;
      publisher_done = v.joined.publisher_done;
      writer_done = v.joined.writer_done;
      dispatcher_on = v.joined.dispatcher_on;
      replay_on = v.joined.replay_on;
    };
  }

  pub record Received (raw : Bytes) : Type 0 where
    pub msgs : List Message
    pub inbound :
        Holds cfg.inbound_bits
          (receive same_bytes cfg.inbound_bits (deserialize_order r) s.engines s.inbound raw).ring
          msgs
    pub told : s.accepted ++ admitted r w cfg s raw ≡ s.handled ++ msgs
    pub one_more : length msgs ≤ length v.msgs + 1

  unreceived :
      (raw : Bytes)
      → (receive same_bytes cfg.inbound_bits (deserialize_order r) s.engines s.inbound raw).ring
        ≡ s.inbound.ring
      → admitted r w cfg s raw ≡ []
      → Received raw
  unreceived raw e f = record {
    msgs = v.msgs;
    inbound = rw e v.inbound;
    told = rw (f, append-nil s.accepted) v.told;
    one_more = omega arith;
  }

  pub receives : (raw : Bytes) → Received raw
  unfolding receive inbound_push
  receives raw = elim (Option-cases (deserialize_order r raw)) [
    | inl n ↦ unreceived raw (rw (n, receive) refl) (rw (n, admitted) refl)
    | inr (msg, parsed) ↦ elim (Bool-cases (has_symbol same_bytes s.engines msg.symbol)) [
      | inr unknown ↦
          unreceived raw (rw (parsed, receive, unknown) refl) (rw (parsed, admitted, unknown) refl)
      | inl known ↦ elim (push_refines cfg.inbound_bits s.inbound.ring v.msgs msg v.inbound) [
        | inl (full, e) ↦
            unreceived raw (rw (parsed, receive, known, inbound_push, e) refl)
              (rw (parsed, admitted, known, e) refl)
        | inr (free, e, v') ↦ record {
          msgs = v.msgs ++ msg ∷ [];
          inbound = rw (parsed, receive, known, inbound_push, e) v';
          told =
              rw (parsed, admitted, known, e)
                (ap (λ l. l ++ msg ∷ []) v.told ∙ append_assoc s.handled v.msgs (msg ∷ []));
          one_more = omega (arith, length-append v.msgs (msg ∷ []));
        }
      ]
    ]
  ]
