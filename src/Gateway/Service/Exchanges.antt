-- ===== src/Gateway/Service/Exchanges.antt =====
-- The steps of the exchange thread keep what holds of the service.
use lob_engine.Prelude.{
  ◌≤◌, ◌≡◌, refl, sym, ap, ◌∙◌, true, false, none, some, [], ◌∷◌, ◌++◌, length, Bytes, arith,
  append_assoc, Bool-cases, inl, inr,
}
use lob_engine.Core.{Timestamp}
use lob_engine.SpscQueue.{pop}
use lob_engine.SpscQueue.Refine.{pop_refines}
use lob_engine.Gateway.Exchange.{ExchangeManager}
use lob_engine.Gateway.Worker.{offer}
use lob_engine.Gateway.Worker.Flushes.{offer-IsWorking}
use lob_engine.Gateway.Service.{
  Message, Event, ReceiverPc, ExchangePc, Service, GatewayConfig, publisher_job, writer_job,
  log_event, enqueue_event, popped,
}
use lob_engine.Gateway.Service.Known.{in_flight, is_over, is_last, IsServing}
use lob_engine.Serialization.{JsonReader, JsonWriter, serialize_event}

in_flight_small : (p : ReceiverPc) → in_flight p ≤ 1
in_flight_small ReceiverPc.at_test = omega arith
in_flight_small ReceiverPc.in_loop = omega arith
in_flight_small ReceiverPc.finished = omega arith

module _ (r : JsonReader) (w : JsonWriter) (cfg : GatewayConfig) (file : Bytes) {s : Service}
    (v : IsServing r w cfg file s) where
  pub exchange_moves :
      (p : ExchangePc) (engines : ExchangeManager Bytes) (next : Timestamp)
      → is_over s.exchange ≡ false
      → is_over p ≡ false
      → (is_last p ≡ true → s.running ≡ false)
      → IsServing r w cfg file (record s { exchange = p; engines = engines; next_snapshot = next })
  exchange_moves p engines next before after flag = record {
    msgs = v.msgs;
    inbound = v.inbound;
    told = v.told;
    late = λ h. absurd (cc (h, after));
    last = flag;
    events = v.events;
    publisher = v.publisher;
    lines = v.lines;
    writer = v.writer;
    joined = record {
      receiver_done = v.joined.receiver_done;
      exchange_done = λ h. absurd (cc (v.joined.exchange_done h, before));
      publisher_done = v.joined.publisher_done;
      writer_done = v.joined.writer_done;
      dispatcher_on = v.joined.dispatcher_on;
      replay_on = v.joined.replay_on;
    };
  }

  -- Before the exchange thread has finished, `stop` has cleared neither flag.
  pub flags_set :
      is_over s.exchange ≡ false → (s.dispatcher.running ≡ true) × (s.replay.running ≡ true)
  flags_set before = (
    elim (Bool-cases s.dispatcher.running) [
      | inl on ↦ on
      | inr off ↦ absurd (cc (v.joined.exchange_done (v.joined.dispatcher_on off), before))
    ],
    elim (Bool-cases s.replay.running) [
      | inl on ↦ on
      | inr off ↦
          absurd (cc (v.joined.exchange_done (omega (arith, v.joined.replay_on off)), before))
    ],
  )

  -- `replay_.log(ev)` and `dispatcher_.enqueue(ev)`, before the exchange thread has finished
  pub logs :
      (ev : Event)
      → is_over s.exchange ≡ false
      → IsServing r w cfg file (record s { replay = log_event r w cfg s ev })
  unfolding offer
  logs ev before =
      let (lines, writer) =
        offer-IsWorking (writer_job r w cfg) file s.replay v.lines (serialize_event w ev) v.writer
          (flags_set before).1 in
      record {
        msgs = v.msgs;
        inbound = v.inbound;
        told = v.told;
        late = v.late;
        last = v.last;
        events = v.events;
        publisher = v.publisher;
        lines = lines;
        writer = writer;
        joined = record {
          receiver_done = v.joined.receiver_done;
          exchange_done = v.joined.exchange_done;
          publisher_done = v.joined.publisher_done;
          writer_done = λ h. absurd (cc (v.joined.exchange_done (omega (arith, h)), before));
          dispatcher_on = v.joined.dispatcher_on;
          replay_on = λ off. v.joined.replay_on off;
        };
      }

  pub enqueues :
      (ev : Event)
      → is_over s.exchange ≡ false
      → IsServing r w cfg file (record s { dispatcher = enqueue_event r w cfg s ev })
  unfolding offer
  enqueues ev before =
      let (events, publisher) =
        offer-IsWorking (publisher_job r w cfg) [] s.dispatcher v.events ev v.publisher
          (flags_set before).0 in
      record {
        msgs = v.msgs;
        inbound = v.inbound;
        told = v.told;
        late = v.late;
        last = v.last;
        events = events;
        publisher = publisher;
        lines = v.lines;
        writer = v.writer;
        joined = record {
          receiver_done = v.joined.receiver_done;
          exchange_done = v.joined.exchange_done;
          publisher_done = λ h. absurd (cc (v.joined.exchange_done (omega (arith, h)), before));
          writer_done = v.joined.writer_done;
          dispatcher_on = λ off. v.joined.dispatcher_on off;
          replay_on = v.joined.replay_on;
        };
      }

  -- The exchange thread takes a message out of the inbound ring.
  pub pops :
      (msg : Message)
      → is_over s.exchange ≡ false
      → (pop cfg.inbound_bits s.inbound.ring).1 ≡ some msg
      → IsServing r w cfg file
          (record s { inbound = popped r w cfg s; handled = s.handled ++ msg ∷ [] })
  pops msg before got = elim (pop_refines cfg.inbound_bits s.inbound.ring v.msgs v.inbound) [
    | inl (e, done) ↦ absurd (cc (got, ap (λ q. q.1) done))
    | inr (y, ys, e, done, v') ↦
        let same : y ≡ msg = cc (got, done) in
        record {
          msgs = ys;
          inbound = v';
          told =
              v.told
              ∙ ap (λ l. s.handled ++ l) (e ∙ ap (λ z. z ∷ ys) same)
              ∙ sym (append_assoc s.handled (msg ∷ []) ys);
          late = λ h. absurd (cc (h, before));
          last = v.last;
          events = v.events;
          publisher = v.publisher;
          lines = v.lines;
          writer = v.writer;
          joined = record {
            receiver_done = v.joined.receiver_done;
            exchange_done = v.joined.exchange_done;
            publisher_done = v.joined.publisher_done;
            writer_done = v.joined.writer_done;
            dispatcher_on = v.joined.dispatcher_on;
            replay_on = v.joined.replay_on;
          };
        }
  ]

  -- The end of the final drain.
  pub finishes :
      s.exchange ≡ ExchangePc.popping true
      → (pop cfg.inbound_bits s.inbound.ring).1 ≡ none
      → IsServing r w cfg file (record s { exchange = ExchangePc.finished })
  finishes e got = elim (pop_refines cfg.inbound_bits s.inbound.ring v.msgs v.inbound) [
    | inr (y, ys, q, done, v') ↦ absurd (cc (got, done))
    | inl (none_left, done) ↦ record {
      msgs = v.msgs;
      inbound = v.inbound;
      told = v.told;
      late = λ h. omega (arith, ap length none_left, in_flight_small s.receiver);
      last = λ h. v.last (rw e refl);
      events = v.events;
      publisher = v.publisher;
      lines = v.lines;
      writer = v.writer;
      joined = record {
        receiver_done = v.joined.receiver_done;
        exchange_done = λ h. refl;
        publisher_done = v.joined.publisher_done;
        writer_done = v.joined.writer_done;
        dispatcher_on = v.joined.dispatcher_on;
        replay_on = v.joined.replay_on;
      };
    }
  ]
