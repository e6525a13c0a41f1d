-- ===== src/Gateway/Service.antt =====
-- The running service of src/gateway/gateway.cpp: `start`, `stop`, `receiver_loop` and
-- `exchange_loop`, with the publisher and the replay writer, as the steps of five threads in any
-- order. An operation on a ring is one step. Parameters: the JSON library, the clock's readings, and
-- the texts that arrive. A call of `process` that faults has no step.
pub mod Known
pub mod Exchanges
pub mod Others
pub mod Kept
pub mod Shutdown
pub mod Late
use lob_engine.Prelude.{
  ℕ, ◌+◌, ◌≡◌, Bool, true, false, Option, none, some, List, [], ◌∷◌, ◌++◌, if◌then◌else◌, leb, Run,
  ok, Bytes, same_bytes,
}
use lob_engine.Core.{Timestamp}
use lob_engine.SpscQueue.{DropQueue, push, pop}
use lob_engine.Gateway.Events.{OrderMessage, ExchangeEvent, SnapshotEvent, snapshot_taken}
use lob_engine.Gateway.Exchange.{ExchangeManager, process, snapshot_all, has_symbol}
use lob_engine.Gateway.Loop.{receive}
use lob_engine.Gateway.Publish.{send, write_line}
use lob_engine.Gateway.Worker.{Worker, WorkerPc, Job, start_worker, offer, Work}
use lob_engine.Serialization.{JsonReader, JsonWriter, serialize_event, deserialize_order}

abbrev pub Message : Type 0
Message = OrderMessage Bytes

abbrev pub Event : Type 0
Event = ExchangeEvent Bytes

-- Where `receiver_loop` stands.
pub data ReceiverPc : Type 0 where
  at_test : ReceiverPc  -- before `running_.load`
  in_loop : ReceiverPc  -- before `zmq_msg_recv`
  finished : ReceiverPc

-- Where `exchange_loop` stands; `last` is true in the final drain.
pub data ExchangePc : Type 0 where
  at_test : ExchangePc
  popping : (last : Bool) → ExchangePc
  logging : (last : Bool) (evs todo : List Event) → ExchangePc
  enqueuing : (last : Bool) (todo : List Event) → ExchangePc
  at_clock : ExchangePc
  snap_logging : (todo : List (SnapshotEvent Bytes)) → ExchangePc
  snap_enqueuing : (snap : SnapshotEvent Bytes) (todo : List (SnapshotEvent Bytes)) → ExchangePc
  finished : ExchangePc

-- Where `Gateway::stop` stands, called once.
pub data StopPc : Type 0 where
  not_called : StopPc
  joining_receiver : StopPc
  joining_exchange : StopPc
  joining_publisher : StopPc  -- in `dispatcher_.stop()`, its flag cleared
  joining_writer : StopPc  -- in `replay_.stop()`, its flag cleared
  returned : StopPc

-- `accepted` and `handled` record the messages that went into the inbound ring and came out of it.
pub record Service : Type 0 where
  pub running : Bool
  pub stop : StopPc
  pub receiver : ReceiverPc
  pub exchange : ExchangePc
  pub inbound : DropQueue Message
  pub engines : ExchangeManager Bytes
  pub next_snapshot : Timestamp
  pub dispatcher : Worker Event (List Bytes)
  pub replay : Worker Bytes Bytes
  pub accepted : List Message
  pub handled : List Message

-- `GatewayConfig`, with the queue capacities as powers of two; `engine_config` is left out, since the
-- engines do not read it.
pub record GatewayConfig : Type 0 where
  pub pull_endpoint : Bytes
  pub pub_endpoint : Bytes
  pub replay_log_path : Bytes
  pub inbound_bits : ℕ
  pub outbound_bits : ℕ
  pub replay_bits : ℕ
  pub snapshot_interval_ms : ℕ

module _ (r : JsonReader) (w : JsonWriter) (cfg : GatewayConfig) where
  abbrev pub publisher_job : Job Event (List Bytes)
  publisher_job = record { bits = cfg.outbound_bits; emit = send w; tests_each = true }

  abbrev pub writer_job : Job Bytes Bytes
  writer_job = record { bits = cfg.replay_bits; emit = write_line; tests_each = false }

  -- `replay_.log(ev)`
  abbrev pub log_event : Service → Event → Worker Bytes Bytes
  log_event s ev = offer writer_job s.replay (serialize_event w ev)

  -- `dispatcher_.enqueue(ev)`
  abbrev pub enqueue_event : Service → Event → Worker Event (List Bytes)
  enqueue_event s ev = offer publisher_job s.dispatcher ev

  -- What a text adds to the accepted messages: `inbound_push` takes it if it parses, its symbol is
  -- known and there is room.
  abbrev pub admitted : Service → Bytes → List Message
  admitted s raw = elim (deserialize_order r raw) [
    | none ↦ []
    | some msg ↦
        if has_symbol same_bytes s.engines msg.symbol
        then if (push cfg.inbound_bits s.inbound.ring msg).1 then (msg ∷ []) else []
        else []
  ]

  abbrev pub popped : Service → DropQueue Message
  popped s = record s.inbound { ring = (pop cfg.inbound_bits s.inbound.ring).0 }

  -- The state after `start`.
  abbrev pub started :
      (ℕ → Message) → (ℕ → Event) → ExchangeManager Bytes → Bytes → Timestamp → Service
  started messages events engines file now = record {
    running = true;
    stop = StopPc.not_called;
    receiver = ReceiverPc.at_test;
    exchange = ExchangePc.at_test;
    inbound = record { ring = record { head = 0; tail = 0; buffer = messages }; drops = 0 };
    engines = engines;
    next_snapshot = now + cfg.snapshot_interval_ms;
    dispatcher = start_worker events [];
    replay = start_worker (λ i. []) file;
    accepted = [];
    handled = [];
  }

  pub data Step (s : Service) : Service → Type 0 where
    -- receiver_loop
    receiver_enters :
        s.receiver ≡ ReceiverPc.at_test
        → s.running ≡ true
        → Step s (record s { receiver = ReceiverPc.in_loop })
    receiver_leaves :
        s.receiver ≡ ReceiverPc.at_test
        → s.running ≡ false
        → Step s (record s { receiver = ReceiverPc.finished })
    nothing_received :
        s.receiver ≡ ReceiverPc.in_loop → Step s (record s { receiver = ReceiverPc.at_test })
    received :
        (raw : Bytes)
        → s.receiver ≡ ReceiverPc.in_loop
        → Step s (record s {
          receiver = ReceiverPc.at_test;
          inbound =
              receive same_bytes cfg.inbound_bits (deserialize_order r) s.engines s.inbound raw;
          accepted = s.accepted ++ admitted s raw;
        })
    -- exchange_loop
    exchange_enters :
        s.exchange ≡ ExchangePc.at_test
        → s.running ≡ true
        → Step s (record s { exchange = ExchangePc.popping false })
    exchange_leaves :
        s.exchange ≡ ExchangePc.at_test
        → s.running ≡ false
        → Step s (record s { exchange = ExchangePc.popping true })
    processed :
        (last : Bool) (msg : Message) (fuel : ℕ) (now ts : Timestamp)
        (engines : ExchangeManager Bytes) (evs : List Event)
        → s.exchange ≡ ExchangePc.popping last
        → (pop cfg.inbound_bits s.inbound.ring).1 ≡ some msg
        → process same_bytes fuel now ts s.engines msg ≡ ok (engines, evs)
        → Step s (record s {
          exchange = ExchangePc.logging last evs evs;
          inbound = popped s;
          engines = engines;
          handled = s.handled ++ msg ∷ [];
        })
    inbound_empty :
        s.exchange ≡ ExchangePc.popping false
        → (pop cfg.inbound_bits s.inbound.ring).1 ≡ none
        → Step s (record s { exchange = ExchangePc.at_clock })
    finally_empty :
        s.exchange ≡ ExchangePc.popping true
        → (pop cfg.inbound_bits s.inbound.ring).1 ≡ none
        → Step s (record s { exchange = ExchangePc.finished })
    logged :
        (last : Bool) (evs : List Event) (ev : Event) (todo : List Event)
        → s.exchange ≡ ExchangePc.logging last evs (ev ∷ todo)
        → Step s (record s { exchange = ExchangePc.logging last evs todo; replay = log_event s ev })
    all_logged :
        (last : Bool) (evs : List Event)
        → s.exchange ≡ ExchangePc.logging last evs []
        → Step s (record s { exchange = ExchangePc.enqueuing last evs })
    enqueued :
        (last : Bool) (ev : Event) (todo : List Event)
        → s.exchange ≡ ExchangePc.enqueuing last (ev ∷ todo)
        → Step s (record s {
          exchange = ExchangePc.enqueuing last todo;
          dispatcher = enqueue_event s ev;
        })
    all_enqueued :
        (last : Bool)
        → s.exchange ≡ ExchangePc.enqueuing last []
        → Step s (record s { exchange = ExchangePc.popping last })
    too_early :
        (now : Timestamp)
        → s.exchange ≡ ExchangePc.at_clock
        → leb s.next_snapshot now ≡ false
        → Step s (record s { exchange = ExchangePc.at_test })
    snapshot_due :
        (now : Timestamp) (clock : ℕ → Timestamp)
        → s.exchange ≡ ExchangePc.at_clock
        → leb s.next_snapshot now ≡ true
        → Step s (record s {
          exchange = ExchangePc.snap_logging (snapshot_all clock 0 s.engines);
          next_snapshot = now + cfg.snapshot_interval_ms;
        })
    snap_logged :
        (snap : SnapshotEvent Bytes) (todo : List (SnapshotEvent Bytes))
        → s.exchange ≡ ExchangePc.snap_logging (snap ∷ todo)
        → Step s (record s {
          exchange = ExchangePc.snap_enqueuing snap todo;
          replay = log_event s (snapshot_taken snap);
        })
    snap_enqueued :
        (snap : SnapshotEvent Bytes) (todo : List (SnapshotEvent Bytes))
        → s.exchange ≡ ExchangePc.snap_enqueuing snap todo
        → Step s (record s {
          exchange = ExchangePc.snap_logging todo;
          dispatcher = enqueue_event s (snapshot_taken snap);
        })
    snapshots_done :
        s.exchange ≡ ExchangePc.snap_logging []
        → Step s (record s { exchange = ExchangePc.at_test })
    -- publisher_loop and writer_loop
    published :
        {d : Worker Event (List Bytes)}
        → Work publisher_job s.dispatcher d
        → Step s (record s { dispatcher = d })
    wrote : {d : Worker Bytes Bytes} → Work writer_job s.replay d → Step s (record s { replay = d })
    -- stop
    stop_called :
        s.stop ≡ StopPc.not_called
        → Step s (record s { running = false; stop = StopPc.joining_receiver })
    receiver_joined :
        s.stop ≡ StopPc.joining_receiver
        → s.receiver ≡ ReceiverPc.finished
        → Step s (record s { stop = StopPc.joining_exchange })
    exchange_joined :
        s.stop ≡ StopPc.joining_exchange
        → s.exchange ≡ ExchangePc.finished
        → Step s (record s {
          stop = StopPc.joining_publisher;
          dispatcher = record s.dispatcher { running = false };
        })
    publisher_joined :
        s.stop ≡ StopPc.joining_publisher
        → s.dispatcher.pc ≡ WorkerPc.finished
        → Step s (record s {
          stop = StopPc.joining_writer;
          replay = record s.replay { running = false };
        })
    writer_joined :
        s.stop ≡ StopPc.joining_writer
        → s.replay.pc ≡ WorkerPc.finished
        → Step s (record s { stop = StopPc.returned })

  pub data Reach (s : Service) : Service → Type 0 where
    start : Reach s s
    later : {t u : Service} → Reach s t → Step t u → Reach s u

infixl 5 ◌|>◌
-- One more step, for runs that are written out.
abbrev pub ◌|>◌ :
    {r : JsonReader} {w : JsonWriter} {cfg : GatewayConfig} {s t u : Service}
    → Reach r w cfg s t
    → Step r w cfg t u
    → Reach r w cfg s u
q |> m = Reach.later q m
