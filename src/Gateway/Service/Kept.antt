-- ===== src/Gateway/Service/Kept.antt =====
-- Every step of the service of src/gateway/gateway.cpp keeps what holds of it.
use lob_engine.Prelude.{◌+◌, ◌≡◌, refl, ap, ◌∙◌, true, false, [], ◌++◌, Bytes, arith, same_bytes}
use lob_engine.Gateway.Events.{snapshot_taken}
use lob_engine.Gateway.Loop.{receive}
use lob_engine.Gateway.Worker.Flushes.{is_finished, stop-IsWorking}
use lob_engine.Gateway.Service.{
  ReceiverPc, ExchangePc, StopPc, Service, GatewayConfig, publisher_job, writer_job, admitted, Step,
}
use lob_engine.Gateway.Service.Known.{has_left, in_flight, is_over, is_last, stage, IsServing}
use lob_engine.Serialization.{JsonReader, JsonWriter, deserialize_order}
use lob_engine.Gateway.Service.Exchanges.{exchange_moves, logs, enqueues, pops, finishes}
use lob_engine.Gateway.Service.Others.{
  receiver_moves, publishes, writes, stops, flag_cleared, receives,
}

over_last : (p : ExchangePc) → is_over p ≡ true → is_last p ≡ true
over_last ExchangePc.at_test h = cc
over_last (ExchangePc.popping last) h = cc
over_last (ExchangePc.logging last evs todo) h = cc
over_last (ExchangePc.enqueuing last todo) h = cc
over_last ExchangePc.at_clock h = cc
over_last (ExchangePc.snap_logging todo) h = cc
over_last (ExchangePc.snap_enqueuing snap todo) h = cc
over_last ExchangePc.finished h = refl

module _ (r : JsonReader) (w : JsonWriter) (cfg : GatewayConfig) (file : Bytes) where
  receives-IsServing :
      {s : Service} (raw : Bytes)
      → IsServing r w cfg file s
      → s.receiver ≡ ReceiverPc.in_loop
      → IsServing r w cfg file (record s {
        receiver = ReceiverPc.at_test;
        inbound = receive same_bytes cfg.inbound_bits (deserialize_order r) s.engines s.inbound raw;
        accepted = s.accepted ++ admitted r w cfg s raw;
      })
  receives-IsServing {s} raw v e =
      let got = receives r w cfg file v raw in
      record {
        msgs = got.msgs;
        inbound = got.inbound;
        told = got.told;
        late = λ h. omega (arith, got.one_more, v.late h, ap in_flight e);
        last = v.last;
        events = v.events;
        publisher = v.publisher;
        lines = v.lines;
        writer = v.writer;
        joined = record {
          receiver_done = λ h. absurd (cc (v.joined.receiver_done h, ap has_left e));
          exchange_done = v.joined.exchange_done;
          publisher_done = v.joined.publisher_done;
          writer_done = v.joined.writer_done;
          dispatcher_on = v.joined.dispatcher_on;
          replay_on = v.joined.replay_on;
        };
      }

  pub Step-IsServing :
      {s t : Service} → Step r w cfg s t → IsServing r w cfg file s → IsServing r w cfg file t
  Step-IsServing {s} (Step.receiver_enters e on) v =
      receiver_moves r w cfg file v ReceiverPc.in_loop (ap has_left e)
        (λ h. absurd (cc (v.last (over_last s.exchange h), on)))
  Step-IsServing (Step.receiver_leaves e off) v =
      receiver_moves r w cfg file v ReceiverPc.finished (ap has_left e) (λ h. omega arith)
  Step-IsServing (Step.nothing_received e) v =
      receiver_moves r w cfg file v ReceiverPc.at_test (ap has_left e) (λ h. omega arith)
  Step-IsServing (Step.received raw e) v = receives-IsServing raw v e
  Step-IsServing {s} (Step.exchange_enters e on) v =
      exchange_moves r w cfg file v (ExchangePc.popping false) s.engines s.next_snapshot
        (ap is_over e) refl (λ h. cc)
  Step-IsServing {s} (Step.exchange_leaves e off) v =
      exchange_moves r w cfg file v (ExchangePc.popping true) s.engines s.next_snapshot
        (ap is_over e) refl (λ h. off)
  Step-IsServing {s} (Step.processed last msg fuel now ts engines evs e got done) v =
      exchange_moves r w cfg file (pops r w cfg file v msg (ap is_over e) got)
        (ExchangePc.logging last evs evs) engines s.next_snapshot (ap is_over e) refl
        (λ h. v.last (ap is_last e ∙ h))
  Step-IsServing {s} (Step.inbound_empty e got) v =
      exchange_moves r w cfg file v ExchangePc.at_clock s.engines s.next_snapshot (ap is_over e)
        refl (λ h. cc)
  Step-IsServing (Step.finally_empty e got) v = finishes r w cfg file v e got
  Step-IsServing {s} (Step.logged last evs ev todo e) v =
      exchange_moves r w cfg file (logs r w cfg file v ev (ap is_over e))
        (ExchangePc.logging last evs todo) s.engines s.next_snapshot (ap is_over e) refl
        (λ h. v.last (ap is_last e ∙ h))
  Step-IsServing {s} (Step.all_logged last evs e) v =
      exchange_moves r w cfg file v (ExchangePc.enqueuing last evs) s.engines s.next_snapshot
        (ap is_over e) refl (λ h. v.last (ap is_last e ∙ h))
  Step-IsServing {s} (Step.enqueued last ev todo e) v =
      exchange_moves r w cfg file (enqueues r w cfg file v ev (ap is_over e))
        (ExchangePc.enqueuing last todo) s.engines s.next_snapshot (ap is_over e) refl
        (λ h. v.last (ap is_last e ∙ h))
  Step-IsServing {s} (Step.all_enqueued last e) v =
      exchange_moves r w cfg file v (ExchangePc.popping last) s.engines s.next_snapshot
        (ap is_over e) refl (λ h. v.last (ap is_last e ∙ h))
  Step-IsServing {s} (Step.too_early now e early) v =
      exchange_moves r w cfg file v ExchangePc.at_test s.engines s.next_snapshot (ap is_over e) refl
        (λ h. cc)
  Step-IsServing {s} (Step.snapshot_due now clock e due) v =
      exchange_moves r w cfg file v _ s.engines (now + cfg.snapshot_interval_ms) (ap is_over e) refl
        (λ h. cc)
  Step-IsServing {s} (Step.snap_logged snap todo e) v =
      exchange_moves r w cfg file (logs r w cfg file v (snapshot_taken snap) (ap is_over e))
        (ExchangePc.snap_enqueuing snap todo) s.engines s.next_snapshot (ap is_over e) refl
        (λ h. cc)
  Step-IsServing {s} (Step.snap_enqueued snap todo e) v =
      exchange_moves r w cfg file (enqueues r w cfg file v (snapshot_taken snap) (ap is_over e))
        (ExchangePc.snap_logging todo) s.engines s.next_snapshot (ap is_over e) refl (λ h. cc)
  Step-IsServing {s} (Step.snapshots_done e) v =
      exchange_moves r w cfg file v ExchangePc.at_test s.engines s.next_snapshot (ap is_over e) refl
        (λ h. cc)
  Step-IsServing (Step.published m) v = publishes r w cfg file v m
  Step-IsServing (Step.wrote m) v = writes r w cfg file v m
  Step-IsServing {s} (Step.stop_called e) v =
      stops r w cfg file (flag_cleared r w cfg file v) StopPc.joining_receiver s.dispatcher.running
        s.replay.running
        (record {
          receiver_done = λ h. absurd (omega (arith, h));
          exchange_done = λ h. absurd (omega (arith, h));
          publisher_done = λ h. absurd (omega (arith, h));
          writer_done = λ h. absurd (omega (arith, h));
          dispatcher_on = λ h. absurd (omega (arith, v.joined.dispatcher_on h, ap stage e));
          replay_on = λ h. absurd (omega (arith, v.joined.replay_on h, ap stage e));
        })
        (λ h. refl) (λ l k. k) (λ l k. k)
  Step-IsServing {s} (Step.receiver_joined e left) v =
      stops r w cfg file v StopPc.joining_exchange s.dispatcher.running s.replay.running
        (record {
          receiver_done = λ h. ap has_left left;
          exchange_done = λ h. absurd (omega (arith, h));
          publisher_done = λ h. absurd (omega (arith, h));
          writer_done = λ h. absurd (omega (arith, h));
          dispatcher_on = λ h. absurd (omega (arith, v.joined.dispatcher_on h, ap stage e));
          replay_on = λ h. absurd (omega (arith, v.joined.replay_on h, ap stage e));
        })
        v.last (λ l k. k) (λ l k. k)
  Step-IsServing {s} (Step.exchange_joined e over) v =
      stops r w cfg file v StopPc.joining_publisher false s.replay.running
        (record {
          receiver_done = λ h. v.joined.receiver_done (omega (arith, ap stage e));
          exchange_done = λ h. ap is_over over;
          publisher_done = λ h. absurd (omega (arith, h));
          writer_done = λ h. absurd (omega (arith, h));
          dispatcher_on = λ h. omega arith;
          replay_on = λ h. absurd (omega (arith, v.joined.replay_on h, ap stage e));
        })
        v.last (stop-IsWorking (publisher_job r w cfg) [] s.dispatcher) (λ l k. k)
  Step-IsServing {s} (Step.publisher_joined e over) v =
      stops r w cfg file v StopPc.joining_writer s.dispatcher.running false
        (record {
          receiver_done = λ h. v.joined.receiver_done (omega (arith, ap stage e));
          exchange_done = λ h. v.joined.exchange_done (omega (arith, ap stage e));
          publisher_done = λ h. ap is_finished over;
          writer_done = λ h. absurd (omega (arith, h));
          dispatcher_on = λ h. omega arith;
          replay_on = λ h. omega arith;
        })
        v.last (λ l k. k) (stop-IsWorking (writer_job r w cfg) file s.replay)
  Step-IsServing {s} (Step.writer_joined e over) v =
      stops r w cfg file v StopPc.returned s.dispatcher.running s.replay.running
        (record {
          receiver_done = λ h. v.joined.receiver_done (omega (arith, ap stage e));
          exchange_done = λ h. v.joined.exchange_done (omega (arith, ap stage e));
          publisher_done = λ h. v.joined.publisher_done (omega (arith, ap stage e));
          writer_done = λ h. ap is_finished over;
          dispatcher_on = λ h. omega arith;
          replay_on = λ h. omega arith;
        })
        v.last (λ l k. k) (λ l k. k)
