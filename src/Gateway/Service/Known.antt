-- ===== src/Gateway/Service/Known.antt =====
-- What holds of the running service of src/gateway/gateway.cpp between any two steps.
use lob_engine.Prelude.{
  ℕ, ◌+◌, ◌≤◌, ◌<◌, ◌≡◌, refl, Bool, true, false, List, [], ◌++◌, length, Bytes, arith,
}
use lob_engine.SpscQueue.{capacity}
use lob_engine.SpscQueue.Refine.{Holds, initial-Holds}
use lob_engine.Core.{Timestamp}
use lob_engine.Gateway.Exchange.{ExchangeManager}
use lob_engine.Gateway.Worker.Flushes.{IsWorking, is_finished, start_worker-IsWorking}
use lob_engine.Gateway.Service.{
  Message, Event, ReceiverPc, ExchangePc, StopPc, Service, GatewayConfig, publisher_job, writer_job,
  started,
}
use lob_engine.Serialization.{JsonReader, JsonWriter}

abbrev pub has_left : ReceiverPc → Bool
has_left ReceiverPc.finished = true
has_left _ = false

-- The message that the receiver may still push without another look at the flag.
abbrev pub in_flight : ReceiverPc → ℕ
in_flight ReceiverPc.in_loop = 1
in_flight _ = 0

abbrev pub is_over : ExchangePc → Bool
is_over ExchangePc.finished = true
is_over _ = false

-- The exchange thread has left its loop.
abbrev pub is_last : ExchangePc → Bool
is_last (ExchangePc.popping last) = last
is_last (ExchangePc.logging last evs todo) = last
is_last (ExchangePc.enqueuing last todo) = last
is_last ExchangePc.finished = true
is_last _ = false

-- How far `stop` has come.
abbrev pub stage : StopPc → ℕ
stage StopPc.not_called = 0
stage StopPc.joining_receiver = 1
stage StopPc.joining_exchange = 2
stage StopPc.joining_publisher = 3
stage StopPc.joining_writer = 4
stage StopPc.returned = 5

-- What `stop` has waited for, and which flags it has cleared.
pub record IsJoined (s : Service) : Type 0 where
  pub receiver_done : 2 ≤ stage s.stop → has_left s.receiver ≡ true
  pub exchange_done : 3 ≤ stage s.stop → is_over s.exchange ≡ true
  pub publisher_done : 4 ≤ stage s.stop → is_finished s.dispatcher.pc ≡ true
  pub writer_done : 5 ≤ stage s.stop → is_finished s.replay.pc ≡ true
  pub dispatcher_on : s.dispatcher.running ≡ false → 3 ≤ stage s.stop
  pub replay_on : s.replay.running ≡ false → 4 ≤ stage s.stop

module _ (r : JsonReader) (w : JsonWriter) (cfg : GatewayConfig) (file : Bytes) where
  pub record IsServing (s : Service) : Type 0 where
    pub msgs : List Message
    pub inbound : Holds cfg.inbound_bits s.inbound.ring msgs
    pub told : s.accepted ≡ s.handled ++ msgs
    pub late : is_over s.exchange ≡ true → length msgs + in_flight s.receiver ≤ 1
    pub last : is_last s.exchange ≡ true → s.running ≡ false
    pub events : List Event
    pub publisher : IsWorking (publisher_job r w cfg) [] s.dispatcher events
    pub lines : List Bytes
    pub writer : IsWorking (writer_job r w cfg) file s.replay lines
    pub joined : IsJoined s

  pub started-IsServing :
      (messages : ℕ → Message) (filled : ℕ → Event) (engines : ExchangeManager Bytes)
      (now : Timestamp)
      → 0 < capacity cfg.inbound_bits
      → 0 < capacity cfg.outbound_bits
      → 0 < capacity cfg.replay_bits
      → IsServing (started r w cfg messages filled engines file now)
  started-IsServing messages filled engines now a b c = record {
    msgs = [];
    inbound = initial-Holds cfg.inbound_bits messages a;
    told = refl;
    late = λ h. cc;
    last = λ h. cc;
    events = [];
    publisher = start_worker-IsWorking (publisher_job r w cfg) [] filled b;
    lines = [];
    writer = start_worker-IsWorking (writer_job r w cfg) file (λ i. []) c;
    joined = record {
      receiver_done = λ h. absurd (omega (arith, h));
      exchange_done = λ h. absurd (omega (arith, h));
      publisher_done = λ h. absurd (omega (arith, h));
      writer_done = λ h. absurd (omega (arith, h));
      dispatcher_on = λ h. cc;
      replay_on = λ h. cc;
    };
  }
