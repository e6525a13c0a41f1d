-- ===== src/Tests/Service.antt =====
-- Runs of the service.
use lob_engine.Prelude.{
  ◌≤◌, ◌<◌, ◌≡◌, refl, List, [], ◌∷◌, ◌++◌, map, length, Bytes, codes, arith, false,
}
use lob_engine.SpscQueue.{capacity, push, pop, enqueue, next_index, write}
use lob_engine.Engine.State.{initial}
use lob_engine.Engine.Submit.{submit}
use lob_engine.Gateway.Exchange.{
  ExchangeManager, process, has_symbol, find_instrument, snapshot_all, snapshot,
}
use lob_engine.Gateway.Loop.{receive, inbound_push}
use lob_engine.Gateway.Publish.Sends.{lines_text}
use lob_engine.Gateway.Worker.{Work, offer}
use lob_engine.Gateway.Service.{
  Message, Event, StopPc, Service, GatewayConfig, started, Step, Reach, start, ◌|>◌,
}
use lob_engine.Gateway.Service.Shutdown.{service_in_order, stop_flushes}
use lob_engine.Gateway.Service.Late.{late_message_lost}
use lob_engine.Serialization.{serialize_event, deserialize_order}
use lob_engine.Tests.Serialization.{one_message, the_message, no_json, cancel_of_seven}

abbrev pub small : GatewayConfig
small = record {
  pull_endpoint = [];
  pub_endpoint = [];
  replay_log_path = [];
  inbound_bits = 2;
  outbound_bits = 2;
  replay_bits = 2;
  snapshot_interval_ms = 100;
}

abbrev one_stock : ExchangeManager Bytes
one_stock = record { symbol = codes "STOCK_1"; engine = initial } ∷ []

abbrev begun : Service
begun =
    started one_message no_json small (λ i. the_message) (λ i. cancel_of_seven) one_stock
      (codes "old") 0

-- The service takes one snapshot, which is written and then sent while `stop` waits.
abbrev snapshot_run : (s : Service) × Reach one_message no_json small begun s
unfolding pop snapshot_all snapshot offer enqueue next_index write push
snapshot_run = (
  _,
  start
      |> Step.exchange_enters refl refl
      |> Step.inbound_empty refl refl
      |> Step.snapshot_due 100 (λ i. 100) refl refl
      |> Step.snap_logged _ _ refl
      |> Step.snap_enqueued _ _ refl
      |> Step.snapshots_done refl
      |> Step.wrote (Work.enter refl refl)
      |> Step.wrote (Work.take_item _ refl refl)
      |> Step.stop_called refl
      |> Step.exchange_leaves refl refl
      |> Step.finally_empty refl refl
      |> Step.receiver_leaves refl refl
      |> Step.receiver_joined refl refl
      |> Step.exchange_joined refl refl
      |> Step.published (Work.leave refl refl)
      |> Step.published (Work.drain_item _ refl refl)
      |> Step.published (Work.drain_empty refl refl)
      |> Step.publisher_joined refl refl
      |> Step.wrote (Work.find_empty refl refl)
      |> Step.wrote (Work.leave refl refl)
      |> Step.wrote (Work.drain_empty refl refl)
      |> Step.writer_joined refl refl,
)

stop_flushes_example :
    (snapshot_run.0.dispatcher.out ≡ map (serialize_event no_json) snapshot_run.0.dispatcher.given)
    × (snapshot_run.0.replay.out ≡ codes "old" ++ lines_text snapshot_run.0.replay.given)
    × (left : List Message) × (snapshot_run.0.accepted ≡ snapshot_run.0.handled ++ left)
    × (length left ≤ 1)
unfolding pop snapshot_all snapshot offer enqueue next_index write push
stop_flushes_example =
    stop_flushes one_message no_json small (λ i. the_message) (λ i. cancel_of_seven) one_stock
      (codes "old") 0 (omega arith) (omega arith) (omega arith) snapshot_run.1 refl

snapshot_sent : length snapshot_run.0.dispatcher.out ≡ 1
unfolding pop snapshot_all snapshot offer enqueue next_index write push serialize_event
snapshot_sent = refl

-- A new order is received, processed, and its first event logged.
abbrev order_run : (s : Service) × Reach one_message no_json small begun s
unfolding pop offer enqueue next_index write push receive inbound_push has_symbol find_instrument
    process submit deserialize_order
order_run = (
  _,
  start
      |> Step.receiver_enters refl refl
      |> Step.received (codes "{}") refl
      |> Step.exchange_enters refl refl
      |> Step.processed false the_message 9 50 51 _ _ refl refl refl
      |> Step.logged false _ _ _ refl,
)

service_in_order_example :
    ((left : List Message) × (order_run.0.accepted ≡ order_run.0.handled ++ left)
      × (length left < capacity 2))
    × ((sent : List Event) × (left : List Event) × (order_run.0.dispatcher.given ≡ sent ++ left)
        × (order_run.0.dispatcher.out ≡ map (serialize_event no_json) sent)
        × (length left < capacity 2))
    × ((written : List Bytes) × (left : List Bytes) × (order_run.0.replay.given ≡ written ++ left)
        × (order_run.0.replay.out ≡ codes "old" ++ lines_text written)
        × (length left < capacity 2))
service_in_order_example =
    service_in_order one_message no_json small (λ i. the_message) (λ i. cancel_of_seven) one_stock
      (codes "old") 0 (omega arith) (omega arith) (omega arith) order_run.1

late_message_lost_example :
    (s : Service) × Reach one_message no_json small begun s
    × (s.stop ≡ StopPc.returned)
    × (s.accepted ≡ the_message ∷ [])
    × (s.handled ≡ [])
unfolding deserialize_order has_symbol find_instrument
late_message_lost_example =
    late_message_lost one_message no_json small (λ i. the_message) (λ i. cancel_of_seven) one_stock
      (codes "old") 0 (codes "{}") the_message (omega arith) refl refl
