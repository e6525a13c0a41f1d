-- ===== src/Tests/Serialization.antt =====
-- Messages in and out, over JSON libraries for the tests.
use lob_engine.Prelude.{
  ◌≡◌, ◌↔◌, true, some, [], pos, length, Bytes, codes, same_bytes, if◌then◌else◌,
}
use lob_engine.Core.{Side, OrderType}
use lob_engine.Gateway.Events.{OrderMessage, OrderAction, ExchangeEvent}
use lob_engine.Serialization.{JsonReader, JsonWriter, deserialize_order, serialize_event}
use lob_engine.Serialization.Reads.{Describes, deserialize_order_iff}
use lob_engine.Serialization.Topics.{
  Topic, topic_text, topic_of, begins_with, serialize_event_subscribed,
}

-- Every text is the document of one message.
abbrev pub one_message : JsonReader
one_message = record {
  Json = Bytes;
  parse = λ t. some t;
  at_u64 = λ j key. some (length key);
  at_string = λ j key. some (
      if same_bytes key (codes "action")
      then codes "NEW_ORDER"
      else if same_bytes key (codes "side")
      then codes "SELL"
      else if same_bytes key (codes "type")
      then codes "STOP_LIMIT"
      else codes "STOCK_1");
  value_i64 = λ j key. some (pos 100);
  value_u64 = λ j key. some 0;
}

abbrev pub the_message : OrderMessage Bytes
the_message = record {
  order_id = 8;
  client_id = 9;
  symbol = codes "STOCK_1";
  side = Side.sell;
  type = OrderType.stop_limit;
  quantity = 8;
  price = pos 100;
  stop_price = pos 100;
  peak_qty = 0;
  timestamp = 0;
  action = OrderAction.new_order;
}

deserialize_order_iff_example : (deserialize_order one_message (codes "{}") ≡ some the_message) ↔ (
    (j : Bytes) × (one_message.parse (codes "{}") ≡ some j) × Describes one_message j the_message)
deserialize_order_iff_example = deserialize_order_iff one_message (codes "{}") the_message

abbrev pub no_json : JsonWriter
no_json = record {
  Json = Bytes;
  number = λ n. [];
  signed = λ z. [];
  text = λ t. t;
  array = λ js. [];
  object = λ fields. codes "{}";
  dump = λ j. j;
}

abbrev pub cancel_of_seven : ExchangeEvent Bytes
cancel_of_seven =
    ExchangeEvent.canceled
      (record { timestamp = 1; symbol = codes "STOCK_1"; order_id = 7; remaining_qty = 3 })

serialize_event_subscribed_example :
    (begins_with (topic_text Topic.canceled) (serialize_event no_json cancel_of_seven) ≡ true)
    ↔ (topic_of cancel_of_seven ≡ Topic.canceled)
serialize_event_subscribed_example =
    serialize_event_subscribed no_json cancel_of_seven Topic.canceled
