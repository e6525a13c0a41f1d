-- ===== src/Gateway/Publish.antt =====
-- What leaves the rings: the last loop of src/gateway/event_dispatcher.cpp (`publisher_loop`, once
-- the flag has flipped) and `drain` of src/gateway/replay_logger.cpp. What is handed to the socket is
-- a list of messages, what is written to the file its bytes.
pub mod Sends
use lob_engine.Prelude.{
  is_empty, ℕ, zero, suc, none, some, List, [], ◌∷◌, ◌++◌, if◌then◌else◌, Run, ok, out_of_fuel,
  Bytes,
}
use lob_engine.SpscQueue.{DropQueue, dequeue}
use lob_engine.Gateway.Events.{ExchangeEvent}
use lob_engine.Serialization.{JsonWriter, serialize_event}

-- A loop that empties a ring, at most so many rounds, and does something with each item.
module _ {A S : Type 0} (bits : ℕ) (emit : S → A → S) where
  unfoldable pub drain_ring : ℕ → DropQueue A → S → Run (DropQueue A × S)
  unfolding dequeue
  drain_ring zero d s = out_of_fuel
  drain_ring (suc rounds) d s =
      let (d', popped) = dequeue bits d in
      elim popped [ none ↦ ok (d, s) | some item ↦ drain_ring rounds d' (emit s item) ]

-- `if (!msg.empty()) zmq_send(...)`
abbrev pub send : JsonWriter → List Bytes → ExchangeEvent Bytes → List Bytes
send w sent ev = let msg = serialize_event w ev in if is_empty msg then sent else (sent ++ msg ∷ [])

unfoldable pub publisher_drain :
    JsonWriter
    → ℕ
    → ℕ
    → DropQueue (ExchangeEvent Bytes)
    → List Bytes
    → Run (DropQueue (ExchangeEvent Bytes) × List Bytes)
unfolding drain_ring
publisher_drain w bits rounds d sent = drain_ring bits (send w) rounds d sent

-- `if (!line.empty()) file << line << '\n'`
abbrev pub write_line : Bytes → Bytes → Bytes
write_line file line = if is_empty line then file else (file ++ line ++ b'\n' ∷ [])

unfoldable pub writer_drain : ℕ → ℕ → DropQueue Bytes → Bytes → Run (DropQueue Bytes × Bytes)
unfolding drain_ring
writer_drain bits rounds d file = drain_ring bits write_line rounds d file
