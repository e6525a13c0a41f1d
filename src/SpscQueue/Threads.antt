-- ===== src/SpscQueue/Threads.antt =====
-- The ring with its two threads, one access to shared memory at a time: the producer is `enqueue`,
-- `log` or `inbound_push` of src/gateway and src/logging, the consumer `inbound_pop`,
-- `publisher_loop` or one of the two `writer_loop`s. The steps of the threads follow each other in
-- any order. A store with `release` and a load with `acquire` are steps on one shared memory.
pub mod Known
pub mod Moves
pub mod Interleaved
use lob_engine.Prelude.{ℕ, ◌≡◌, true, false, List, [], ◌∷◌, ◌++◌, ◌==◌, add64}
use lob_engine.SpscQueue.{SpscQueue, next_index, write}

-- Where the producer stands, with the locals that are live there.
pub data Producer (A : Type 0) : Type 0 where
  ready : Producer A
  tail_loaded : (tail : ℕ) (item : A) → Producer A
  full_seen : (item : A) → Producer A  -- before `drops_.fetch_add`
  room_seen : (tail : ℕ) (item : A) → Producer A  -- before the write of the slot
  written : (tail : ℕ) (item : A) → Producer A  -- before `tail_.store`

-- Where the consumer stands.
pub data Consumer (A : Type 0) : Type 0 where
  ready : Consumer A
  head_loaded : (head : ℕ) → Consumer A
  item_seen : (head : ℕ) → Consumer A  -- the ring is not empty
  copied : (head : ℕ) (item : A) → Consumer A  -- before `head_.store`
  released : (head : ℕ) → Consumer A  -- before the slot is read through a reference

-- `publisher_loop`, `inbound_pop` and the logger read the slot and then store the head; the replay
-- logger binds a reference to the slot, stores the head, and reads the slot when it writes the line.
pub data ReadOrder : Type 0 where
  read_first release_first : ReadOrder

-- Shared memory, the two threads, and what has happened: the items whose push was published, those
-- that were dropped, and those that the consumer has handed on.
pub record Threads (A : Type 0) : Type 0 where
  pub ring : SpscQueue A
  pub drops : ℕ
  pub producer : Producer A
  pub consumer : Consumer A
  pub accepted : List A
  pub lost : List A
  pub emitted : List A

pub data Move {A : Type 0} (bits : ℕ) (order : ReadOrder) (s : Threads A) : Threads A → Type 0 where
  load_tail :
      (item : A)
      → s.producer ≡ Producer.ready
      → Move bits order s (record s { producer = Producer.tail_loaded s.ring.tail item })
  find_full :
      (tail : ℕ) (item : A)
      → s.producer ≡ Producer.tail_loaded tail item
      → (next_index bits tail == s.ring.head) ≡ true
      → Move bits order s (record s { producer = Producer.full_seen item })
  count_drop :
      (item : A)
      → s.producer ≡ Producer.full_seen item
      → Move bits order s (record s {
        producer = Producer.ready;
        drops = add64 s.drops 1;
        lost = s.lost ++ item ∷ [];
      })
  find_room :
      (tail : ℕ) (item : A)
      → s.producer ≡ Producer.tail_loaded tail item
      → (next_index bits tail == s.ring.head) ≡ false
      → Move bits order s (record s { producer = Producer.room_seen tail item })
  write_slot :
      (tail : ℕ) (item : A)
      → s.producer ≡ Producer.room_seen tail item
      → Move bits order s (record s {
        producer = Producer.written tail item;
        ring = record s.ring { buffer = write s.ring.buffer tail item };
      })
  store_tail :
      (tail : ℕ) (item : A)
      → s.producer ≡ Producer.written tail item
      → Move bits order s (record s {
        producer = Producer.ready;
        ring = record s.ring { tail = next_index bits tail };
        accepted = s.accepted ++ item ∷ [];
      })
  load_head :
      s.consumer ≡ Consumer.ready
      → Move bits order s (record s { consumer = Consumer.head_loaded s.ring.head })
  find_empty :
      (head : ℕ)
      → s.consumer ≡ Consumer.head_loaded head
      → (head == s.ring.tail) ≡ true
      → Move bits order s (record s { consumer = Consumer.ready })
  find_item :
      (head : ℕ)
      → s.consumer ≡ Consumer.head_loaded head
      → (head == s.ring.tail) ≡ false
      → Move bits order s (record s { consumer = Consumer.item_seen head })
  copy_slot :
      (head : ℕ)
      → order ≡ ReadOrder.read_first
      → s.consumer ≡ Consumer.item_seen head
      → Move bits order s (record s { consumer = Consumer.copied head (s.ring.buffer head) })
  store_head :
      (head : ℕ) (item : A)
      → s.consumer ≡ Consumer.copied head item
      → Move bits order s (record s {
        consumer = Consumer.ready;
        ring = record s.ring { head = next_index bits head };
        emitted = s.emitted ++ item ∷ [];
      })
  store_head_early :
      (head : ℕ)
      → order ≡ ReadOrder.release_first
      → s.consumer ≡ Consumer.item_seen head
      → Move bits order s (record s {
        consumer = Consumer.released head;
        ring = record s.ring { head = next_index bits head };
      })
  read_slot_late :
      (head : ℕ)
      → s.consumer ≡ Consumer.released head
      → Move bits order s
          (record s { consumer = Consumer.ready; emitted = s.emitted ++ s.ring.buffer head ∷ [] })

-- Both threads at their start, with an empty ring and a buffer that is filled with anything.
abbrev pub init : {A : Type 0} → (ℕ → A) → Threads A
init filled = record {
  ring = record { head = 0; tail = 0; buffer = filled };
  drops = 0;
  producer = Producer.ready;
  consumer = Consumer.ready;
  accepted = [];
  lost = [];
  emitted = [];
}

pub data Reach {A : Type 0} (bits : ℕ) (order : ReadOrder) (filled : ℕ → A)
    : Threads A → Type 0 where
  start : Reach bits order filled (init filled)
  later :
      {s t : Threads A}
      → Reach bits order filled s
      → Move bits order s t
      → Reach bits order filled t
