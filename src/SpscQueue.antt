-- ===== src/SpscQueue.antt =====
-- src/core/spsc_queue.hpp, and the same ring with a drop counter that gateway.cpp,
-- event_dispatcher.cpp, replay_logger.cpp and logger.cpp write out each for itself.
-- The capacity is a power of two, 2 ^ bits, so `& mask_` is `% 2 ^ bits`. The two threads' loads
-- and stores are taken as sequential: an operation is one step.
pub mod Refine
pub mod Drops
pub mod Threads
use lob_engine.Prelude.{
  ℕ, suc, ◌+◌, ◌%◌, ◌^◌, Bool, true, false, Option, none, some, List, [], ◌∷◌, ◌==◌, add64,
  if◌then◌else◌,
}

-- `Capacity`
abbrev pub capacity : ℕ → ℕ
capacity bits = 2 ^ bits

-- `(i + 1) & mask_`
unfoldable pub next_index : ℕ → ℕ → ℕ
next_index bits i = (i + 1) % capacity bits

module _ {ℓ} {A : Type ℓ} where
  -- `buffer_[i] = item`
  unfoldable pub write : (ℕ → A) → ℕ → A → ℕ → A
  write buffer i item j = if j == i then item else buffer j

pub record SpscQueue {ℓ} (A : Type ℓ) : Type ℓ where
  pub head : ℕ
  pub tail : ℕ
  pub buffer : ℕ → A

module _ {ℓ} {A : Type ℓ} (bits : ℕ) where
  unfoldable pub push : SpscQueue A → A → SpscQueue A × Bool
  unfolding next_index write
  push r item =
      let next_tail = next_index bits r.tail in
      if next_tail == r.head
      then (r, false)
      else (record r { buffer = write r.buffer r.tail item; tail = next_tail }, true)

  -- `false` and the untouched `item` are `none`.
  unfoldable pub pop : SpscQueue A → SpscQueue A × Option A
  unfolding next_index
  pop r =
      if r.head == r.tail
      then (r, none)
      else (record r { head = next_index bits r.head }, some (r.buffer r.head))

  unfoldable pub empty : SpscQueue A → Bool
  empty r = r.head == r.tail

-- The ring of the gateway and of the loggers: a full ring drops the item and counts it.
pub record DropQueue {ℓ} (A : Type ℓ) : Type ℓ where
  pub ring : SpscQueue A
  pub drops : ℕ

module _ {ℓ} {A : Type ℓ} (bits : ℕ) where
  -- `enqueue` of one item, `inbound_push`, and the ring of `log`
  unfoldable pub enqueue : DropQueue A → A → DropQueue A
  unfolding push
  enqueue d item =
      let (r, pushed) = push bits d.ring item in
      if pushed then record d { ring = r } else record d { drops = add64 d.drops 1 }

  -- `enqueue` of a batch
  unfoldable pub enqueue_all : DropQueue A → List A → DropQueue A
  unfolding enqueue
  enqueue_all d [] = d
  enqueue_all d (x ∷ xs) = enqueue_all (enqueue d x) xs

  -- `inbound_pop`
  unfoldable pub dequeue : DropQueue A → DropQueue A × Option A
  unfolding pop
  dequeue d = let (r, item) = pop bits d.ring in (record d { ring = r }, item)
