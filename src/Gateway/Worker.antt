-- ===== src/Gateway/Worker.antt =====
-- A background thread of src/gateway with its ring: `publisher_loop` of event_dispatcher.cpp and
-- `writer_loop` of replay_logger.cpp, with the calls that feed it. An operation on the ring is one
-- step; SpscQueue/Threads takes it apart. `given` and `taken` record the items that went into the
-- ring and came out of it.
pub mod Flushes
use lob_engine.Prelude.{ℕ, ◌≡◌, Bool, true, false, none, some, List, [], ◌∷◌, ◌++◌, if◌then◌else◌}
use lob_engine.SpscQueue.{DropQueue, push, pop, enqueue}

pub data WorkerPc : Type 0 where
  at_test : WorkerPc  -- before `running_.load`
  in_loop : WorkerPc
  in_drain : WorkerPc  -- behind the loop
  finished : WorkerPc

pub record Worker (A S : Type 0) : Type 0 where
  pub running : Bool
  pub ring : DropQueue A
  pub pc : WorkerPc
  pub given : List A
  pub taken : List A
  pub out : S

-- The size of the ring, what is done with an item, and whether the flag is tested again after each
-- item (`publisher_loop`) or once the ring is empty (`drain` of `writer_loop`).
pub record Job (A S : Type 0) : Type 0 where
  pub bits : ℕ
  pub emit : S → A → S
  pub tests_each : Bool

-- As `start` leaves it.
abbrev pub start_worker : {A S : Type 0} → (ℕ → A) → S → Worker A S
start_worker filled s = record {
  running = true;
  ring = record { ring = record { head = 0; tail = 0; buffer = filled }; drops = 0 };
  pc = WorkerPc.at_test;
  given = [];
  taken = [];
  out = s;
}

module _ {A S : Type 0} (job : Job A S) where
  -- `enqueue` of the dispatcher and `log` of the replay logger
  unfoldable pub offer : Worker A S → A → Worker A S
  offer w item = record w {
    ring = enqueue job.bits w.ring item;
    given = w.given ++ (if (push job.bits w.ring.ring item).1 then (item ∷ []) else []);
  }

  -- The item that was popped is handed on.
  abbrev pub took : Worker A S → A → WorkerPc → Worker A S
  took w item pc = record w {
    ring = record w.ring { ring = (pop job.bits w.ring.ring).0 };
    pc = pc;
    taken = w.taken ++ item ∷ [];
    out = job.emit w.out item;
  }

  pub data Work (w : Worker A S) : Worker A S → Type 0 where
    enter : w.pc ≡ WorkerPc.at_test → w.running ≡ true → Work w (record w { pc = WorkerPc.in_loop })
    leave :
        w.pc ≡ WorkerPc.at_test → w.running ≡ false → Work w (record w { pc = WorkerPc.in_drain })
    find_empty :
        w.pc ≡ WorkerPc.in_loop
        → (pop job.bits w.ring.ring).1 ≡ none
        → Work w (record w { pc = WorkerPc.at_test })
    take_item :
        (item : A)
        → w.pc ≡ WorkerPc.in_loop
        → (pop job.bits w.ring.ring).1 ≡ some item
        → Work w (took w item (if job.tests_each then WorkerPc.at_test else WorkerPc.in_loop))
    drain_item :
        (item : A)
        → w.pc ≡ WorkerPc.in_drain
        → (pop job.bits w.ring.ring).1 ≡ some item
        → Work w (took w item WorkerPc.in_drain)
    drain_empty :
        w.pc ≡ WorkerPc.in_drain
        → (pop job.bits w.ring.ring).1 ≡ none
        → Work w (record w { pc = WorkerPc.finished })
