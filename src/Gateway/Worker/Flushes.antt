-- ===== src/Gateway/Worker/Flushes.antt =====
-- A worker hands on what went into its ring, in order, and finishes only with an empty ring.
use lob_engine.Prelude.{
  ℕ, ◌<◌, ◌≡◌, refl, sym, ap, ◌∙◌, Bool, true, false, none, some, List, [], ◌∷◌, ◌++◌, append_assoc,
  append-nil, arith, inl, inr, if◌then◌else◌,
}
use lob_engine.SpscQueue.{capacity, pop}
use lob_engine.SpscQueue.Refine.{Holds, initial-Holds, push_refines, pop_refines}
use lob_engine.SpscQueue.Drops.{enqueue_full, enqueue_free}
use lob_engine.Gateway.Worker.{WorkerPc, Worker, Job, start_worker, offer, took, Work}

abbrev pub is_ending : WorkerPc → Bool
is_ending WorkerPc.in_drain = true
is_ending WorkerPc.finished = true
is_ending _ = false

abbrev pub is_finished : WorkerPc → Bool
is_finished WorkerPc.finished = true
is_finished _ = false

finished-ending : (p : WorkerPc) → is_finished p ≡ true → is_ending p ≡ true
finished-ending WorkerPc.at_test h = cc
finished-ending WorkerPc.in_loop h = cc
finished-ending WorkerPc.in_drain h = cc
finished-ending WorkerPc.finished h = refl

module _ {A S : Type 0} (job : Job A S) (begun : S) where
  abbrev pub emit_all : S → List A → S
  emit_all s [] = s
  emit_all s (x ∷ xs) = emit_all (job.emit s x) xs

  emit_all-append :
      (s : S) (xs : List A) (x : A) → job.emit (emit_all s xs) x ≡ emit_all s (xs ++ x ∷ [])
  emit_all-append s [] x = refl
  emit_all-append s (y ∷ ys) x = emit_all-append (job.emit s y) ys x

  pub record IsWorking (w : Worker A S) (items : List A) : Type 0 where
    pub holds : Holds job.bits w.ring.ring items
    pub told : w.given ≡ w.taken ++ items
    pub emitted : w.out ≡ emit_all begun w.taken
    pub emptied : is_finished w.pc ≡ true → items ≡ []
    pub ending : is_ending w.pc ≡ true → w.running ≡ false

  pub start_worker-IsWorking :
      (filled : ℕ → A) → 0 < capacity job.bits → IsWorking (start_worker filled begun) []
  start_worker-IsWorking filled c = record {
    holds = initial-Holds job.bits filled c;
    told = refl;
    emitted = refl;
    emptied = λ h. cc;
    ending = λ h. cc;
  }

  -- While the flag is set, an item may be offered.
  pub offer-IsWorking :
      (w : Worker A S) (items : List A) (x : A)
      → IsWorking w items
      → w.running ≡ true
      → (items' : List A) × IsWorking (offer job w x) items'
  unfolding offer
  offer-IsWorking w items x v on = elim (push_refines job.bits w.ring.ring items x v.holds) [
    | inl (full, e) ↦ (
      items,
      record {
        holds = rw (enqueue_full job.bits w.ring x e) v.holds;
        told = rw e (append-nil w.given ∙ v.told);
        emitted = v.emitted;
        emptied = v.emptied;
        ending = v.ending;
      },
    )
    | inr (free, e, v') ↦ (
      items ++ x ∷ [],
      record {
        holds = rw (enqueue_free job.bits w.ring x e) v';
        told = rw e (ap (λ g. g ++ x ∷ []) v.told ∙ append_assoc w.taken items (x ∷ []));
        emitted = v.emitted;
        emptied = λ h. absurd (cc (v.ending (finished-ending w.pc h), on));
        ending = v.ending;
      },
    )
  ]

  -- `running_.store(false)`
  pub stop-IsWorking :
      (w : Worker A S) (items : List A)
      → IsWorking w items
      → IsWorking (record w { running = false }) items
  stop-IsWorking w items v = record {
    holds = v.holds;
    told = v.told;
    emitted = v.emitted;
    emptied = v.emptied;
    ending = λ h. refl;
  }

  took-IsWorking :
      (w : Worker A S) (items : List A) (x : A) (pc : WorkerPc)
      → IsWorking w items
      → (pop job.bits w.ring.ring).1 ≡ some x
      → is_finished pc ≡ false
      → (is_ending pc ≡ true → w.running ≡ false)
      → (items' : List A) × IsWorking (took job w x pc) items'
  took-IsWorking w items x pc v got open_end ends =
      elim (pop_refines job.bits w.ring.ring items v.holds) [
        | inl (e, done) ↦ absurd (cc (got, ap (λ r. r.1) done))
        | inr (y, ys, e, done, v') ↦
            let same : y ≡ x = cc (got, done) in
            (
              ys,
              record {
                holds = v';
                told =
                    v.told
                    ∙ ap (λ l. w.taken ++ l) (e ∙ ap (λ z. z ∷ ys) same)
                    ∙ sym (append_assoc w.taken (x ∷ []) ys);
                emitted = ap (λ s. job.emit s x) v.emitted ∙ emit_all-append begun w.taken x;
                emptied = λ h. absurd (cc (h, open_end));
                ending = ends;
              },
            )
      ]

  found_empty :
      (w : Worker A S) (items : List A)
      → IsWorking w items
      → (pop job.bits w.ring.ring).1 ≡ none
      → items ≡ []
  found_empty w items v got = elim (pop_refines job.bits w.ring.ring items v.holds) [
    | inl (e, done) ↦ e
    | inr (y, ys, e, done, v') ↦ absurd (cc (got, done))
  ]

  pub Work-IsWorking :
      {w w' : Worker A S} (items : List A)
      → Work job w w'
      → IsWorking w items
      → (items' : List A) × IsWorking w' items'
  Work-IsWorking items (Work.enter e on) v = (
    items,
    record {
      holds = v.holds;
      told = v.told;
      emitted = v.emitted;
      emptied = λ h. cc;
      ending = λ h. cc;
    },
  )
  Work-IsWorking items (Work.leave e off) v = (
    items,
    record {
      holds = v.holds;
      told = v.told;
      emitted = v.emitted;
      emptied = λ h. cc;
      ending = λ h. off;
    },
  )
  Work-IsWorking items (Work.find_empty e got) v = (
    items,
    record {
      holds = v.holds;
      told = v.told;
      emitted = v.emitted;
      emptied = λ h. cc;
      ending = λ h. cc;
    },
  )
  Work-IsWorking {w} items (Work.take_item x e got) v =
      took-IsWorking w items x (if job.tests_each then WorkerPc.at_test else WorkerPc.in_loop) v got
        (ground arith) (λ h. ground (arith, h))
  Work-IsWorking {w} items (Work.drain_item x e got) v =
      took-IsWorking w items x WorkerPc.in_drain v got refl (λ h. v.ending (rw e refl))
  Work-IsWorking {w} items (Work.drain_empty e got) v = (
    items,
    record {
      holds = v.holds;
      told = v.told;
      emitted = v.emitted;
      emptied = λ h. found_empty w items v got;
      ending = λ h. v.ending (rw e refl);
    },
  )

  -- A worker that has finished has handed on everything that its ring was given.
  pub flushed :
      {w : Worker A S} (items : List A)
      → IsWorking w items
      → is_finished w.pc ≡ true
      → (w.taken ≡ w.given) × (w.out ≡ emit_all begun w.given)
  flushed {w} items v h =
      let same : w.taken ≡ w.given =
        sym (v.told ∙ ap (λ l. w.taken ++ l) (v.emptied h) ∙ append-nil w.taken) in
      (same, v.emitted ∙ ap (emit_all begun) same)

  pub Work-running : {w w' : Worker A S} → Work job w w' → w'.running ≡ w.running
  Work-running (Work.enter e on) = refl
  Work-running (Work.leave e off) = refl
  Work-running (Work.find_empty e got) = refl
  Work-running (Work.take_item x e got) = refl
  Work-running (Work.drain_item x e got) = refl
  Work-running (Work.drain_empty e got) = refl

  -- A worker that has finished takes no step.
  pub Work-finished : {w w' : Worker A S} → Work job w w' → is_finished w.pc ≡ false
  Work-finished (Work.enter e on) = rw e refl
  Work-finished (Work.leave e off) = rw e refl
  Work-finished (Work.find_empty e got) = rw e refl
  Work-finished (Work.take_item x e got) = rw e refl
  Work-finished (Work.drain_item x e got) = rw e refl
  Work-finished (Work.drain_empty e got) = rw e refl
