-- ===== src/Gateway/Publish/Sends.antt =====
-- The loops that empty the rings of src/gateway, against the lists of what the rings hold.
use lob_engine.Prelude.{
  ℕ, zero, suc, ◌+◌, ◌<◌, ◌≡◌, refl, sym, ap, ◌∙◌, false, List, [], ◌∷◌, ◌++◌, map, append_assoc,
  append-nil, arith, length, inl, inr, ok, Bytes, is_empty, ◌⊎◌, u64_mod, length-append, Bool-cases,
  if◌then◌else◌, subst,
}
use lob_engine.SpscQueue.{DropQueue, pop, dequeue, enqueue_all, capacity}
use lob_engine.SpscQueue.Refine.{Holds, pop_refines}
use lob_engine.SpscQueue.Drops.{enqueue_all_keeps}
use lob_engine.Gateway.Events.{ExchangeEvent}
use lob_engine.Serialization.{JsonWriter, serialize_event}
use lob_engine.Gateway.Publish.{drain_ring, send, publisher_drain, write_line, writer_drain}

module _ {A S : Type 0} (bits : ℕ) (emit : S → A → S) where
  abbrev pub emit_all : S → List A → S
  emit_all s [] = s
  emit_all s (x ∷ xs) = emit_all (emit s x) xs

  -- The loop does its work on each item that the ring holds, once and in order.
  pub drain_ring_empties :
      (rounds : ℕ) (d : DropQueue A) (s : S) (xs : List A)
      → Holds bits d.ring xs
      → length xs < rounds
      → (d' : DropQueue A) × (drain_ring bits emit rounds d s ≡ ok (d', emit_all s xs))
        × Holds bits d'.ring []
        × (d'.drops ≡ d.drops)
  unfolding drain_ring dequeue
  drain_ring_empties zero d s xs v w = absurd (omega (arith, w))
  drain_ring_empties (suc rounds) d s xs v w = elim (pop_refines bits d.ring xs v) [
    | inl (e, done) ↦ (d, rw (drain_ring, done, e) refl, subst (Holds bits d.ring) e v, refl)
    | inr (x, rest, e, got, v') ↦
        let (d', done, held, drops) =
          drain_ring_empties rounds (record d { ring = (pop bits d.ring).0 }) (emit s x) rest v'
            (omega (arith, w, ap length e)) in
        (d', rw (drain_ring, got, e) done, held, drops)
  ]

module _ (w : JsonWriter) where
  serialized_is_full : (ev : ExchangeEvent Bytes) → is_empty (serialize_event w ev) ≡ false
  unfolding serialize_event
  serialized_is_full (ExchangeEvent.accepted e) = refl
  serialized_is_full (ExchangeEvent.rejected e) = refl
  serialized_is_full (ExchangeEvent.canceled e) = refl
  serialized_is_full (ExchangeEvent.traded e) = refl
  serialized_is_full (ExchangeEvent.book_updated e) = refl
  serialized_is_full (ExchangeEvent.snapshot_taken e) = refl

  pub send_all :
      (bits : ℕ) (sent : List Bytes) (evs : List (ExchangeEvent Bytes))
      → emit_all bits (send w) sent evs ≡ sent ++ map (serialize_event w) evs
  send_all bits sent [] = sym (append-nil sent)
  send_all bits sent (ev ∷ evs) = rw (serialized_is_full ev) (
      send_all bits (sent ++ serialize_event w ev ∷ []) evs
      ∙ append_assoc sent (serialize_event w ev ∷ []) (map (serialize_event w) evs))

  -- A batch of events is enqueued behind those that the ring holds, and the ring is then emptied, in
  -- more rounds than there are events: what the ring held and the first part of the batch are
  -- handed to the socket, serialized, each once and in order, and no message is passed over as
  -- empty. The rest of the batch was dropped, which happens only to a ring that was full, and the
  -- drop counter, which stays below 2 ^ 64, has counted exactly those.
  pub publisher_drain_sends :
      (bits rounds : ℕ) (d : DropQueue (ExchangeEvent Bytes)) (xs evs : List (ExchangeEvent Bytes))
      (sent : List Bytes)
      → Holds bits d.ring xs
      → d.drops + length evs < u64_mod
      → length xs + length evs < rounds
      → (kept : List (ExchangeEvent Bytes)) × (lost : List (ExchangeEvent Bytes)) × (evs
          ≡ kept ++ lost)
        × (d' : DropQueue (ExchangeEvent Bytes)) × (publisher_drain w bits rounds
              (enqueue_all bits d evs)
              sent
            ≡ ok (d', sent ++ map (serialize_event w) (xs ++ kept)))
        × Holds bits d'.ring []
        × (d'.drops ≡ d.drops + length lost)
        × ((lost ≡ []) ⊎ (suc (length (xs ++ kept)) ≡ capacity bits))
  unfolding publisher_drain
  publisher_drain_sends bits rounds d xs evs sent v small enough =
      let (kept, lost, split, held, drops, why) = enqueue_all_keeps bits d xs evs v small in
      let few : length (xs ++ kept) < rounds =
        omega (arith, enough, length-append xs kept, ap length split, length-append kept lost) in
      let (d', done, emptied, same) =
        drain_ring_empties bits (send w) rounds (enqueue_all bits d evs) sent (xs ++ kept) held
          few in
      (
        kept,
        lost,
        split,
        d',
        done ∙ ap (λ ms. ok (d', ms)) (send_all bits sent (xs ++ kept)),
        emptied,
        same ∙ drops,
        why,
      )

-- The lines that are not empty, each with its end.
abbrev pub lines_text : List Bytes → Bytes
lines_text [] = []
lines_text (line ∷ lines) =
    if is_empty line then lines_text lines else (line ++ b'\n' ∷ lines_text lines)

pub write_all :
    (bits : ℕ) (file : Bytes) (lines : List Bytes)
    → emit_all bits write_line file lines ≡ file ++ lines_text lines
write_all bits file [] = sym (append-nil file)
write_all bits file (line ∷ lines) = elim (Bool-cases (is_empty line)) [
  | inl e ↦ rw (e, write_all bits file lines) refl
  | inr e ↦ rw e (
      write_all bits (file ++ line ++ b'\n' ∷ []) lines
      ∙ append_assoc (file ++ line) (b'\n' ∷ []) (lines_text lines)
      ∙ append_assoc file line (b'\n' ∷ lines_text lines))
]

-- The writer appends the lines that the ring of the replay logger holds, in order, and leaves the
-- ring empty.
pub writer_drain_writes :
    (bits rounds : ℕ) (d : DropQueue Bytes) (lines : List Bytes) (file : Bytes)
    → Holds bits d.ring lines
    → length lines < rounds
    → (d' : DropQueue Bytes) × (writer_drain bits rounds d file ≡ ok (d', file ++ lines_text lines))
      × Holds bits d'.ring []
unfolding writer_drain
writer_drain_writes bits rounds d lines file v enough =
    let (d', done, emptied, _) = drain_ring_empties bits write_line rounds d file lines v enough in
    (d', done ∙ ap (λ t. ok (d', t)) (write_all bits file lines), emptied)
