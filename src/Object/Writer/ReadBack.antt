-- ===== src/Object/Writer/ReadBack.antt =====
-- The object that Result of repo/object/object_writer.go returns reads back, by object_reader.go, as the
-- bytes that were written, at any number of levels of indirection.
use mathlib.Core.List.{flatten}
use kopia.Prelude.{
  ℕ, zero, suc, ◌≤◌, ◌<◌, ◌≡◌, refl, ap, ◌∙◌, inl, inr, false, List, [], ◌∷◌, Option, none, some,
  length, Result, ok, err, arith, Result-cases, append-nil, Bool-cases, ltb, ◌==◌, ◌||◌,
}
use kopia.Object.Id.{Entry}
use kopia.Object.Read.{IsContents, raw_bytes}
use kopia.Object.Writer.{
  Contents, ChunkWriter, flush_buffer, finish_all, index_writer, wait, result_with, indirect_result,
  after_index_write, after_wait, by_entries, write_indirect_object, checkpoint_locked, result,
  Outcome,
}
use kopia.Object.Writer.Stored.{Kept, Kept-refl, Kept-trans, Holds, Holds-Kept, raw_bytes-direct}
use kopia.Object.Writer.Flushed.{Wrote, flush-Flushed, Took, write_loop-Took}
use kopia.Splitter.{Splitter, IsSplitter}
use kopia.Object.Writer.Reads.{Reads, raw_bytes-Reads, indirect-Reads}

module _ (cm : Contents) (laws : IsContents cm) (S : Splitter) (splits : IsSplitter S)
    (new_splitter : S.State) where
  open cm use {Store, Error}

  wait_idle : (w : ChunkWriter cm) → w.in_flight ≡ [] → wait cm S new_splitter w ≡ w
  unfolding finish_all
  wait_idle w h = rw h refl

  pub index_writer-Wrote :
      (w : ChunkWriter cm) → Wrote cm laws (index_writer cm S new_splitter w) []
  unfolding index_writer flatten
  index_writer-Wrote w = record {
    pieces = [];
    holds = tt;
    position = refl;
    all = refl;
    sync = refl;
    idle = refl;
    no_error = refl;
  }

  -- What Result makes of these bytes.
  abbrev pub ReadsBack : Store → List ℕ → ℕ → Outcome cm S new_splitter → Type 0
  ReadsBack s bytes fuel none = Unit
  ReadsBack s bytes fuel (some (err e, v)) = Unit
  ReadsBack s bytes fuel (some (ok oid, v)) =
      Reads cm laws v.store oid bytes × (oid.indirection < fuel) × Kept cm laws s v.store

  -- a writer that has flushed everything
  pub record AllFlushed (w : ChunkWriter cm) (bytes : List ℕ) : Type 0 where
    pub wrote : Wrote cm laws w bytes
    pub empty : w.buffer ≡ []
    pub nonempty : 0 < length w.indirect_index

  pub nothing_buffered :
      (b : List ℕ) (es : List Entry)
      → (ltb 0 (length b) || (length es == 0)) ≡ false
      → (b ≡ []) × (0 < length es)
  nothing_buffered [] [] h = absurd (ground arith)
  nothing_buffered [] (e ∷ es) h = (refl, omega arith)
  nothing_buffered (x ∷ b) es h = absurd (ground arith)

  result_with-ReadsBack :
      (fuel : ℕ) (s : Store) (w : ChunkWriter cm) (bytes : List ℕ)
      (checkpoint : ChunkWriter cm → Outcome cm S new_splitter)
      → Wrote cm laws w bytes
      → Kept cm laws s w.store
      → ((v : ChunkWriter cm)
          → AllFlushed v bytes
          → Kept cm laws s v.store
          → ReadsBack s bytes fuel (checkpoint v))
      → ReadsBack s bytes fuel (result_with cm S new_splitter checkpoint w)
  unfolding result_with
  result_with-ReadsBack fuel s w bytes checkpoint h k each =
      elim (Bool-cases (ltb 0 (length w.buffer) || length w.indirect_index == 0)) [
        | inl q ↦ rw q (elim (Result-cases (flush_buffer cm w).0) [
          | inl (u, r) ↦ rw r (
              let f = flush-Flushed cm laws w bytes h r in
              each (flush_buffer cm w).1
                (record { wrote = f.wrote; empty = f.empty; nonempty = omega (arith, f.grown) })
                (Kept-trans cm laws s w.store (flush_buffer cm w).1.store k f.kept))
          | inr (z, r) ↦ rw r tt
        ])
        | inr q ↦ rw q (
            let n = nothing_buffered w.buffer w.indirect_index q in
            each w (record { wrote = h; empty = n.0; nonempty = n.1 }) k)
      ]

  pieces_all :
      (w : ChunkWriter cm) (bytes : List ℕ) (h : AllFlushed w bytes)
      → flatten h.wrote.pieces ≡ bytes
  pieces_all w bytes h = rw (h.empty, append-nil) at h.wrote.all

  indirect_result-ReadsBack :
      (fuel : ℕ) (s : Store) (w : ChunkWriter cm) (bytes : List ℕ) (x : Outcome cm S new_splitter)
      → AllFlushed w bytes
      → Kept cm laws s w.store
      → fuel ≤ 255
      → ReadsBack w.store (cm.encode_index w.indirect_index) fuel x
      → ReadsBack s bytes (suc fuel) (indirect_result cm S new_splitter w x)
  unfolding indirect_result
  indirect_result-ReadsBack fuel s w bytes none h k le r = tt
  indirect_result-ReadsBack fuel s w bytes (some (err e, v)) h k le r = tt
  indirect_result-ReadsBack fuel s w bytes (some (ok oid, v)) h k le r = (
    rw (pieces_all w bytes h) at (
        indirect-Reads cm laws v.store oid w.indirect_index h.wrote.pieces r.0
          (Holds-Kept cm laws w.store v.store 0 w.indirect_index h.wrote.pieces r.2 h.wrote.holds)
          h.nonempty (omega (arith, r.1))),
    omega (arith, r.1),
    Kept-trans cm laws s w.store v.store k r.2,
  )

  after_index_write-ReadsBack :
      (fuel : ℕ) (s : Store) (w : ChunkWriter cm) (bytes : List ℕ)
      (checkpoint : ChunkWriter cm → Outcome cm S new_splitter)
      (x : Option (Result Error (Unit {0}) × S.State × ChunkWriter cm))
      → AllFlushed w bytes
      → Kept cm laws s w.store
      → fuel ≤ 255
      → ((v : ChunkWriter cm)
          → AllFlushed v (cm.encode_index w.indirect_index)
          → Kept cm laws w.store v.store
          → ReadsBack w.store (cm.encode_index w.indirect_index) fuel (checkpoint v))
      → Took cm laws S splits w.store (cm.encode_index w.indirect_index) x
      → ReadsBack s bytes (suc fuel) (after_index_write cm S new_splitter checkpoint w x)
  after_index_write-ReadsBack fuel s w bytes checkpoint none h k le each took = tt
  after_index_write-ReadsBack fuel s w bytes checkpoint (some (err e, t, v)) h k le each took = tt
  after_index_write-ReadsBack fuel s w bytes checkpoint (some (ok u, t, v)) h k le each took =
      indirect_result-ReadsBack fuel s w bytes (result_with cm S new_splitter checkpoint v) h k le (
        result_with-ReadsBack fuel w.store v (cm.encode_index w.indirect_index) checkpoint took.0
          took.1 each)

  indirect-ReadsBack :
      (fuel : ℕ) (s : Store) (w : ChunkWriter cm) (bytes : List ℕ)
      (checkpoint : ChunkWriter cm → Outcome cm S new_splitter)
      → AllFlushed w bytes
      → Kept cm laws s w.store
      → fuel ≤ 255
      → ((v : ChunkWriter cm)
          → AllFlushed v (cm.encode_index w.indirect_index)
          → Kept cm laws w.store v.store
          → ReadsBack w.store (cm.encode_index w.indirect_index) fuel (checkpoint v))
      → ReadsBack s bytes (suc fuel) (write_indirect_object cm S new_splitter checkpoint w)
  unfolding write_indirect_object index_writer
  indirect-ReadsBack fuel s w bytes checkpoint h k le each =
      let text = cm.encode_index w.indirect_index in
      after_index_write-ReadsBack fuel s w bytes checkpoint _ h k le each (
        write_loop-Took cm laws S splits (length text) new_splitter
          (index_writer cm S new_splitter w) [] text (index_writer-Wrote w))

  one_chunk :
      (s : Store) (e : Entry) (ps : List (List ℕ))
      → Holds cm laws s 0 (e ∷ []) ps
      → raw_bytes cm laws s e.object ≡ some (flatten ps)
  unfolding flatten
  one_chunk s e [] h = absurd h
  one_chunk s e (p ∷ []) h = rw (append-nil p) h.2
  one_chunk s e (p ∷ q ∷ ps) h = absurd h.4

  pub checkpoint_round :
      (fuel : ℕ) (w : ChunkWriter cm)
      → w.in_flight ≡ []
      → w.content_write_error ≡ none
      → checkpoint_locked cm S new_splitter (suc fuel) w
        ≡ by_entries cm S new_splitter
            (write_indirect_object cm S new_splitter (checkpoint_locked cm S new_splitter fuel))
            w
            w.indirect_index
  unfolding checkpoint_locked
  checkpoint_round fuel w h e =
      let indirect =
        write_indirect_object cm S new_splitter (checkpoint_locked cm S new_splitter fuel) in
      ap (λ v. after_wait cm S new_splitter indirect v v.content_write_error) (wait_idle w h)
      ∙ ap (after_wait cm S new_splitter indirect w) e

  by_entries-ReadsBack :
      (fuel : ℕ) (s : Store) (w : ChunkWriter cm) (bytes : List ℕ)
      (indirect : ChunkWriter cm → Outcome cm S new_splitter) (es : List Entry)
      → AllFlushed w bytes
      → Kept cm laws s w.store
      → ReadsBack s bytes (suc fuel) (indirect w)
      → w.indirect_index ≡ es
      → ReadsBack s bytes (suc fuel) (by_entries cm S new_splitter indirect w es)
  by_entries-ReadsBack fuel s w bytes indirect [] h k r q =
      absurd (omega (arith, h.nonempty, ap length q))
  by_entries-ReadsBack fuel s w bytes indirect (e ∷ []) h k r q =
      let raw = one_chunk w.store e h.wrote.pieces (rw q at h.wrote.holds) in
      (
        raw_bytes-Reads cm laws w.store e.object bytes (rw (pieces_all w bytes h) at raw),
        omega (arith, raw_bytes-direct cm laws w.store e.object (flatten h.wrote.pieces) raw),
        k,
      )
  by_entries-ReadsBack fuel s w bytes indirect (e ∷ e1 ∷ es) h k r q = r

  checkpoint-ReadsBack :
      (fuel : ℕ) (s : Store) (w : ChunkWriter cm) (bytes : List ℕ)
      → fuel ≤ 256
      → AllFlushed w bytes
      → Kept cm laws s w.store
      → ReadsBack s bytes fuel (checkpoint_locked cm S new_splitter fuel w)
  checkpoint-ReadsBack zero s w bytes le h k = unfold checkpoint_locked in tt
  checkpoint-ReadsBack (suc fuel) s w bytes le h k =
      rw (checkpoint_round fuel w h.wrote.idle h.wrote.no_error) (
        by_entries-ReadsBack fuel s w bytes
          (write_indirect_object cm S new_splitter (checkpoint_locked cm S new_splitter fuel))
          w.indirect_index h k
          (indirect-ReadsBack fuel s w bytes (checkpoint_locked cm S new_splitter fuel) h k
            (omega (arith, le))
            (λ v f k1. checkpoint-ReadsBack fuel w.store v _ (omega (arith, le)) f k1))
          refl)

  -- From a writer that has taken some bytes, with no error, an object that Result returns reads back
  -- as exactly those bytes, whatever its number of levels of indirection, which is less than the fuel,
  -- and no content of the store is lost. The fuel is at most 256, as the level is a byte.
  pub result-ReadsBack :
      (fuel : ℕ) (w : ChunkWriter cm) (bytes : List ℕ)
      → fuel ≤ 256
      → Wrote cm laws w bytes
      → ReadsBack w.store bytes fuel (result cm S new_splitter fuel w)
  unfolding result
  result-ReadsBack fuel w bytes le h =
      result_with-ReadsBack fuel w.store w bytes (checkpoint_locked cm S new_splitter fuel) h
        (Kept-refl cm laws w.store) (λ v f k. checkpoint-ReadsBack fuel w.store v bytes le f k)
