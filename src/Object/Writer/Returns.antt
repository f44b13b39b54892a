-- ===== src/Object/Writer/Returns.antt =====
-- Result of repo/object/object_writer.go comes to an end, with an object that reads back or an error.
use mathlib.Core.List.{flatten}
use native.Mathlib.Nat.{mul-le-mul_left}
use kopia.Prelude.{
  ap, length-append, ℕ, zero, suc, ◌+◌, ◌*◌, ◌^◌, ◌≤◌, ◌<◌, inl, inr, List, All, [], ◌∷◌, Option,
  none, some, length, Result, ok, err, arith, Bool-cases, Result-cases, ltb, ◌==◌, ◌||◌,
}
use kopia.Object.Id.{Entry}
use kopia.Object.Read.{IsContents}
use kopia.Object.Writer.{
  Contents, ChunkWriter, flush_buffer, write_loop, index_writer, result_with, indirect_result,
  after_index_write, write_indirect_object, by_entries, checkpoint_locked, result, Outcome,
}
use kopia.Object.Writer.Calls.{Ends, write_loop-Ends}
use kopia.Object.Writer.Flushed.{Wrote, flush-Flushed, Took, write_loop-Took}
use kopia.Object.Writer.Levels.{IsLong, halves, Few, write_loop-Few}
use kopia.Object.Writer.ReadBack.{
  AllFlushed, nothing_buffered, index_writer-Wrote, checkpoint_round, ReadsBack, result-ReadsBack,
}
use kopia.Object.Writer.Reads.{Reads}
use kopia.Object.Writer.Stored.{Kept, IsListed, Holds-IsListed}
use kopia.Splitter.{Splitter, IsSplitter}

-- An entry of a content below 2 ^ 63 has at most c bytes in the text of an index, and so has what is around
-- the entries; the segments of the splitter of an index object have at least m bytes, which is four times as much.
pub record IsShrinking (cm : Contents) (laws : IsContents cm) (S : Splitter) (splits : IsSplitter S)
    (new_splitter : S.State) : Type 1 where
  pub m : ℕ
  pub c : ℕ
  pub m_positive : 0 < m
  pub c-le-m : 4 * c ≤ m
  pub encode_size :
      (es : List Entry)
      → All (IsListed cm laws) es
      → length (cm.encode_index es) ≤ c * length es + c
  pub long : IsLong S m
  pub fresh : long.Fresh new_splitter
  pub ready : splits.Ready new_splitter

module _ (cm : Contents) (laws : IsContents cm) (S : Splitter) (splits : IsSplitter S)
    (new_splitter : S.State) (small : IsShrinking cm laws S splits new_splitter) where
  open cm use {Store, Error}
  open small use {m, c}

  -- there is a result, an error or an object
  abbrev Returns : Outcome cm S new_splitter → Type 0
  Returns none = ⊥
  Returns (some x) = Unit

  result_with-Returns :
      (n : ℕ) (w : ChunkWriter cm) (bytes : List ℕ)
      (checkpoint : ChunkWriter cm → Outcome cm S new_splitter)
      → Wrote cm laws w bytes
      → length w.indirect_index + 1 ≤ n
      → ((v : ChunkWriter cm)
          → AllFlushed cm laws S splits new_splitter v bytes
          → length v.indirect_index ≤ n
          → Returns (checkpoint v))
      → Returns (result_with cm S new_splitter checkpoint w)
  unfolding result_with
  result_with-Returns n w bytes checkpoint h le each =
      elim (Bool-cases (ltb 0 (length w.buffer) || length w.indirect_index == 0)) [
        | inl q ↦ rw q (elim (Result-cases (flush_buffer cm w).0) [
          | inl (u, r) ↦ rw r (
              let f = flush-Flushed cm laws w bytes h r in
              each (flush_buffer cm w).1
                (record { wrote = f.wrote; empty = f.empty; nonempty = omega (arith, f.grown) })
                (omega (arith, f.grown, le)))
          | inr (z, r) ↦ rw r tt
        ])
        | inr q ↦ rw q (
            let b = nothing_buffered cm laws S splits new_splitter w.buffer w.indirect_index q in
            each w (record { wrote = h; empty = b.0; nonempty = b.1 }) (omega (arith, le)))
      ]

  indirect_result-Returns :
      (w : ChunkWriter cm) (x : Outcome cm S new_splitter)
      → Returns x
      → Returns (indirect_result cm S new_splitter w x)
  unfolding indirect_result
  indirect_result-Returns w none r = absurd r
  indirect_result-Returns w (some (err e, v)) r = tt
  indirect_result-Returns w (some (ok oid, v)) r = tt

  pow_half : (k n i : ℕ) → n ≤ 2 ^ suc k → 2 * i ≤ n + 1 → i ≤ 2 ^ k
  pow_half k n i le h = omega (arith, le, h)

  -- the chunks of the index object are at most half of those that it lists
  fewer_chunks :
      (k : ℕ) (w v : ChunkWriter cm)
      → All (IsListed cm laws) w.indirect_index
      → 2 ≤ length w.indirect_index
      → length w.indirect_index ≤ 2 ^ suc k
      → m * length v.indirect_index ≤ m * 0 + length (cm.encode_index w.indirect_index)
      → length v.indirect_index + 1 ≤ 2 ^ k
  fewer_chunks k w v is two le few =
      let n = length w.indirect_index in
      let total : m * (length v.indirect_index + 1) ≤ c * n + c + m =
        omega (arith, few, small.encode_size w.indirect_index is) in
      pow_half k n (length v.indirect_index + 1) le
        (halves m c n (length v.indirect_index + 1) small.m_positive small.c-le-m total two)

  after_index_write-Returns :
      (k : ℕ) (w : ChunkWriter cm) (checkpoint : ChunkWriter cm → Outcome cm S new_splitter)
      (x : Option (Result Error (Unit {0}) × S.State × ChunkWriter cm))
      → All (IsListed cm laws) w.indirect_index
      → 2 ≤ length w.indirect_index
      → length w.indirect_index ≤ 2 ^ suc k
      → length (cm.encode_index w.indirect_index) < 2 ^ 63
      → ((v : ChunkWriter cm) (bytes : List ℕ)
          → length bytes < 2 ^ 63
          → AllFlushed cm laws S splits new_splitter v bytes
          → length v.indirect_index ≤ 2 ^ k
          → Returns (checkpoint v))
      → Ends cm S splits x
      → Took cm laws S splits w.store (cm.encode_index w.indirect_index) x
      → Few cm laws S splits m small.long
          (index_writer cm S new_splitter w)
          (cm.encode_index w.indirect_index)
          x
      → Returns (after_index_write cm S new_splitter checkpoint w x)
  unfolding index_writer
  after_index_write-Returns k w checkpoint none is two le short each ends took few = absurd ends
  after_index_write-Returns k w checkpoint (some (err e, t, v)) is two le short each ends took few =
      tt
  after_index_write-Returns k w checkpoint (some (ok u, t, v)) is two le short each ends took few =
      indirect_result-Returns w (result_with cm S new_splitter checkpoint v) (
        result_with-Returns (2 ^ k) v (cm.encode_index w.indirect_index) checkpoint took.0
          (fewer_chunks k w v is two le few)
          (λ u1 f n. each u1 (cm.encode_index w.indirect_index) short f n))

  indirect-Returns :
      (k : ℕ) (w : ChunkWriter cm) (checkpoint : ChunkWriter cm → Outcome cm S new_splitter)
      → All (IsListed cm laws) w.indirect_index
      → 2 ≤ length w.indirect_index
      → length w.indirect_index ≤ 2 ^ suc k
      → length (cm.encode_index w.indirect_index) < 2 ^ 63
      → ((v : ChunkWriter cm) (bytes : List ℕ)
          → length bytes < 2 ^ 63
          → AllFlushed cm laws S splits new_splitter v bytes
          → length v.indirect_index ≤ 2 ^ k
          → Returns (checkpoint v))
      → Returns (write_indirect_object cm S new_splitter checkpoint w)
  unfolding write_indirect_object index_writer
  indirect-Returns k w checkpoint is two le short each =
      let text = cm.encode_index w.indirect_index in
      let iw = index_writer cm S new_splitter w in
      let start = index_writer-Wrote cm laws S splits new_splitter w in
      after_index_write-Returns k w checkpoint (write_loop cm S (length text) new_splitter iw text)
        is two le short each
        (write_loop-Ends cm S splits (length text) new_splitter iw text small.ready (omega arith))
        (write_loop-Took cm laws S splits (length text) new_splitter iw [] text start)
        (write_loop-Few cm laws S splits m small.long (length text) new_splitter iw [] text start
          small.fresh)

  by_entries-Returns :
      (w : ChunkWriter cm) (indirect : ChunkWriter cm → Outcome cm S new_splitter) (es : List Entry)
      → (2 ≤ length es → Returns (indirect w))
      → Returns (by_entries cm S new_splitter indirect w es)
  by_entries-Returns w indirect [] r = tt
  by_entries-Returns w indirect (e ∷ []) r = tt
  by_entries-Returns w indirect (e ∷ e1 ∷ es) r = r (omega arith)

  flushed-IsListed :
      (w : ChunkWriter cm) (bytes : List ℕ)
      → AllFlushed cm laws S splits new_splitter w bytes
      → length bytes < 2 ^ 63
      → All (IsListed cm laws) w.indirect_index
  flushed-IsListed w bytes h lt =
      let all = ap length h.wrote.all in
      Holds-IsListed cm laws w.store 0 w.indirect_index h.wrote.pieces h.wrote.holds
        (omega (arith, lt, all, length-append (flatten h.wrote.pieces) w.buffer))

  -- the text of an index is short, if it has at most 2 ^ k entries
  text-short :
      (k : ℕ) (es : List Entry)
      → All (IsListed cm laws) es
      → length es ≤ 2 ^ k
      → c * 2 ^ k + c < 2 ^ 63
      → length (cm.encode_index es) < 2 ^ 63
  text-short k es is le lt = omega (arith, small.encode_size es is, mul-le-mul_left c le, lt)

  half_short : (k : ℕ) → c * 2 ^ suc k + c < 2 ^ 63 → c * 2 ^ k + c < 2 ^ 63
  half_short k lt =
      let half : 2 ^ k ≤ 2 ^ suc k = omega arith in omega (arith, mul-le-mul_left c half, lt)

  checkpoint-Returns :
      (k : ℕ) (w : ChunkWriter cm) (bytes : List ℕ)
      → length bytes < 2 ^ 63
      → c * 2 ^ k + c < 2 ^ 63
      → AllFlushed cm laws S splits new_splitter w bytes
      → length w.indirect_index ≤ 2 ^ k
      → Returns (checkpoint_locked cm S new_splitter (suc k) w)
  checkpoint-Returns zero w bytes lt text h le =
      rw (checkpoint_round cm laws S splits new_splitter 0 w h.wrote.idle h.wrote.no_error) (
        by_entries-Returns w
          (write_indirect_object cm S new_splitter (checkpoint_locked cm S new_splitter 0))
          w.indirect_index (λ two. absurd (omega (arith, two, le))))
  checkpoint-Returns (suc k) w bytes lt text h le =
      let is = flushed-IsListed w bytes h lt in
      rw (checkpoint_round cm laws S splits new_splitter (suc k) w h.wrote.idle h.wrote.no_error) (
        by_entries-Returns w
          (write_indirect_object cm S new_splitter (checkpoint_locked cm S new_splitter (suc k)))
          w.indirect_index
          (λ two.
            indirect-Returns k w (checkpoint_locked cm S new_splitter (suc k)) is two le
              (text-short (suc k) w.indirect_index is le text)
              (λ v more lt1 f n. checkpoint-Returns k v more lt1 (half_short k text) f n)))

  -- What Result has made of these bytes: a result there is, and an object reads back.
  abbrev pub RoundTrip : Store → List ℕ → ℕ → Outcome cm S new_splitter → Type 0
  RoundTrip s bytes k none = ⊥
  RoundTrip s bytes k (some (err e, v)) = Unit
  RoundTrip s bytes k (some (ok oid, v)) =
      Reads cm laws v.store oid bytes × (oid.indirection ≤ k) × Kept cm laws s v.store

  RoundTrip-Returns :
      (s : Store) (bytes : List ℕ) (k : ℕ) (x : Outcome cm S new_splitter)
      → Returns x
      → ReadsBack cm laws S splits new_splitter s bytes (suc k) x
      → RoundTrip s bytes k x
  RoundTrip-Returns s bytes k none r b = absurd r
  RoundTrip-Returns s bytes k (some (err e, v)) r b = tt
  RoundTrip-Returns s bytes k (some (ok oid, v)) r b = (b.0, omega (arith, b.1), b.2)

  -- From a writer without asynchronous writes that has taken some bytes, fewer than 2 ^ 63, with no error and
  -- fewer than 2 ^ k chunks flushed, where k is at most 255 and an index of 2 ^ k entries has a text of fewer
  -- than 2 ^ 63 bytes: Result returns, within k + 1 rounds of checkpointLocked, and an object that it
  -- returns reads back as exactly those bytes, has at most k levels of indirection, and no content of
  -- the store is lost. The splitter of the index objects makes segments that are long enough
  -- (IsShrinking), and the libraries give back what was written (IsContents).
  pub result-RoundTrip :
      (k : ℕ) (w : ChunkWriter cm) (bytes : List ℕ)
      → k ≤ 255
      → length bytes < 2 ^ 63
      → c * 2 ^ k + c < 2 ^ 63
      → Wrote cm laws w bytes
      → length w.indirect_index < 2 ^ k
      → RoundTrip w.store bytes k (result cm S new_splitter (suc k) w)
  unfolding result
  result-RoundTrip k w bytes le few_bytes text h lt =
      RoundTrip-Returns w.store bytes k (result cm S new_splitter (suc k) w)
        (result_with-Returns (2 ^ k) w bytes (checkpoint_locked cm S new_splitter (suc k)) h
          (omega (arith, lt)) (λ v f n. checkpoint-Returns k v bytes few_bytes text f n))
        (result-ReadsBack cm laws S splits new_splitter (suc k) w bytes (omega (arith, le)) h)
