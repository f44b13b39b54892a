-- ===== src/Object/Writer/Levels.antt =====
-- The levels of indirection of checkpointLocked in repo/object/object_writer.go: the index of an
-- object is about half as long as that of the object below it, so the recursion ends.
use native.Mathlib.Nat.{mul-le-mul_right, mul-le-mul_left}
use kopia.Prelude.{
  ℕ, zero, suc, ◌+◌, ◌*◌, ◌≤◌, ◌<◌, ◌≡◌, refl, ap, inl, inr, false, List, [], ◌∷◌, ◌++◌, Option,
  none, some, length, take, drop, Result, ok, err, arith, Bool-cases, Option-cases, length-drop,
  leb, tests,
}
use kopia.Object.Read.{IsContents}
use kopia.Object.Writer.{Contents, ChunkWriter, flush_buffer, append_buffer, write_loop}
use kopia.Object.Writer.Streaming.{go_on, write_loop-round, write_loop-nil}
use kopia.Object.Writer.Flushed.{Wrote, flush-Flushed, Wrote-append_buffer}
use kopia.Splitter.{Splitter, IsSplitter}

-- The segments of a splitter have at least m bytes, from a state where a segment begins.
pub record IsLong (S : Splitter) (m : ℕ) : Type 1 where
  pub Fresh : S.State → Type 0
  pub next_long :
      (s : S.State) (b : List ℕ) (n : ℕ)
      → Fresh s
      → (S.next_split_point s b).0 ≡ some n
      → (m ≤ n) × (n ≤ length b) × Fresh (S.next_split_point s b).1

few_entries : (n j : ℕ) → leb (2 * suc (suc j)) (n + 1) ≡ false → n ≤ 2 + 2 * j
few_entries n j q = ground arith

pub halves : (m c n k : ℕ) → 0 < m → 4 * c ≤ m → m * k ≤ c * n + c + m → 2 ≤ n → 2 * k ≤ n + 1
halves m c n zero pos le total two = omega arith
halves m c n (suc zero) pos le total two = omega (arith, two)
halves m c n (suc (suc j)) pos le total two = elim (Bool-cases (leb (2 * suc (suc j)) (n + 1))) [
  | inl q ↦ omega (tests, q)
  | inr q ↦
      let few = few_entries n j q in
      absurd (omega (arith, mul-le-mul_right j le, mul-le-mul_left c few, total, le, pos))
]

module _ (cm : Contents) (laws : IsContents cm) (S : Splitter) (splits : IsSplitter S) (m : ℕ)
    (long : IsLong S m) where
  open cm use {Store, Error}
  open S use {State, next_split_point}

  -- every entry that was added stands for m bytes at least
  abbrev pub Few :
      ChunkWriter cm → List ℕ → Option (Result Error (Unit {0}) × State × ChunkWriter cm) → Type 0
  Few w bytes none = Unit
  Few w bytes (some (err e, t, v)) = Unit
  Few w bytes (some (ok u, t, v)) =
      m * length v.indirect_index ≤ m * length w.indirect_index + length bytes

  Few-round :
      (w v : ChunkWriter cm) (n : ℕ) (bytes : List ℕ)
      (x : Option (Result Error (Unit {0}) × State × ChunkWriter cm))
      → length v.indirect_index ≡ length w.indirect_index + 1
      → m ≤ n
      → n ≤ length bytes
      → Few v (drop n bytes) x
      → Few w bytes x
  Few-round w v n bytes none e le h f = tt
  Few-round w v n bytes (some (err z, t, u)) e le h f = tt
  Few-round w v n bytes (some (ok z, t, u)) e le h f =
      let one = ap (λ i. m * i) e in omega (arith, one, f, le, h, length-drop n bytes)

  go_on-Few :
      (w : ChunkWriter cm) (bytes : List ℕ) (x : Result Error (Unit {0}) × ChunkWriter cm)
      (t : State) (rest : List ℕ)
      (k : State
        → ChunkWriter cm
        → List ℕ
        → Option (Result Error (Unit {0}) × State × ChunkWriter cm))
      → (x.0 ≡ ok tt → Few w bytes (k t x.1 rest))
      → Few w bytes (go_on cm S splits x t rest k)
  go_on-Few w bytes (ok u, v) t rest k h = h refl
  go_on-Few w bytes (err e, v) t rest k h = tt

  pub write_loop-Few :
      (fuel : ℕ) (s : State) (w : ChunkWriter cm) (before bytes : List ℕ)
      → Wrote cm laws w before
      → long.Fresh s
      → Few w bytes (write_loop cm S fuel s w bytes)
  write_loop-Few fuel s w before [] h f = rw (write_loop-nil cm S splits fuel s w) (omega arith)
  write_loop-Few zero s w before (b ∷ bs) h f = unfold write_loop in tt
  write_loop-Few (suc fuel) s w before (b ∷ bs) h f =
      let more = b ∷ bs in
      rw (write_loop-round cm S splits fuel s w b bs)
        (elim (Option-cases (next_split_point s more).0) [
          | inl p ↦ rw p (omega arith)
          | inr (n, p) ↦
              let v = append_buffer cm w (take n more) in
              let x = flush_buffer cm v in
              let t = (next_split_point s more).1 in
              let l = long.next_long s more n f p in
              rw p (
                go_on-Few w more x t (drop n more) (write_loop cm S fuel) (λ q.
                  let g =
                    flush-Flushed cm laws v (before ++ take n more)
                      (Wrote-append_buffer cm laws w before (take n more) h) q in
                  Few-round w x.1 n more _ g.grown l.0 l.1
                    (write_loop-Few fuel t x.1 (before ++ take n more) (drop n more) g.wrote l.2)))
        ])
