-- ===== src/Splitter/Rolling/Segments.antt =====
-- The sizes of the segments that NextSplitPoint of repo/splitter/splitter_buzhash32.go cuts.
use kopia.Prelude.{
  ℕ, suc, ◌+◌, ◌≤◌, ◌<◌, ◌≡◌, refl, true, false, inl, inr, List, [], ◌∷◌, Option, none, some,
  length, arith, Bool-cases,
}
use kopia.Splitter.Rolling.{RollingHash, RollingSplitter, IsWindowed, next_split_point}
use kopia.Splitter.Rolling.Scan.{Alike, IsReady, scan, ends_here, advance}
use kopia.Splitter.Rolling.Refinement.{next_split_point-scan}

module _ (r : RollingHash) where
  -- What the result on a slice of `size` bytes, `i` of the bytes before it read in the same call,
  -- says of the state: at a split point the segment is complete, and the next one begins; otherwise
  -- all bytes count towards the segment that goes on.
  abbrev pub Cut : RollingSplitter r → ℕ → ℕ → Option ℕ → ℕ → Type 0
  Cut s i size (some n) count =
      (i < n)
      × (n ≤ i + size)
      × (s.min_size + i ≤ s.count + n)
      × (s.count + n ≤ s.max_size + i)
      × (count ≡ 0)
  Cut s i size none count = (count ≡ s.count + size) × (count < s.max_size)

  ends_here_min :
      (s : RollingSplitter r)
      → s.min_size ≤ s.max_size
      → ends_here r s ≡ true
      → s.min_size ≤ s.count
  unfolding ends_here
  ends_here_min s le e = ground arith

  ends_here_max : (s : RollingSplitter r) → ends_here r s ≡ false → s.count < s.max_size
  unfolding ends_here
  ends_here_max s e = ground arith

  -- One byte more in front of the slice.
  Cut-cons :
      (s : RollingSplitter r) (b i size : ℕ) (at : Option ℕ) (t : RollingSplitter r)
      → Cut (advance r s b) (i + 1) size at t.count
        × (t.min_size ≡ s.min_size)
        × (t.max_size ≡ s.max_size)
      → Cut s i (suc size) at t.count × (t.min_size ≡ s.min_size) × (t.max_size ≡ s.max_size)
  Cut-cons s b i size (some n) t h = omega arith
  Cut-cons s b i size none t h = omega arith

  scan-Cut :
      (s : RollingSplitter r) (i : ℕ) (b : List ℕ)
      → IsReady r s
      → Cut s i (length b) (scan r s i b).0 (scan r s i b).1.count
        × ((scan r s i b).1.min_size ≡ s.min_size)
        × ((scan r s i b).1.max_size ≡ s.max_size)
  unfolding scan
  scan-Cut s i [] ready = (ground arith, refl, refl)
  scan-Cut s i (x ∷ b) ready = elim (Bool-cases (ends_here r (advance r s x))) [
    | inl p ↦ rw p (ground (arith, ends_here_min (advance r s x) ready.min-le-max p))
    | inr p ↦ rw p (
        Cut-cons s x i (length b) (scan r (advance r s x) (i + 1) b).0
          (scan r (advance r s x) (i + 1) b).1
          (scan-Cut (advance r s x) (i + 1) b (record {
            below_max = ends_here_max (advance r s x) p;
            min-le-max = ready.min-le-max;
          })))
  ]

  Cut-IsReady :
      (s t : RollingSplitter r) (size : ℕ) (at : Option ℕ)
      → IsReady r s
      → Cut s 0 size at t.count × (t.min_size ≡ s.min_size) × (t.max_size ≡ s.max_size)
      → IsReady r t
  Cut-IsReady s t size (some n) ready h = omega arith
  Cut-IsReady s t size none ready h = omega arith

  module _ (w : IsWindowed r) where
    Cut-Alike :
        (s t u : RollingSplitter r) (size : ℕ) (at at' : Option ℕ)
        → at ≡ at'
        → Alike r t u
        → Cut s 0 size at' u.count × (u.min_size ≡ s.min_size) × (u.max_size ≡ s.max_size)
        → Cut s 0 size at t.count × (t.min_size ≡ s.min_size) × (t.max_size ≡ s.max_size)
    Cut-Alike s t u size at at' e a h = rw (e, a.count, a.min_size, a.max_size) h

    -- From every state that a call may find: a split point lies behind at least one and at most all of
    -- the bytes, the segment that it ends has between minSize and maxSize bytes, and the count begins
    -- anew; with no split point all bytes are counted, and the segment is still shorter than maxSize.
    -- The sizes of the splitter stay as they are.
    pub next_split_point-Cut :
        (s : RollingSplitter r) (b : List ℕ)
        → IsReady r s
        → Cut s 0 (length b) (next_split_point r s b).0 (next_split_point r s b).1.count
          × ((next_split_point r s b).1.min_size ≡ s.min_size)
          × ((next_split_point r s b).1.max_size ≡ s.max_size)
    next_split_point-Cut s b ready =
        let e = next_split_point-scan r w s b ready in
        Cut-Alike s _ _ (length b) _ _ e.0 e.1 (scan-Cut s 0 b ready)

    pub next_split_point-IsReady :
        (s : RollingSplitter r) (b : List ℕ) → IsReady r s → IsReady r (next_split_point r s b).1
    next_split_point-IsReady s b ready =
        Cut-IsReady s _ (length b) _ ready (next_split_point-Cut s b ready)
