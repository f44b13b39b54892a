-- ===== src/Splitter/Rolling/Streaming.antt =====
-- The split points that NextSplitPoint of repo/splitter/splitter_buzhash32.go finds do not depend on
-- how the bytes are handed to it.
use kopia.Prelude.{
  ℕ, ◌+◌, ◌≡◌, refl, ap, inl, inr, List, [], ◌∷◌, ◌++◌, Option, none, some, length, arith,
  Bool-cases,
}
use mathlib.Core.Option
use kopia.Splitter.Rolling.{RollingHash, RollingSplitter, IsWindowed, next_split_point}
use kopia.Splitter.Rolling.Scan.{
  Alike, IsReady, scan, ends_here, advance, SameResult, SameResult-sym, SameResult-trans,
  scan-Alike,
}
use kopia.Splitter.Rolling.Refinement.{next_split_point-scan}
use kopia.Splitter.Rolling.Segments.{next_split_point-IsReady}

module _ (r : RollingHash) where
  -- The result on a slice that another one follows: a split point stands, and the bytes of a slice
  -- without one are counted in front of those of the next.
  abbrev pub and_then :
      Option ℕ × RollingSplitter r
      → ℕ
      → (RollingSplitter r → Option ℕ × RollingSplitter r)
      → Option ℕ × RollingSplitter r
  and_then (some n, s) size next = (some n, s)
  and_then (none, s) size next = let (at, t) = next s in (Option.map (λ n. size + n) at, t)

  scan-shift :
      (s : RollingSplitter r) (i j k : ℕ) (b : List ℕ)
      → i + j ≡ k
      → scan r s k b ≡ (Option.map (λ n. i + n) (scan r s j b).0, (scan r s j b).1)
  unfolding scan
  scan-shift s i j k [] e = refl
  scan-shift s i j k (x ∷ b) e = elim (Bool-cases (ends_here r (advance r s x))) [
    | inl p ↦ rw p (ground arith)
    | inr p ↦ rw p (scan-shift (advance r s x) i (j + 1) (k + 1) b (omega arith))
  ]

  abbrev resume : Option ℕ × RollingSplitter r → ℕ → List ℕ → Option ℕ × RollingSplitter r
  resume (some n, s) i b = (some n, s)
  resume (none, s) i b = scan r s i b

  scan-append :
      (s : RollingSplitter r) (i j : ℕ) (a b : List ℕ)
      → i + length a ≡ j
      → scan r s i (a ++ b) ≡ resume (scan r s i a) j b
  unfolding scan
  scan-append s i j [] b e = let q : i ≡ j = omega arith in rw q
  scan-append s i j (x ∷ a) b e = elim (Bool-cases (ends_here r (advance r s x))) [
    | inl p ↦ rw p
    | inr p ↦ rw p (scan-append (advance r s x) (i + 1) j a b (omega arith))
  ]

  resume-and_then :
      (x : Option ℕ × RollingSplitter r) (n : ℕ) (b : List ℕ)
      → resume x n b ≡ and_then x n (λ t. scan r t 0 b)
  resume-and_then (some k, s) n b = refl
  resume-and_then (none, s) n b = scan-shift s n 0 n b (omega arith)

  pub IsReady-Alike : (s t : RollingSplitter r) → Alike r s t → IsReady r s → IsReady r t
  IsReady-Alike s t e h = omega arith

  module _ (w : IsWindowed r) where
    -- Two states that behave alike have the same results, and behave alike after them.
    pub next_split_point-Alike :
        (s t : RollingSplitter r) (b : List ℕ)
        → IsReady r s
        → Alike r s t
        → SameResult r (next_split_point r s b) (next_split_point r t b)
    next_split_point-Alike s t b ready e =
        let ready' = IsReady-Alike s t e ready in
        SameResult-trans r _ _ _ (next_split_point-scan r w s b ready) (
          SameResult-trans r _ _ _ (scan-Alike r s t 0 b e)
            (SameResult-sym r _ _ (next_split_point-scan r w t b ready')))

    and_then-same :
        (x y : Option ℕ × RollingSplitter r) (n : ℕ) (b : List ℕ)
        → IsReady r x.1
        → SameResult r x y
        → SameResult r
            (and_then x n (λ t. next_split_point r t b))
            (and_then y n (λ t. scan r t 0 b))
    and_then-same (some k, s) (some m, t) n b ready e = e
    and_then-same (some k, s) (none, t) n b ready e = absurd (ground (arith, e.0))
    and_then-same (none, s) (some m, t) n b ready e = absurd (ground (arith, e.0))
    and_then-same (none, s) (none, t) n b ready e =
        let h =
          SameResult-trans r _ _ _ (next_split_point-scan r w s b ready)
            (scan-Alike r s t 0 b e.1) in
        (ap (Option.map (λ k. n + k)) h.0, h.1)

    -- A slice in two parts: the result on the whole is the one on the first part, and, where that has
    -- no split point, the one on the second part, counted from the start.
    pub next_split_point-append :
        (s : RollingSplitter r) (a b : List ℕ)
        → IsReady r s
        → SameResult r
            (next_split_point r s (a ++ b))
            (and_then (next_split_point r s a) (length a) (λ t. next_split_point r t b))
    next_split_point-append s a b ready =
        let part = next_split_point-scan r w s a ready in
        let whole = next_split_point-scan r w s (a ++ b) ready in
        SameResult-trans r _ _ _
          (rw (scan-append s 0 (length a) a b (omega arith), resume-and_then) at whole)
          (SameResult-sym r _ _
            (and_then-same _ _ (length a) b (next_split_point-IsReady r w s a ready) part))
