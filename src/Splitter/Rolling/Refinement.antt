-- ===== src/Splitter/Rolling/Refinement.antt =====
-- NextSplitPoint of repo/splitter/splitter_buzhash32.go and splitter_rabinkarp64.go against the
-- reference that reads every byte.
use kopia.Prelude.{
  ℕ, ◌+◌, ◌-◌, ◌≤◌, ◌<◌, ◌≡◌, refl, sym, subst, inl, inr, List, ◌++◌, Option, length, take, drop,
  ltb, leb, if◌then◌else◌, arith, Bool-cases, length-append, length-take, length-drop,
  take-append-drop, take-length, lt→ltb, ◌∙◌,
}
use kopia.Splitter.Rolling.{
  RollingHash, RollingSplitter, IsWindowed, roll_all, fast_path, split_loop, finish_loop,
  next_split_point, split_over_max, sliding_window_size,
}
use kopia.Splitter.Rolling.Scan.{
  SameSums, SameSums-refl, Alike-refl, IsReady, scan, SameResult, scan-Alike, scan_skip, scan_stop,
  loop_lem, roll_all-append,
}

module _ (r : RollingHash) where
  open r use {Hash, roll, sum}

  -- The part of the code behind the fast path.
  abbrev second_part : ℕ → RollingSplitter r → List ℕ → Option ℕ × RollingSplitter r
  second_part f s rest =
      let left = s.max_size - s.count in
      let fp = (if leb (length rest) left then length rest else left) in
      if ltb 0 left
      then finish_loop r f fp (split_loop r s 0 (take fp rest))
      else split_over_max r f s

  second_part_lem :
      (f : ℕ) (s : RollingSplitter r) (b : List ℕ)
      → (0 < length b → s.min_size ≤ s.count + 1)
      → s.count < s.max_size
      → second_part f s b ≡ scan r s f b
  second_part_lem f s b m lt = elim (Bool-cases (leb (length b) (s.max_size - s.count))) [
    | inl p ↦
        rw (lt→ltb 0 (s.max_size - s.count) (omega arith), p, take-length b)
          (loop_lem r s f 0 f (length b) b (omega arith) (omega arith) m (ground arith) lt)
    | inr p ↦
        let left = s.max_size - s.count in
        let len : length (take left b) ≡ left = ground (arith, length-take left b) in
        rw (lt→ltb 0 (s.max_size - s.count) (omega arith), p)
          (loop_lem r s f 0 f left (take left b) (omega arith) (omega arith) (λ z. m (ground arith))
              (omega arith) lt
            ∙ sym (
                rw (take-append-drop left b) at
                  (scan_stop r s f (take left b) (drop left b) lt (omega arith))))
  ]

  module _ (w : IsWindowed r) where
    forgets_long :
        (g h : Hash) (d : List ℕ)
        → sliding_window_size ≤ length d
        → sum (roll_all r g d) ≡ sum (roll_all r h d)
    forgets_long g h d le =
        let n = length d - sliding_window_size in
        rw
          (
            ← take-append-drop n d,
            roll_all-append r g (take n d) (drop n d),
            roll_all-append r h (take n d) (drop n d),
          )
          (w.forgets _ _ (drop n d) (omega (arith, length-drop n d)))

    -- 64 bytes determine all that follows.
    forgets_window :
        (g h : Hash) (d : List ℕ)
        → length d ≡ sliding_window_size
        → SameSums r (roll_all r g d) (roll_all r h d)
    forgets_window g h d e = record {
      sums = λ k.
          rw (← roll_all-append r g d k, ← roll_all-append r h d k)
            (forgets_long g h (d ++ k) (omega (arith, length-append d k)));
    }

    -- The bytes before the last 64 need not be rolled.
    window_suffices :
        (h : Hash) (d : List ℕ) (k : ℕ)
        → k ≡ length d - sliding_window_size
        → SameSums r (roll_all r h (drop k d)) (roll_all r h d)
    window_suffices h d k e = elim (Bool-cases (ltb 0 k)) [
      | inr p ↦ let z : k ≡ 0 = ground arith in rw z (SameSums-refl r (roll_all r h d))
      | inl p ↦
          let joined =
            forgets_window h (roll_all r h (take k d)) (drop k d)
              (ground (arith, length-drop k d)) in
          rw (← roll_all-append r h (take k d) (drop k d), take-append-drop k d) at joined
    ]

    -- Passing over `n` bytes below the minimum, and going on behind them.
    fast_part :
        (s : RollingSplitter r) (n : ℕ) (b : List ℕ)
        → n ≤ length b
        → s.count + n < s.min_size
        → s.min_size ≤ s.max_size
        → (n < length b → s.min_size ≤ s.count + n + 1)
        → SameResult r
            (second_part n
              (record s {
                rh = roll_all r s.rh (drop (n - sliding_window_size) (take n b));
                count = s.count + n;
              })
              (drop n b))
            (scan r s 0 b)
    fast_part s n b le lo hi m =
        let len : length (take n b) ≡ n = omega (arith, length-take n b) in
        let skipped = rw (take-append-drop n b) at (
          scan_skip r s 0 (take n b) (drop n b) (s.count + n) n (omega arith) (omega arith) lo
            hi) in
        let passed : RollingSplitter r = record s {
          rh = roll_all r s.rh (drop (n - sliding_window_size) (take n b));
          count = s.count + n;
        } in
        rw
          (
            second_part_lem n passed (drop n b) (λ z. m (omega (arith, length-drop n b)))
                (omega arith),
            skipped,
          )
          (scan-Alike r _ _ n (drop n b) (record {
            hash = window_suffices s.rh (take n b) (n - sliding_window_size) (omega arith);
            mask = refl;
            count = refl;
            min_size = refl;
            max_size = refl;
          }))

    -- From every state that a call may find, NextSplitPoint returns the split point of the reference
    -- that rolls and tests every byte, and leaves a state that behaves like the reference's.
    pub next_split_point-scan :
        (s : RollingSplitter r) (b : List ℕ)
        → IsReady r s
        → SameResult r (next_split_point r s b) (scan r s 0 b)
    unfolding next_split_point fast_path
    next_split_point-scan s b ready = elim (Bool-cases (ltb 0 (s.min_size - s.count - 1))) [
      | inl p ↦ rw p (fast_part s _ b (ground arith) (ground arith) ready.min-le-max (ground arith))
      | inr p ↦ rw p (
          subst (λ x. SameResult r x (scan r s 0 b))
            (sym (second_part_lem 0 s b (λ z. ground arith) ready.below_max))
            (refl, Alike-refl r (scan r s 0 b).1))
    ]
