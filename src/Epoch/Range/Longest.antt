-- ===== src/Epoch/Range/Longest.antt =====
-- The chain that internal/epoch/epoch_range.go finds is the longest, with a memo or without one.
use mathlib.Core.List.{Memᴰ}
use kopia.Prelude.{
  ℕ, zero, suc, ◌+◌, ◌≤◌, ◌<◌, ◌≡◌, ◌⊎◌, refl, inl, inr, true, false, List, All, [], ◌∷◌, Option,
  none, some, length, ◌==◌, arith, ==_iff, sym, ◌∙◌, Bool-cases, ap,
}
use kopia.Epoch.Range.{
  RangeMetadata, by_min, Memo, lookup, last_max_epoch, is_longer, Found, try_ranges, memoize,
  compare_longest, unless_memoized, find_starting_at, find_longest_range_checkpoint,
}

abbrev pub last_epoch : List RangeMetadata → ℕ
last_epoch [] = 0
last_epoch (r ∷ rs) = last_max_epoch r rs

-- One chain reaches further than another, or as far with no more ranges; what ends at epoch 0 counts
-- as nothing.
abbrev pub Better : List RangeMetadata → List RangeMetadata → Type 0
Better r c =
    (last_epoch c ≡ 0)
    ⊎ ((last_epoch c < last_epoch r) ⊎ ((last_epoch c ≡ last_epoch r) × (length r ≤ length c)))

module _ (ranges : List RangeMetadata) where
  -- ranges of the list that follow one another from an epoch on
  abbrev pub Chain : ℕ → List RangeMetadata → Type 0
  Chain s [] = Unit
  Chain s (x ∷ xs) = Memᴰ x ranges × (x.min_epoch ≡ s) × Chain (suc x.max_epoch) xs

  -- a longest chain
  pub record Best (s : ℕ) (r : List RangeMetadata) : Type 0 where
    pub chain : Chain s r
    pub best : (c : List RangeMetadata) → Chain s c → Better r c

  abbrev Good : Memo → Type 0
  Good memo = All (λ e. Best e.0 e.1) memo

  abbrev pub IsOptimal : ℕ → Found → Type 0
  IsOptimal s none = ⊥
  IsOptimal s (some (r, memo)) = Best s r × Good memo

  module _ (high : ℕ)
      (sound : (r : RangeMetadata)
        → Memᴰ r ranges
        → (r.min_epoch ≤ r.max_epoch) × (r.max_epoch < high)) where
    start_le_last :
        (s : ℕ) (x : RangeMetadata) (xs : List RangeMetadata)
        → Chain s (x ∷ xs)
        → s ≤ last_max_epoch x xs
    start_le_last s x [] c = omega (arith, c.1, sound x c.0)
    start_le_last s x (y ∷ ys) c =
        omega (arith, c.1, sound x c.0, start_le_last (suc x.max_epoch) y ys c.2)

    Better-cons :
        (cp : RangeMetadata) (r c : List RangeMetadata)
        → Chain (suc cp.max_epoch) r
        → Chain (suc cp.max_epoch) c
        → Better r c
        → Better (cp ∷ r) (cp ∷ c)
    Better-cons cp [] [] hr hc b = inr (inr (refl, omega arith))
    Better-cons cp (y ∷ ys) [] hr hc b =
        inr (inl (omega (arith, start_le_last (suc cp.max_epoch) y ys hr)))
    Better-cons cp [] (z ∷ zs) hr hc b = elim b [
      | inl e ↦ absurd (omega (arith, e, start_le_last (suc cp.max_epoch) z zs hc))
      | inr e ↦ absurd (ground (arith, e, start_le_last (suc cp.max_epoch) z zs hc))
    ]
    Better-cons cp (y ∷ ys) (z ∷ zs) hr hc b = elim b [
      | inl e ↦ inl e
      | inr e ↦ elim e [ inl q ↦ inr (inl q) | inr q ↦ inr (inr (q.0, omega (arith, q.1))) ]
    ]

    same_entry :
        (t s : ℕ) (r l : List RangeMetadata)
        → Best t r
        → t ≡ s
        → Path (Option (List RangeMetadata)) (some r) (some l)
        → Best s l
    same_entry t s r l b e q = let same : r ≡ l = cc in rw (← e, ← same) b

    lookup-Best :
        (memo : Memo) (s : ℕ) (l : List RangeMetadata)
        → Good memo
        → lookup memo s ≡ some l
        → Best s l
    unfolding lookup
    lookup-Best [] s l g e = absurd (ground (arith, e))
    lookup-Best ((t, r) ∷ memo) s l g e = elim (Bool-cases (t == s)) [
      | inl p ↦ same_entry t s r l g.0 ((==_iff t s).0 p) (rw p at e)
      | inr p ↦ lookup-Best memo s l g.1 (rw p at e)
    ]

    q_min :
        (r : RangeMetadata) (s : ℕ) (x : RangeMetadata)
        → x ≡ r
        → x.min_epoch ≡ s
        → (r.min_epoch == s) ≡ true
    q_min r s x q e = (==_iff r.min_epoch s).1 (ap (λ y. y.min_epoch) (sym q) ∙ e)

    by_min-Memᴰ :
        (rs : List RangeMetadata) (x : RangeMetadata) (s : ℕ)
        → Memᴰ x rs
        → x.min_epoch ≡ s
        → Memᴰ x (by_min rs s)
    unfolding by_min
    by_min-Memᴰ [] x s m e = elim m [ ]
    by_min-Memᴰ (r ∷ rs) x s (Memᴰ.head q) e = rw (q_min r s x q e) (Memᴰ.head q)
    by_min-Memᴰ (r ∷ rs) x s (Memᴰ.tail m) e = elim (Bool-cases (r.min_epoch == s)) [
      | inl p ↦ rw p (Memᴰ.tail (by_min-Memᴰ rs x s m e))
      | inr p ↦ rw p (by_min-Memᴰ rs x s m e)
    ]

    by_min-All :
        (rs : List RangeMetadata) (s : ℕ)
        → ((x : RangeMetadata) → Memᴰ x rs → Memᴰ x ranges)
        → All (λ x. Memᴰ x ranges × (x.min_epoch ≡ s)) (by_min rs s)
    unfolding by_min
    by_min-All [] s sub = tt
    by_min-All (r ∷ rs) s sub = elim (Bool-cases (r.min_epoch == s)) [
      | inl p ↦ rw p (
        (sub r (Memᴰ.head refl), (==_iff r.min_epoch s).0 p),
        by_min-All rs s (λ x m. sub x (Memᴰ.tail m)),
      )
      | inr p ↦ rw p (by_min-All rs s (λ x m. sub x (Memᴰ.tail m)))
    ]

    -- what the loop keeps: its best chain so far, against all that begin with a range already tried
    record Tried (s : ℕ) (cps : List RangeMetadata) (r : List RangeMetadata) : Type 0 where
      chain : Chain s r
      beats :
          (x : RangeMetadata) (xs : List RangeMetadata)
          → Chain s (x ∷ xs)
          → Memᴰ x cps ⊎ Better r (x ∷ xs)

    Better-trans : (a b c : List RangeMetadata) → Better a b → Better b c → Better a c
    Better-trans a b c h k = ground (arith, h, k)

    Better-nil : (r : List RangeMetadata) → Better r []
    Better-nil r = inl refl

    longer :
        (cp : RangeMetadata) (r m : List RangeMetadata)
        → is_longer cp r (last_epoch m) m ≡ true
        → Better (cp ∷ r) m
    longer cp r m h = ground (arith, h)

    not_longer :
        (cp : RangeMetadata) (r m : List RangeMetadata)
        → is_longer cp r (last_epoch m) m ≡ false
        → Better m (cp ∷ r)
    not_longer cp r m h = ground (arith, h)

    Tried-step :
        (s : ℕ) (cp : RangeMetadata) (cps m r n : List RangeMetadata)
        → Tried s (cp ∷ cps) m
        → Best (suc cp.max_epoch) r
        → Chain s n
        → Better n m
        → Better n (cp ∷ r)
        → Tried s cps n
    Tried-step s cp cps m r n h b ch nm nc = record { chain = ch; beats = beats }
      where
        begins :
            (x : RangeMetadata) (xs : List RangeMetadata)
            → Chain s (x ∷ xs)
            → Memᴰ x (cp ∷ cps)
            → Memᴰ x cps ⊎ Better n (x ∷ xs)
        begins x xs c (Memᴰ.tail q) = inl q
        begins x xs c (Memᴰ.head q) = inr (
            Better-trans n (cp ∷ r) (x ∷ xs) nc
              (rw q (Better-cons cp r xs b.chain (rw q at c.2) (b.best xs (rw q at c.2)))))

        beats :
            (x : RangeMetadata) (xs : List RangeMetadata)
            → Chain s (x ∷ xs)
            → Memᴰ x cps ⊎ Better n (x ∷ xs)
        beats x xs c = elim (h.beats x xs c) [
          | inl q ↦ begins x xs c q
          | inr q ↦ inr (Better-trans n m (x ∷ xs) nm q)
        ]

    compare-IsOptimal :
        (s : ℕ) (cp : RangeMetadata) (cps m : List RangeMetadata)
        (next : ℕ → List RangeMetadata → Memo → Found) (x : Found)
        → Memᴰ cp ranges × (cp.min_epoch ≡ s)
        → Tried s (cp ∷ cps) m
        → IsOptimal (suc cp.max_epoch) x
        → ((n : List RangeMetadata) (k : Memo)
            → Tried s cps n
            → Good k
            → IsOptimal s (next (last_epoch n) n k))
        → IsOptimal s (compare_longest cp (last_epoch m) m next x)
    compare-IsOptimal s cp cps m next none a h b each = absurd b
    compare-IsOptimal s cp cps m next (some (r, memo)) a h b each =
        let c : Chain s (cp ∷ r) = (a.0, a.1, b.0.chain) in
        elim (Bool-cases (is_longer cp r (last_epoch m) m)) [
          | inl q ↦ rw q (
              each (cp ∷ r) memo
                (Tried-step s cp cps m r (cp ∷ r) h b.0 c (longer cp r m q)
                  (inr (inr (refl, omega arith))))
                b.1)
          | inr q ↦ rw q (
              each m memo
                (Tried-step s cp cps m r m h b.0 h.chain (inr (inr (refl, omega arith)))
                  (not_longer cp r m q))
                b.1)
        ]

    try-IsOptimal :
        (find : ℕ → Memo → Found) (s : ℕ) (cps m : List RangeMetadata) (memo : Memo)
        → All (λ x. Memᴰ x ranges × (x.min_epoch ≡ s)) cps
        → Tried s cps m
        → Good memo
        → ((t : ℕ) (k : Memo) → s < t → t ≤ high → Good k → IsOptimal t (find t k))
        → IsOptimal s (try_ranges find cps (last_epoch m) m memo)
    unfolding try_ranges
    try-IsOptimal find s [] m memo a h g each = (record { chain = h.chain; best = best }, g)
      where
        best : (c : List RangeMetadata) → Chain s c → Better m c
        best [] c = inl refl
        best (x ∷ xs) c = elim (h.beats x xs c) [ inl q ↦ elim q [ ] | inr q ↦ q ]
    try-IsOptimal find s (cp ∷ cps) m memo a h g each =
        let ok = sound cp a.0.0 in
        compare-IsOptimal s cp cps m (try_ranges find cps) (find (suc cp.max_epoch) memo) a.0 h
          (each (suc cp.max_epoch) memo (omega (arith, ok, a.0.1)) (omega (arith, ok)) g)
          (λ n k t gk. try-IsOptimal find s cps n k a.1 t gk each)

    memoize-IsOptimal : (s : ℕ) (x : Found) → IsOptimal s x → IsOptimal s (memoize s x)
    memoize-IsOptimal s none h = absurd h
    memoize-IsOptimal s (some (r, memo)) h = (h.0, (h.0, h.1))

    unless_memoized-IsOptimal :
        (s : ℕ) (memo : Memo) (found : Found) (l : Option (List RangeMetadata))
        → lookup memo s ≡ l
        → Good memo
        → IsOptimal s found
        → IsOptimal s (unless_memoized l memo found)
    unless_memoized-IsOptimal s memo found none e g h = h
    unless_memoized-IsOptimal s memo found (some l) e g h = (lookup-Best memo s l g e, g)

    find-IsOptimal :
        (fuel s : ℕ) (memo : Memo)
        → high < fuel + s
        → s ≤ high
        → Good memo
        → IsOptimal s (find_starting_at fuel ranges s memo)
    unfolding find_starting_at
    find-IsOptimal zero s memo enough le g = absurd (omega (arith, enough, le))
    find-IsOptimal (suc fuel) s memo enough le g =
        unless_memoized-IsOptimal s memo _ (lookup memo s) refl g (
          memoize-IsOptimal s
            (try_ranges (find_starting_at fuel ranges) (by_min ranges s) 0 [] memo)
            (try-IsOptimal (find_starting_at fuel ranges) s (by_min ranges s) [] memo
              (by_min-All ranges s (λ x m. m))
              (record { chain = tt; beats = λ x xs c. inl (by_min-Memᴰ ranges x s c.0 c.1) }) g
              (λ t k lt th gk. find-IsOptimal fuel t k (omega (arith, enough, lt)) th gk)))

  -- For ranges that do not end before they start and end before an epoch `high`, with one round more
  -- than that the search returns a chain of ranges from epoch 0 on, each of which starts where the one
  -- before it has ended, and no other such chain that ends after epoch 0 reaches further, or as far
  -- with fewer ranges; every entry of the memo is a longest chain from its epoch too.
  pub find_longest-IsOptimal :
      (high : ℕ)
      → ((r : RangeMetadata) → Memᴰ r ranges → (r.min_epoch ≤ r.max_epoch) × (r.max_epoch < high))
      → IsOptimal 0 (find_longest_range_checkpoint (suc high) ranges)
  unfolding find_longest_range_checkpoint
  find_longest-IsOptimal high sound =
      find-IsOptimal high sound (suc high) 0 [] (omega arith) (omega arith) tt
