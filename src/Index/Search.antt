-- ===== src/Index/Search.antt =====
-- sort.Search of Go's library, which the binary searches of repo/content/index call, with a test that
-- may fail: after an error the code's test gives false to the end, and the error is returned.
use kopia.Prelude.{
  ℕ, zero, suc, ◌+◌, ◌/◌, ◌≤◌, ◌<◌, ◌≡◌, refl, inl, inr, Bool, true, false, ltb, if◌then◌else◌,
  Result, ok, err, arith, Bool-cases, ltb→lt,
}

-- the first index below n at which the test holds, or n
pub record First (n : ℕ) (b : ℕ → Bool) (p : ℕ) : Type 0 where
  pub inside : p ≤ n
  pub below : (i : ℕ) → i < p → b i ≡ false
  pub here : p < n → b p ≡ true

module _ {E : Type 0} where
  -- where the search goes on
  abbrev pub halve_range : Result E Bool → Result E ℕ → Result E ℕ → Result E ℕ
  halve_range (err e) to_left to_right = err e
  halve_range (ok true) to_left to_right = to_left
  halve_range (ok false) to_left to_right = to_right

  -- The loop between i and j; a round for each index between them is enough.
  unfoldable pub search_between : ℕ → (ℕ → Result E Bool) → ℕ → ℕ → Result E ℕ
  search_between zero f i j = ok i
  search_between (suc fuel) f i j =
      let h = (i + j) / 2 in
      let to_left = search_between fuel f i h in
      let to_right = search_between fuel f (suc h) j in
      if ltb i j then halve_range (f h) to_left to_right else ok i

  unfoldable pub search : ℕ → (ℕ → Result E Bool) → Result E ℕ
  unfolding search_between
  search n f = search_between n f 0 n

  module _ (n : ℕ) (f : ℕ → Result E Bool) (b : ℕ → Bool) (reads : (i : ℕ) → i < n → f i ≡ ok (b i))
      (monotone : (i j : ℕ) → i ≤ j → j < n → b i ≡ true → b j ≡ true) where
    abbrev pub Finds : Result E ℕ → Type 0
    Finds (err e) = ⊥
    Finds (ok p) = First n b p

    pub found-First : (r : Result E ℕ) → Finds r → (p : ℕ) × (r ≡ ok p) × First n b p
    found-First (err e) h = absurd h
    found-First (ok p) h = (p, refl, h)

    below_false : (h i : ℕ) → h < n → i ≤ h → b h ≡ false → b i ≡ false
    below_false h i lt le e = elim (Bool-cases (b i)) [
      | inl q ↦ absurd (ground (arith, monotone i h le lt q))
      | inr q ↦ q
    ]

    stop :
        (i j : ℕ)
        → i ≡ j
        → j ≤ n
        → ((k : ℕ) → k < i → b k ≡ false)
        → (j < n → b j ≡ true)
        → First n b i
    stop i j e jn lo hi = record {
      inside = omega (arith, e, jn);
      below = lo;
      here = λ h. rw e (hi (rw e at h));
    }

    search_between-First :
        (fuel i j : ℕ)
        → j ≤ fuel + i
        → i ≤ j
        → j ≤ n
        → ((k : ℕ) → k < i → b k ≡ false)
        → (j < n → b j ≡ true)
        → Finds (search_between fuel f i j)
    unfolding search_between
    search_between-First zero i j enough le jn lo hi = stop i j (omega arith) jn lo hi
    search_between-First (suc fuel) i j enough le jn lo hi = elim (Bool-cases (ltb i j)) [
      | inr q ↦ rw q (stop i j (ground (arith, q, le)) jn lo hi)
      | inl q ↦
          let lt = ltb→lt i j q in
          let h = (i + j) / 2 in
          let ih : i ≤ h = omega (arith, lt) in
          let hj : h < j = omega (arith, lt) in
          let hn : h < n = omega (arith, hj, jn) in
          rw (q, reads h hn)
            (elim (Bool-cases (b h)) [
              | inl t ↦ rw t (
                  search_between-First fuel i h (omega (arith, enough, hj)) ih (omega (arith, hn))
                    lo (λ _. t))
              | inr t ↦ rw t (
                  search_between-First fuel (suc h) j (omega (arith, enough, ih))
                    (omega (arith, hj)) jn (λ k lt'. below_false h k hn (omega (arith, lt')) t) hi)
            ])
    ]

    -- For a test that does not fail, and that holds from some index on, the search finds the first
    -- index at which it holds, or n.
    pub search-First : Finds (search n f)
    unfolding search
    search-First =
        search_between-First n 0 n (omega arith) (omega arith) (omega arith)
          (λ k h. absurd (omega (arith, h))) (λ h. absurd (omega (arith, h)))
