-- ===== src/Splitter/Rolling/Scan.antt =====
-- A reference for NextSplitPoint of repo/splitter/splitter_buzhash32.go: every byte is rolled and
-- tested by itself, with no fast path and no slices. The code agrees with it from every state.
use kopia.Prelude.{
  ℕ, ◌+◌, ◌≤◌, ◌<◌, ◌≡◌, refl, sym, ap, ◌∙◌, Bool, true, false, ◌&&◌, ◌||◌, inl, inr, List, [], ◌∷◌,
  ◌++◌, Option, none, some, length, leb, if◌then◌else◌, arith, Bool-cases,
}
use kopia.Splitter.Rolling.{
  RollingHash, RollingSplitter, roll_all, hits, split_loop, split_over_max, finish_loop,
}

module _ (r : RollingHash) where
  open r use {Hash, roll, sum}

  -- Two hashes that no further bytes can tell apart.
  pub record SameSums (g h : Hash) : Type 0 where
    pub sums : (w : List ℕ) → sum (roll_all r g w) ≡ sum (roll_all r h w)

  -- Two states of a splitter that behave alike.
  pub record Alike (s t : RollingSplitter r) : Type 0 where
    pub hash : SameSums s.rh t.rh
    pub mask : s.mask ≡ t.mask
    pub count : s.count ≡ t.count
    pub min_size : s.min_size ≡ t.min_size
    pub max_size : s.max_size ≡ t.max_size

  -- The state in which every call finds the splitter.
  pub record IsReady (s : RollingSplitter r) : Type 0 where
    pub below_max : s.count < s.max_size
    pub min-le-max : s.min_size ≤ s.max_size

  -- one byte more
  abbrev pub advance : RollingSplitter r → ℕ → RollingSplitter r
  advance s b = record s { rh = roll s.rh b; count = s.count + 1 }

  -- Does a segment end behind the bytes counted so far?
  unfoldable pub ends_here : RollingSplitter r → Bool
  ends_here s = (leb s.min_size s.count && hits r s.mask s.rh) || leb s.max_size s.count

  -- The split point, as the number of bytes before it, `i` of them read already.
  unfoldable pub scan : RollingSplitter r → ℕ → List ℕ → Option ℕ × RollingSplitter r
  scan s i [] = (none, s)
  scan s i (b ∷ bs) =
      let rest = scan (advance s b) (i + 1) bs in
      if ends_here (advance s b) then (some (i + 1), record (advance s b) { count = 0 }) else rest

  -- Results that agree up to what the hash shows.
  abbrev pub SameResult : Option ℕ × RollingSplitter r → Option ℕ × RollingSplitter r → Type 0
  SameResult x y = (x.0 ≡ y.0) × Alike x.1 y.1

  pub roll_all-append :
      (h : Hash) (v w : List ℕ) → roll_all r h (v ++ w) ≡ roll_all r (roll_all r h v) w
  unfolding roll_all
  roll_all-append h [] w = refl
  roll_all-append h (b ∷ v) w = roll_all-append (roll h b) v w

  pub SameSums-refl : (h : Hash) → SameSums h h
  SameSums-refl h = record { sums = λ w. refl }

  pub SameSums-roll : (g h : Hash) (b : ℕ) → SameSums g h → SameSums (roll g b) (roll h b)
  unfolding roll_all
  SameSums-roll g h b e = record { sums = λ w. e.sums (b ∷ w) }

  pub Alike-refl : (s : RollingSplitter r) → Alike s s
  Alike-refl s = record {
    hash = SameSums-refl s.rh;
    mask = refl;
    count = refl;
    min_size = refl;
    max_size = refl;
  }

  pub Alike-sym : (s t : RollingSplitter r) → Alike s t → Alike t s
  Alike-sym s t e = record {
    hash = record { sums = λ w. sym (e.hash.sums w) };
    mask = sym e.mask;
    count = sym e.count;
    min_size = sym e.min_size;
    max_size = sym e.max_size;
  }

  pub Alike-trans : (s t u : RollingSplitter r) → Alike s t → Alike t u → Alike s u
  Alike-trans s t u d e = record {
    hash = record { sums = λ w. d.hash.sums w ∙ e.hash.sums w };
    mask = d.mask ∙ e.mask;
    count = d.count ∙ e.count;
    min_size = d.min_size ∙ e.min_size;
    max_size = d.max_size ∙ e.max_size;
  }

  pub SameResult-sym : (x y : Option ℕ × RollingSplitter r) → SameResult x y → SameResult y x
  SameResult-sym x y e = (sym e.0, Alike-sym x.1 y.1 e.1)

  pub SameResult-trans :
      (x y z : Option ℕ × RollingSplitter r) → SameResult x y → SameResult y z → SameResult x z
  SameResult-trans x y z d e = (d.0 ∙ e.0, Alike-trans x.1 y.1 z.1 d.1 e.1)

  Alike-advance : (s t : RollingSplitter r) (b : ℕ) → Alike s t → Alike (advance s b) (advance t b)
  Alike-advance s t b e = record {
    hash = SameSums-roll s.rh t.rh b e.hash;
    mask = e.mask;
    count = ap (λ (c : ℕ). c + 1) e.count;
    min_size = e.min_size;
    max_size = e.max_size;
  }

  ends_here-Alike : (s t : RollingSplitter r) → Alike s t → ends_here s ≡ ends_here t
  unfolding ends_here roll_all
  ends_here-Alike s t e = cc (e.hash.sums [], e.mask, e.count, e.min_size, e.max_size)

  -- The reference cannot tell two alike states apart.
  pub scan-Alike :
      (s t : RollingSplitter r) (i : ℕ) (b : List ℕ)
      → Alike s t
      → SameResult (scan s i b) (scan t i b)
  unfolding scan
  scan-Alike s t i [] e = (refl, e)
  scan-Alike s t i (x ∷ b) e =
      let a : Alike (advance s x) (advance t x) = Alike-advance s t x e in
      elim (Bool-cases (ends_here (advance t x))) [
        | inl p ↦
            rw (ends_here-Alike _ _ a, p)
              (
                refl,
                record {
                  hash = a.hash;
                  mask = a.mask;
                  count = refl;
                  min_size = a.min_size;
                  max_size = a.max_size;
                },
              )
        | inr p ↦ rw (ends_here-Alike _ _ a, p) (scan-Alike (advance s x) (advance t x) (i + 1) b a)
      ]

  ends_here_below :
      (s : RollingSplitter r) (b : ℕ)
      → s.count + 1 < s.min_size
      → s.min_size ≤ s.max_size
      → ends_here (advance s b) ≡ false
  unfolding ends_here
  ends_here_below s b lo hi = ground arith

  ends_here_at_max :
      (s : RollingSplitter r) (b : ℕ) → s.max_size ≤ s.count + 1 → ends_here (advance s b) ≡ true
  unfolding ends_here
  ends_here_at_max s b h = ground arith

  ends_here_between :
      (s : RollingSplitter r) (b : ℕ)
      → s.min_size ≤ s.count + 1
      → s.count + 1 < s.max_size
      → ends_here (advance s b) ≡ hits r s.mask (roll s.rh b)
  unfolding ends_here
  ends_here_between s b lo hi = ground arith

  ends_here_hit :
      (s : RollingSplitter r) (b : ℕ)
      → s.min_size ≤ s.count + 1
      → hits r s.mask (roll s.rh b) ≡ true
      → ends_here (advance s b) ≡ true
  unfolding ends_here
  ends_here_hit s b lo hi = ground arith

  -- Below the minimum nothing ends a segment.
  pub scan_skip :
      (s : RollingSplitter r) (i : ℕ) (a b : List ℕ) (c j : ℕ)
      → s.count + length a ≡ c
      → i + length a ≡ j
      → c < s.min_size
      → s.min_size ≤ s.max_size
      → scan s i (a ++ b) ≡ scan (record s { rh = roll_all r s.rh a; count = c }) j b
  unfolding scan roll_all
  scan_skip s i [] b c j ec ej lo hi =
      let p : s.count ≡ c = omega arith in
      let q : i ≡ j = omega arith in λ k. scan (record s { count = p k }) (q k) b
  scan_skip s i (x ∷ a) b c j ec ej lo hi =
      rw (ends_here_below s x (omega arith) hi)
        (scan_skip (advance s x) (i + 1) a b c j (omega arith) (omega arith) lo hi)

  -- A scan that has read up to the maximum reads no further.
  pub scan_stop :
      (s : RollingSplitter r) (i : ℕ) (a b : List ℕ)
      → s.count < s.max_size
      → s.count + length a ≡ s.max_size
      → scan s i (a ++ b) ≡ scan s i a
  unfolding scan
  scan_stop s i [] b lt e = absurd (omega arith)
  scan_stop s i (x ∷ a) b lt e = elim (Bool-cases (ends_here (advance s x))) [
    | inl p ↦ rw p
    | inr p ↦
        rw p
          (scan_stop (advance s x) (i + 1) a b (ground (arith, ends_here_at_max s x)) (omega arith))
  ]

  -- A round of the loop, given that the next rounds are the scan.
  loop_next :
      (s : RollingSplitter r) (f i j fp x : ℕ) (t : List ℕ)
      → f + i ≡ j
      → finish_loop r f fp (split_loop r (advance s x) (i + 1) t) ≡ scan (advance s x) (j + 1) t
      → finish_loop r f fp (split_loop r s i (x ∷ t)) ≡ (
          if hits r s.mask (roll s.rh x)
          then (some (j + 1), record (advance s x) { count = 0 })
          else scan (advance s x) (j + 1) t)
  unfolding finish_loop split_loop
  loop_next s f i j fp x t ej ih = elim (Bool-cases (hits r s.mask (roll s.rh x))) [
    | inl p ↦ rw p (ground arith)
    | inr p ↦ rw p ih
  ]

  -- The loop of the code and the test behind it are the scan.
  pub loop_lem :
      (s : RollingSplitter r) (f i j fp : ℕ) (t : List ℕ)
      → f + i ≡ j
      → i + length t ≡ fp
      → (0 < length t → s.min_size ≤ s.count + 1)
      → s.count + length t ≤ s.max_size
      → s.count < s.max_size
      → finish_loop r f fp (split_loop r s i t) ≡ scan s j t
  unfolding finish_loop split_loop split_over_max scan
  loop_lem s f i j fp [] ej e m hi lt = ground arith
  loop_lem s f i j fp (x ∷ []) ej e m hi lt = unfold ends_here in ground arith
  loop_lem s f i j fp (x ∷ y ∷ t) ej e m hi lt =
      rw (ends_here_between s x (m (omega arith)) (omega arith)) (
        loop_next s f i j fp x (y ∷ t) ej (
          loop_lem (advance s x) f (i + 1) (j + 1) fp (y ∷ t) (omega arith) (omega arith)
            (λ z. (let k : s.min_size ≤ s.count + 1 = m (omega arith) in omega arith)) (omega arith)
            (omega arith)))
