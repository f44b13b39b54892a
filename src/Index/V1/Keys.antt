-- ===== src/Index/V1/Keys.antt =====
-- The order of the keys in a file of repo/content/index/index_v1.go, and the search for one.
use kopia.Prelude.{
  ℕ, zero, suc, ◌≤◌, ◌<◌, ◌≡◌, refl, inl, inr, Bool, true, false, not, List, [], ◌∷◌, Option, none,
  some, length, get_elem?, arith, All, Ordering, Bool-cases, ltb, ltb→lt,
}
use kopia.Index.ContentId.{content_id_to_bytes, compare_bytes, is_lt}
use kopia.Index.Info.{Info}
use kopia.Index.Search.{First}
use kopia.Index.V1.Reader.{content_id_bytes_greater_or_equal}

abbrev pub key_of : Info → List ℕ
key_of it = content_id_to_bytes [] it.content_id

-- strictly ascending keys
abbrev pub IsSorted : List Info → Type 0
IsSorted [] = Unit
IsSorted (x ∷ xs) = All (λ y. compare_bytes (key_of x) (key_of y) ≡ Ordering.lt) xs × IsSorted xs

pub All-get_elem? {ℓ κ} :
    {A : Type ℓ} (P : A → Type κ) (xs : List A) (i : ℕ) (x : A)
    → All P xs
    → get_elem? xs i ≡ some x
    → P x
All-get_elem? P [] i x a e = absurd (no_elem e)
  where
    no_elem : Path (Option _) none (some x) → ⊥
    no_elem e = cc
All-get_elem? P (y ∷ xs) zero x a e = let same : y ≡ x = cc in rw (← same) a.0
All-get_elem? P (y ∷ xs) (suc i) x a e = All-get_elem? P xs i x a.1 e

compare_bytes_refl : (a : List ℕ) → compare_bytes a a ≡ Ordering.eq
unfolding compare_bytes
compare_bytes_refl [] = refl
compare_bytes_refl (x ∷ a) = ground (arith, compare_bytes_refl a)

-- what is not below a key is not below any that is below the key
pub not_below_trans :
    (a b t : List ℕ)
    → compare_bytes a b ≡ Ordering.lt
    → is_lt (compare_bytes a t) ≡ false
    → is_lt (compare_bytes b t) ≡ false
unfolding compare_bytes
not_below_trans [] [] t h k = absurd (ground (arith, h))
not_below_trans [] (y ∷ b) [] h k = refl
not_below_trans [] (y ∷ b) (z ∷ t) h k = absurd (ground (arith, k))
not_below_trans (x ∷ a) [] t h k = absurd (ground (arith, h))
not_below_trans (x ∷ a) (y ∷ b) [] h k = refl
not_below_trans (x ∷ a) (y ∷ b) (z ∷ t) h k = ground (arith, h, k, not_below_trans a b t)

pub sorted_pair :
    (cs : List Info) (i j : ℕ) (a b : Info)
    → IsSorted cs
    → i < j
    → get_elem? cs i ≡ some a
    → get_elem? cs j ≡ some b
    → compare_bytes (key_of a) (key_of b) ≡ Ordering.lt
sorted_pair [] i j a b s lt e f = absurd (ground (arith, e))
sorted_pair (c ∷ cs) i zero a b s lt e f = absurd (omega (arith, lt))
sorted_pair (c ∷ cs) zero (suc j) a b s lt e f =
    let same : c ≡ a = cc in
    rw (← same)
      (All-get_elem? (λ y. compare_bytes (key_of c) (key_of y) ≡ Ordering.lt) cs j b s.0 f)
sorted_pair (c ∷ cs) (suc i) (suc j) a b s lt e f =
    sorted_pair cs i j a b s.1 (omega (arith, lt)) e f

-- the test of the search at an index
abbrev pub tests_true : List ℕ → Option Info → Bool
tests_true target none = false
tests_true target (some it) = content_id_bytes_greater_or_equal (key_of it) target

pub get_elem?-below {ℓ} :
    {A : Type ℓ} (xs : List A) (i : ℕ) → i < length xs → (x : A) × (get_elem? xs i ≡ some x)
get_elem?-below [] i h = absurd (omega (arith, h))
get_elem?-below (x ∷ xs) zero h = (x, refl)
get_elem?-below (x ∷ xs) (suc i) h = get_elem?-below xs i (omega (arith, h))

pub get_elem?-lt {ℓ} :
    {A : Type ℓ} (xs : List A) (i : ℕ) (x : A) → get_elem? xs i ≡ some x → i < length xs
get_elem?-lt [] i x e = absurd (ground (arith, e))
get_elem?-lt (y ∷ xs) zero x e = omega arith
get_elem?-lt (y ∷ xs) (suc i) x e = omega (arith, get_elem?-lt xs i x e)

differ : (b : Bool) → b ≡ true → b ≡ false → ⊥
differ b h k = ground (arith, h, k)

is_false : (b : Bool) → not b ≡ true → b ≡ false
is_false b h = ground (arith, h)

module _ (cs : List Info) (s : IsSorted cs) (target : List ℕ) where
  abbrev pub tested : ℕ → Bool
  tested i = tests_true target (get_elem? cs i)

  pub tested-monotone : (i j : ℕ) → i ≤ j → j < length cs → tested i ≡ true → tested j ≡ true
  tested-monotone i j le lt h =
      let (a, ea) = get_elem?-below cs i (omega (arith, le, lt)) in
      let (b, eb) = get_elem?-below cs j lt in
      elim (Bool-cases (ltb i j)) [
        | inr q ↦ let same : i ≡ j = ground (arith, q, le) in rw (← same) h
        | inl q ↦
            rw
              (
                eb,
                not_below_trans (key_of a) (key_of b) target
                    (sorted_pair cs i j a b s (ltb→lt i j q) ea eb) (is_false _ (rw ea at h)),
              )
              refl
      ]

  -- the first index at which the test holds is that of the key
  pub First-index :
      (p q : ℕ) (it : Info)
      → First (length cs) tested p
      → get_elem? cs q ≡ some it
      → key_of it ≡ target
      → p ≡ q
  First-index p q it f e same =
      let inside = get_elem?-lt cs q it e in
      let hit : tested q ≡ true = rw (e, same, compare_bytes_refl target) refl in
      elim (Bool-cases (ltb q p)) [
        | inl r ↦ absurd (differ (tested q) hit (f.below q (ltb→lt q p r)))
        | inr r ↦ elim (Bool-cases (ltb p q)) [
          | inr r' ↦ ground (arith, r, r')
          | inl r' ↦
              let lt = ltb→lt p q r' in
              let (a, ea) = get_elem?-below cs p (omega (arith, lt, inside)) in
              let below : compare_bytes (key_of a) target ≡ Ordering.lt =
                rw same at (sorted_pair cs p q a it s lt ea e) in
              let found : content_id_bytes_greater_or_equal (key_of a) target ≡ true =
                rw ea at (f.here (omega (arith, lt, inside))) in
              absurd
                (differ (content_id_bytes_greater_or_equal (key_of a) target) found (rw below refl))
        ]
      ]
