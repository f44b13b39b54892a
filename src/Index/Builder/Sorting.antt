-- ===== src/Index/Builder/Sorting.antt =====
-- sortedContents of repo/content/index/index_builder.go gives the contents in the order of their keys.
use kopia.Prelude.{
  ℕ, ◌+◌, ◌*◌, ◌/◌, ◌≤◌, ◌<◌, ◌≡◌, ◌⊎◌, refl, inl, inr, true, false, List, [], ◌∷◌, length, arith,
  All, Ordering, Bool-cases, bytes_equal,
}
use kopia.Index.ContentId.{is_prefix_char, content_id_to_bytes, compare_bytes, is_lt, less}
use kopia.Index.Info.{Info}
use kopia.Index.V1.Keys.{key_of, IsSorted}
use kopia.Index.Builder.{bucket_of, base36_value, insert, sort_slice, first_byte}

-- keys in order
abbrev pub Below : Info → Info → Type 0
Below v w = compare_bytes (key_of v) (key_of w) ≡ Ordering.lt

-- what a content's ID must be: a prefix that is allowed, and some bytes
abbrev pub HasKey : Info → Type 0
HasKey v =
    ((v.content_id.prefix ≡ 0) ⊎ (is_prefix_char v.content_id.prefix ≡ true))
    × (0 < length v.content_id.hash)
    × (first_byte v.content_id.hash < 256)

pub less-key :
    (v w : Info) → less v.content_id w.content_id ≡ is_lt (compare_bytes (key_of v) (key_of w))
unfolding less content_id_to_bytes compare_bytes
less-key v w = ground arith

base36_value-cases :
    (p : ℕ)
    → (p ≡ 0) ⊎ (is_prefix_char p ≡ true)
    → ((p ≡ 0) × (base36_value p ≡ 0)) ⊎ ((b'g' ≤ p) × (base36_value p + 87 ≡ p))
base36_value-cases p h = ground (arith, h)

compare_heads :
    (p q : ℕ) (s t : List ℕ)
    → p * 16 + first_byte s / 16 < q * 16 + first_byte t / 16
    → first_byte t < 256
    → 0 < length s
    → 0 < length t
    → (p < q) ⊎ ((p ≡ q) × (compare_bytes s t ≡ Ordering.lt))
unfolding compare_bytes
compare_heads p q [] t lt h k l = absurd (omega (arith, k))
compare_heads p q (x ∷ s) [] lt h k l = absurd (omega (arith, l))
compare_heads p q (x ∷ s) (y ∷ t) lt h k l = ground (arith, lt, h)

heads :
    (p q x y : ℕ) (s t : List ℕ)
    → ((p ≡ 0) × (x ≡ 0)) ⊎ ((b'g' ≤ p) × (x + 87 ≡ p))
    → ((q ≡ 0) × (y ≡ 0)) ⊎ ((b'g' ≤ q) × (y + 87 ≡ q))
    → (x < y) ⊎ ((x ≡ y) × (compare_bytes s t ≡ Ordering.lt))
    → compare_bytes (p ∷ s) (q ∷ t) ≡ Ordering.lt
unfolding compare_bytes
heads p q x y s t a b c = ground (arith, a, b, c)

-- Buckets are in the order of the keys.
pub bucket-Below :
    (v w : Info) → HasKey v → HasKey w → bucket_of v.content_id < bucket_of w.content_id → Below v w
unfolding bucket_of content_id_to_bytes compare_bytes
bucket-Below v w h k lt =
    let c =
      compare_heads (base36_value v.content_id.prefix) (base36_value w.content_id.prefix)
        v.content_id.hash w.content_id.hash lt k.2 h.1 k.1 in
    heads v.content_id.prefix w.content_id.prefix (base36_value v.content_id.prefix)
      (base36_value w.content_id.prefix) v.content_id.hash w.content_id.hash
      (base36_value-cases v.content_id.prefix h.0) (base36_value-cases w.content_id.prefix k.0) c

-- no two contents have the same key
abbrev pub IsDistinct : List Info → Type 0
IsDistinct [] = Unit
IsDistinct (v ∷ vs) = All (λ w. bytes_equal (key_of v) (key_of w) ≡ false) vs × IsDistinct vs

not_less-Below :
    (s t : List ℕ)
    → bytes_equal s t ≡ false
    → is_lt (compare_bytes s t) ≡ false
    → compare_bytes t s ≡ Ordering.lt
unfolding compare_bytes
not_less-Below [] [] h k = absurd (ground (arith, h))
not_less-Below [] (y ∷ t) h k = absurd (ground (arith, k))
not_less-Below (x ∷ s) [] h k = refl
not_less-Below (x ∷ s) (y ∷ t) h k = ground (arith, h, k, not_less-Below s t)

Below_trans :
    (s t u : List ℕ)
    → compare_bytes s t ≡ Ordering.lt
    → compare_bytes t u ≡ Ordering.lt
    → compare_bytes s u ≡ Ordering.lt
unfolding compare_bytes
Below_trans [] [] u h k = absurd (ground (arith, h))
Below_trans [] (y ∷ t) [] h k = absurd (ground (arith, k))
Below_trans [] (y ∷ t) (z ∷ u) h k = refl
Below_trans (x ∷ s) [] u h k = absurd (ground (arith, h))
Below_trans (x ∷ s) (y ∷ t) [] h k = absurd (ground (arith, k))
Below_trans (x ∷ s) (y ∷ t) (z ∷ u) h k = ground (arith, h, k, Below_trans s t u)

-- the sort

insert-All {κ} :
    (P : Info → Type κ) (v : Info) (ws : List Info) → P v → All P ws → All P (insert v ws)
unfolding insert
insert-All P v [] p a = (p, tt)
insert-All P v (w ∷ ws) p a = elim (Bool-cases (less v.content_id w.content_id)) [
  | inl e ↦ rw e (p, a)
  | inr e ↦ rw e (a.0, insert-All P v ws p a.1)
]

All-Below :
    (v w : Info) (ws : List Info) → Below v w → All (λ x. Below w x) ws → All (λ x. Below v x) ws
All-Below v w [] b a = tt
All-Below v w (x ∷ ws) b a =
    (Below_trans (key_of v) (key_of w) (key_of x) b a.0, All-Below v w ws b a.1)

pub is_lt-lt : (o : Ordering) → is_lt o ≡ true → o ≡ Ordering.lt
is_lt-lt o h = ground (arith, h)

insert-IsSorted :
    (v : Info) (ws : List Info)
    → IsSorted ws
    → All (λ w. bytes_equal (key_of v) (key_of w) ≡ false) ws
    → IsSorted (insert v ws)
unfolding insert
insert-IsSorted v [] s d = (tt, tt)
insert-IsSorted v (w ∷ ws) s d = elim (Bool-cases (less v.content_id w.content_id)) [
  | inl e ↦
      let b : Below v w = is_lt-lt _ (rw (less-key v w) at e) in
      rw e ((b, All-Below v w ws b s.0), s)
  | inr e ↦
      let b : Below w v = not_less-Below (key_of v) (key_of w) d.0 (rw (less-key v w) at e) in
      rw e (insert-All (λ x. Below w x) v ws b s.0, insert-IsSorted v ws s.1 d.1)
]

pub sort_slice-All {κ} : (P : Info → Type κ) (vs : List Info) → All P vs → All P (sort_slice vs)
unfolding sort_slice
sort_slice-All P [] a = tt
sort_slice-All P (v ∷ vs) a = insert-All P v (sort_slice vs) a.0 (sort_slice-All P vs a.1)

pub sort_slice-IsSorted : (vs : List Info) → IsDistinct vs → IsSorted (sort_slice vs)
unfolding sort_slice
sort_slice-IsSorted [] d = tt
sort_slice-IsSorted (v ∷ vs) d =
    insert-IsSorted v (sort_slice vs) (sort_slice-IsSorted vs d.1)
      (sort_slice-All (λ w. bytes_equal (key_of v) (key_of w) ≡ false) vs d.0)
