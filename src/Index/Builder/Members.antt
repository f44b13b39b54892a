-- ===== src/Index/Builder/Members.antt =====
-- The contents that sortedContents of repo/content/index/index_builder.go gives, and their order.
use kopia.Prelude.{
  ℕ, zero, suc, ◌+◌, ◌≤◌, ◌<◌, ◌≡◌, refl, ap, ◌∙◌, inl, inr, true, List, [], ◌∷◌, ◌++◌, some, arith,
  ◌==◌, Bool-cases, get_elem?, ==_iff, All, ◌↔◌,
}
use kopia.Index.ContentId.{less}
use kopia.Index.Info.{Info}
use kopia.Index.Builder.{bucket_of, bucket, insert, sort_slice, buckets_from, sorted_contents}
use kopia.Index.Builder.Sorting.{HasKey, IsDistinct}
use kopia.Index.Builder.Buckets.{sorted_contents-IsSorted, sorted_contents-All}
use kopia.Index.V1.Keys.{IsSorted}

-- a place of a content in a list
abbrev pub Place : List Info → Info → Type 0
Place vs it = (q : ℕ) × (get_elem? vs q ≡ some it)

abbrev at_head : (it : Info) (vs : List Info) → Place (it ∷ vs) it
at_head it vs = (0, refl)

Place-cons : (v it : Info) (vs : List Info) → Place vs it → Place (v ∷ vs) it
Place-cons v it vs (q, e) = (suc q, e)

pub Place-append_left : (it : Info) (vs ws : List Info) → Place vs it → Place (vs ++ ws) it
Place-append_left it [] ws (q, e) = absurd (ground (arith, e))
Place-append_left it (v ∷ vs) ws (zero, e) = (0, e)
Place-append_left it (v ∷ vs) ws (suc q, e) =
    Place-cons v it (vs ++ ws) (Place-append_left it vs ws (q, e))

pub Place-append_right : (it : Info) (vs ws : List Info) → Place ws it → Place (vs ++ ws) it
Place-append_right it [] ws p = p
Place-append_right it (v ∷ vs) ws p = Place-cons v it (vs ++ ws) (Place-append_right it vs ws p)

push_down :
    (v w it : Info) (ws below : List Info)
    → (Place (v ∷ ws) it → Place below it)
    → Place (v ∷ w ∷ ws) it
    → Place (w ∷ below) it
push_down v w it ws below f (zero, q) = Place-cons w it below (f (0, q))
push_down v w it ws below f (suc zero, q) = (0, q)
push_down v w it ws below f (suc (suc n), q) = Place-cons w it below (f (suc n, q))

insert-Place : (v it : Info) (ws : List Info) → Place (v ∷ ws) it → Place (insert v ws) it
unfolding insert
insert-Place v it [] p = p
insert-Place v it (w ∷ ws) p = elim (Bool-cases (less v.content_id w.content_id)) [
  | inl e ↦ rw e p
  | inr e ↦ rw e (push_down v w it ws (insert v ws) (insert-Place v it ws) p)
]

sort_slice-Place : (it : Info) (vs : List Info) → Place vs it → Place (sort_slice vs) it
unfolding sort_slice
sort_slice-Place it [] p = p
sort_slice-Place it (v ∷ vs) (zero, e) = insert-Place v it (sort_slice vs) (0, e)
sort_slice-Place it (v ∷ vs) (suc q, e) =
    insert-Place v it (sort_slice vs)
      (Place-cons v it (sort_slice vs) (sort_slice-Place it vs (q, e)))

bucket-Place :
    (n : ℕ) (it : Info) (vs : List Info)
    → bucket_of it.content_id ≡ n
    → Place vs it
    → Place (bucket n vs) it
unfolding bucket
bucket-Place n it [] b p = p
bucket-Place n it (v ∷ vs) b (zero, e) =
    let same : v ≡ it = cc in
    let here : (bucket_of v.content_id == n) ≡ true =
      (==_iff (bucket_of v.content_id) n).1 (ap (λ (x : Info). bucket_of x.content_id) same ∙ b) in
    rw here (0, e)
bucket-Place n it (v ∷ vs) b (suc q, e) = elim (Bool-cases (bucket_of v.content_id == n)) [
  | inl h ↦ rw h (Place-cons v it (bucket n vs) (bucket-Place n it vs b (q, e)))
  | inr h ↦ rw h (bucket-Place n it vs b (q, e))
]

buckets_from-Place :
    (n count : ℕ) (it : Info) (vs : List Info)
    → n ≤ bucket_of it.content_id
    → bucket_of it.content_id < n + count
    → Place vs it
    → Place (buckets_from n count vs) it
unfolding buckets_from
buckets_from-Place n zero it vs lo hi p = absurd (omega (arith, lo, hi))
buckets_from-Place n (suc count) it vs lo hi p = elim (Bool-cases (bucket_of it.content_id == n)) [
  | inl e ↦
      Place-append_left it (sort_slice (bucket n vs)) (buckets_from (suc n) count vs)
        (sort_slice-Place it (bucket n vs) (bucket-Place n it vs (ground (arith, e)) p))
  | inr e ↦
      Place-append_right it (sort_slice (bucket n vs)) (buckets_from (suc n) count vs)
        (buckets_from-Place (suc n) count it vs (ground (arith, e, lo)) (omega (arith, hi)) p)
]

bucket_of-lt : (it : Info) → HasKey it → bucket_of it.content_id < 576
unfolding bucket_of
bucket_of-lt it h = ground (arith, h.0, h.2)

-- A content that is in the builder is in its sorted contents.
pub sorted_contents-Place :
    (it : Info) (vs : List Info) → HasKey it → Place vs it → Place (sorted_contents vs) it
unfolding sorted_contents
sorted_contents-Place it vs h p = buckets_from-Place 0 576 it vs (omega arith) (bucket_of-lt it h) p

-- a list is another one in the order of the keys, with neither a content more nor one less
abbrev pub Sorts : List Info → List Info → Type 0
Sorts vs ws = IsSorted ws × ((it : Info) → Place vs it ↔ Place ws it)

All-Place {κ} : (P : Info → Type κ) (vs : List Info) (it : Info) → All P vs → Place vs it → P it
All-Place P [] it a (q, e) = absurd (ground (arith, e))
All-Place P (v ∷ vs) it a (zero, e) = let same : v ≡ it = cc in rw same at a.0
All-Place P (v ∷ vs) it a (suc q, e) = All-Place P vs it a.1 (q, e)

pub Place-All {κ} :
    (P : Info → Type κ) (vs : List Info) → ((it : Info) → Place vs it → P it) → All P vs
Place-All P [] h = tt
Place-All P (v ∷ vs) h = (h v (0, refl), Place-All P vs λ it p. h it (Place-cons v it vs p))

-- The bucket sort puts contents with distinct keys, whose IDs have an allowed prefix and some bytes
-- (HasKey), in the strict order of their keys, and the sorted contents are exactly these contents: none is
-- lost and none is added.
pub sorted_contents-Sorts :
    (vs : List Info) → All HasKey vs → IsDistinct vs → Sorts vs (sorted_contents vs)
sorted_contents-Sorts vs keys distinct = (
  sorted_contents-IsSorted vs keys distinct,
  λ it. (
    λ p. sorted_contents-Place it vs (All-Place HasKey vs it keys p) p,
    λ p.
        All-Place (Place vs) (sorted_contents vs) it
          (sorted_contents-All (Place vs) vs (Place-All (Place vs) vs (λ it p. p))) p,
  ),
)
