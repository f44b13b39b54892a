-- ===== src/Index/Builder/Buckets.antt =====
-- The buckets of sortedContents of repo/content/index/index_builder.go, one after the other.
use kopia.Prelude.{
  ℕ, zero, suc, ◌≤◌, ◌≡◌, inl, inr, List, [], ◌∷◌, ◌++◌, arith, All, All-imp, append-All, ◌==◌,
  Bool-cases,
}
use kopia.Index.Info.{Info}
use kopia.Index.V1.Keys.{IsSorted}
use kopia.Index.Builder.{bucket_of, bucket, sort_slice, buckets_from, sorted_contents}
use kopia.Index.Builder.Sorting.{
  Below, HasKey, IsDistinct, bucket-Below, sort_slice-All, sort_slice-IsSorted,
}

-- the buckets

bucket-All {κ} : (P : Info → Type κ) (n : ℕ) (vs : List Info) → All P vs → All P (bucket n vs)
unfolding bucket
bucket-All P n [] a = tt
bucket-All P n (v ∷ vs) a = elim (Bool-cases (bucket_of v.content_id == n)) [
  | inl e ↦ rw e (a.0, bucket-All P n vs a.1)
  | inr e ↦ rw e (bucket-All P n vs a.1)
]

bucket-IsDistinct : (n : ℕ) (vs : List Info) → IsDistinct vs → IsDistinct (bucket n vs)
unfolding bucket
bucket-IsDistinct n [] d = tt
bucket-IsDistinct n (v ∷ vs) d = elim (Bool-cases (bucket_of v.content_id == n)) [
  | inl e ↦ rw e (bucket-All _ n vs d.0, bucket-IsDistinct n vs d.1)
  | inr e ↦ rw e (bucket-IsDistinct n vs d.1)
]

-- what a content of a bucket is known by
abbrev InBucket : ℕ → Info → Type 0
InBucket n v = HasKey v × (bucket_of v.content_id ≡ n)

abbrev InBucketFrom : ℕ → Info → Type 0
InBucketFrom n v = HasKey v × (n ≤ bucket_of v.content_id)

bucket-InBucket : (n : ℕ) (vs : List Info) → All HasKey vs → All (InBucket n) (bucket n vs)
unfolding bucket
bucket-InBucket n [] a = tt
bucket-InBucket n (v ∷ vs) a = elim (Bool-cases (bucket_of v.content_id == n)) [
  | inl e ↦ rw e ((a.0, ground (arith, e)), bucket-InBucket n vs a.1)
  | inr e ↦ rw e (bucket-InBucket n vs a.1)
]

from_next :
    {n : ℕ} (v : Info) (ws : List Info)
    → InBucket n v
    → All (InBucketFrom (suc n)) ws
    → All (λ w. Below v w) ws
from_next v [] i a = tt
from_next v (w ∷ ws) i a =
    (bucket-Below v w i.0 a.0.0 (omega (arith, i.1, a.0.1)), from_next v ws i a.1)

append-IsSorted :
    (n : ℕ) (vs ws : List Info)
    → IsSorted vs
    → IsSorted ws
    → All (InBucket n) vs
    → All (InBucketFrom (suc n)) ws
    → IsSorted (vs ++ ws)
append-IsSorted n [] ws s t a b = t
append-IsSorted n (v ∷ vs) ws s t a b = (
  append-All (λ w. Below v w) vs ws s.0 (from_next v ws a.0 b),
  append-IsSorted n vs ws s.1 t a.1 b,
)

buckets_from-All :
    (n count : ℕ) (vs : List Info) → All HasKey vs → All (InBucketFrom n) (buckets_from n count vs)
unfolding buckets_from
buckets_from-All n zero vs a = tt
buckets_from-All n (suc count) vs a =
    append-All (InBucketFrom n) (sort_slice (bucket n vs)) (buckets_from (suc n) count vs)
      (All-imp (InBucket n) (InBucketFrom n) (sort_slice (bucket n vs))
        (λ v i. (i.0, omega (arith, i.1)))
        (sort_slice-All (InBucket n) (bucket n vs) (bucket-InBucket n vs a)))
      (All-imp (InBucketFrom (suc n)) (InBucketFrom n) (buckets_from (suc n) count vs)
        (λ v i. (i.0, omega (arith, i.1))) (buckets_from-All (suc n) count vs a))

buckets_from-IsSorted :
    (n count : ℕ) (vs : List Info)
    → All HasKey vs
    → IsDistinct vs
    → IsSorted (buckets_from n count vs)
unfolding buckets_from
buckets_from-IsSorted n zero vs a d = tt
buckets_from-IsSorted n (suc count) vs a d =
    append-IsSorted n (sort_slice (bucket n vs)) (buckets_from (suc n) count vs)
      (sort_slice-IsSorted (bucket n vs) (bucket-IsDistinct n vs d))
      (buckets_from-IsSorted (suc n) count vs a d)
      (sort_slice-All (InBucket n) (bucket n vs) (bucket-InBucket n vs a))
      (buckets_from-All (suc n) count vs a)

-- The bucket sort puts contents with distinct keys, whose IDs have an allowed prefix and some bytes
-- (HasKey), in the strict order of their keys.
pub sorted_contents-IsSorted :
    (vs : List Info) → All HasKey vs → IsDistinct vs → IsSorted (sorted_contents vs)
unfolding sorted_contents
sorted_contents-IsSorted vs a d = buckets_from-IsSorted 0 576 vs a d

buckets_from-All_of {κ} :
    (P : Info → Type κ) (n count : ℕ) (vs : List Info) → All P vs → All P (buckets_from n count vs)
unfolding buckets_from
buckets_from-All_of P n zero vs a = tt
buckets_from-All_of P n (suc count) vs a =
    append-All P (sort_slice (bucket n vs)) (buckets_from (suc n) count vs)
      (sort_slice-All P (bucket n vs) (bucket-All P n vs a))
      (buckets_from-All_of P (suc n) count vs a)

-- The bucket sort adds no content.
pub sorted_contents-All {κ} :
    (P : Info → Type κ) (vs : List Info) → All P vs → All P (sorted_contents vs)
unfolding sorted_contents
sorted_contents-All P vs a = buckets_from-All_of P 0 576 vs a
