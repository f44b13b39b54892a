-- ===== src/Index/Builder/Adding.antt =====
-- Add of repo/content/index/index_builder.go keeps, of each content, the greatest info by
-- contentInfoGreaterThan of merged.go.
use kopia.Prelude.{
  ℕ, ◌≡◌, refl, ap, ◌∙◌, inl, inr, Bool, true, false, List, [], ◌∷◌, ◌++◌, Option, none, some,
  arith, All, All-imp, append-All, append_assoc, append-nil, Bool-cases, bytes_equal_iff,
  bytes_equal_refl, if◌then◌else◌,
}
use kopia.Index.ContentId.{ContentId, compare_bytes, is_lt}
use kopia.Index.Info.{Info}
use kopia.Index.Builder.{
  same_id, info_greater_than, content_info_greater_than, lookup_info, put_info, add, add_all,
}
use kopia.Index.Builder.Members.{Place, Place-append_left, Place-append_right}

-- Strings that are not above one another in a row.
pub not_above_trans :
    (a b c : List ℕ)
    → is_lt (compare_bytes b a) ≡ false
    → is_lt (compare_bytes c b) ≡ false
    → is_lt (compare_bytes c a) ≡ false
unfolding compare_bytes
not_above_trans [] b [] h k = refl
not_above_trans [] [] (z ∷ c) h k = refl
not_above_trans [] (y ∷ b) (z ∷ c) h k = refl
not_above_trans (x ∷ a) [] c h k = absurd (ground (arith, h))
not_above_trans (x ∷ a) (y ∷ b) [] h k = absurd (ground (arith, k))
not_above_trans (x ∷ a) (y ∷ b) (z ∷ c) h k = ground (arith, h, k, not_above_trans a b c)

above_not_below :
    (a b : List ℕ) → is_lt (compare_bytes a b) ≡ true → is_lt (compare_bytes b a) ≡ false
unfolding compare_bytes
above_not_below [] [] h = refl
above_not_below [] (y ∷ b) h = refl
above_not_below (x ∷ a) [] h = absurd (ground (arith, h))
above_not_below (x ∷ a) (y ∷ b) h = ground (arith, h, above_not_below a b)

differ : (b : Bool) → b ≡ true → b ≡ false → ⊥
differ b h k = ground (arith, h, k)

-- What is not greater than an info is not greater than one that is greater.
pub not_greater_trans :
    (x g i : Info)
    → info_greater_than x g ≡ false
    → info_greater_than i g ≡ true
    → info_greater_than x i ≡ false
not_greater_trans x g i h k = ground (
  arith,
  h,
  k,
  not_above_trans x.pack_blob_id g.pack_blob_id i.pack_blob_id,
  above_not_below g.pack_blob_id i.pack_blob_id,
)

not_above_refl : (a : List ℕ) → is_lt (compare_bytes a a) ≡ false
unfolding compare_bytes
not_above_refl [] = refl
not_above_refl (x ∷ a) = ground (arith, not_above_refl a)

pub not_greater_refl : (x : Info) → info_greater_than x x ≡ false
not_greater_refl x = ground (arith, not_above_refl x.pack_blob_id)

-- the same ID

pub same_id_refl : (i : ContentId) → same_id i i ≡ true
same_id_refl i = ground (arith, bytes_equal_refl i.hash)

pub same_id-same : (i j k : ContentId) → same_id i j ≡ true → same_id i k ≡ same_id j k
same_id-same i j k h =
    let e : i.hash ≡ j.hash = (bytes_equal_iff i.hash j.hash).0 (ground (arith, h)) in
    let p : i.prefix ≡ j.prefix = ground (arith, h) in rw (e, p) refl

pub same_id_both :
    (i j k : ContentId) → same_id i k ≡ true → same_id j k ≡ true → same_id j i ≡ true
same_id_both i j k h l =
    let e : i.hash ≡ k.hash = (bytes_equal_iff i.hash k.hash).0 (ground (arith, h)) in
    let f : j.hash ≡ k.hash = (bytes_equal_iff j.hash k.hash).0 (ground (arith, l)) in
    let p : j.prefix ≡ i.prefix = ground (arith, h, l) in
    rw (p, f, e) (same_id_refl (record { prefix = i.prefix; hash = k.hash }))

pub same_id-eq : (i j : ContentId) → same_id i j ≡ true → i ≡ j
same_id-eq i j h =
    let e : i.hash ≡ j.hash = (bytes_equal_iff i.hash j.hash).0 (ground (arith, h)) in
    let p : i.prefix ≡ j.prefix = ground (arith, h) in
    ap (λ (q : ℕ). with_fields q i.hash) p ∙ ap (λ (t : List ℕ). with_fields j.prefix t) e
  where
    with_fields : ℕ → List ℕ → ContentId
    with_fields q t = record { prefix = q; hash = t }

pub lookup_info-put_info :
    (b : List Info) (i : Info) (id : ContentId)
    → lookup_info (put_info b i) id ≡ (if same_id i.content_id id then some i else lookup_info b id)
unfolding lookup_info put_info
lookup_info-put_info [] i id = refl
lookup_info-put_info (j ∷ b) i id = elim (Bool-cases (same_id j.content_id i.content_id)) [
  | inl e ↦
      rw (e, same_id-same j.content_id i.content_id id e)
        (elim (Bool-cases (same_id i.content_id id)) [ inl h ↦ rw h refl | inr h ↦ rw h refl ])
  | inr e ↦
      rw (e, lookup_info-put_info b i id)
        (elim (Bool-cases (same_id j.content_id id)) [
          | inr h ↦ rw h refl
          | inl h ↦ elim (Bool-cases (same_id i.content_id id)) [
            | inr l ↦ rw (h, l) refl
            | inl l ↦ absurd (
                differ (same_id j.content_id i.content_id)
                  (same_id_both i.content_id j.content_id id l h) e)
          ]
        ])
]

-- Of the infos with an ID, one that no other is greater than; none, if no info has the ID.
abbrev pub IsGreatest : ContentId → List Info → Option Info → Type 0
IsGreatest id xs none = All (λ x. same_id x.content_id id ≡ false) xs
IsGreatest id xs (some g) =
    (same_id g.content_id id ≡ true)
    × Place xs g
    × All (λ x. same_id x.content_id id ≡ true → info_greater_than x g ≡ false) xs

-- one info more

another_id :
    (id : ContentId) (xs : List Info) (r : Option Info) (i : Info)
    → same_id i.content_id id ≡ false
    → IsGreatest id xs r
    → IsGreatest id (xs ++ (i ∷ [])) r
another_id id xs none i h g = append-All _ xs (i ∷ []) g (h, tt)
another_id id xs (some r) i h g = (
  g.0,
  Place-append_left r xs (i ∷ []) g.1,
  append-All _ xs (i ∷ []) g.2 ((λ k. absurd (differ _ k h)), tt),
)

replaced :
    (id : ContentId) (xs : List Info) (r : Option Info) (i : Info)
    → same_id i.content_id id ≡ true
    → content_info_greater_than (some i) r ≡ true
    → IsGreatest id xs r
    → IsGreatest id (xs ++ (i ∷ [])) (some i)
replaced id xs none i h k g = (
  h,
  Place-append_right i xs (i ∷ []) (0, refl),
  append-All _ xs (i ∷ []) (All-imp _ _ xs (λ x n l. absurd (differ _ l n)) g)
      ((λ l. not_greater_refl i), tt),
)
replaced id xs (some r) i h k g = (
  h,
  Place-append_right i xs (i ∷ []) (0, refl),
  append-All _ xs (i ∷ []) (All-imp _ _ xs (λ x n l. not_greater_trans x r i (n l) k) g.2)
      ((λ l. not_greater_refl i), tt),
)

kept :
    (id : ContentId) (xs : List Info) (r : Option Info) (i : Info)
    → content_info_greater_than (some i) r ≡ false
    → IsGreatest id xs r
    → IsGreatest id (xs ++ (i ∷ [])) r
kept id xs none i k g = absurd (ground (arith, k))
kept id xs (some r) i k g =
    (g.0, Place-append_left r xs (i ∷ []) g.1, append-All _ xs (i ∷ []) g.2 ((λ l. k), tt))

abbrev Answers : List Info → List Info → Type 0
Answers b xs = (id : ContentId) → IsGreatest id xs (lookup_info b id)

add-Answers : (b xs : List Info) (i : Info) → Answers b xs → Answers (add b i) (xs ++ (i ∷ []))
unfolding add
add-Answers b xs i a id =
    let found = lookup_info b i.content_id in
    elim (Bool-cases (content_info_greater_than (some i) found)) [
      | inl e ↦
          rw (e, lookup_info-put_info b i id)
            (elim (Bool-cases (same_id i.content_id id)) [
              | inl h ↦
                  let same : found ≡ lookup_info b id =
                    ap (lookup_info b) (same_id-eq i.content_id id h) in
                  rw h (replaced id xs (lookup_info b id) i h (rw same at e) (a id))
              | inr h ↦ rw h (another_id id xs (lookup_info b id) i h (a id))
            ])
      | inr e ↦ rw e (elim (Bool-cases (same_id i.content_id id)) [
        | inl h ↦
            let same : found ≡ lookup_info b id =
              ap (lookup_info b) (same_id-eq i.content_id id h) in
            kept id xs (lookup_info b id) i (rw same at e) (a id)
        | inr h ↦ another_id id xs (lookup_info b id) i h (a id)
      ])
    ]

add_all-Answers : (b xs is : List Info) → Answers b xs → Answers (add_all b is) (xs ++ is)
unfolding add_all
add_all-Answers b xs [] a = rw (append-nil) a
add_all-Answers b xs (i ∷ is) a =
    rw (append_assoc xs (i ∷ []) is) at
      (add_all-Answers (add b i) (xs ++ (i ∷ [])) is (add-Answers b xs i a))

-- Whatever infos are added in whatever order, the builder holds, for each content ID, a greatest one of
-- those with the ID, and holds none only if none was added.
pub add_all-IsGreatest :
    (is : List Info) (id : ContentId) → IsGreatest id is (lookup_info (add_all [] is) id)
unfolding lookup_info
add_all-IsGreatest is id = add_all-Answers [] [] is (λ k. tt) id
