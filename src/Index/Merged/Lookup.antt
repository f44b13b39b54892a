-- ===== src/Index/Merged/Lookup.antt =====
-- GetInfo of repo/content/index/merged.go: the greatest answer, or the first error.
use mathlib.Core.List.{flatten}
use kopia.Prelude.{
  ◌≡◌, refl, inl, inr, false, List, [], ◌∷◌, ◌++◌, Option, none, some, ok, err, arith, All, All-imp,
  append-All, append_assoc, append-nil, Bool-cases,
}
use kopia.Index.ContentId.{ContentId}
use kopia.Index.Info.{Info}
use kopia.Index.Builder.{info_greater_than}
use kopia.Index.Builder.Adding.{IsGreatest, not_above_trans, not_greater_trans}
use kopia.Index.Builder.Members.{Place-append_left, Place-append_right}
use kopia.Index.Merged.{Index, get_info, get_best, better}

not_greater_join :
    (y o a : Info)
    → info_greater_than y o ≡ false
    → info_greater_than o a ≡ false
    → info_greater_than y a ≡ false
not_greater_join y o a h k =
    ground (arith, h, k, not_above_trans y.pack_blob_id o.pack_blob_id a.pack_blob_id)

-- The better one of two greatest infos is a greatest one of both lists.
better-IsGreatest :
    (id : ContentId) (xs ys : List Info) (a o : Option Info)
    → IsGreatest id xs a
    → IsGreatest id ys o
    → IsGreatest id (xs ++ ys) (better o a)
better-IsGreatest id xs ys none none g h = append-All _ xs ys g h
better-IsGreatest id xs ys none (some o) g h = (
  h.0,
  Place-append_right o xs ys h.1,
  append-All _ xs ys (All-imp _ _ xs (λ x n l. absurd (ground (arith, l, n))) g) h.2,
)
better-IsGreatest id xs ys (some a) none g h = (
  g.0,
  Place-append_left a xs ys g.1,
  append-All _ xs ys g.2 (All-imp _ _ ys (λ x n l. absurd (ground (arith, l, n))) h),
)
better-IsGreatest id xs ys (some a) (some o) g h = elim (Bool-cases (info_greater_than o a)) [
  | inl e ↦ rw e (
    h.0,
    Place-append_right o xs ys h.1,
    append-All _ xs ys (All-imp _ _ xs (λ x n l. not_greater_trans x a o (n l) e) g.2) h.2,
  )
  | inr e ↦ rw e (
    g.0,
    Place-append_left a xs ys g.1,
    append-All _ xs ys g.2 (All-imp _ _ ys (λ y n l. not_greater_join y o a (n l) e) h.2),
  )
]

module _ {E : Type 0} where
  -- An index answers for a list of infos: without an error, with a greatest one of them.
  abbrev pub AnswersFor : Index E → List Info → ContentId → Type 0
  AnswersFor ndx xs id = (o : Option Info) × (ndx.get_info id ≡ ok o) × IsGreatest id xs o

  abbrev pub AllAnswer : List (Index E) → List (List Info) → ContentId → Type 0
  AllAnswer [] [] id = Unit
  AllAnswer [] (xs ∷ xss) id = ⊥
  AllAnswer (ndx ∷ m) [] id = ⊥
  AllAnswer (ndx ∷ m) (xs ∷ xss) id = AnswersFor ndx xs id × AllAnswer m xss id

  get_best-IsGreatest :
      (m : List (Index E)) (xss : List (List Info)) (id : ContentId) (ws : List Info)
      (best : Option Info)
      → IsGreatest id ws best
      → AllAnswer m xss id
      → (r : Option Info) × (get_best best m id ≡ ok r) × IsGreatest id (ws ++ flatten xss) r
  unfolding get_best flatten
  get_best-IsGreatest [] [] id ws best g a = (best, refl, rw (append-nil) g)
  get_best-IsGreatest [] (xs ∷ xss) id ws best g a = absurd a
  get_best-IsGreatest (ndx ∷ m) [] id ws best g a = absurd a
  get_best-IsGreatest (ndx ∷ m) (xs ∷ xss) id ws best g a =
      let (o, e, h) = a.0 in
      let (r, f, k) =
        get_best-IsGreatest m xss id (ws ++ xs) (better o best)
          (better-IsGreatest id ws xs best o g h) a.1 in
      (r, rw e f, rw (append_assoc ws xs (flatten xss)) at k)

  -- If every index answers for its infos, the merged index answers for all of them.
  pub get_info-IsGreatest :
      (m : List (Index E)) (xss : List (List Info)) (id : ContentId)
      → AllAnswer m xss id
      → (r : Option Info) × (get_info m id ≡ ok r) × IsGreatest id (flatten xss) r
  unfolding get_info
  get_info-IsGreatest m xss id a = get_best-IsGreatest m xss id [] none tt a

  get_best-err :
      (before after : List (Index E)) (ndx : Index E) (id : ContentId) (e : E) (best : Option Info)
      → All (λ n. (o : Option Info) × (n.get_info id ≡ ok o)) before
      → ndx.get_info id ≡ err e
      → get_best best (before ++ (ndx ∷ after)) id ≡ err e
  unfolding get_best
  get_best-err [] after ndx id e best a h = rw h refl
  get_best-err (n ∷ before) after ndx id e best a h =
      rw (a.0.1) (get_best-err before after ndx id e (better a.0.0 best) a.1 h)

  -- The first error of an index is the error of the merged index.
  pub get_info-err :
      (before after : List (Index E)) (ndx : Index E) (id : ContentId) (e : E)
      → All (λ n. (o : Option Info) × (n.get_info id ≡ ok o)) before
      → ndx.get_info id ≡ err e
      → get_info (before ++ (ndx ∷ after)) id ≡ err e
  unfolding get_info
  get_info-err before after ndx id e a h = get_best-err before after ndx id e none a h
