-- ===== src/Content/Maps.antt =====
-- Maps from content IDs to infos, as repo/content/content_manager.go merges them.
use kopia.Prelude.{
  same_some, ◌<◌, ◌≡◌, refl, sym, ap, ◌∙◌, inl, inr, Bool, true, false, List, [], ◌∷◌, Option, none,
  some, arith, Bool-cases,
}
use kopia.Index.Builder.{lookup_info, put_info, same_id, add, add_all, content_info_greater_than}
use kopia.Index.Builder.Adding.{lookup_info-put_info, same_id-eq, same_id_refl, same_id_both}
use kopia.Index.ContentId.{ContentId}
use kopia.Index.Info.{Info}

-- no ID has two infos
abbrev pub NoDup : List Info → Type 0
NoDup [] = Unit
NoDup (i ∷ m) = (lookup_info m i.content_id ≡ none) × NoDup m

clash : (b : Bool) → b ≡ true → b ≡ false → ⊥
clash b h k = ground (arith, h, k)

pub same_id_sym : (i j : ContentId) → same_id i j ≡ false → same_id j i ≡ false
same_id_sym i j h = elim (Bool-cases (same_id j i)) [
  | inr e ↦ e
  | inl e ↦ absurd (
      clash (same_id i j)
        (same_id_both j i j (same_id_refl j) (rw (same_id-eq j i e) (same_id_refl i))) h)
]

-- an info that is found has the ID
pub lookup_info-same :
    (m : List Info) (id : ContentId) (i : Info)
    → lookup_info m id ≡ some i
    → same_id i.content_id id ≡ true
unfolding lookup_info
lookup_info-same [] id i e = absurd (ground (arith, e))
lookup_info-same (j ∷ m) id i e = elim (Bool-cases (same_id j.content_id id)) [
  | inl h ↦ let here : j ≡ i = same_some j i (rw h at e) in rw (← here) h
  | inr h ↦ lookup_info-same m id i (rw h at e)
]

pub put_info-NoDup : (m : List Info) (i : Info) → NoDup m → NoDup (put_info m i)
unfolding put_info lookup_info
put_info-NoDup [] i h = (refl, tt)
put_info-NoDup (j ∷ m) i h = elim (Bool-cases (same_id j.content_id i.content_id)) [
  | inl e ↦ rw e (rw (same_id-eq j.content_id i.content_id e) at h.0, h.1)
  | inr e ↦
      rw (e, lookup_info-put_info m i j.content_id, same_id_sym j.content_id i.content_id e)
        (h.0, put_info-NoDup m i h.1)
]

add-NoDup : (m : List Info) (i : Info) → NoDup m → NoDup (add m i)
unfolding add
add-NoDup m i h =
    elim (Bool-cases (content_info_greater_than (some i) (lookup_info m i.content_id))) [
      | inl e ↦ rw e (put_info-NoDup m i h)
      | inr e ↦ rw e h
    ]

pub add_all-NoDup : (m is : List Info) → NoDup m → NoDup (add_all m is)
unfolding add_all
add_all-NoDup m [] h = h
add_all-NoDup m (i ∷ is) h = add_all-NoDup (add m i) is (add-NoDup m i h)

-- another ID is left alone
lookup_info-add_ne :
    (m : List Info) (i : Info) (id : ContentId)
    → same_id i.content_id id ≡ false
    → lookup_info (add m i) id ≡ lookup_info m id
unfolding add
lookup_info-add_ne m i id h =
    elim (Bool-cases (content_info_greater_than (some i) (lookup_info m i.content_id))) [
      | inl e ↦ rw (e, lookup_info-put_info m i id, h) refl
      | inr e ↦ rw e refl
    ]

-- An info is newer than what there is.
abbrev pub Newer : Info → Option Info → Type 0
Newer i none = Unit
Newer i (some j) = j.timestamp_seconds < i.timestamp_seconds

pub Newer-greater :
    (i : Info) (o : Option Info) → Newer i o → content_info_greater_than (some i) o ≡ true
Newer-greater i none h = refl
Newer-greater i (some j) h = ground (arith, h)

lookup_info-add-Newer :
    (m : List Info) (i : Info) (id : ContentId)
    → same_id i.content_id id ≡ true
    → Newer i (lookup_info m id)
    → lookup_info (add m i) id ≡ some i
unfolding add
lookup_info-add-Newer m i id h n =
    let same : lookup_info m i.content_id ≡ lookup_info m id =
      ap (lookup_info m) (same_id-eq i.content_id id h) in
    rw (same, Newer-greater i (lookup_info m id) n, lookup_info-put_info m i id, h) refl

-- What is added to a map is found in it.
pub lookup_info-add_all-none :
    (m is : List Info) (id : ContentId)
    → lookup_info is id ≡ none
    → lookup_info (add_all m is) id ≡ lookup_info m id
unfolding add_all lookup_info
lookup_info-add_all-none m [] id e = refl
lookup_info-add_all-none m (i ∷ is) id e = elim (Bool-cases (same_id i.content_id id)) [
  | inl h ↦ absurd (ground (arith, h, e))
  | inr h ↦ lookup_info-add_all-none (add m i) is id (rw h at e) ∙ lookup_info-add_ne m i id h
]

pub lookup_info-add_all-some :
    (m is : List Info) (id : ContentId) (i : Info)
    → NoDup is
    → lookup_info is id ≡ some i
    → Newer i (lookup_info m id)
    → lookup_info (add_all m is) id ≡ some i
unfolding add_all lookup_info
lookup_info-add_all-some m [] id i d e n = absurd (ground (arith, e))
lookup_info-add_all-some m (j ∷ is) id i d e n = elim (Bool-cases (same_id j.content_id id)) [
  | inl h ↦
      let here : j ≡ i = same_some j i (rw h at e) in
      let rest : lookup_info is id ≡ none =
        sym (ap (lookup_info is) (same_id-eq j.content_id id h)) ∙ d.0 in
      lookup_info-add_all-none (add m j) is id rest
      ∙ (lookup_info-add-Newer m j id h (rw (here) n) ∙ ap some here)
  | inr h ↦
      let before = lookup_info-add_ne m j id h in
      lookup_info-add_all-some (add m j) is id i d.1 (rw h at e) (rw before n)
]
