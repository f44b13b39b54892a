-- ===== src/Content/Dropping.antt =====
-- An entry of a pending pack of repo/content/content_manager.go is dropped, or replaced by one that is deleted.
use mathlib.Core.Path.{subst}
use kopia.Prelude.{
  ◌≡◌, refl, sym, ap, ◌∙◌, inl, inr, Bool, true, false, List, [], ◌∷◌, Option, none, some,
  if◌then◌else◌, arith, Bool-cases,
}
use kopia.Content.Maps.{NoDup, same_id_sym}
use kopia.Content.Operations.{delete_info, live}
use kopia.Content.Putting.{Put, set_pending-Valid}
use kopia.Content.Seen.{Valid, PackOf, committed, seen}
use kopia.Content.State.{
  PackPrefix, PendingPack, Environment, Manager, update, set_pending, in_pack, or_else,
  pack_prefix_for_content_id,
}
use kopia.Index.Builder.{lookup_info, same_id}
use kopia.Index.Builder.Adding.{same_id-eq, same_id_refl}
use kopia.Index.ContentId.{ContentId}
use kopia.Index.Info.{Info}

lookup_info-delete_info :
    (m : List Info) (id j : ContentId)
    → lookup_info (delete_info m id) j ≡ (if same_id id j then none else lookup_info m j)
unfolding lookup_info delete_info
lookup_info-delete_info [] id j = elim (Bool-cases (same_id id j)) [
  | inl e ↦ rw e refl
  | inr e ↦ rw e refl
]
lookup_info-delete_info (i ∷ m) id j =
    let rest = lookup_info-delete_info m id j in
    elim (Bool-cases (same_id i.content_id id)) [
      | inl e ↦
          let same : same_id i.content_id j ≡ same_id id j =
            ap (λ d. same_id d j) (same_id-eq i.content_id id e) in
          rw (e, rest, same) (same_if (same_id id j) (lookup_info m j) (some i))
      | inr e ↦ elim (Bool-cases (same_id i.content_id j)) [
        | inl d ↦ rw (e, d, same_id_sym j id (rw (same_id-eq i.content_id j d) at e)) refl
        | inr d ↦ rw (e, d) rest
      ]
    ]
  where
    same_if :
        (b : Bool) (o x : Option Info)
        → (if b then none else o) ≡ (if b then none else if b then x else o)
    same_if true o x = refl
    same_if false o x = refl

delete_info-NoDup : (m : List Info) (id : ContentId) → NoDup m → NoDup (delete_info m id)
unfolding delete_info
delete_info-NoDup [] id d = tt
delete_info-NoDup (i ∷ m) id d = elim (Bool-cases (same_id i.content_id id)) [
  | inl e ↦ rw e (delete_info-NoDup m id d.1)
  | inr e ↦
      rw (e, lookup_info-delete_info m id i.content_id, same_id_sym i.content_id id e)
        (d.0, delete_info-NoDup m id d.1)
]

dead : (i : Info) → i.deleted ≡ true → live (some i) ≡ none
dead i e = rw e refl

module _ {W E : Type 0} (env : Environment W E) where
  -- A content is not seen, or as deleted, and the others as before.
  pub record Deleted (s : Manager W) (id : ContentId) (t : Manager W) : Type 0 where
    pub valid : Valid env t
    pub dead : live (seen env t id) ≡ none
    pub others : (j : ContentId) → same_id id j ≡ false → seen env t j ≡ seen env s j

  pub Put-Deleted :
      (s t : Manager W) (id : ContentId) (i : Info)
      → i.content_id ≡ id
      → i.deleted ≡ true
      → Put env s i t
      → Deleted s id t
  Put-Deleted s t id i own e p = record {
    valid = p.valid;
    dead = ap (λ j. live (seen env t j)) (sym own) ∙ (ap live p.there ∙ dead i e);
    others = λ j h. p.others j (ap (λ d. same_id d j) own ∙ h);
  }

  -- the entry of a pending pack is dropped
  module _ (s : Manager W) (id : ContentId) (pp : PendingPack) (v : Valid env s)
      (has : s.pending_packs (pack_prefix_for_content_id id) ≡ some pp) where
    abbrev k : PackPrefix
    k = pack_prefix_for_content_id id

    abbrev without : PendingPack
    without = record pp { current_pack_items = delete_info pp.current_pack_items id }

    old : PackOf env k (some pp)
    old = subst (λ o. PackOf env k o) has (v.packs k)

    stays :
        (j : ContentId) (x : Info)
        → lookup_info without.current_pack_items j ≡ some x
        → lookup_info pp.current_pack_items j ≡ some x
    stays j x e = elim (Bool-cases (same_id id j)) [
      | inl h ↦
          absurd (ground (arith, rw (lookup_info-delete_info pp.current_pack_items id j, h) at e))
      | inr h ↦ rw (lookup_info-delete_info pp.current_pack_items id j, h) at e
    ]

    pending_after :
        (m l : PackPrefix) (f : PackPrefix → Option PendingPack) (j : ContentId)
        → f m ≡ some pp
        → same_id id j ≡ false
        → in_pack (update f m (some without) l) j ≡ in_pack (f l) j
    pending_after PackPrefix.regular PackPrefix.regular f j e h =
        rw (e, lookup_info-delete_info pp.current_pack_items id j, h) refl
    pending_after PackPrefix.special PackPrefix.special f j e h =
        rw (e, lookup_info-delete_info pp.current_pack_items id j, h) refl
    pending_after PackPrefix.regular PackPrefix.special f j e h = refl
    pending_after PackPrefix.special PackPrefix.regular f j e h = refl

    gone :
        (m : PackPrefix) (f : PackPrefix → Option PendingPack)
        → in_pack (update f m (some without) m) id ≡ none
    gone PackPrefix.regular f =
        rw (lookup_info-delete_info pp.current_pack_items id id, same_id_refl id) refl
    gone PackPrefix.special f =
        rw (lookup_info-delete_info pp.current_pack_items id id, same_id_refl id) refl

    pub drop-Deleted :
        live (or_else (lookup_info s.pack_index_builder id) (committed env s.world id)) ≡ none
        → Deleted s id (set_pending s k (some without))
    unfolding seen
    drop-Deleted earlier = record {
      valid =
          set_pending-Valid env s k without v
            (
              old.0,
              delete_info-NoDup pp.current_pack_items id old.1,
              λ j x e. old.2 j x (stays j x e),
            )
            (λ j x e.
              let here : in_pack (s.pending_packs k) j ≡ some x =
                ap (λ o. in_pack o j) has ∙ stays j x e in
              (v.newer_built k j x here, v.newer_pending k j x here));
      dead = rw (gone k s.pending_packs) earlier;
      others =
          λ j h. rw (pending_after k (pack_prefix_for_content_id j) s.pending_packs j has h) refl;
    }
