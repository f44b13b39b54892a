-- ===== src/Content/Data/Adding.antt =====
-- A content that is added to a pack in repo/content/content_manager.go: its bytes are in the pack, and those
-- of the others stay.
use mathlib.Core.Path.{subst}
use kopia.Prelude.{
  same_some, ℕ, ◌≤◌, ◌^◌, ◌≡◌, refl, sym, ap, ◌∙◌, inl, inr, false, ◌&&◌, List, [], ◌++◌, Option,
  none, some, length, leb, arith, Bool-cases, bytes_equal, bytes_equal_refl, append-nil,
  length-append,
}
use kopia.Content.Action.{Outcome, Outcome-imp, Outcome-when, returns}
use kopia.Content.Adding.{Put-after}
use kopia.Content.Data.{
  Storage, PackSound, PendingSound, Sound, Small, PendingSmall, source, source_of, Moves, Preserves,
}
use kopia.Content.Data.Preserving.{Moves-trans}
use kopia.Content.Data.Writing.{write_pack-Preserves}
use kopia.Content.Operations.{is_found, store_pack, add_item}
use kopia.Content.Putting.{Newest, Put, with_item-Put}
use kopia.Content.Seen.{Lawful, Valid, PackOf}
use kopia.Content.State.{
  PackPrefix, PendingPack, MutableParameters, Environment, Manager, set_pending,
  pack_prefix_for_content_id,
}
use kopia.Content.Storing.{write_pack-Gone}
use kopia.Index.Builder.{lookup_info, same_id}
use kopia.Index.Builder.Adding.{lookup_info-put_info, same_id_refl}
use kopia.Index.ContentId.{ContentId}
use kopia.Index.Info.{Info}
use kopia.Content.Pending.{each, each_other, at_own}

module _ {W E : Type 0} (env : Environment W E) (blob : W → List ℕ → Option (List ℕ)) where
  -- an info was put, with bytes in its pack
  pub record Added (s : Manager W) (i : Info) (d : List ℕ) (t : Manager W) : Type 0 where
    pub put : Put env s i t
    pub sound : Sound env blob t
    pub small : Small t
    pub others : (j : ContentId) → same_id i.content_id j ≡ false → Moves env blob s t j
    pub own : (x : List ℕ) × (source_of env blob t i.content_id i.pack_blob_id ≡ some (d ++ x))

  module _ (s : Manager W) (pp : PendingPack) (i : Info) (packed : List ℕ) (p : Sound env blob s)
      (has : s.pending_packs (pack_prefix_for_content_id i.content_id) ≡ some pp)
      (here : i.pack_blob_id ≡ pp.pack_blob_id) where
    abbrev k : PackPrefix
    k = pack_prefix_for_content_id i.content_id

    abbrev full : PendingPack
    full = add_item pp i packed

    old : PackSound env blob k s.world pp
    old = subst (λ o. PendingSound env blob k s.world o) has (p k)

    pub full-Sound : Sound env blob (set_pending s k (some full))
    full-Sound = λ j.
        each (λ l o. PendingSound env blob l s.world o) k j s.pending_packs (some full)
          (record {
            not_finalized = old.not_finalized;
            fresh = old.fresh;
            named = old.named;
            filled = omega (arith, old.filled, length-append pp.current_pack_data packed);
          })
          (p j)

    grown :
        (id : ContentId) (n d : List ℕ)
        → same_id i.content_id id ≡ false
        → source env blob (some pp) s.world id n ≡ some d
        → (x : List ℕ) × (source env blob (some full) s.world id n ≡ some (d ++ x))
    grown id n d ne e =
        let same : lookup_info full.current_pack_items id ≡ lookup_info pp.current_pack_items id =
          rw (lookup_info-put_info pp.current_pack_items i id, ne) refl in
        elim (Bool-cases
          (is_found (lookup_info pp.current_pack_items id) && bytes_equal pp.pack_blob_id n)) [
            | inl h ↦ (
              packed,
              rw (same, h)
                  (ap (λ y. some (y ++ packed)) (same_some pp.current_pack_data d (rw h at e))),
            )
            | inr h ↦ ([], rw (same, h) ((rw h at e) ∙ ap some (sym (append-nil d))))
          ]

    pub full-others :
        (j : ContentId)
        → same_id i.content_id j ≡ false
        → Moves env blob s (set_pending s k (some full)) j
    full-others j ne = λ x d h e.
        each_other
          (λ a b.
            source env blob a s.world j x.pack_blob_id ≡ some d
            → (y : List ℕ) × (source env blob b s.world j x.pack_blob_id ≡ some (d ++ y)))
          k (pack_prefix_for_content_id j) s.pending_packs (some full)
          (λ g.
            grown j x.pack_blob_id d ne
              (ap (λ o. source env blob o s.world j x.pack_blob_id) (sym has) ∙ g))
          (λ o g. ([], g ∙ ap some (sym (append-nil d)))) e

    pub full-own :
        source_of env blob (set_pending s k (some full)) i.content_id i.pack_blob_id
        ≡ some (pp.current_pack_data ++ packed)
    full-own =
        rw
          (
            at_own s.pending_packs k (some full),
            lookup_info-put_info pp.current_pack_items i i.content_id,
            same_id_refl i.content_id,
            here,
            bytes_equal_refl pp.pack_blob_id,
          )
          refl

  module _ (Faulty : E → Type 0) (law : Lawful env Faulty) (store : Storage env blob) where
    -- A pack that is full is written, and its bytes stay.
    pub store_pack-Added :
        (mp : MutableParameters) (s : Manager W) (pp : PendingPack) (i : Info) (packed : List ℕ)
        → mp.max_pack_size ≤ 2 ^ 31
        → Valid env s
        → Sound env blob s
        → Small s
        → s.pending_packs (pack_prefix_for_content_id i.content_id) ≡ some pp
        → i.pack_blob_id ≡ pp.pack_blob_id
        → Newest env s i.content_id i
        → Outcome Faulty
            (λ u t. Added s i (pp.current_pack_data ++ packed) t)
            (store_pack env mp (add_item pp i packed) s)
    store_pack-Added mp s pp i packed max v p m has here newest =
        let k = pack_prefix_for_content_id i.content_id in
        let own : pp.prefix ≡ k = (subst (λ o. PackOf env k o) has (v.packs k)).0 in
        let full = add_item pp i packed in
        let s1 = set_pending s k (some full) in
        let same : set_pending s pp.prefix (some full) ≡ s1 =
          ap (λ j. set_pending s j (some full)) own in
        let put = with_item-Put env s pp i full.current_pack_data v has newest in
        let sound = full-Sound s pp i packed p has here in
        elim (Bool-cases (leb mp.max_pack_size (length full.current_pack_data))) [
          | inl e ↦ rw e (
              Outcome-imp Faulty
                (λ u t g.
                  let after : Preserves env blob s1 t =
                    subst (λ x. Preserves env blob x t) same g.1 in
                  record {
                    put = Put-after env Faulty law s s1 t i put after.keeps;
                    sound = after.sound;
                    small = after.small;
                    others = λ j ne.
                        Moves-trans env blob s s1 t j (put.others j ne)
                          (full-others s pp i packed p has here j ne) (after.moves j);
                    own =
                        after.moves i.content_id i (pp.current_pack_data ++ packed) put.there
                          (full-own s pp i packed p has here);
                  })
                (Outcome-when Faulty
                  (write_pack-Gone env Faulty law s full
                    (subst (λ x. Valid env x) (sym same) put.valid))
                  (λ a d g.
                    write_pack-Preserves env blob Faulty law store s full a
                      (subst (λ x. Valid env x) (sym same) put.valid)
                      (subst (λ x. Sound env blob x) (sym same) sound)
                      (λ j. each (λ l o. PendingSmall o) pp.prefix j s.pending_packs none tt (m j))
                      g d)))
          | inr e ↦ rw e (
              returns tt _ (
                subst (λ x. Added s i (pp.current_pack_data ++ packed) x) (sym same)
                  (record {
                    put = put;
                    sound = sound;
                    small = λ j.
                        each (λ l o. PendingSmall o) k j s.pending_packs (some full)
                          (ground (arith, e, max)) (m j);
                    others = full-others s pp i packed p has here;
                    own = (
                      [],
                      full-own s pp i packed p has here
                          ∙ ap some (sym (append-nil (pp.current_pack_data ++ packed))),
                    );
                  })))
        ]
