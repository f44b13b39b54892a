-- ===== src/Content/Writing.antt =====
-- Writing a pack changes nothing of what repo/content/content_manager.go shows.
use kopia.Prelude.{
  ◌≡◌, refl, sym, ◌∙◌, inl, inr, Bool, true, false, not, List, [], ◌∷◌, Option, none, some,
  if◌then◌else◌, arith, Bool-cases, Option-cases, length, ◌==◌,
}
use kopia.Content.Maps.{NoDup, lookup_info-add_all-none, lookup_info-add_all-some, add_all-NoDup}
use kopia.Content.Packs.{
  Written, prepare_pack_data_content, put_pack, put_if_prepared, prepare_and_write_pack_internal,
  has_content,
}
use kopia.Content.Seen.{MayFail, Lawful, committed}
use kopia.Content.State.{PendingPack, Environment, Manager}
use kopia.Index.Builder.{lookup_info, add_all}
use kopia.Index.ContentId.{ContentId}
use kopia.Index.Info.{Info}

-- The map of a list of distinct infos is the list.
pub lookup_info-add_all :
    (is : List Info) (id : ContentId)
    → NoDup is
    → lookup_info (add_all [] is) id ≡ lookup_info is id
unfolding lookup_info
lookup_info-add_all is id d = elim (Option-cases (lookup_info is id)) [
  | inl e ↦ lookup_info-add_all-none [] is id e ∙ sym e
  | inr (i, e) ↦ lookup_info-add_all-some [] is id i d e tt ∙ sym e
]

-- no key at all
pub empty_lookup : (is : List Info) (id : ContentId) → length is ≡ 0 → lookup_info is id ≡ none
unfolding lookup_info
empty_lookup [] id e = refl
empty_lookup (i ∷ is) id e = absurd (omega (arith, e))

module _ {W E : Type 0} (env : Environment W E) (Faulty : E → Type 0)
    (law : Lawful env Faulty) where
  -- a pack that is prepared, with what becomes of the index
  pub record Prepared (pp : PendingPack) (w : Written E) : Type 0 where
    pub index :
        (id : ContentId) → lookup_info w.pack_file_index id ≡ lookup_info pp.current_pack_items id
    pub distinct : NoDup w.pack_file_index
    pub id : w.pack.pack_blob_id ≡ pp.pack_blob_id
    pub may_fail : MayFail Faulty w.error

  either :
      (pp : PendingPack) (b : Bool) (x y : Written E)
      → Prepared pp x
      → Prepared pp y
      → Prepared pp (if b then x else y)
  either pp true x y p q = p
  either pp false x y p q = q

  prepare-Prepared :
      (pp : PendingPack)
      → NoDup pp.current_pack_items
      → Prepared pp (prepare_pack_data_content env pp)
  unfolding prepare_pack_data_content lookup_info
  prepare-Prepared pp d =
      let items = add_all [] pp.current_pack_items in
      let index = λ (id : ContentId). lookup_info-add_all pp.current_pack_items id d in
      let distinct = add_all-NoDup [] pp.current_pack_items tt in
      elim (Bool-cases (length items == 0)) [
        | inl e ↦ rw e (record {
          index = λ id. sym (empty_lookup items id (ground (arith, e))) ∙ index id;
          distinct = tt;
          id = refl;
          may_fail = tt;
        })
        | inr e ↦ rw e (
            either pp (not (has_content pp.pack_blob_id pp.current_pack_items)) _ _
              (record { index = index; distinct = distinct; id = refl; may_fail = tt })
              (either pp pp.finalized _ _
                (record { index = index; distinct = distinct; id = refl; may_fail = tt })
                (record {
                  index = index;
                  distinct = distinct;
                  id = refl;
                  may_fail = law.finish_fails items pp.current_pack_data;
                })))
      ]

  -- the world may change, and nothing that is committed
  pub record PutResult (pp : PendingPack) (s : Manager W) (r : Written E × Manager W) : Type 0 where
    pub world : W
    pub prepared : Prepared pp r.0
    pub state : r.1 ≡ record s { world = world }
    pub keeps : (id : ContentId) → committed env world id ≡ committed env s.world id

  put_pack-PutResult :
      (pp : PendingPack) (w : Written E) (s : Manager W)
      → Prepared pp w
      → PutResult pp s (put_pack env w s)
  put_pack-PutResult pp w s p = elim (Bool-cases (length w.pack.current_pack_data == 0)) [
    | inl e ↦ rw e (record { world = s.world; prepared = p; state = refl; keeps = λ id. refl })
    | inr e ↦
        let put = env.put_blob w.pack.pack_blob_id w.pack.current_pack_data s.world in
        rw e (record {
          world = put.1;
          prepared = record {
            index = p.index;
            distinct = p.distinct;
            id = p.id;
            may_fail = law.put_fails w.pack.pack_blob_id w.pack.current_pack_data s.world;
          };
          state = refl;
          keeps = law.put_keeps w.pack.pack_blob_id w.pack.current_pack_data s.world;
        })
  ]

  put_if_prepared-PutResult :
      (pp : PendingPack) (o : Option E) (w : Written E) (s : Manager W)
      → Prepared pp w
      → PutResult pp s (put_if_prepared env o w s)
  put_if_prepared-PutResult pp none w s p = put_pack-PutResult pp w s p
  put_if_prepared-PutResult pp (some e) w s p = record {
    world = s.world;
    prepared = p;
    state = refl;
    keeps = λ id. refl;
  }

  pub prepare_and_write-PutResult :
      (pp : PendingPack) (s : Manager W)
      → NoDup pp.current_pack_items
      → PutResult pp s (prepare_and_write_pack_internal env pp s)
  unfolding prepare_and_write_pack_internal
  prepare_and_write-PutResult pp s d =
      let w = prepare_pack_data_content env pp in
      put_if_prepared-PutResult pp w.error w s (prepare-Prepared pp d)
