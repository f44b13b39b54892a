-- ===== src/Content/Deleting.antt =====
-- DeleteContent of repo/content/content_manager.go: the content is seen no more, or as deleted.
use mathlib.Core.Path.{subst}
use kopia.Prelude.{
  same_some, ◌≡◌, refl, sym, ap, ◌∙◌, inl, inr, false, Option, none, some, Result, ok, err, arith,
  Option-cases, ◌+◌, ◌⊎◌,
}
use kopia.Content.Action.{Outcome, returns, Outcome-bind, Outcome-imp, value_of}
use kopia.Content.Adding.{HasPack, get_or_create-HasPack, Put-before}
use kopia.Content.Finishing.{two_prefixes}
use kopia.Content.Flushing.{touch-Keeps}
use kopia.Content.Looking.{not_there, world-Keeps}
use kopia.Content.Maps.{Newer}
use kopia.Content.Operations.{
  deleted_info, delete_content, delete_pending, delete_found, delete_committed,
  delete_preexisting_content, live, live_in, live_in_packs, unix,
}
use kopia.Content.Putting.{Newest, Newest-seen, Put, with_item-Put, content_write_time-later}
use kopia.Content.Seen.{Lawful, Valid, Keeps, PackOf, committed, seen, pending_info}
use kopia.Content.State.{
  PackPrefix, PendingPack, Environment, Manager, set_pending, in_pack, or_else,
  pack_prefix_for_content_id, content_write_time,
}
use kopia.Index.Builder.{lookup_info, put_info}
use kopia.Index.ContentId.{ContentId}
use kopia.Index.Info.{Info}
use kopia.Content.Dropping.{Deleted, Put-Deleted, drop-Deleted}

module _ {W E : Type 0} (env : Environment W E) where
  -- a content was not written again since it came to the index
  abbrev pub New : Manager W → ContentId → Type 0
  New s id =
      (pending_info env s id ≡ none)
      ⊎ (live (or_else (lookup_info s.pack_index_builder id) (committed env s.world id)) ≡ none)

  -- the packs are looked through, of which only one may have the content
  route :
      (k : PackPrefix) (s : Manager W) (id : ContentId)
      (m : Manager W → Result E (Unit {0}) × Manager W)
      → ((j : PackPrefix) → (k ≡ j → ⊥) → live_in (s.pending_packs j) id ≡ none)
      → delete_pending env id PackPrefix.regular
          (live_in (s.pending_packs PackPrefix.regular) id)
          (delete_pending env id PackPrefix.special
            (live_in (s.pending_packs PackPrefix.special) id)
            m)
          s
        ≡ delete_pending env id k (live_in (s.pending_packs k) id) m s
  route PackPrefix.regular s id m h = rw (h PackPrefix.special two_prefixes) refl
  route PackPrefix.special s id m h = rw (h PackPrefix.regular (λ e. two_prefixes (sym e))) refl

  module _ (Faulty : E → Type 0) (law : Lawful env Faulty) where
    set_pending-Deleted :
        (s t : Manager W) (pp : PendingPack) (ci : Info)
        → HasPack env Faulty law s (pack_prefix_for_content_id ci.content_id) pp t
        → Newest env t ci.content_id (
            deleted_info ci
              (content_write_time (unix (env.time_now t.world)) (some ci.timestamp_seconds)))
        → Deleted env s ci.content_id (
            set_pending t pp.prefix (
              some (record pp {
                current_pack_items = put_info pp.current_pack_items (
                    deleted_info ci (
                      content_write_time
                        (unix (env.time_now t.world))
                        (some ci.timestamp_seconds)));
              })))
    set_pending-Deleted s t pp ci has newest =
        let k = pack_prefix_for_content_id ci.content_id in
        let d =
          deleted_info ci
            (content_write_time (unix (env.time_now t.world)) (some ci.timestamp_seconds)) in
        let own : pp.prefix ≡ k = (subst (λ o. PackOf env k o) has.1 (has.0.valid.packs k)).0 in
        let put = with_item-Put env t pp d pp.current_pack_data has.0.valid has.1 newest in
        Put-Deleted env s _ ci.content_id d refl refl (
          subst
            (λ j. Put env s d (
              set_pending t j
                (some (record pp { current_pack_items = put_info pp.current_pack_items d }))))
            (sym own) (Put-before env Faulty law s t _ d has.0 put))

    -- A content that is seen, and live, is deleted.
    delete_preexisting-Deleted :
        (s : Manager W) (ci : Info)
        → Valid env s
        → ci.deleted ≡ false
        → seen env s ci.content_id ≡ some ci
        → Outcome Faulty
            (λ u t. Deleted env s ci.content_id t)
            (delete_preexisting_content env ci s)
    unfolding delete_preexisting_content
    delete_preexisting-Deleted s ci v alive there = rw alive (
        Outcome-bind Faulty
          (get_or_create-HasPack env Faulty law s (pack_prefix_for_content_id ci.content_id) v)
          (λ pp t has.
            let time =
              content_write_time (unix (env.time_now t.world)) (some ci.timestamp_seconds) in
            let newer : Newer (deleted_info ci time) (seen env t ci.content_id) =
              rw (has.0.same ci.content_id, there)
                (content_write_time-later (unix (env.time_now t.world)) ci.timestamp_seconds) in
            returns tt _ (
              set_pending-Deleted s t pp ci has
                (Newest-seen env t ci.content_id (deleted_info ci time) has.0.valid newer))))

    module _ (refreshes : (w : W) → (env.refresh w).0 ≡ none) where
      Deleted-before :
          (s t u : Manager W) (id : ContentId)
          → Keeps env s t
          → Deleted env t id u
          → Deleted env s id u
      Deleted-before s t u id k d = record {
        valid = d.valid;
        dead = d.dead;
        others = λ j h. d.others j h ∙ k.same j;
      }

      delete_at :
          (s : Manager W) (id : ContentId) (i : Info)
          → i.content_id ≡ id
          → Valid env s
          → i.deleted ≡ false
          → seen env s id ≡ some i
          → Outcome Faulty (λ u t. Deleted env s id t) (delete_preexisting_content env i s)
      delete_at s id i own v alive there =
          Outcome-imp Faulty (λ u t d. subst (λ j. Deleted env s j t) own d)
            (delete_preexisting-Deleted s i v alive (ap (seen env s) own ∙ there))

      value : (r : Result E Info) (i : Info) → value_of r ≡ some i → r ≡ ok i
      value (ok j) i e = ap ok (same_some j i e)
      value (err x) i e = absurd (ground (arith, e))

      delete_committed-Deleted :
          (s : Manager W) (id : ContentId) (i : Info)
          → i.content_id ≡ id
          → Valid env s
          → i.deleted ≡ false
          → seen env s id ≡ some i
          → committed env s.world id ≡ some i
          → Outcome Faulty (λ u t. Deleted env s id t) (delete_committed env id s)
      delete_committed-Deleted s id i own v alive there here =
          let w = (env.refresh s.world).1 in
          let keeps = world-Keeps env s w v (law.refresh_keeps s.world) in
          let still : committed env w id ≡ some i = law.refresh_keeps s.world id ∙ here in
          rw (refreshes s.world, value (env.get_committed w id) i still)
            (Outcome-imp Faulty (λ u t d. Deleted-before s _ t id keeps d)
              (delete_at (record s { world = w }) id i own keeps.valid alive
                (keeps.same id ∙ there)))

      delete_found-Deleted :
          (s : Manager W) (id : ContentId) (i : Info) (b : Option Info)
          → i.content_id ≡ id
          → Valid env s
          → i.deleted ≡ false
          → seen env s id ≡ some i
          → lookup_info s.pack_index_builder id ≡ b
          → or_else b (committed env s.world id) ≡ some i
          → Outcome Faulty (λ u t. Deleted env s id t) (delete_found env id none b s)
      delete_found-Deleted s id i none own v alive there e here =
          delete_committed-Deleted s id i own v alive there here
      delete_found-Deleted s id i (some j) own v alive there e here =
          let one : j ≡ i = same_some j i here in
          subst
            (λ x. Outcome Faulty (λ u t. Deleted env s id t) (delete_preexisting_content env x s))
            (sym one) (delete_at s id i own v alive there)

      not_pending :
          (s : Manager W) (id : ContentId) (i : Info)
          → seen env s id ≡ some i
          → pending_info env s id ≡ none
          → or_else (lookup_info s.pack_index_builder id) (committed env s.world id) ≡ some i
      unfolding seen
      not_pending s id i there e =
          ap
            (λ o.
              or_else o (or_else (lookup_info s.pack_index_builder id) (committed env s.world id)))
            (sym e)
          ∙ there

      pending_is :
          (s : Manager W) (id : ContentId) (i x : Info)
          → seen env s id ≡ some i
          → pending_info env s id ≡ some x
          → x ≡ i
      unfolding seen
      pending_is s id i x there e = same_some x i (
          ap
            (λ o.
              or_else o (or_else (lookup_info s.pack_index_builder id) (committed env s.world id)))
            (sym e)
          ∙ there)

      delete_own :
          (s : Manager W) (id : ContentId) (i : Info) (p : Option PendingPack)
          → i.content_id ≡ id
          → Valid env s
          → i.deleted ≡ false
          → seen env s id ≡ some i
          → New s id
          → s.pending_packs (pack_prefix_for_content_id id) ≡ p
          → Outcome Faulty
              (λ u t. Deleted env s id t)
              (delete_pending env id
                (pack_prefix_for_content_id id)
                (live_in p id)
                (delete_found env id none (lookup_info s.pack_index_builder id))
                s)
      delete_own s id i none own v alive there new e =
          let missing : pending_info env s id ≡ none = ap (λ o. in_pack o id) e in
          delete_found-Deleted s id i (lookup_info s.pack_index_builder id) own v alive there refl
            (not_pending s id i there missing)
      delete_own s id i (some pp) own v alive there new e =
          elim (Option-cases (lookup_info pp.current_pack_items id)) [
            | inl h ↦
                let missing : pending_info env s id ≡ none = ap (λ o. in_pack o id) e ∙ h in
                rw h (
                  delete_found-Deleted s id i (lookup_info s.pack_index_builder id) own v alive
                    there refl (not_pending s id i there missing))
            | inr (x, h) ↦
                let found : pending_info env s id ≡ some x = ap (λ o. in_pack o id) e ∙ h in
                let still : x.deleted ≡ false =
                  ap (λ y. y.deleted) (pending_is s id i x there found) ∙ alive in
                rw (h, still, e)
                  (returns tt _ (
                    drop-Deleted env s id pp v e
                      (elim new [ inl n ↦ absurd (ground (arith, sym n ∙ found)) | inr n ↦ n ])))
          ]

      -- In a valid state, if no refresh of the indexes fails, DeleteContent of a content that is
      -- seen, and not deleted, ends without an error or with one of the surroundings. If the
      -- content is not pending, or nothing live is below its pending entry, without an error
      -- nothing is seen of it, or that it is deleted; every other content is seen as before.
      pub delete_content-Deleted :
          (s : Manager W) (id : ContentId) (i : Info)
          → i.content_id ≡ id
          → Valid env s
          → seen env s id ≡ some i
          → i.deleted ≡ false
          → New s id
          → Outcome Faulty (λ u t. Deleted env s id t) (delete_content env id s)
      unfolding delete_content live_in_packs
      delete_content-Deleted s id i own v there alive new =
          let k = pack_prefix_for_content_id id in
          let counted =
            touch-Keeps env s (s.revision + 1) s.flushing s.flush_pack_indexes_after v in
          let written : live_in_packs s.writing_packs id ≡ none =
            ap (λ ps. live_in_packs ps id) v.writing in
          rw
            (
              written,
              route k (record s { revision = s.revision + 1 }) id
                  (delete_found env id none (lookup_info s.pack_index_builder id))
                  (λ j ne. ap live (not_there env j (s.pending_packs j) id (v.packs j) ne)),
            )
            (Outcome-imp Faulty (λ u t d. Deleted-before s _ t id counted d)
              (delete_own (record s { revision = s.revision + 1 }) id i (s.pending_packs k) own
                counted.valid alive (counted.same id ∙ there) new refl))
