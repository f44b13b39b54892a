-- ===== src/Content/Storing.antt =====
-- A pack of repo/content/content_manager.go in a valid state is written: every content is seen as before.
use kopia.Prelude.{◌≡◌, refl, ap, ◌∙◌, List, [], ◌∷◌, ◌++◌, Option, none, some, bytes_equal_refl}
use kopia.Content.Action.{Outcome, returns, fails}
use kopia.Content.Finishing.{after-Keeps, mine}
use kopia.Content.Packs.{
  Written, keep_result, process_write_pack_result, prepare_and_write_pack_internal,
  write_pack_and_add_to_index, start_writing,
}
use kopia.Content.Seen.{MayFail, Lawful, Valid, Keeps}
use kopia.Content.State.{
  PendingPack, Environment, Manager, update, set_pending, remove_pending_pack,
}
use kopia.Content.Writing.{PutResult, prepare_and_write-PutResult}
use kopia.Index.Builder.{add_all}
use kopia.Index.Info.{Info}

removed_alone :
    (pp q : PendingPack) → q.pack_blob_id ≡ pp.pack_blob_id → remove_pending_pack (pp ∷ []) q ≡ []
unfolding remove_pending_pack
removed_alone pp q e = rw (e, bytes_equal_refl pp.pack_blob_id) refl

module _ {W E : Type 0} (env : Environment W E) (Faulty : E → Type 0)
    (law : Lawful env Faulty) where
  -- a pack is gone from those pending
  abbrev pub Gone : Manager W → PendingPack → Unit {0} → Manager W → Type 0
  Gone s pp u t =
      Keeps env (set_pending s pp.prefix (some pp)) t
      × (t.pending_packs ≡ update s.pending_packs pp.prefix none)

  keep_result-Outcome :
      (P : Unit {0} → Manager W → Type 0) (o : Option E) (w : Written E) (s : Manager W)
      → MayFail Faulty o
      → P tt (record s { pack_index_builder = add_all s.pack_index_builder w.pack_file_index })
      → Outcome Faulty P (keep_result env o w s)
  keep_result-Outcome P none w s f p = returns tt _ p
  keep_result-Outcome P (some e) w s f p = fails e _ f

  module _ (s : Manager W) (pp : PendingPack)
      (v : Valid env (set_pending s pp.prefix (some pp))) where
    moved : W → List Info → List PendingPack → List PendingPack → Manager W
    moved w idx a b = record (set_pending s pp.prefix none) {
      world = w;
      writing_packs = a;
      failed_packs = b;
      pack_index_builder = add_all s.pack_index_builder idx;
    }

    emptied :
        (w : W) (idx : List Info) (a b : List PendingPack)
        → a ≡ []
        → b ≡ []
        → Gone s pp tt (moved w idx [] [])
        → Gone s pp tt (moved w idx a b)
    emptied w idx a b e f g = rw (e, f) g

    process-Gone :
        (r : Written E × Manager W)
        → PutResult env Faulty law pp (start_writing pp s) r
        → Outcome Faulty (Gone s pp) (process_write_pack_result env r)
    unfolding process_write_pack_result moved remove_pending_pack
    process-Gone (w, t) put =
        let failed : remove_pending_pack s.failed_packs w.pack ≡ [] =
          ap (λ l. remove_pending_pack l w.pack) v.failed in
        let writing : remove_pending_pack (s.writing_packs ++ (pp ∷ [])) w.pack ≡ [] =
          ap (λ (l : List PendingPack). remove_pending_pack (l ++ (pp ∷ [])) w.pack) v.writing
          ∙ removed_alone pp w.pack put.prepared.id in
        let keeps =
          after-Keeps env s pp pp.prefix refl v w.pack_file_index put.prepared.index
            put.prepared.distinct put.world put.keeps in
        rw put.state (
          keep_result-Outcome (Gone s pp) w.error w _ put.prepared.may_fail
            (emptied put.world w.pack_file_index _ _ writing failed (keeps, refl)))

    -- A pack in a valid state is written, and every content is seen as before.
    pub write_pack-Gone :
        Outcome Faulty (Gone s pp) (write_pack_and_add_to_index env pp (start_writing pp s))
    unfolding write_pack_and_add_to_index
    write_pack-Gone = process-Gone (prepare_and_write_pack_internal env pp (start_writing pp s)) (
        prepare_and_write-PutResult env Faulty law pp (start_writing pp s)
          (mine env s pp pp.prefix refl v).1)
