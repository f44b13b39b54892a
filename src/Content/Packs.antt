-- ===== src/Content/Packs.antt =====
-- Packs of repo/content/content_manager.go: they are started, written, retried and flushed.
use kopia.Prelude.{
  ℕ, ◌+◌, Bool, true, false, not, List, [], ◌∷◌, ◌++◌, Option, none, some, Result, ok, err, ltb,
  ◌==◌, if◌then◌else◌, length, bytes_equal,
}
use kopia.Content.Action.{Act, pure, modify, or_raise, skip, ◌>>=◌, ◌>>◌, returned}
use kopia.Content.State.{
  PackPrefix, PendingPack, Environment, Manager, set_pending, remove_pending_pack,
  flush_pack_index_timeout,
}
use kopia.Index.Builder.{add_all}
use kopia.Index.Info.{Info}

-- does the pack hold the bytes of one of the infos?
unfoldable pub has_content : List ℕ → List Info → Bool
has_content id [] = false
has_content id (i ∷ is) =
    let rest = has_content id is in if bytes_equal i.pack_blob_id id then true else rest

-- what prepareAndWritePackInternal gives, with the pack as it is then
pub record Written (E : Type 0) : Type 0 where
  pub error : Option E
  pub pack_file_index : List Info
  pub pack : PendingPack

-- the pack is moved from pendingPacks to writingPacks
abbrev pub start_writing : {W : Type 0} → PendingPack → Manager W → Manager W
start_writing pp s = record (set_pending s pp.prefix none) {
  writing_packs = s.writing_packs ++ (pp ∷ []);
}

module _ {W E : Type 0} where
  -- an effect on the world that may fail
  abbrev pub on_world : (W → Option E × W) → Act (Manager W) E (Unit {0})
  on_world f s = (returned (f s.world).0, record s { world = (f s.world).1 })

  -- setFlushingLocked(true), and false again at the end
  abbrev pub while_flushing : Act (Manager W) E (Unit {0}) → Act (Manager W) E (Unit {0})
  while_flushing m s =
      let (r, t) = m (record s { flushing = true }) in (r, record t { flushing = false })

  -- a new pack is pending
  abbrev pub start_pack : PackPrefix → List ℕ × List ℕ → Act (Manager W) E PendingPack
  start_pack k (id, preamble) s =
      let pp : PendingPack = record {
        prefix = k;
        pack_blob_id = id;
        current_pack_items = [];
        current_pack_data = preamble;
        finalized = false;
      } in
      (ok pp, set_pending s k (some pp))

module _ {W E : Type 0} (env : Environment W E) where
  -- the pack with its data finished
  abbrev pub finished : PendingPack → Option E × List ℕ → List Info → Written E
  finished pp (e, bytes) items = record {
    error = e;
    pack_file_index = items;
    pack = record pp { finalized = true; current_pack_data = bytes };
  }

  -- preparePackDataContent
  unfoldable pub prepare_pack_data_content : PendingPack → Written E
  unfolding has_content
  prepare_pack_data_content pp =
      let items = add_all [] pp.current_pack_items in
      if length items == 0
      then record { error = none; pack_file_index = []; pack = pp }
      else if not (has_content pp.pack_blob_id pp.current_pack_items)
      then record {
        error = none;
        pack_file_index = items;
        pack = record pp { current_pack_data = [] };
      }
      else if pp.finalized
      then record { error = none; pack_file_index = items; pack = pp }
      else finished pp (env.finish_pack items pp.current_pack_data) items

  -- writePackFileNotLocked, if there are data
  abbrev pub put_pack : Written E → Manager W → Written E × Manager W
  put_pack w s = if length w.pack.current_pack_data == 0 then (w, s) else (
    record w { error = (env.put_blob w.pack.pack_blob_id w.pack.current_pack_data s.world).0 },
    record s { world = (env.put_blob w.pack.pack_blob_id w.pack.current_pack_data s.world).1 },
  )

  abbrev pub put_if_prepared : Option E → Written E → Manager W → Written E × Manager W
  put_if_prepared none w s = put_pack w s
  put_if_prepared (some e) w s = (w, s)

  -- prepareAndWritePackInternal
  unfoldable pub prepare_and_write_pack_internal : PendingPack → Manager W → Written E × Manager W
  unfolding prepare_pack_data_content
  prepare_and_write_pack_internal pp s =
      let w = prepare_pack_data_content pp in put_if_prepared w.error w s

  -- what is kept of a pack that is written, or not
  abbrev pub keep_result : Option E → Written E → Manager W → Result E (Unit {0}) × Manager W
  keep_result none w s =
      (ok tt, record s { pack_index_builder = add_all s.pack_index_builder w.pack_file_index })
  keep_result (some e) w s = (err e, record s { failed_packs = s.failed_packs ++ (w.pack ∷ []) })

  -- processWritePackResultLocked
  unfoldable pub process_write_pack_result : Written E × Manager W → Result E (Unit {0}) × Manager W
  process_write_pack_result (w, s) = keep_result w.error w (record s {
    writing_packs = remove_pending_pack s.writing_packs w.pack;
    failed_packs = remove_pending_pack s.failed_packs w.pack;
  })

  -- writePackAndAddToIndexLocked, and Unlocked
  unfoldable pub write_pack_and_add_to_index : PendingPack → Act (Manager W) E (Unit {0})
  unfolding prepare_and_write_pack_internal process_write_pack_result
  write_pack_and_add_to_index pp s =
      process_write_pack_result (prepare_and_write_pack_internal pp s)

  unfoldable pub write_packs : List PendingPack → Act (Manager W) E (Unit {0})
  unfolding write_pack_and_add_to_index
  write_packs [] = skip
  write_packs (pp ∷ ps) = do write_pack_and_add_to_index pp; write_packs ps

  -- the loop over a copy of failedPacks, and maybeRetryWritingFailedPacksUnlocked
  unfoldable pub retry_failed_packs : Act (Manager W) E (Unit {0})
  unfolding write_packs
  retry_failed_packs s = write_packs s.failed_packs s

  abbrev pub finish_pack_of : Option PendingPack → Act (Manager W) E (Unit {0})
  finish_pack_of none = skip
  finish_pack_of (some pp) = do modify (start_writing pp); write_pack_and_add_to_index pp

  abbrev pub finish_prefix : PackPrefix → Act (Manager W) E (Unit {0})
  finish_prefix k s = finish_pack_of (s.pending_packs k) s

  -- finishAllPacksLocked, in one order of the map
  unfoldable pub finish_all_packs : Act (Manager W) E (Unit {0})
  unfolding write_pack_and_add_to_index
  finish_all_packs = do finish_prefix PackPrefix.regular; finish_prefix PackPrefix.special

  -- the index is committed, and a new one started
  abbrev pub commit_builder : Act (Manager W) E (Unit {0})
  commit_builder s =
      if length s.pack_index_builder == 0
      then skip s
      else (do
        on_world (env.commit_index s.pack_index_builder)
        modify (λ t. record t { pack_index_builder = [] }))
          s

  -- flushPackIndexesLocked
  unfoldable pub flush_pack_indexes : Act (Manager W) E (Unit {0})
  flush_pack_indexes s =
      if ltb 0 s.disable_index_flush_count
      then skip s
      else (do
        commit_builder
        modify (λ t. record t {
          flush_pack_indexes_after = env.time_now t.world + flush_pack_index_timeout;
        }))
          s

  abbrev pub flush_all : Act (Manager W) E (Unit {0})
  flush_all = do retry_failed_packs; finish_all_packs; flush_pack_indexes

  -- Flush
  unfoldable pub flush : Act (Manager W) E (Unit {0})
  unfolding retry_failed_packs finish_all_packs flush_pack_indexes
  flush s = (do or_raise (env.mutable_parameters s.world) >>= (λ mp. while_flushing flush_all)) s

  -- maybeFlushBasedOnTimeUnlocked
  unfoldable pub maybe_flush_based_on_time : Act (Manager W) E (Unit {0})
  unfolding flush
  maybe_flush_based_on_time s =
      if ltb s.flush_pack_indexes_after (env.time_now s.world) then flush s else skip s

  abbrev pub draw_pack : PackPrefix → Act (Manager W) E (List ℕ × List ℕ)
  draw_pack k s = ((env.new_pack k s.world).0, record s { world = (env.new_pack k s.world).1 })

  abbrev pub pack_or_new : PackPrefix → Option PendingPack → Act (Manager W) E PendingPack
  pack_or_new k (some pp) = pure pp
  pack_or_new k none = do drawn ← draw_pack k; start_pack k drawn

  -- getOrCreatePendingPackInfoLocked
  unfoldable pub get_or_create_pending_pack_info : PackPrefix → Act (Manager W) E PendingPack
  get_or_create_pending_pack_info k s = pack_or_new k (s.pending_packs k) s
