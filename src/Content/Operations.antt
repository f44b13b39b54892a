-- ===== src/Content/Operations.antt =====
-- The operations of the WriteManager of repo/content/content_manager.go on contents.
use kopia.Prelude.{
  ℕ, ◌+◌, ◌-◌, ◌/◌, ◌%◌, ◌^◌, Bool, true, false, not, List, [], ◌∷◌, ◌++◌, Option, none, some,
  Result, ok, map_err, leb, if◌then◌else◌, length, ◌&&◌,
}
use kopia.Content.Action.{Act, pure, gets, modify, or_raise, skip, ◌>>=◌, ◌>>◌, attempt}
use kopia.Content.Packs.{
  on_world, start_writing, write_pack_and_add_to_index, retry_failed_packs,
  maybe_flush_based_on_time, get_or_create_pending_pack_info,
}
use kopia.Content.State.{
  PackPrefix, PendingPack, MutableParameters, Environment, Manager, set_pending, or_else, in_pack,
  pack_prefix_for_content_id, content_write_time,
}
use kopia.Index.Builder.{lookup_info, put_info, same_id}
use kopia.Index.ContentId.{ContentId, validate_single, id_from_hash}
use kopia.Index.Info.{Info}
use kopia.Content.Reading.{get_content_info, get_content_data_and_info}

-- `delete(m, id)`
unfoldable pub delete_info : List Info → ContentId → List Info
delete_info [] id = []
delete_info (i ∷ m) id =
    let rest = delete_info m id in if same_id i.content_id id then rest else i ∷ rest

-- the second of a time in nanoseconds
abbrev pub unix : ℕ → ℕ
unix t = t / 1000000000

-- deletedInfo
abbrev pub deleted_info : Info → ℕ → Info
deleted_info ci t = record ci { deleted = true; timestamp_seconds = t }

abbrev pub is_found : {A : Type 0} → Option A → Bool
is_found none = false
is_found (some a) = true

abbrev pub live : Option Info → Option Info
live none = none
live (some i) = if i.deleted then none else some i

-- the packs are looked through for a content that is not deleted
abbrev pub live_in : Option PendingPack → ContentId → Option Info
live_in pp id = live (in_pack pp id)

unfoldable pub live_in_packs : List PendingPack → ContentId → Option Info
live_in_packs [] id = none
live_in_packs (pp ∷ ps) id = or_else (live_in (some pp) id) (live_in_packs ps id)

abbrev pub drop_pending :
    {W : Type 0} → ContentId → PackPrefix → Option PendingPack → Manager W → Manager W
drop_pending id k none s = s
drop_pending id k (some pp) s =
    set_pending s k (some (record pp { current_pack_items = delete_info pp.current_pack_items id }))

-- the info of a content that is added to a pack
abbrev pub new_info :
    MutableParameters → ContentId → ℕ → Bool → Option ℕ → ℕ → ℕ → PendingPack → List ℕ → Info
new_info mp id size is_deleted previous comp t pp packed =
    let offset = length pp.current_pack_data % 2 ^ 32 in
    record {
      content_id = id;
      pack_blob_id = pp.pack_blob_id;
      timestamp_seconds = content_write_time t previous;
      original_length = size % 2 ^ 32;
      packed_length = (length (pp.current_pack_data ++ packed) % 2 ^ 32 + 2 ^ 32 - offset) % 2 ^ 32;
      pack_offset = offset;
      deleted = is_deleted;
      format_version = mp.version % 2 ^ 8;
      compression_header_id = comp;
      encryption_key_id = 0;
    }

-- the content is in the pack
abbrev pub add_item : PendingPack → Info → List ℕ → PendingPack
add_item pp i packed = record pp {
  current_pack_data = pp.current_pack_data ++ packed;
  current_pack_items = put_info pp.current_pack_items i;
}

module _ {W E : Type 0} (env : Environment W E) where
  -- a full pack is written
  abbrev pub store_pack : MutableParameters → PendingPack → Act (Manager W) E (Unit {0})
  store_pack mp pp s =
      if leb mp.max_pack_size (length pp.current_pack_data)
      then write_pack_and_add_to_index env pp (start_writing pp s)
      else (ok tt, set_pending s pp.prefix (some pp))

  -- the part of addToPackUnlocked under the lock
  abbrev pub add_encoded :
      MutableParameters
      → ContentId
      → ℕ
      → Bool
      → Option ℕ
      → List ℕ × ℕ
      → Act (Manager W) E (Unit {0})
  add_encoded mp id size is_deleted previous (packed, comp) = do
    modify (λ s. record s { revision = s.revision + 1 })
    retry_failed_packs env
    pp ← get_or_create_pending_pack_info env (pack_prefix_for_content_id id)
    now ← gets (λ s. unix (env.time_now s.world))
    store_pack mp (add_item pp (new_info mp id size is_deleted previous comp now pp packed) packed)

  -- is the content there although it was not before?
  abbrev pub lost_race : ContentId → Option ℕ → Act (Manager W) E Bool
  lost_race id (some t) = pure false
  lost_race id none = do found ← attempt (get_content_info env id); pure (is_found found)

  -- addToPackUnlocked
  unfoldable pub add_to_pack :
      MutableParameters → ContentId → List ℕ → Bool → ℕ → Option ℕ → Act (Manager W) E (Unit {0})
  unfolding maybe_flush_based_on_time retry_failed_packs get_or_create_pending_pack_info
      write_pack_and_add_to_index get_content_info pack_prefix_for_content_id content_write_time
      put_info
  add_to_pack mp id bytes is_deleted comp previous = do
    maybe_flush_based_on_time env
    encoded ← or_raise (env.encode mp bytes id comp)
    lost ← lost_race id previous
    if lost then skip else add_encoded mp id (length bytes) is_deleted previous encoded

  -- what WriteContent does with a content that it looked for
  abbrev pub write_unless_live :
      MutableParameters
      → ContentId
      → List ℕ
      → ℕ
      → Option (Option PendingPack × Info)
      → Act (Manager W) E (Unit {0})
  write_unless_live mp id bytes comp none = add_to_pack mp id bytes false comp none
  write_unless_live mp id bytes comp (some (pp, i)) =
      if not i.deleted then skip else add_to_pack mp id bytes false comp (some i.timestamp_seconds)

  -- ValidateSingle and IDFromHash
  abbrev pub id_of : List ℕ → List ℕ → Result E ContentId
  id_of prefix bytes = map_err env.invalid_id (id_from_hash prefix (env.hash_data bytes))

  -- WriteContent
  unfoldable pub write_content : List ℕ → List ℕ → ℕ → Act (Manager W) E ContentId
  unfolding add_to_pack
  write_content bytes prefix comp = do
    mp ← λ s. or_raise (env.mutable_parameters s.world) s
    retry_failed_packs env
    or_raise (map_err env.invalid_id (validate_single prefix))
    id ← or_raise (id_of prefix bytes)
    found ← attempt (get_content_info env id)
    write_unless_live mp id bytes comp found
    pure id

  -- deletePreexistingContent
  unfoldable pub delete_preexisting_content : Info → Act (Manager W) E (Unit {0})
  unfolding get_or_create_pending_pack_info pack_prefix_for_content_id put_info content_write_time
  delete_preexisting_content ci s =
      if ci.deleted
      then skip s
      else (do
        pp ← get_or_create_pending_pack_info env (pack_prefix_for_content_id ci.content_id)
        t ← gets (λ s. content_write_time (unix (env.time_now s.world)) (some ci.timestamp_seconds))
        modify (λ s. set_pending s pp.prefix (
            some (record pp {
              current_pack_items = put_info pp.current_pack_items (deleted_info ci t);
            }))))
          s

  abbrev pub delete_committed : ContentId → Act (Manager W) E (Unit {0})
  delete_committed id = do
    on_world env.refresh
    i ← λ s. or_raise (env.get_committed s.world id) s
    delete_preexisting_content i

  abbrev pub delete_found : ContentId → Option Info → Option Info → Act (Manager W) E (Unit {0})
  delete_found id (some i) built = delete_preexisting_content i
  delete_found id none (some i) = delete_preexisting_content i
  delete_found id none none = delete_committed id

  abbrev pub delete_pending :
      ContentId
      → PackPrefix
      → Option Info
      → Act (Manager W) E (Unit {0})
      → Act (Manager W) E (Unit {0})
  delete_pending id k (some i) otherwise s = (ok tt, drop_pending id k (s.pending_packs k) s)
  delete_pending id k none otherwise s = otherwise s

  -- DeleteContent
  unfoldable pub delete_content : ContentId → Act (Manager W) E (Unit {0})
  unfolding delete_preexisting_content live_in_packs delete_info
  delete_content id s0 =
      let s = record s0 { revision = s0.revision + 1 } in
      delete_pending id PackPrefix.regular (live_in (s.pending_packs PackPrefix.regular) id)
        (delete_pending id PackPrefix.special (live_in (s.pending_packs PackPrefix.special) id) (
          delete_found id (live_in_packs s.writing_packs id) (lookup_info s.pack_index_builder id)))
        s

  -- rewriteContent
  unfoldable pub rewrite_content_as :
      ContentId → Bool → MutableParameters → Act (Manager W) E (Unit {0})
  unfolding get_content_data_and_info add_to_pack
  rewrite_content_as id only_rewrite_deleted mp = do
    found ← get_content_data_and_info env id
    let i = found.1
    let again =
        add_to_pack mp id found.0 (not only_rewrite_deleted && i.deleted) i.compression_header_id
          (some i.timestamp_seconds)
    if only_rewrite_deleted && not i.deleted then skip else again

  -- RewriteContent and UndeleteContent
  unfoldable pub rewrite_content : ContentId → Act (Manager W) E (Unit {0})
  unfolding rewrite_content_as
  rewrite_content id = do
    mp ← λ s. or_raise (env.mutable_parameters s.world) s
    rewrite_content_as id false mp

  unfoldable pub undelete_content : ContentId → Act (Manager W) E (Unit {0})
  unfolding rewrite_content_as
  undelete_content id = do
    mp ← λ s. or_raise (env.mutable_parameters s.world) s
    rewrite_content_as id true mp
