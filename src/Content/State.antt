-- ===== src/Content/State.antt =====
-- The state of the WriteManager of repo/content/content_manager.go, and what it relies on. Operations run
-- one after the other: no pack is being written by another goroutine when one starts, and none waits.
use kopia.Prelude.{
  ℕ, ◌+◌, Bool, List, [], ◌∷◌, Option, none, some, Result, ltb, if◌then◌else◌, bytes_equal,
}
use kopia.Index.Builder.{lookup_info}
use kopia.Index.ContentId.{ContentId, IdError, has_prefix}
use kopia.Index.Info.{Info}

-- PackBlobIDPrefixRegular and PackBlobIDPrefixSpecial
pub data PackPrefix : Type 0 where
  regular special : PackPrefix

-- pendingPackInfo; the map currentPackItems is the list of its infos
pub record PendingPack : Type 0 where
  pub prefix : PackPrefix
  pub pack_blob_id : List ℕ
  pub current_pack_items : List Info
  pub current_pack_data : List ℕ
  pub finalized : Bool

-- format.MutableParameters, what the manager uses of them
pub record MutableParameters : Type 0 where
  pub version : ℕ
  pub max_pack_size : ℕ

-- What surrounds the manager: the repository format, encryption, storage with its cache, the clock, random
-- numbers, and the indexes that are committed. W is the world outside.
pub record Environment (W E : Type 0) : Type 0 where
  -- format.GetMutableParameters
  pub mutable_parameters : W → Result E MutableParameters
  -- timeNow(), in nanoseconds
  pub time_now : W → ℕ
  -- hashData
  pub hash_data : List ℕ → List ℕ
  pub invalid_id : IdError → E
  -- maybeCompressAndEncryptDataForPacking: the bytes and the compression that was applied
  pub encode : MutableParameters → List ℕ → ContentId → ℕ → Result E (List ℕ × ℕ)
  -- decryptContentAndVerify
  pub decode : List ℕ → Info → Result E (List ℕ)
  -- the ID of a new pack and its preamble
  pub new_pack : PackPrefix → W → Result E (List ℕ × List ℕ) × W
  -- padding and appendPackFileIndexRecoveryData: the data, also after an error
  pub finish_pack : List Info → List ℕ → Option E × List ℕ
  -- PutBlob
  pub put_blob : List ℕ → List ℕ → W → Option E × W
  -- GetContent of the content caches
  pub read_content : Info → W → Result E (List ℕ)
  -- maybeRefreshIndexes
  pub refresh : W → Option E × W
  -- committedContents.getContent
  pub get_committed : W → ContentId → Result E Info
  -- BuildShards, writeIndexBlobs, commitSession and addIndexBlob
  pub commit_index : List Info → W → Option E × W

-- WriteManager; the map pendingPacks has two keys.
pub record Manager (W : Type 0) : Type 0 where
  pub world : W
  pub revision : ℕ
  pub flushing : Bool
  pub pending_packs : PackPrefix → Option PendingPack
  pub writing_packs : List PendingPack
  pub failed_packs : List PendingPack
  pub pack_index_builder : List Info
  pub disable_index_flush_count : ℕ
  pub flush_pack_indexes_after : ℕ

-- `pendingPacks[k] = p`, or delete
abbrev pub update :
    (PackPrefix → Option PendingPack)
    → PackPrefix
    → Option PendingPack
    → PackPrefix
    → Option PendingPack
update f PackPrefix.regular p PackPrefix.regular = p
update f PackPrefix.special p PackPrefix.special = p
update f PackPrefix.regular p PackPrefix.special = f PackPrefix.special
update f PackPrefix.special p PackPrefix.regular = f PackPrefix.regular

abbrev pub set_pending : {W : Type 0} → Manager W → PackPrefix → Option PendingPack → Manager W
set_pending s k p = record s { pending_packs = update s.pending_packs k p }

-- packPrefixForContentID
unfoldable pub pack_prefix_for_content_id : ContentId → PackPrefix
pack_prefix_for_content_id id = if has_prefix id then PackPrefix.special else PackPrefix.regular

-- flushPackIndexTimeout, 10 minutes
abbrev pub flush_pack_index_timeout : ℕ
flush_pack_index_timeout = 600000000000

-- `pp.currentPackItems[contentID]`
abbrev pub in_pack : Option PendingPack → ContentId → Option Info
in_pack none id = none
in_pack (some pp) id = lookup_info pp.current_pack_items id

-- the first pack with the content
abbrev pub or_else : {A : Type 0} → Option A → Option A → Option A
or_else none b = b
or_else (some a) b = some a

abbrev pub with_pack : Option PendingPack → Option Info → Option (Option PendingPack × Info)
with_pack pp none = none
with_pack pp (some i) = some (pp, i)

unfoldable pub in_packs : List PendingPack → ContentId → Option (Option PendingPack × Info)
in_packs [] id = none
in_packs (pp ∷ ps) id = or_else (with_pack (some pp) (in_pack (some pp) id)) (in_packs ps id)

-- getOverlayContentInfoReadLocked
unfoldable pub get_overlay_content_info :
    {W : Type 0} → Manager W → ContentId → Option (Option PendingPack × Info)
unfolding in_packs
get_overlay_content_info s id =
    or_else
      (with_pack (s.pending_packs PackPrefix.regular)
        (in_pack (s.pending_packs PackPrefix.regular) id))
      (or_else
        (with_pack (s.pending_packs PackPrefix.special)
          (in_pack (s.pending_packs PackPrefix.special) id))
        (or_else (in_packs s.writing_packs id)
          (with_pack none (lookup_info s.pack_index_builder id))))

-- removePendingPack; a pack is known by its ID
unfoldable pub remove_pending_pack : List PendingPack → PendingPack → List PendingPack
remove_pending_pack [] pp = []
remove_pending_pack (p ∷ ps) pp =
    let rest = remove_pending_pack ps pp in
    if bytes_equal p.pack_blob_id pp.pack_blob_id then rest else p ∷ rest

-- contentWriteTime; `none` is -1
unfoldable pub content_write_time : ℕ → Option ℕ → ℕ
content_write_time t none = t
content_write_time t (some previous) = if ltb previous t then t else previous + 1
