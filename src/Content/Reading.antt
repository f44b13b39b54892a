-- ===== src/Content/Reading.antt =====
-- The lookup and the reading of contents in repo/content/content_manager.go.
use kopia.Prelude.{ℕ, List, Option, none, some, Result, ok, if◌then◌else◌, take, drop, bytes_equal}
use kopia.Content.Action.{Act, pure, or_raise, ◌>>=◌, ◌>>◌}
use kopia.Content.Packs.{on_world}
use kopia.Content.State.{PendingPack, Environment, Manager, get_overlay_content_info}
use kopia.Index.ContentId.{ContentId}
use kopia.Index.Info.{Info}

module _ {W E : Type 0} (env : Environment W E) where
  abbrev pub found_or_committed :
      ContentId → Option (Option PendingPack × Info) → Act (Manager W) E (Option PendingPack × Info)
  found_or_committed id (some found) = pure found
  found_or_committed id none = do
    on_world env.refresh
    i ← λ s. or_raise (env.get_committed s.world id) s
    pure (none, i)

  -- getContentInfoReadLocked
  unfoldable pub get_content_info : ContentId → Act (Manager W) E (Option PendingPack × Info)
  unfolding get_overlay_content_info
  get_content_info id s = found_or_committed id (get_overlay_content_info s id) s

  -- ContentInfo
  unfoldable pub content_info : ContentId → Act (Manager W) E Info
  unfolding get_content_info
  content_info id = do found ← get_content_info id; pure found.1

  -- The bytes of a pack that is not written yet. AppendSectionTo of internal/gather appends what there is of the
  -- section, without an error, also if the bytes run out; only a negative offset is an error.
  abbrev pub read_payload : Option PendingPack → Info → W → Result E (List ℕ)
  read_payload none i w = env.read_content i w
  read_payload (some pp) i w =
      if bytes_equal pp.pack_blob_id i.pack_blob_id
      then ok (take i.packed_length (drop i.pack_offset pp.current_pack_data))
      else env.read_content i w

  -- getContentDataReadLocked
  abbrev pub get_content_data : Option PendingPack → Info → Act (Manager W) E (List ℕ)
  get_content_data pp i = do
    payload ← λ s. or_raise (read_payload pp i s.world) s
    or_raise (env.decode payload i)

  -- getContentDataAndInfo
  unfoldable pub get_content_data_and_info : ContentId → Act (Manager W) E (List ℕ × Info)
  unfolding get_content_info
  get_content_data_and_info id = do
    found ← get_content_info id
    bytes ← get_content_data found.0 found.1
    pure (bytes, found.1)

  -- GetContent
  unfoldable pub get_content : ContentId → Act (Manager W) E (List ℕ)
  unfolding get_content_data_and_info
  get_content id = do found ← get_content_data_and_info id; pure found.0
