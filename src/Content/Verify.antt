-- ===== src/Content/Verify.antt =====
-- verifyInvariantsLocked of repo/content/content_manager.go: the tests, which are made after every
-- operation if the environment asks for it.
use kopia.Prelude.{
  ℕ, Bool, true, false, not, ◌&&◌, List, [], ◌∷◌, Option, none, some, ◌==◌, ◌%◌, ◌^◌, if◌then◌else◌,
  length, bytes_equal,
}
use kopia.Content.State.{PackPrefix, PendingPack, MutableParameters, Manager}
use kopia.Index.Info.{Info}

-- one item of a pending pack; its key is its content ID
abbrev pub item_holds : List ℕ → Info → Bool
item_holds pack_blob_id i =
    (if not i.deleted then bytes_equal i.pack_blob_id pack_blob_id else true)
    && not (i.timestamp_seconds == 0)

unfoldable pub items_hold : List ℕ → List Info → Bool
items_hold pack_blob_id [] = true
items_hold pack_blob_id (i ∷ is) =
    let rest = items_hold pack_blob_id is in if item_holds pack_blob_id i then rest else false

abbrev pub pack_holds : Option PendingPack → Bool
pack_holds none = true
pack_holds (some pp) = items_hold pp.pack_blob_id pp.current_pack_items

-- verifyCurrentPackItemsLocked
unfoldable pub verify_current_pack_items : {W : Type 0} → Manager W → Bool
unfolding items_hold
verify_current_pack_items s =
    pack_holds (s.pending_packs PackPrefix.regular)
    && pack_holds (s.pending_packs PackPrefix.special)

abbrev pub built_holds : MutableParameters → Info → Bool
built_holds mp i =
    (if i.deleted
      then length i.pack_blob_id == 0
      else not (length i.pack_blob_id == 0) && i.format_version == mp.version % 2 ^ 8)
    && not (i.timestamp_seconds == 0)

unfoldable pub built_hold : MutableParameters → List Info → Bool
built_hold mp [] = true
built_hold mp (i ∷ is) = let rest = built_hold mp is in if built_holds mp i then rest else false

-- verifyPackIndexBuilderLocked
unfoldable pub verify_pack_index_builder : {W : Type 0} → MutableParameters → Manager W → Bool
unfolding built_hold
verify_pack_index_builder mp s = built_hold mp s.pack_index_builder
