-- ===== src/Index/Info.antt =====
-- repo/content/index/info.go: what an index says of one content. An interface value is the record of
-- what its getters return.
use kopia.Prelude.{ℕ, List, Bool}
use kopia.Index.ContentId.{ContentId}

-- InfoStruct
pub record Info : Type 0 where
  pub content_id : ContentId
  pub pack_blob_id : List ℕ
  pub timestamp_seconds : ℕ
  pub original_length : ℕ
  pub packed_length : ℕ
  pub pack_offset : ℕ
  pub deleted : Bool
  pub format_version : ℕ
  pub compression_header_id : ℕ
  pub encryption_key_id : ℕ
