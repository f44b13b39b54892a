-- ===== src/Index.antt =====
-- repo/content/index: the identifiers of contents, and the merged index.
pub mod ContentId
pub mod Info
pub mod Encoding
pub mod Search
pub mod V1
pub mod Builder
pub mod Merged
