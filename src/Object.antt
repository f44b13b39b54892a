-- ===== src/Object.antt =====
-- repo/object: object identifiers, the writer that cuts a stream into contents, and the reader.
pub mod Id
pub mod Writer
pub mod Read
pub mod Seek
