-- ===== src/Content.antt =====
-- repo/content: the content manager.
pub mod Action
pub mod State
pub mod Maps
pub mod Pending
pub mod Seen
pub mod Writing
pub mod Finishing
pub mod Storing
pub mod Flushing
pub mod Committing
pub mod Looking
pub mod Putting
pub mod Adding
pub mod Live
pub mod Dropping
pub mod Deleting
pub mod Packs
pub mod Rewriting
pub mod Verify
pub mod Data
pub mod Reading
pub mod Operations
