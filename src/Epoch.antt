-- ===== src/Epoch.antt =====
-- internal/epoch: the epochs of the index blobs.
pub mod Advance
pub mod Range
