-- ===== src/Checks.antt =====
-- The properties at concrete inputs, and runs of the definitions.
mod Encoding
mod Parameters
mod Splitters
mod Ids
mod Writers
mod Readers
mod Epochs
mod Indexes
mod Retries
mod Merging
mod Surroundings
mod Contents
mod Stored
