-- ===== src/Checks/Stored.antt =====
-- The bytes of contents of repo/content/content_manager.go at concrete inputs: the surroundings are those of
-- Surroundings.
use kopia.Prelude.{ℕ, List, Option}
use kopia.Checks.Surroundings.{World, find}
use kopia.Index.ContentId.{ContentId}

abbrev blob : World → List ℕ → Option (List ℕ)
blob w n = find w.blobs n
