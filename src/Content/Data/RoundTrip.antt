-- ===== src/Content/Data/RoundTrip.antt =====
-- What WriteContent of repo/content/content_manager.go stored is read by GetContent, after Flush.
use kopia.Prelude.{ℕ, List}
use kopia.Content.Action.{Act, ◌>>=◌, ◌>>◌}
use kopia.Content.Operations.{write_content}
use kopia.Content.Packs.{flush}
use kopia.Content.Reading.{get_content}
use kopia.Content.State.{Environment, Manager}
use kopia.Index.ContentId.{ContentId}

module _ {W E : Type 0} (env : Environment W E) where
  -- a content is written, all is flushed, and the content is read
  abbrev pub write_flush_get : List ℕ → List ℕ → ℕ → Act (Manager W) E (List ℕ)
  write_flush_get bytes prefix comp = do
    id ← write_content env bytes prefix comp
    flush env
    get_content env id
