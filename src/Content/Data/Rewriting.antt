-- ===== src/Content/Data/Rewriting.antt =====
-- RewriteContent of repo/content/content_manager.go keeps the bytes of the content.
use kopia.Prelude.{ℕ, List, Option}
use kopia.Content.Adding.{PutAs}
use kopia.Content.Data.Live.{Wrote}
use kopia.Content.State.{Environment, Manager}
use kopia.Index.ContentId.{ContentId}
use kopia.Index.Info.{Info}

module _ {W E : Type 0} (env : Environment W E) (blob : W → List ℕ → Option (List ℕ)) where
  -- a newer info is put, and the bytes are held, as those of the others
  abbrev pub Rewrote : Manager W → ContentId → Info → List ℕ → Unit {0} → Manager W → Type 0
  Rewrote s id i bytes u t = PutAs env s id i.deleted u t × Wrote env blob s id bytes t
