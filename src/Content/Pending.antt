-- ===== src/Content/Pending.antt =====
-- The map pendingPacks of repo/content/content_manager.go, after a pack is set.
use mathlib.Core.Path.{fun_ext}
use kopia.Prelude.{◌≡◌, refl, sym, Option}
use kopia.Content.State.{PackPrefix, PendingPack, update}

pub update-same :
    (f : PackPrefix → Option PendingPack) (k : PackPrefix) (p : Option PendingPack)
    → f k ≡ p
    → update f k p ≡ f
update-same f k p e = fun_ext (λ j. at_each f k j p e)
  where
    at_each :
        (f : PackPrefix → Option PendingPack) (k j : PackPrefix) (p : Option PendingPack)
        → f k ≡ p
        → update f k p j ≡ f j
    at_each f PackPrefix.regular PackPrefix.regular p e = sym e
    at_each f PackPrefix.special PackPrefix.special p e = sym e
    at_each f PackPrefix.regular PackPrefix.special p e = refl
    at_each f PackPrefix.special PackPrefix.regular p e = refl

-- a predicate of each pending pack, after one is replaced
pub each :
    (P : PackPrefix → Option PendingPack → Type 0) (k j : PackPrefix)
    (f : PackPrefix → Option PendingPack) (o : Option PendingPack)
    → P k o
    → P j (f j)
    → P j (update f k o j)
each P PackPrefix.regular PackPrefix.regular f o a b = a
each P PackPrefix.special PackPrefix.special f o a b = a
each P PackPrefix.regular PackPrefix.special f o a b = b
each P PackPrefix.special PackPrefix.regular f o a b = b

pub each_other :
    (P : Option PendingPack → Option PendingPack → Type 0) (k j : PackPrefix)
    (f : PackPrefix → Option PendingPack) (o : Option PendingPack)
    → P (f k) o
    → ((p : Option PendingPack) → P p p)
    → P (f j) (update f k o j)
each_other P PackPrefix.regular PackPrefix.regular f o a b = a
each_other P PackPrefix.special PackPrefix.special f o a b = a
each_other P PackPrefix.regular PackPrefix.special f o a b = b (f PackPrefix.special)
each_other P PackPrefix.special PackPrefix.regular f o a b = b (f PackPrefix.regular)

pub at_own :
    (f : PackPrefix → Option PendingPack) (k : PackPrefix) (o : Option PendingPack)
    → update f k o k ≡ o
at_own f PackPrefix.regular o = refl
at_own f PackPrefix.special o = refl
