-- ===== src/Index/Merged.antt =====
-- repo/content/index/merged.go: several indexes read as one. An index is what its methods answer;
-- closing and iterating are not modelled.
pub mod Lookup
use kopia.Prelude.{ℕ, ◌+◌, List, [], ◌∷◌, Option, none, some, Result, ok, err, ◌>>=◌, if◌then◌else◌}
use kopia.Index.ContentId.{ContentId}
use kopia.Index.Info.{Info}
use kopia.Index.Builder.{content_info_greater_than}

-- Index
pub record Index (E : Type 0) : Type 0 where
  pub approximate_count : ℕ
  pub get_info : ContentId → Result E (Option Info)

-- the better one of two answers
abbrev pub better : Option Info → Option Info → Option Info
better i best = if content_info_greater_than i best then i else best

module _ {E : Type 0} where
  -- ApproximateCount()
  unfoldable pub approximate_count : List (Index E) → ℕ
  approximate_count [] = 0
  approximate_count (ndx ∷ m) = ndx.approximate_count + approximate_count m

  -- the loop of GetInfo
  unfoldable pub get_best : Option Info → List (Index E) → ContentId → Result E (Option Info)
  get_best best [] id = ok best
  get_best best (ndx ∷ m) id = do i ← ndx.get_info id; get_best (better i best) m id

  -- GetInfo(id)
  unfoldable pub get_info : List (Index E) → ContentId → Result E (Option Info)
  unfolding get_best
  get_info m id = get_best none m id
