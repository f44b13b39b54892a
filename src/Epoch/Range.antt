-- ===== src/Epoch/Range.antt =====
-- internal/epoch/epoch_range.go: the longest chain of range checkpoints. A Go map is a list of pairs,
-- the newest first. An epoch is a natural number.
pub mod Longest
use kopia.Prelude.{
  ℕ, zero, suc, ◌<◌, Bool, ◌&&◌, ◌||◌, List, [], ◌∷◌, Option, none, some, length, ltb, ◌==◌,
  if◌then◌else◌,
}
use kopia.Epoch.Advance.{Metadata}

pub record RangeMetadata : Type 0 where
  pub min_epoch : ℕ
  pub max_epoch : ℕ
  pub blobs : List Metadata

-- byMin[start]: append keeps the order.
unfoldable pub by_min : List RangeMetadata → ℕ → List RangeMetadata
by_min [] start = []
by_min (r ∷ rs) start =
    let rest = by_min rs start in if r.min_epoch == start then r ∷ rest else rest

abbrev pub Memo : Type 0
Memo = List (ℕ × List RangeMetadata)

-- memo[start]
unfoldable pub lookup : Memo → ℕ → Option (List RangeMetadata)
lookup [] start = none
lookup ((s, l) ∷ memo) start = let rest = lookup memo start in if s == start then some l else rest

-- `combined[len(combined)-1].MaxEpoch`, of a first range and those that follow it
abbrev pub last_max_epoch : RangeMetadata → List RangeMetadata → ℕ
last_max_epoch cp [] = cp.max_epoch
last_max_epoch cp (r ∷ rs) = last_max_epoch r rs

-- the test for a longer chain, or one as long with fewer ranges
abbrev pub is_longer : RangeMetadata → List RangeMetadata → ℕ → List RangeMetadata → Bool
is_longer cp tail longest longest_metadata =
    let max = last_max_epoch cp tail in
    ltb longest max || ((max == longest) && ltb (length (cp ∷ tail)) (length longest_metadata))

abbrev pub Found : Type 0
Found = Option (List RangeMetadata × Memo)

-- the rest of a round, with what the recursive call has found, and what follows the round as `next`
abbrev pub compare_longest :
    RangeMetadata → ℕ → List RangeMetadata → (ℕ → List RangeMetadata → Memo → Found) → Found → Found
compare_longest cp longest longest_metadata next none = none
compare_longest cp longest longest_metadata next (some (tail, memo)) =
    if is_longer cp tail longest longest_metadata
    then next (last_max_epoch cp tail) (cp ∷ tail) memo
    else next longest longest_metadata memo

-- the loop over byMin[startEpoch], with the recursive call as `find`
unfoldable pub try_ranges :
    (ℕ → Memo → Found) → List RangeMetadata → ℕ → List RangeMetadata → Memo → Found
try_ranges find [] longest longest_metadata memo = some (longest_metadata, memo)
try_ranges find (cp ∷ cps) longest longest_metadata memo =
    compare_longest cp longest longest_metadata (try_ranges find cps) (find (suc cp.max_epoch) memo)

-- `memo[startEpoch] = longestMetadata`
abbrev pub memoize : ℕ → Found → Found
memoize start none = none
memoize start (some (l, memo)) = some (l, (start, l) ∷ memo)

-- `if ok { return l }`
abbrev pub unless_memoized : Option (List RangeMetadata) → Memo → Found → Found
unless_memoized (some l) memo found = some (l, memo)
unless_memoized none memo found = found

-- findLongestRangeCheckpointStartingAt; the fuel bounds the depth of the recursion.
unfoldable pub find_starting_at : ℕ → List RangeMetadata → ℕ → Memo → Found
find_starting_at zero ranges start memo = none
find_starting_at (suc fuel) ranges start memo =
    unless_memoized (lookup memo start) memo
      (memoize start (try_ranges (find_starting_at fuel ranges) (by_min ranges start) 0 [] memo))

-- findLongestRangeCheckpoint
unfoldable pub find_longest_range_checkpoint : ℕ → List RangeMetadata → Found
find_longest_range_checkpoint fuel ranges = find_starting_at fuel ranges 0 []
