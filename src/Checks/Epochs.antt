-- ===== src/Checks/Epochs.antt =====
-- The epochs of internal/epoch at concrete inputs.
use kopia.Prelude.{
  ℕ, List, [], ◌∷◌, ◌≡◌, ◌↔◌, ◌⊎◌, ◌≤◌, true, refl, length, ◌<◌, arith, Option, none, some,
}
use mathlib.Core.List.{Memᴰ}
use kopia.Epoch.Range.{
  RangeMetadata, by_min, lookup, try_ranges, find_starting_at, find_longest_range_checkpoint,
}
use kopia.Epoch.Range.Longest.{IsOptimal, find_longest-IsOptimal}
use kopia.Epoch.Advance.{Metadata, Spread, size, scan_blobs, should_advance, should_advance_iff}

abbrev blob : ℕ → ℕ → Metadata
blob len timestamp = record { blob_id = b'x' ∷ []; length = len; timestamp = timestamp }

abbrev blobs : List Metadata
blobs = blob 10 500 ∷ blob 20 100 ∷ blob 30 900 ∷ []

should_advance_iff_example :
    (should_advance blobs 700 3 1000 ≡ true)
    ↔ (Spread blobs 700 × ((3 ≤ length blobs) ⊎ (1000 ≤ size blobs)))
should_advance_iff_example = should_advance_iff blobs 700 3 1000 (omega arith)

advanced : should_advance blobs 700 3 1000 ≡ true
unfolding should_advance scan_blobs
advanced = refl

abbrev range : ℕ → ℕ → RangeMetadata
range low high = record { min_epoch = low; max_epoch = high; blobs = [] }

abbrev ranges : List RangeMetadata
ranges = range 0 1 ∷ range 0 2 ∷ range 2 3 ∷ range 3 4 ∷ []

sound : (r : RangeMetadata) → Memᴰ r ranges → (r.min_epoch ≤ r.max_epoch) × (r.max_epoch < 5)
sound r (Memᴰ.head e) = rw e (omega arith, omega arith)
sound r (Memᴰ.tail (Memᴰ.head e)) = rw e (omega arith, omega arith)
sound r (Memᴰ.tail (Memᴰ.tail (Memᴰ.head e))) = rw e (omega arith, omega arith)
sound r (Memᴰ.tail (Memᴰ.tail (Memᴰ.tail (Memᴰ.head e)))) = rw e (omega arith, omega arith)
sound r (Memᴰ.tail (Memᴰ.tail (Memᴰ.tail (Memᴰ.tail m)))) = elim m [ ]

find_longest-IsOptimal_example : IsOptimal ranges 0 (find_longest_range_checkpoint 6 ranges)
find_longest-IsOptimal_example = find_longest-IsOptimal ranges 5 sound

abbrev chain_of : Option (List RangeMetadata × List (ℕ × List RangeMetadata)) → List RangeMetadata
chain_of none = []
chain_of (some x) = x.0

longest_chain : chain_of (find_longest_range_checkpoint 6 ranges) ≡ range 0 2 ∷ range 3 4 ∷ []
unfolding find_longest_range_checkpoint find_starting_at try_ranges by_min lookup
longest_chain = refl
