-- ===== src/Checks/Merging.antt =====
-- Adding, merging, iterating and sharding of repo/content/index at concrete inputs.
use mathlib.Core.List.{flatten}
use kopia.Prelude.{
  Result, map, ◌≡◌, refl, false, inl, inr, List, [], ◌∷◌, ◌++◌, Option, none, some, ok, err, arith,
  All, length,
}
use kopia.Index.ContentId.{
  ContentId, IdRange, IsValid, content_id_to_bytes, compare_bytes, contains, compare_prefix,
  to_string,
}
use kopia.Index.ContentId.Hex.{encode}
use kopia.Index.V1.Iterating.{iterate}
use kopia.Index.V1.Iterating.Range.{in_range, call_for_all}
use kopia.Index.V1.Iterating.Visits.{iterate-in_range}
use kopia.Index.V1.Positions.{index}
use kopia.Index.Info.{Info}
use kopia.Index.Builder.{lookup_info, add_all}
use kopia.Index.Builder.Adding.{IsGreatest, add_all-IsGreatest}
use kopia.Index.Builder.Shards.{IsSharded, shard, shard-IsSharded, in_shard}
use kopia.Index.Merged
use kopia.Index.Merged.Lookup.{get_info-IsGreatest, get_info-err}
use kopia.Index.V1.{IndexError}
use kopia.Index.V1.File.{Buildable}
use kopia.Index.V1.Keys.{IsSorted}
use kopia.Index.V1.RoundTrip.{as_read}
use kopia.Checks.Indexes.{deleted_content, live_content, two_contents, sorted_runs, two-Buildable}

-- the content that was deleted, written again in the same second
abbrev restored : Info
restored = record deleted_content { deleted = false; pack_blob_id = b'p' ∷ b'2' ∷ [] }

add_all_runs :
    lookup_info (add_all [] (restored ∷ two_contents)) deleted_content.content_id ≡ some restored
unfolding add_all lookup_info
add_all_runs = refl

add_all-IsGreatest_example :
    IsGreatest deleted_content.content_id
      (restored ∷ two_contents)
      (lookup_info (add_all [] (restored ∷ two_contents)) deleted_content.content_id)
add_all-IsGreatest_example = add_all-IsGreatest (restored ∷ two_contents) deleted_content.content_id

-- indexes of one builder each, and one that cannot be read
abbrev index_of : List Info → Merged.Index IndexError
index_of is = record { approximate_count = 1; get_info = λ id. ok (lookup_info (add_all [] is) id) }

abbrev broken : Merged.Index IndexError
broken = record { approximate_count = 0; get_info = λ id. err IndexError.invalid_slice }

merged_runs :
    Merged.get_info
      (index_of two_contents ∷ index_of (restored ∷ []) ∷ [])
      deleted_content.content_id
    ≡ ok (some restored)
unfolding Merged.get_info add_all lookup_info
merged_runs = refl

get_info-IsGreatest_example :
    (r : Option Info) × (Merged.get_info
        (index_of two_contents ∷ index_of (restored ∷ []) ∷ [])
        deleted_content.content_id
      ≡ ok r)
    × IsGreatest deleted_content.content_id (flatten (two_contents ∷ (restored ∷ []) ∷ [])) r
get_info-IsGreatest_example =
    get_info-IsGreatest (index_of two_contents ∷ index_of (restored ∷ []) ∷ [])
      (two_contents ∷ (restored ∷ []) ∷ []) deleted_content.content_id
      (
        (
          lookup_info (add_all [] two_contents) deleted_content.content_id,
          refl,
          add_all-IsGreatest two_contents deleted_content.content_id,
        ),
        (
          (
            lookup_info (add_all [] (restored ∷ [])) deleted_content.content_id,
            refl,
            add_all-IsGreatest (restored ∷ []) deleted_content.content_id,
          ),
          tt,
        ),
      )

get_info-err_example :
    Merged.get_info ((index_of two_contents ∷ []) ++ (broken ∷ [])) deleted_content.content_id
    ≡ err IndexError.invalid_slice
get_info-err_example =
    get_info-err (index_of two_contents ∷ []) [] broken deleted_content.content_id
      IndexError.invalid_slice
      ((lookup_info (add_all [] two_contents) deleted_content.content_id, refl), tt) refl

-- Iterate from "k" on: the callback collects the IDs.
abbrev from_k : IdRange
from_k = record { start_id = b'k' ∷ []; end_id = b'{' ∷ [] }

abbrev collect : Info → List ContentId → Result IndexError (List ContentId)
collect i ids = ok (ids ++ (i.content_id ∷ []))

abbrev sorted_two : List Info
sorted_two = live_content ∷ deleted_content ∷ []

sorted_two-Buildable : Buildable 2 sorted_two
sorted_two-Buildable = rw sorted_runs at two-Buildable

sorted_two-IsSorted : IsSorted sorted_two
unfolding content_id_to_bytes compare_bytes
sorted_two-IsSorted = ((refl, tt), (tt, tt))

sorted_two-IsValid : All (λ it. IsValid it.content_id) sorted_two
sorted_two-IsValid = (
  record {
    prefix = inl refl;
    size = omega arith;
    bytes = omega arith;
    hash = λ e. absurd (omega arith);
  },
  (
    record {
      prefix = inr refl;
      size = omega arith;
      bytes = omega arith;
      hash = λ e. absurd (omega arith);
    },
    tt,
  ),
)

visited_runs :
    call_for_all collect (map (as_read 28) (in_range from_k sorted_two)) []
    ≡ ok (deleted_content.content_id ∷ [])
unfolding call_for_all in_range contains compare_prefix to_string compare_bytes encode
visited_runs = refl

iterate-in_range_example :
    iterate (λ e. e) collect (index 2 sorted_two sorted_two-Buildable 28 []) from_k []
    ≡ call_for_all collect (map (as_read 28) (in_range from_k sorted_two)) []
iterate-in_range_example =
    iterate-in_range 2 sorted_two sorted_two-Buildable 28 [] (λ e. e) collect from_k []
      sorted_two-IsSorted sorted_two-IsValid

-- a hash by the length of the text: "k0a" and "10" in shards of their own
shard_runs : shard length two_contents 1 ≡ some ((live_content ∷ []) ∷ (deleted_content ∷ []) ∷ [])
unfolding shard in_shard to_string encode
shard_runs = refl

-- with a hash that is always 0, a shard has more contents than its size
shard_too_long : shard (λ text. 0) two_contents 1 ≡ some (two_contents ∷ [])
unfolding shard in_shard
shard_too_long = refl

shard-IsSharded_example :
    (shards : List (List Info)) × (shard length two_contents 1 ≡ some shards)
    × IsSharded length two_contents 1 shards
shard-IsSharded_example = shard-IsSharded length two_contents 1 (omega arith)

-- the panic
shard_by_zero : shard length two_contents 0 ≡ none
unfolding shard
shard_by_zero = refl
