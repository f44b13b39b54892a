-- ===== src/Index/Builder.antt =====
-- repo/content/index/index_builder.go and the comparison of merged.go. A Builder, a map from content
-- IDs to infos, is the list of its infos: the key of each is its content ID. Go walks a map in any
-- order, here in the order of the list.
pub mod Sorting
pub mod Buckets
pub mod Members
pub mod Adding
pub mod RoundTrip
pub mod Shards
use mathlib.Core.List.{flatten}
use kopia.Prelude.{
  ℕ, zero, suc, ◌+◌, ◌-◌, ◌*◌, ◌/◌, Bool, true, false, not, ◌&&◌, List, [], ◌∷◌, ◌++◌, Option, none,
  some, map, ltb, leb, ◌==◌, if◌then◌else◌, bytes_equal, Result, ok, err, ◌>>=◌,
}
use kopia.Index.ContentId.{ContentId, compare_bytes, is_lt, less}
use kopia.Index.Info.{Info}
use kopia.Index.V1.{build_v1, IndexError}

-- `==` on IDs
abbrev pub same_id : ContentId → ContentId → Bool
same_id i j = i.prefix == j.prefix && bytes_equal i.hash j.hash

-- contentInfoGreaterThan(a, b) of two infos that are not nil
abbrev pub info_greater_than : Info → Info → Bool
info_greater_than a b =
    if not (a.timestamp_seconds == b.timestamp_seconds)
    then ltb b.timestamp_seconds a.timestamp_seconds
    else if not (bool_equal a.deleted b.deleted)
    then not a.deleted
    else is_lt (compare_bytes b.pack_blob_id a.pack_blob_id)
  where
    bool_equal : Bool → Bool → Bool
    bool_equal true d = d
    bool_equal false d = not d

-- contentInfoGreaterThan(a, b)
abbrev pub content_info_greater_than : Option Info → Option Info → Bool
content_info_greater_than a none = true
content_info_greater_than none (some b) = false
content_info_greater_than (some a) (some b) = info_greater_than a b

-- `b[cid]`
unfoldable pub lookup_info : List Info → ContentId → Option Info
lookup_info [] id = none
lookup_info (i ∷ b) id = if same_id i.content_id id then some i else lookup_info b id

-- `b[cid] = i`
unfoldable pub put_info : List Info → Info → List Info
put_info [] i = i ∷ []
put_info (j ∷ b) i = if same_id j.content_id i.content_id then i ∷ b else j ∷ put_info b i

-- Add(i)
unfoldable pub add : List Info → Info → List Info
unfolding put_info lookup_info
add b i =
    if content_info_greater_than (some i) (lookup_info b i.content_id) then put_info b i else b

unfoldable pub add_all : List Info → List Info → List Info
unfolding add
add_all b [] = b
add_all b (i ∷ is) = add_all (add b i) is

-- base36Value[c]
abbrev pub base36_value : ℕ → ℕ
base36_value c =
    if leb b'0' c && leb c b'9'
    then c - b'0'
    else if leb b'a' c && leb c b'z'
    then c - b'a' + 10
    else if leb b'A' c && leb c b'Z'
    then c - b'A' + 10
    else 0

-- `cid.data[0]`
abbrev pub first_byte : List ℕ → ℕ
first_byte [] = 0
first_byte (c ∷ h) = c

-- the bucket of a content
unfoldable pub bucket_of : ContentId → ℕ
bucket_of cid = base36_value cid.prefix * 16 + first_byte cid.hash / 16

-- the contents of one bucket
unfoldable pub bucket : ℕ → List Info → List Info
bucket n [] = []
bucket n (v ∷ vs) = let rest = bucket n vs in if bucket_of v.content_id == n then v ∷ rest else rest

-- sort.Slice by less; IDs are distinct, so that any sort gives this list.
unfoldable pub insert : Info → List Info → List Info
insert v [] = v ∷ []
insert v (w ∷ ws) =
    let rest = insert v ws in if less v.content_id w.content_id then v ∷ w ∷ ws else w ∷ rest

unfoldable pub sort_slice : List Info → List Info
unfolding insert
sort_slice [] = []
sort_slice (v ∷ vs) = insert v (sort_slice vs)

-- the sorted buckets from a number on, one after the other
unfoldable pub buckets_from : ℕ → ℕ → List Info → List Info
unfolding bucket sort_slice
buckets_from n zero vs = []
buckets_from n (suc count) vs = sort_slice (bucket n vs) ++ buckets_from (suc n) count vs

-- sortedContents()
unfoldable pub sorted_contents : List Info → List Info
unfolding buckets_from
sorted_contents b = buckets_from 0 (36 * 16) b

-- Build(output, Version1): the bytes written, with the random suffix that is drawn
unfoldable pub build : List Info → List ℕ → Result IndexError (List ℕ)
unfolding sorted_contents
build b random_suffix = do bytes ← build_v1 (sorted_contents b); ok (bytes ++ random_suffix)
