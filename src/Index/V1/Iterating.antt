-- ===== src/Index/V1/Iterating.antt =====
-- Iterate of repo/content/index/index_v1.go. What the callback does to its caller is a state that it is
-- given and returns; `wrap` is errors.Wrap of an error of the index.
pub mod Range
pub mod Visits
use kopia.Prelude.{
  ℕ, zero, suc, ◌+◌, ◌-◌, ◌*◌, Bool, true, false, not, List, take, drop, if◌then◌else◌, Result, ok,
  err, map_err, ◌>>=◌,
}
use kopia.Index.ContentId.{ContentId, IdRange, compare_prefix, bytes_to_content_id, is_lt}
use kopia.Index.Info.{Info}
use kopia.Index.Search.{search}
use kopia.Index.V1.{IndexV1, stride, slice_of, IndexError, v1_header_size}
use kopia.Index.V1.Reader.{key_at, entry_to_info}

-- the test that findEntryPosition gives to sort.Search
unfoldable pub prefix_not_below : IndexV1 → List ℕ → ℕ → Result IndexError Bool
unfolding key_at
prefix_not_below b id_prefix p = do
  key ← key_at b p
  ok (not (is_lt (compare_prefix (bytes_to_content_id key) id_prefix)))

-- findEntryPosition(contentID)
unfoldable pub find_entry_position : IndexV1 → List ℕ → Result IndexError ℕ
unfolding prefix_not_below search
find_entry_position b id_prefix = search b.hdr.entry_count (prefix_not_below b id_prefix)

module _ {E S : Type 0} (wrap : IndexError → E) (cb : Info → S → Result E S) (b : IndexV1)
    (r : IdRange) where
  -- an entry within the range
  abbrev pub visit : ContentId → List ℕ → S → (S → Result E S) → Result E S
  visit content_id entry s go_on = do
    i ← map_err wrap (entry_to_info b content_id entry)
    s1 ← cb i s
    go_on s1

  -- one round of the loop, with what the later rounds do
  abbrev pub visit_entry : List ℕ → S → (S → Result E S) → Result E S
  visit_entry entry s go_on =
      let content_id = bytes_to_content_id (take b.hdr.key_size entry) in
      if not (is_lt (compare_prefix content_id r.end_id))
      then ok s
      else visit content_id (drop b.hdr.key_size entry) s go_on

  -- the loop from a position on, for a number of entries
  unfoldable pub iterate_from : ℕ → ℕ → S → Result E S
  iterate_from zero i s = ok s
  iterate_from (suc rounds) i s = do
    entry ← map_err wrap (slice_of b.bytes (v1_header_size + stride b * i) (stride b))
    visit_entry entry s (iterate_from rounds (suc i))

  -- Iterate(r, cb)
  unfoldable pub iterate : S → Result E S
  unfolding iterate_from find_entry_position
  iterate s = do
    start_pos ← map_err wrap (find_entry_position b r.start_id)
    iterate_from (b.hdr.entry_count - start_pos) start_pos s
