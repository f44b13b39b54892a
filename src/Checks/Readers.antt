-- ===== src/Checks/Readers.antt =====
-- The object reader of repo/object at concrete inputs.
use kopia.Prelude.{ℕ, List, [], ◌∷◌, refl, some, ok, err, ◌≡◌}
use kopia.Object.Id.{Entry, empty_object_id}
use kopia.Object.Seek.{
  pos, negsuc, no_chunk, Finds, search_chunk, find_chunk_index_for_offset, find_chunk-Finds,
}

abbrev chunk : ℕ → ℕ → Entry
chunk start length = record { start = start; length = length; object = empty_object_id }

abbrev table : List Entry
table = chunk 0 20 ∷ chunk 20 20 ∷ chunk 40 5 ∷ []

find_chunk-Finds_example : Finds table (pos 27) (find_chunk_index_for_offset table (pos 27))
find_chunk-Finds_example = find_chunk-Finds table (pos 27) (refl, (refl, (refl, tt)))

find_27 : find_chunk_index_for_offset table (pos 27) ≡ some (ok 1)
unfolding find_chunk_index_for_offset search_chunk
find_27 = refl

find_before : find_chunk_index_for_offset table (negsuc 0) ≡ some (err no_chunk)
unfolding find_chunk_index_for_offset search_chunk
find_before = refl
