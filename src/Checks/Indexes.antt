-- ===== src/Checks/Indexes.antt =====
-- The pack index of repo/content/index at concrete inputs.
use kopia.Prelude.{
  ◌≡◌, refl, true, false, inl, inr, List, [], ◌∷◌, none, some, ok, arith, All, length,
}
use kopia.Index.ContentId.{ContentId, less, content_id_to_bytes}
use kopia.Index.Info.{Info}
use kopia.Index.Builder.{sorted_contents, bucket_of, insert}
use kopia.Index.Builder.RoundTrip.{build_and_get, build_and_get-as_read, build_and_get-none}
use kopia.Index.Builder.Sorting.{HasKey, IsDistinct}
use kopia.Index.Builder.Members.{Sorts, sorted_contents-Sorts}
use kopia.Index.V1.{prepare_extra_data, entry_bytes, lookup_offset, add_pack_blob_id}
use kopia.Index.V1.Entry.{Fits, ReadsBack, entry_bytes-ReadsBack}
use kopia.Index.V1.File.{Buildable}
use kopia.Index.V1.RoundTrip.{as_read}

-- "k0a" in the pack "p1", deleted, and "10" in the pack "q"
abbrev pub deleted_content : Info
deleted_content = record {
  content_id = record { prefix = b'k'; hash = 0x0a ∷ [] };
  pack_blob_id = b'p' ∷ b'1' ∷ [];
  timestamp_seconds = 1000;
  original_length = 70;
  packed_length = 100;
  pack_offset = 5;
  deleted = true;
  format_version = 2;
  compression_header_id = 0;
  encryption_key_id = 0;
}

abbrev pub live_content : Info
live_content = record {
  content_id = record { prefix = 0; hash = 0x10 ∷ [] };
  pack_blob_id = b'q' ∷ [];
  timestamp_seconds = 2000;
  original_length = 7;
  packed_length = 37;
  pack_offset = 0;
  deleted = false;
  format_version = 1;
  compression_header_id = 0;
  encryption_key_id = 0;
}

abbrev pub two_contents : List Info
two_contents = deleted_content ∷ live_content ∷ []

pub deleted_content-Fits : Fits 2 deleted_content
deleted_content-Fits = record {
  key = refl;
  no_compression = refl;
  no_encryption_key = refl;
  packed = omega arith;
  short_name = omega arith;
  timestamp = omega arith;
  version = omega arith;
  offset = omega arith;
  packed_length = omega arith;
}

pub live_content-Fits : Fits 2 live_content
live_content-Fits = record {
  key = refl;
  no_compression = refl;
  no_encryption_key = refl;
  packed = omega arith;
  short_name = omega arith;
  timestamp = omega arith;
  version = omega arith;
  offset = omega arith;
  packed_length = omega arith;
}

entry_bytes-ReadsBack_example :
    ReadsBack
      (prepare_extra_data two_contents).0
      deleted_content
      (entry_bytes (prepare_extra_data two_contents).0 deleted_content)
entry_bytes-ReadsBack_example =
    entry_bytes-ReadsBack 2 (prepare_extra_data two_contents).0 deleted_content deleted_content-Fits

two_keys : All HasKey two_contents
two_keys = ((inr refl, omega arith, omega arith), ((inl refl, omega arith, omega arith), tt))

two-IsDistinct : IsDistinct two_contents
unfolding content_id_to_bytes
two-IsDistinct = ((refl, tt), (tt, tt))

pub sorted_runs : sorted_contents two_contents ≡ live_content ∷ deleted_content ∷ []
unfolding sorted_contents bucket_of insert less
sorted_runs = refl

sorted_contents-Sorts_example : Sorts two_contents (sorted_contents two_contents)
sorted_contents-Sorts_example = sorted_contents-Sorts two_contents two_keys two-IsDistinct

extra_runs : length (prepare_extra_data (live_content ∷ deleted_content ∷ [])).1 ≡ 3
unfolding prepare_extra_data lookup_offset add_pack_blob_id
extra_runs = refl

pub two-Buildable : Buildable 2 (sorted_contents two_contents)
two-Buildable = rw sorted_runs (record {
  some_content = omega arith;
  fits = (live_content-Fits, (deleted_content-Fits, tt));
  long_key = omega arith;
  short_key = omega arith;
  room = omega (arith, extra_runs);
})

build_and_get-as_read_example :
    build_and_get two_contents 28 (1 ∷ 2 ∷ []) live_content.content_id
    ≡ ok (some (as_read 28 live_content))
build_and_get-as_read_example =
    build_and_get-as_read 2 two_contents two-Buildable 28 (1 ∷ 2 ∷ []) live_content two_keys
      two-IsDistinct (1, refl)

abbrev missing_id : ContentId
missing_id = record { prefix = b'k'; hash = 0x0b ∷ [] }

build_and_get-none_example : build_and_get two_contents 28 (1 ∷ 2 ∷ []) missing_id ≡ ok none
unfolding content_id_to_bytes
build_and_get-none_example =
    build_and_get-none 2 two_contents two-Buildable 28 (1 ∷ 2 ∷ []) missing_id two_keys
      two-IsDistinct refl (refl, (refl, tt))
