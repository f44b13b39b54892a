-- ===== src/Index/V1.antt =====
-- repo/content/index/index_v1.go: version 1 of the pack index. An io.Writer that does not fail is the
-- list of the bytes written; a byte slice is the list of its bytes. Closing an index is not modelled.
pub mod Reader
pub mod Entry
pub mod Names
pub mod Layout
pub mod Keys
pub mod File
pub mod Positions
pub mod RoundTrip
pub mod Iterating
use Prim.Native.Nat.{bit_or}
use kopia.Prelude.{
  ℕ, zero, suc, ◌+◌, ◌-◌, ◌*◌, ◌/◌, ◌%◌, ◌^◌, Bool, true, false, not, ◌&&◌, ◌||◌, List, [], ◌∷◌,
  ◌++◌, Option, none, some, length, take, drop, ltb, leb, ◌==◌, if◌then◌else◌, Result, ok, err,
  ◌>>=◌, ◌>>◌, bytes_equal, replicate,
}
use kopia.Index.ContentId.{
  ContentId, compare_bytes, content_id_to_bytes, bytes_to_content_id, is_lt, compare_prefix,
  IdRange,
}
use kopia.Index.Encoding.{
  put_uint16, put_uint32, put_uint64, byte_at, decode_big_endian_uint16, decode_big_endian_uint32,
  decode_big_endian_uint48, safe_slice,
}
use kopia.Index.Info.{Info}
use kopia.Index.Search.{search}

abbrev pub v1_header_size : ℕ
v1_header_size = 8

abbrev pub v1_entry_length : ℕ
v1_entry_length = 20

abbrev pub v1_deleted_marker : ℕ
v1_deleted_marker = 0x80000000

abbrev pub unknown_key_size : ℕ
unknown_key_size = 255

-- "---invalid---"
abbrev pub invalid_blob_id : List ℕ
invalid_blob_id =
    b'-' ∷ b'-' ∷ b'-' ∷ b'i' ∷ b'n' ∷ b'v' ∷ b'a' ∷ b'l' ∷ b'i' ∷ b'd' ∷ b'-' ∷ b'-' ∷ b'-' ∷ []

pub data IndexError : Type 0 where
  invalid_slice invalid_header invalid_content_id invalid_entry_length inconsistent_key_length :
      IndexError
  compression_not_supported encryption_key_id_not_supported empty_pack_id : IndexError

abbrev pub or_invalid : Option (List ℕ) → Result IndexError (List ℕ)
or_invalid none = err invalid_slice
or_invalid (some v) = ok v

-- safeSlice, with its error
abbrev pub slice_of : List ℕ → ℕ → ℕ → Result IndexError (List ℕ)
slice_of bytes offset n = or_invalid (safe_slice bytes offset n)

-- the map packBlobIDOffsets
abbrev pub Offsets : Type 0
Offsets = List (List ℕ × ℕ)

unfoldable pub lookup_offset : Offsets → List ℕ → Option ℕ
lookup_offset [] id = none
lookup_offset ((k, v) ∷ m) id = if bytes_equal k id then some v else lookup_offset m id

-- `b.packBlobIDOffsets[packBlobID]`, zero if it is missing
abbrev pub or_zero : Option ℕ → ℕ
or_zero none = 0
or_zero (some v) = v

-- indexBuilderV1, with no key length (-1) before the first content
pub record IndexBuilderV1 : Type 0 where
  pub pack_blob_id_offsets : Offsets
  pub entry_count : ℕ
  pub key_length : Option ℕ
  pub entry_length : ℕ
  pub extra_data_offset : ℕ

abbrev pub add_missing : Option ℕ → List ℕ → Offsets × List ℕ → Offsets × List ℕ
add_missing (some v) id (offsets, extra) = (offsets, extra)
add_missing none id (offsets, extra) = ((id, length extra % 2 ^ 32) ∷ offsets, extra ++ id)

-- the pack blob ID of one content in the extra data
unfoldable pub add_pack_blob_id : Offsets × List ℕ → List ℕ → Offsets × List ℕ
add_pack_blob_id (offsets, extra) id =
    if length id == 0
    then (offsets, extra)
    else add_missing (lookup_offset offsets id) id (offsets, extra)

unfoldable pub add_all_pack_blob_ids : Offsets × List ℕ → List Info → Offsets × List ℕ
add_all_pack_blob_ids state [] = state
add_all_pack_blob_ids state (it ∷ its) =
    add_all_pack_blob_ids (add_pack_blob_id state it.pack_blob_id) its

abbrev pub key_length_of : List Info → Option ℕ
key_length_of [] = none
key_length_of (it ∷ its) = some (length (content_id_to_bytes [] it.content_id))

-- b.entryCount*(b.keyLength+b.entryLength)
abbrev pub entries_size : Option ℕ → ℕ → ℕ → ℕ
entries_size none count n = count * (n - 1)
entries_size (some k) count n = count * (k + n)

-- prepareExtraData(allContents)
unfoldable pub prepare_extra_data : List Info → IndexBuilderV1 × List ℕ
unfolding add_all_pack_blob_ids
prepare_extra_data all_contents =
    let (offsets, extra) = add_all_pack_blob_ids ([], []) all_contents in
    let key_length = key_length_of all_contents in
    (
      record {
        pack_blob_id_offsets = offsets;
        entry_count = length all_contents;
        key_length = key_length;
        entry_length = v1_entry_length;
        extra_data_offset =
            (v1_header_size + entries_size key_length (length all_contents) v1_entry_length)
            % 2 ^ 32;
      },
      extra,
    )

abbrev pub timestamp_and_flags : Info → ℕ
timestamp_and_flags it =
    bit_or (bit_or (it.timestamp_seconds * 2 ^ 16 % 2 ^ 64) (it.format_version * 2 ^ 8))
      (length it.pack_blob_id)

abbrev pub packed_offset_and_deleted : Info → ℕ
packed_offset_and_deleted it =
    if it.deleted then bit_or it.pack_offset v1_deleted_marker else it.pack_offset

-- the offset of the pack blob ID in the file
abbrev pub name_offset : IndexBuilderV1 → Info → ℕ
name_offset b it =
    (b.extra_data_offset + or_zero (lookup_offset b.pack_blob_id_offsets it.pack_blob_id)) % 2 ^ 32

unfoldable pub entry_bytes : IndexBuilderV1 → Info → List ℕ
entry_bytes b it =
    put_uint64 (timestamp_and_flags it)
    ++ (put_uint32 (name_offset b it)
        ++ (put_uint32 (packed_offset_and_deleted it) ++ put_uint32 it.packed_length))

-- formatEntry(entry, it)
unfoldable pub format_entry : IndexBuilderV1 → Info → Result IndexError (List ℕ)
format_entry b it = if length it.pack_blob_id == 0 then err empty_pack_id else ok (entry_bytes b it)

abbrev pub has_length : Option ℕ → List ℕ → Bool
has_length none k = false
has_length (some n) k = length k == n

-- writeEntry(w, it, entry): the bytes written
unfoldable pub write_entry : IndexBuilderV1 → Info → Result IndexError (List ℕ)
unfolding format_entry
write_entry b it =
    let k = content_id_to_bytes [] it.content_id in
    if not (has_length b.key_length k)
    then err inconsistent_key_length
    else if not (it.compression_header_id == 0)
    then err compression_not_supported
    else if not (it.encryption_key_id == 0)
    then err encryption_key_id_not_supported
    else (do entry ← format_entry b it; ok (k ++ entry))

unfoldable pub write_entries : IndexBuilderV1 → List Info → Result IndexError (List ℕ)
unfolding write_entry
write_entries b [] = ok []
write_entries b (it ∷ its) = do one ← write_entry b it; rest ← write_entries b its; ok (one ++ rest)

-- byte(b1.keyLength)
abbrev pub key_length_byte : Option ℕ → ℕ
key_length_byte none = 255
key_length_byte (some n) = n % 256

unfoldable pub header_of : IndexBuilderV1 → List ℕ
header_of b =
    1 ∷ key_length_byte b.key_length ∷ put_uint16 b.entry_length
    ++ put_uint32 (b.entry_count % 2 ^ 32)

-- buildV1(output), for the contents that sortedContents gives
unfoldable pub build_v1 : List Info → Result IndexError (List ℕ)
unfolding prepare_extra_data write_entries header_of
build_v1 all_contents =
    let (b1, extra_data) = prepare_extra_data all_contents in
    (do entries ← write_entries b1 all_contents; ok (header_of b1 ++ (entries ++ extra_data)))

pub record V1HeaderInfo : Type 0 where
  pub version : ℕ
  pub key_size : ℕ
  pub value_size : ℕ
  pub entry_count : ℕ

-- v1ReadHeader(data); sizes are never negative.
unfoldable pub v1_read_header : List ℕ → Result IndexError V1HeaderInfo
v1_read_header bytes = do
  header ← slice_of bytes 0 v1_header_size
  let hi : V1HeaderInfo = record {
    version = byte_at header 0;
    key_size = byte_at header 1;
    value_size = decode_big_endian_uint16 (drop 2 header);
    entry_count = decode_big_endian_uint32 (drop 4 header);
  }
  if leb hi.key_size 1 then err invalid_header else ok hi

pub record IndexV1 : Type 0 where
  pub hdr : V1HeaderInfo
  pub bytes : List ℕ
  pub v1_per_content_overhead : ℕ

abbrev pub stride : IndexV1 → ℕ
stride b = b.hdr.key_size + b.hdr.value_size
