-- ===== src/Index/V1/Reader.antt =====
-- The reading side of repo/content/index/index_v1.go, and Open of index.go for version 1.
use Prim.Native.Nat.{bit_and}
use kopia.Prelude.{
  ℕ, ◌+◌, ◌-◌, ◌*◌, ◌%◌, ◌^◌, Bool, not, List, [], Option, none, some, length, take, drop, leb,
  ◌==◌, if◌then◌else◌, Result, ok, err, ◌>>=◌, bytes_equal,
}
use kopia.Index.ContentId.{ContentId, compare_bytes, content_id_to_bytes, is_lt}
use kopia.Index.Encoding.{byte_at, decode_big_endian_uint32, decode_big_endian_uint48}
use kopia.Index.Info.{Info}
use kopia.Index.Search.{search}
use kopia.Index.V1.{
  IndexV1, stride, slice_of, IndexError, invalid_content_id, invalid_entry_length, v1_header_size,
  v1_entry_length, unknown_key_size, invalid_blob_id, v1_read_header, invalid_header,
}

-- Open(data, closer, v1PerContentOverhead), with no other version
unfoldable pub open_v1 : List ℕ → ℕ → Result IndexError IndexV1
open_v1 bytes overhead = do
  h ← v1_read_header bytes
  let b : IndexV1 = record { hdr = h; bytes = bytes; v1_per_content_overhead = overhead }
  if h.version == 1 then ok b else err invalid_header

-- contentIDBytesGreaterOrEqual
abbrev pub content_id_bytes_greater_or_equal : List ℕ → List ℕ → Bool
content_id_bytes_greater_or_equal a b = not (is_lt (compare_bytes a b))

-- the key of the entry at a position
unfoldable pub key_at : IndexV1 → ℕ → Result IndexError (List ℕ)
key_at b p = slice_of b.bytes (v1_header_size + stride b * p) b.hdr.key_size

-- the test that findEntryPositionExact gives to sort.Search
unfoldable pub key_not_below : IndexV1 → List ℕ → ℕ → Result IndexError Bool
unfolding key_at
key_not_below b id_bytes p = do
  key ← key_at b p
  ok (content_id_bytes_greater_or_equal key id_bytes)

-- findEntryPositionExact(idBytes)
unfoldable pub find_entry_position_exact : IndexV1 → List ℕ → Result IndexError ℕ
unfolding key_not_below search
find_entry_position_exact b id_bytes = search b.hdr.entry_count (key_not_below b id_bytes)

-- the entry at a position, if its key is the one that is looked for
unfoldable pub read_entry : IndexV1 → List ℕ → ℕ → Result IndexError (Option (List ℕ))
read_entry b key position = do
  entry_buf ← slice_of b.bytes (v1_header_size + stride b * position) (stride b)
  ok (
      if bytes_equal (take (length key) entry_buf) key
      then some (drop (length key) entry_buf)
      else none)

-- findEntry(output, contentID)
unfoldable pub find_entry : IndexV1 → ContentId → Result IndexError (Option (List ℕ))
unfolding find_entry_position_exact read_entry
find_entry b content_id =
    let key = content_id_to_bytes [] content_id in
    if b.hdr.key_size == unknown_key_size
    then ok none
    else if not (length key == b.hdr.key_size)
    then err invalid_content_id
    else (do
      position ← find_entry_position_exact b key
      if leb b.hdr.entry_count position then ok none else read_entry b key position)

abbrev pub or_invalid_id : Result IndexError (List ℕ) → List ℕ
or_invalid_id (err e) = invalid_blob_id
or_invalid_id (ok name) = name

-- GetPackBlobID()
unfoldable pub get_pack_blob_id : IndexV1 → List ℕ → List ℕ
get_pack_blob_id b entry =
    or_invalid_id (slice_of b.bytes (decode_big_endian_uint32 (drop 8 entry)) (byte_at entry 7))

-- the getters of indexEntryInfoV1
unfoldable pub entry_info : IndexV1 → ContentId → List ℕ → Info
unfolding get_pack_blob_id
entry_info b content_id entry =
    let packed_length = decode_big_endian_uint32 (drop 16 entry) in
    record {
      content_id = content_id;
      pack_blob_id = get_pack_blob_id b entry;
      timestamp_seconds = decode_big_endian_uint48 entry;
      original_length = (packed_length + 2 ^ 32 - b.v1_per_content_overhead) % 2 ^ 32;
      packed_length = packed_length;
      pack_offset = bit_and (decode_big_endian_uint32 (drop 12 entry)) (2 ^ 31 - 1);
      deleted = not (bit_and (byte_at entry 12) 0x80 == 0);
      format_version = byte_at entry 6;
      compression_header_id = 0;
      encryption_key_id = 0;
    }

-- entryToInfo(contentID, entryData)
unfoldable pub entry_to_info : IndexV1 → ContentId → List ℕ → Result IndexError Info
unfolding entry_info
entry_to_info b content_id entry =
    if not (length entry == v1_entry_length)
    then err invalid_entry_length
    else ok (entry_info b content_id entry)

abbrev pub info_of_found : IndexV1 → ContentId → Option (List ℕ) → Result IndexError (Option Info)
info_of_found b content_id none = ok none
info_of_found b content_id (some e) = do i ← entry_to_info b content_id e; ok (some i)

-- GetInfo(contentID)
unfoldable pub get_info : IndexV1 → ContentId → Result IndexError (Option Info)
unfolding find_entry entry_to_info
get_info b content_id = do found ← find_entry b content_id; info_of_found b content_id found
