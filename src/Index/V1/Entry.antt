-- ===== src/Index/V1/Entry.antt =====
-- One entry of repo/content/index/index_v1.go: what formatEntry writes is what the getters read.
use Prim.Native.Nat.{bit_and, bit_or}
use kopia.Prelude.{
  ℕ, ◌+◌, ◌-◌, ◌*◌, ◌/◌, ◌%◌, ◌^◌, ◌<◌, ◌≡◌, refl, ap, ◌∙◌, Bool, true, false, not, List, [],
  length, drop, if◌then◌else◌, ◌==◌, arith, append-nil,
}
use kopia.Prelude.Bits.{or_add, bit_or-field_below, bit_and-mask, bit_and-top_bit}
use kopia.Index.Encoding.{
  put_uint32, put_uint64, byte_at, decode_big_endian_uint32, decode_big_endian_uint48,
}
use kopia.Index.Encoding.RoundTrip.{decode-put_uint32, decode48-put_uint64}
use kopia.Index.Info.{Info}
use kopia.Index.V1.{
  IndexBuilderV1, timestamp_and_flags, packed_offset_and_deleted, name_offset, entry_bytes,
  v1_deleted_marker,
}

-- What version 1 can hold of a content whose key has k bytes.
pub record Fits (k : ℕ) (it : Info) : Type 0 where
  pub key : length it.content_id.hash + 1 ≡ k
  pub no_compression : it.compression_header_id ≡ 0
  pub no_encryption_key : it.encryption_key_id ≡ 0
  pub packed : 0 < length it.pack_blob_id
  pub short_name : length it.pack_blob_id < 2 ^ 8
  pub timestamp : it.timestamp_seconds < 2 ^ 48
  pub version : it.format_version < 2 ^ 8
  pub offset : it.pack_offset < 2 ^ 31
  pub packed_length : it.packed_length < 2 ^ 32

flags_sum :
    (k : ℕ) (it : Info)
    → Fits k it
    → timestamp_and_flags it
      ≡ it.timestamp_seconds * 2 ^ 16 + it.format_version * 2 ^ 8 + length it.pack_blob_id
flags_sum k it f =
    let t = it.timestamp_seconds in
    let same : t * 2 ^ 16 % 2 ^ 64 ≡ t * 2 ^ 16 = omega (arith, f.timestamp) in
    rw (same, or_add 16 (t * 2 ^ 16) t (it.format_version * 2 ^ 8) refl (omega (arith, f.version)))
      (or_add 8 (t * 2 ^ 16 + it.format_version * 2 ^ 8) (t * 2 ^ 8 + it.format_version)
        (length it.pack_blob_id) (omega arith) (omega (arith, f.short_name)))

offset_sum :
    (k : ℕ) (it : Info)
    → Fits k it
    → packed_offset_and_deleted it ≡ it.pack_offset + (if it.deleted then 2 ^ 31 else 0)
offset_sum k it f = if_or it.deleted it.pack_offset f.offset
  where
    if_or :
        (d : Bool) (n : ℕ)
        → n < 2 ^ 31
        → (if d then bit_or n v1_deleted_marker else n) ≡ n + (if d then 2 ^ 31 else 0)
    if_or true n h = bit_or-field_below 31 1 n h
    if_or false n h = omega arith

deleted_byte :
    (d : Bool) (n v : ℕ)
    → n < 2 ^ 31
    → v ≡ n + (if d then 2 ^ 31 else 0)
    → (v < 2 ^ 32) × (v % 2 ^ 31 ≡ n) × (not (bit_and (v / 2 ^ 24 % 256) 0x80 == 0) ≡ d)
deleted_byte d n v h e = ground (arith, bit_and-top_bit (v / 2 ^ 24 % 256))

-- The bytes of an entry, by the getters.
pub record ReadsBack (b : IndexBuilderV1) (it : Info) (e : List ℕ) : Type 0 where
  pub size : length e ≡ 20
  pub timestamp : decode_big_endian_uint48 e ≡ it.timestamp_seconds
  pub version : byte_at e 6 ≡ it.format_version
  pub name_length : byte_at e 7 ≡ length it.pack_blob_id
  pub name : decode_big_endian_uint32 (drop 8 e) ≡ name_offset b it
  pub offset : bit_and (decode_big_endian_uint32 (drop 12 e)) (2 ^ 31 - 1) ≡ it.pack_offset
  pub deleted : not (bit_and (byte_at e 12) 0x80 == 0) ≡ it.deleted
  pub packed_length : decode_big_endian_uint32 (drop 16 e) ≡ it.packed_length

-- What is written for an info whose fields version 1 can hold (Fits) reads back, getter by getter.
pub entry_bytes-ReadsBack :
    (k : ℕ) (b : IndexBuilderV1) (it : Info) → Fits k it → ReadsBack b it (entry_bytes b it)
unfolding entry_bytes put_uint64 put_uint32
entry_bytes-ReadsBack k b it f =
    let n = timestamp_and_flags it in
    let sum = flags_sum k it f in
    let v = packed_offset_and_deleted it in
    let d = deleted_byte it.deleted it.pack_offset v f.offset (offset_sum k it f) in
    let small : n < 2 ^ 64 = omega (arith, sum, f.timestamp, f.version, f.short_name) in
    record {
      size = refl;
      timestamp = decode48-put_uint64 n _ small ∙ omega (arith, sum, f.version, f.short_name);
      version = omega (arith, sum, f.version, f.short_name);
      name_length = omega (arith, sum, f.version, f.short_name);
      name = decode-put_uint32 (name_offset b it) _ (omega arith);
      offset =
          ap (λ o. bit_and o (2 ^ 31 - 1)) (decode-put_uint32 v _ d.0) ∙ (bit_and-mask 31 v ∙ d.1);
      deleted = d.2;
      packed_length = rw (append-nil) at (decode-put_uint32 it.packed_length [] f.packed_length);
    }
