-- ===== src/Index/Encoding.antt =====
-- repo/content/index/index_encode_util.go, `safeSlice` of index.go, and the unsigned integers of
-- encoding/binary. A byte slice is the list of its bytes, with no capacity behind its length.
pub mod RoundTrip
use kopia.Prelude.{
  ℕ, ◌+◌, ◌*◌, ◌/◌, ◌%◌, ◌^◌, List, [], ◌∷◌, Option, none, some, length, take, drop, get_or, leb,
  if◌then◌else◌,
}
use Prim.Native.Nat.{bit_or}

-- binary.BigEndian.PutUint16
unfoldable pub put_uint16 : ℕ → List ℕ
put_uint16 v = v / 2 ^ 8 % 256 ∷ v % 256 ∷ []

-- binary.BigEndian.PutUint32
unfoldable pub put_uint32 : ℕ → List ℕ
put_uint32 v = v / 2 ^ 24 % 256 ∷ v / 2 ^ 16 % 256 ∷ v / 2 ^ 8 % 256 ∷ v % 256 ∷ []

-- binary.BigEndian.PutUint64
unfoldable pub put_uint64 : ℕ → List ℕ
put_uint64 v =
    v / 2 ^ 56 % 256
    ∷ v / 2 ^ 48 % 256
    ∷ v / 2 ^ 40 % 256
    ∷ v / 2 ^ 32 % 256
    ∷ v / 2 ^ 24 % 256
    ∷ v / 2 ^ 16 % 256
    ∷ v / 2 ^ 8 % 256
    ∷ v % 256
    ∷ []

-- the byte at an index; the functions below check the bounds first, and panic outside of them
abbrev pub byte_at : List ℕ → ℕ → ℕ
byte_at d i = get_or d i 0

-- decodeBigEndianUint16; also binary.BigEndian.Uint16
unfoldable pub decode_big_endian_uint16 : List ℕ → ℕ
decode_big_endian_uint16 d = bit_or (byte_at d 0 * 2 ^ 8) (byte_at d 1)

-- decodeBigEndianUint24
unfoldable pub decode_big_endian_uint24 : List ℕ → ℕ
decode_big_endian_uint24 d =
    bit_or (bit_or (byte_at d 0 * 2 ^ 16) (byte_at d 1 * 2 ^ 8)) (byte_at d 2)

-- decodeBigEndianUint32; also binary.BigEndian.Uint32
unfoldable pub decode_big_endian_uint32 : List ℕ → ℕ
decode_big_endian_uint32 d =
    bit_or (bit_or (bit_or (byte_at d 0 * 2 ^ 24) (byte_at d 1 * 2 ^ 16)) (byte_at d 2 * 2 ^ 8))
      (byte_at d 3)

-- decodeBigEndianUint48
unfoldable pub decode_big_endian_uint48 : List ℕ → ℕ
decode_big_endian_uint48 d =
    bit_or
      (bit_or
        (bit_or
          (bit_or (bit_or (byte_at d 0 * 2 ^ 40) (byte_at d 1 * 2 ^ 32)) (byte_at d 2 * 2 ^ 24))
          (byte_at d 3 * 2 ^ 16))
        (byte_at d 4 * 2 ^ 8))
      (byte_at d 5)

-- encodeBigEndianUint24
unfoldable pub encode_big_endian_uint24 : ℕ → List ℕ
encode_big_endian_uint24 v = v / 2 ^ 16 % 256 ∷ v / 2 ^ 8 % 256 ∷ v % 256 ∷ []

-- safeSlice(data, offset, length); `none` is the error
unfoldable pub safe_slice : List ℕ → ℕ → ℕ → Option (List ℕ)
safe_slice bytes offset n =
    if leb (offset + n) (length bytes) then some (take n (drop offset bytes)) else none
