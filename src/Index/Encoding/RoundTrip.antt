-- ===== src/Index/Encoding/RoundTrip.antt =====
-- The big-endian integers of repo/content/index/index_encode_util.go read back.
use Prim.Native.Nat.{bit_or}
use kopia.Prelude.{ℕ, ◌+◌, ◌*◌, ◌/◌, ◌%◌, ◌^◌, ◌<◌, ◌≡◌, refl, List, ◌++◌, ◌∙◌, arith}
use kopia.Prelude.Bits.{bit_or-field, or_add}
use kopia.Index.Encoding.{
  put_uint16, put_uint32, put_uint64, byte_at, decode_big_endian_uint16, decode_big_endian_uint32,
  decode_big_endian_uint48,
}

pub decode-put_uint16 :
    (v : ℕ) (rest : List ℕ) → v < 2 ^ 16 → decode_big_endian_uint16 (put_uint16 v ++ rest) ≡ v
unfolding decode_big_endian_uint16 put_uint16
decode-put_uint16 v rest h =
    rw (bit_or-field 8 (v / 2 ^ 8 % 256) (v % 256) (omega arith)) (omega (arith, h))

or_bytes2 : (a b : ℕ) → b < 256 → bit_or (a * 2 ^ 8) b ≡ a * 2 ^ 8 + b
or_bytes2 a b h = bit_or-field 8 a b h

or_bytes4 :
    (a b c d : ℕ)
    → b < 256
    → c < 256
    → d < 256
    → bit_or (bit_or (bit_or (a * 2 ^ 24) (b * 2 ^ 16)) (c * 2 ^ 8)) d
      ≡ a * 2 ^ 24 + b * 2 ^ 16 + c * 2 ^ 8 + d
or_bytes4 a b c d hb hc hd =
    rw
      (
        or_add 24 (a * 2 ^ 24) a (b * 2 ^ 16) refl (omega arith),
        or_add 16 (a * 2 ^ 24 + b * 2 ^ 16) (a * 2 ^ 8 + b) (c * 2 ^ 8) (omega arith) (omega arith),
      )
      (or_add 8 (a * 2 ^ 24 + b * 2 ^ 16 + c * 2 ^ 8) (a * 2 ^ 16 + b * 2 ^ 8 + c) d (omega arith)
        (omega arith))

pub decode-put_uint32 :
    (v : ℕ) (rest : List ℕ) → v < 2 ^ 32 → decode_big_endian_uint32 (put_uint32 v ++ rest) ≡ v
unfolding decode_big_endian_uint32 put_uint32
decode-put_uint32 v rest h =
    or_bytes4 (v / 2 ^ 24 % 256) (v / 2 ^ 16 % 256) (v / 2 ^ 8 % 256) (v % 256) (omega arith)
      (omega arith) (omega arith)
    ∙ omega (arith, h)

or_bytes6 :
    (a b c d e f : ℕ)
    → b < 256
    → c < 256
    → d < 256
    → e < 256
    → f < 256
    → bit_or
        (bit_or
          (bit_or (bit_or (bit_or (a * 2 ^ 40) (b * 2 ^ 32)) (c * 2 ^ 24)) (d * 2 ^ 16))
          (e * 2 ^ 8))
        f
      ≡ a * 2 ^ 40 + b * 2 ^ 32 + c * 2 ^ 24 + d * 2 ^ 16 + e * 2 ^ 8 + f
or_bytes6 a b c d e f hb hc hd he hf =
    let ab = a * 2 ^ 40 + b * 2 ^ 32 in
    let abc = ab + c * 2 ^ 24 in
    let abcd = abc + d * 2 ^ 16 in
    let abcde = abcd + e * 2 ^ 8 in
    rw
      (
        or_add 40 (a * 2 ^ 40) a (b * 2 ^ 32) refl (omega arith),
        or_add 32 ab (a * 2 ^ 8 + b) (c * 2 ^ 24) (omega arith) (omega arith),
        or_add 24 abc (a * 2 ^ 16 + b * 2 ^ 8 + c) (d * 2 ^ 16) (omega arith) (omega arith),
        or_add 16 abcd (a * 2 ^ 24 + b * 2 ^ 16 + c * 2 ^ 8 + d) (e * 2 ^ 8) (omega arith)
            (omega arith),
      )
      (or_add 8 abcde (a * 2 ^ 32 + b * 2 ^ 24 + c * 2 ^ 16 + d * 2 ^ 8 + e) f (omega arith)
        (omega arith))

pub decode48-put_uint64 :
    (v : ℕ) (rest : List ℕ)
    → v < 2 ^ 64
    → decode_big_endian_uint48 (put_uint64 v ++ rest) ≡ v / 2 ^ 16
unfolding decode_big_endian_uint48 put_uint64
decode48-put_uint64 v rest h =
    or_bytes6 (v / 2 ^ 56 % 256) (v / 2 ^ 48 % 256) (v / 2 ^ 40 % 256) (v / 2 ^ 32 % 256)
      (v / 2 ^ 24 % 256) (v / 2 ^ 16 % 256) (omega arith) (omega arith) (omega arith) (omega arith)
      (omega arith)
    ∙ omega (arith, h)

pub byte_at-put_uint64 :
    (v : ℕ) (rest : List ℕ)
    → (byte_at (put_uint64 v ++ rest) 6 ≡ v / 2 ^ 8 % 256)
      × (byte_at (put_uint64 v ++ rest) 7 ≡ v % 256)
unfolding put_uint64
byte_at-put_uint64 v rest = (refl, refl)
