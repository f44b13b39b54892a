-- ===== src/Index/ContentId/Hex.antt =====
-- encoding/hex, as repo/content/index/id.go uses it: two lower-case digits to a byte, and digits of
-- either case back to bytes.
use kopia.Prelude.{
  ℕ, ◌+◌, ◌-◌, ◌*◌, ◌/◌, ◌%◌, ◌<◌, ◌≡◌, refl, ◌&&◌, List, [], ◌∷◌, Option, none, some, length, leb,
  if◌then◌else◌, arith, All, map,
}

-- the digit of a number below 16
unfoldable pub hex_digit : ℕ → ℕ
hex_digit n = if leb n 9 then b'0' + n else b'a' + (n - 10)

-- fromHexChar
unfoldable pub from_hex_char : ℕ → Option ℕ
from_hex_char c =
    if leb b'0' c && leb c b'9'
    then some (c - b'0')
    else if leb b'a' c && leb c b'f'
    then some (c - b'a' + 10)
    else if leb b'A' c && leb c b'F'
    then some (c - b'A' + 10)
    else none

-- hex.EncodeToString
unfoldable pub encode : List ℕ → List ℕ
unfolding hex_digit
encode [] = []
encode (b ∷ bs) = hex_digit (b / 16) ∷ hex_digit (b % 16) ∷ encode bs

abbrev join_digits : Option ℕ → Option ℕ → Option (List ℕ) → Option (List ℕ)
join_digits (some h) (some l) (some bs) = some ((h * 16 + l) ∷ bs)
join_digits _ _ _ = none

-- hex.Decode, of all bytes or not at all
unfoldable pub decode : List ℕ → Option (List ℕ)
unfolding from_hex_char
decode [] = some []
decode (h ∷ []) = none
decode (h ∷ l ∷ s) = join_digits (from_hex_char h) (from_hex_char l) (decode s)

pub from_hex_char-hex_digit : (n : ℕ) → n < 16 → from_hex_char (hex_digit n) ≡ some n
unfolding from_hex_char hex_digit
from_hex_char-hex_digit n h = ground arith

pub decode-encode : (bs : List ℕ) → All (λ b. b < 256) bs → decode (encode bs) ≡ some bs
unfolding decode encode
decode-encode [] h = refl
decode-encode (b ∷ bs) h =
    ground
      (arith, from_hex_char-hex_digit (b / 16), from_hex_char-hex_digit (b % 16), decode-encode bs)

pub length-encode : (bs : List ℕ) → length (encode bs) ≡ 2 * length bs
unfolding encode
length-encode [] = omega arith
length-encode (b ∷ bs) = omega (arith, length-encode bs)

-- a digit as `encode` writes it
unfoldable pub to_lower : ℕ → ℕ
to_lower c = if leb b'A' c && leb c b'F' then c + 32 else c

pub hex_digit-from_hex_char :
    (c n : ℕ) → from_hex_char c ≡ some n → (n < 16) × (hex_digit n ≡ to_lower c)
unfolding from_hex_char hex_digit to_lower
hex_digit-from_hex_char c n e = ground arith

join_digits-some :
    (x y : Option ℕ) (z : Option (List ℕ)) (bs : List ℕ)
    → join_digits x y z ≡ some bs
    → (h : ℕ) × (l : ℕ) × (t : List ℕ) × (x ≡ some h)
      × (y ≡ some l)
      × (z ≡ some t)
      × (bs ≡ (h * 16 + l) ∷ t)
join_digits-some (some h) (some l) (some t) bs e = (h, l, t, refl, refl, refl, ground arith)
join_digits-some none y z bs e = absurd (cc)
join_digits-some (some h) none z bs e = absurd (cc)
join_digits-some (some h) (some l) none bs e = absurd (cc)

encode_pair :
    (a b h l : ℕ) (s t : List ℕ)
    → (h < 16) × (hex_digit h ≡ to_lower a)
    → (l < 16) × (hex_digit l ≡ to_lower b)
    → encode t ≡ map to_lower s
    → encode ((h * 16 + l) ∷ t) ≡ to_lower a ∷ to_lower b ∷ map to_lower s
unfolding encode
encode_pair a b h l s t p q e =
    let hi : (h * 16 + l) / 16 ≡ h = omega arith in
    let lo : (h * 16 + l) % 16 ≡ l = omega arith in cc (hi, lo)

-- What decodes is the text of the bytes, up to the case of its digits.
pub encode-decode :
    (s bs : List ℕ) → decode s ≡ some bs → (encode bs ≡ map to_lower s) × All (λ b. b < 256) bs
unfolding decode
encode-decode [] bs e = let z : bs ≡ [] = ground arith in rw z (unfold encode in (refl, tt))
encode-decode (a ∷ []) bs e = absurd (cc)
encode-decode (a ∷ b ∷ s) bs e =
    let (h, l, t, ea, eb, et, ez) =
      join_digits-some (from_hex_char a) (from_hex_char b) (decode s) bs e in
    let hi = hex_digit-from_hex_char a h ea in
    let lo = hex_digit-from_hex_char b l eb in
    let rest = encode-decode s t et in
    rw ez (encode_pair a b h l s t hi lo rest.0, (omega arith, rest.1))
