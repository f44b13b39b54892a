-- ===== src/Index/ContentId/Order.antt =====
-- `less`, `comparePrefix` and `Contains` of repo/content/index/id.go and id_range.go against the order
-- of the strings.
use kopia.Prelude.{
  ℕ, ◌/◌, ◌%◌, ◌≤◌, ◌<◌, ◌≡◌, refl, true, false, not, ◌&&◌, ◌⊎◌, Bool, List, [], ◌∷◌, ◌++◌, length,
  arith, All, compare, Ordering, ◌==◌,
}
use kopia.Index.ContentId.{
  ContentId, IsValid, is_prefix_char, to_string, compare_bytes, is_lt, less, is_empty,
  compare_prefix, contains, prefix_range, max_id_character_plus1, all_ids, all_prefixed_ids,
  all_non_prefixed_ids, has_prefix,
}
use kopia.Index.ContentId.Hex.{encode, hex_digit}

-- The digits are in the order of their values, below 'g', and not empty.
compare-hex_digit : (m n : ℕ) → m < 16 → n < 16 → compare (hex_digit m) (hex_digit n) ≡ compare m n
unfolding hex_digit
compare-hex_digit m n h k = ground arith

hex_digit_bounds : (n : ℕ) → n < 16 → (b'0' ≤ hex_digit n) × (hex_digit n ≤ b'f')
unfolding hex_digit
hex_digit_bounds n h = ground arith

-- One byte is compared as its two digits are.
compare_pair :
    (a b : ℕ) (s t : List ℕ)
    → a < 256
    → b < 256
    → compare_bytes
        (hex_digit (a / 16) ∷ hex_digit (a % 16) ∷ s)
        (hex_digit (b / 16) ∷ hex_digit (b % 16) ∷ t)
      ≡ elim (compare a b) [
        | Ordering.lt ↦ Ordering.lt
        | Ordering.eq ↦ compare_bytes s t
        | Ordering.gt ↦ Ordering.gt
      ]
unfolding compare_bytes
compare_pair a b s t h k =
    ground (arith, compare-hex_digit (a / 16) (b / 16), compare-hex_digit (a % 16) (b % 16))

-- Hexadecimal text is in the order of the bytes.
compare_bytes-encode :
    (s t : List ℕ)
    → All (λ b. b < 256) s
    → All (λ b. b < 256) t
    → compare_bytes (encode s) (encode t) ≡ compare_bytes s t
unfolding compare_bytes encode
compare_bytes-encode [] [] h k = refl
compare_bytes-encode [] (b ∷ t) h k = refl
compare_bytes-encode (a ∷ s) [] h k = refl
compare_bytes-encode (a ∷ s) (b ∷ t) h k =
    ground (arith, compare_pair a b (encode s) (encode t), compare_bytes-encode s t)

compare_bytes_prefixed : (p : ℕ) (s t : List ℕ) → compare_bytes (p ∷ s) (p ∷ t) ≡ compare_bytes s t
unfolding compare_bytes
compare_bytes_prefixed p s t = ground arith

-- Hexadecimal text comes before every text that starts behind 'f'.
encode_below :
    (s t : List ℕ) (p : ℕ)
    → All (λ b. b < 256) s
    → b'f' < p
    → (compare_bytes (encode s) (p ∷ t) ≡ Ordering.lt)
      × (compare_bytes (p ∷ t) (encode s) ≡ Ordering.gt)
unfolding compare_bytes encode
encode_below [] t p h k = (refl, refl)
encode_below (b ∷ s) t p h k = ground (arith, hex_digit_bounds (b / 16))

-- The order of IDs is the order of their strings.
pub less-to_string :
    (i j : ContentId)
    → IsValid i
    → IsValid j
    → less i j ≡ is_lt (compare_bytes (to_string i) (to_string j))
unfolding less to_string compare_bytes
less-to_string i j v w = ground (
  arith,
  v.prefix,
  w.prefix,
  compare_bytes-encode i.hash j.hash v.bytes w.bytes,
  encode_below i.hash (encode j.hash) j.prefix v.bytes,
  encode_below j.hash (encode i.hash) i.prefix w.bytes,
)

compare_empty :
    (p : ℕ) (h : List ℕ)
    → (p ≡ 0) ⊎ (is_prefix_char p ≡ true)
    → (length h ≡ 0 → p ≡ 0)
    → compare_prefix (record { prefix = p; hash = h }) []
      ≡ compare_bytes (to_string (record { prefix = p; hash = h })) []
unfolding compare_prefix compare_bytes to_string is_empty encode
compare_empty p [] c e = ground (arith, c, e)
compare_empty p (b ∷ h) c e = ground (arith, c)

-- comparePrefix is the comparison of the string, in an optimized manner.
pub compare_prefix-to_string :
    (i : ContentId) (p : List ℕ) → IsValid i → compare_prefix i p ≡ compare_bytes (to_string i) p
unfolding compare_prefix
compare_prefix-to_string i [] v = compare_empty i.prefix i.hash v.prefix v.hash
compare_prefix-to_string i (c ∷ p) v = refl

-- does the text begin with the prefix?
pub starts_with : List ℕ → List ℕ → Bool
starts_with s [] = true
starts_with [] (c ∷ p) = false
starts_with (a ∷ s) (c ∷ p) = a == c && starts_with s p

between_prefix :
    (s p : List ℕ)
    → All (λ c. c < max_id_character_plus1) s
    → (not (is_lt (compare_bytes s p))
        && is_lt (compare_bytes s (p ++ (max_id_character_plus1 ∷ []))))
      ≡ starts_with s p
unfolding compare_bytes starts_with
between_prefix [] [] h = refl
between_prefix [] (c ∷ p) h = refl
between_prefix (a ∷ s) [] h = ground arith
between_prefix (a ∷ s) (c ∷ p) h = ground (arith, between_prefix s p)

encode-chars :
    (s : List ℕ) → All (λ b. b < 256) s → All (λ c. c < max_id_character_plus1) (encode s)
unfolding encode
encode-chars [] h = tt
encode-chars (b ∷ s) h =
    let hi = hex_digit_bounds (b / 16) (omega arith) in
    let lo = hex_digit_bounds (b % 16) (omega arith) in
    (omega arith, (omega arith, encode-chars s h.1))

to_string-chars : (i : ContentId) → IsValid i → All (λ c. c < max_id_character_plus1) (to_string i)
unfolding to_string
to_string-chars i v = ground (arith, v.prefix, encode-chars i.hash v.bytes)

-- PrefixRange(prefix) contains the IDs whose string begins with the prefix, and no other.
pub contains-prefix_range :
    (i : ContentId) (p : List ℕ)
    → IsValid i
    → contains (prefix_range p) i ≡ starts_with (to_string i) p
unfolding contains prefix_range
contains-prefix_range i p v =
    rw
      (
        compare_prefix-to_string i p v,
        compare_prefix-to_string i (p ++ (max_id_character_plus1 ∷ [])) v,
      )
      (between_prefix (to_string i) p (to_string-chars i v))

ranges_text :
    (p : ℕ) (h : List ℕ)
    → (p ≡ 0) ⊎ (is_prefix_char p ≡ true)
    → All (λ b. b < 256) h
    → (length h ≡ 0 → p ≡ 0)
    → let i : ContentId = record { prefix = p; hash = h } in
      (contains all_ids i ≡ true)
      × (contains all_prefixed_ids i ≡ has_prefix i)
      × (contains all_non_prefixed_ids i ≡ (not (has_prefix i) && not (is_empty i)))
unfolding contains compare_prefix has_prefix is_empty to_string compare_bytes encode
ranges_text p [] c bytes e = ground (arith, c, e)
ranges_text p (b ∷ h) c bytes e = ground (arith, c, hex_digit_bounds (b / 16))

-- AllIDs contains every ID, AllPrefixedIDs those with a prefix, and AllNonPrefixedIDs those without
-- one, but for the empty ID.
pub ranges-has_prefix :
    (i : ContentId)
    → IsValid i
    → (contains all_ids i ≡ true)
      × (contains all_prefixed_ids i ≡ has_prefix i)
      × (contains all_non_prefixed_ids i ≡ (not (has_prefix i) && not (is_empty i)))
ranges-has_prefix i v = ranges_text i.prefix i.hash v.prefix v.bytes v.hash
