-- ===== src/Index/ContentId/RoundTrip.antt =====
-- ParseID, String, IDFromHash and the byte form of repo/content/index undo one another.
use kopia.Prelude.{
  ℕ, ◌%◌, ◌≤◌, ◌<◌, ◌≡◌, refl, true, inl, inr, List, [], ◌∷◌, ◌++◌, length, arith, All, ok, map,
  append_assoc, Option-cases, Bool-cases, ap, length-map, ◌==◌, ltb, ◌⊎◌, err,
}
use kopia.Index.ContentId.{
  ContentId, IsValid, empty_id, is_prefix_char, to_string, append, parse_id, parse_hash,
  id_from_hash, IdError, content_id_to_bytes, bytes_to_content_id, max_hash_size, validate_single,
}
use kopia.Index.ContentId.Hex.{
  encode, decode, decode-encode, length-encode, encode-decode, to_lower,
}

parse_hash-encode :
    (p : ℕ) (h : List ℕ)
    → 0 < length h
    → length h ≤ max_hash_size
    → All (λ b. b < 256) h
    → parse_hash p (encode h) ≡ ok (record { prefix = p; hash = h })
unfolding parse_hash
parse_hash-encode p h pos le bytes = rw (decode-encode h bytes) (ground (arith, length-encode h))

parse_plain :
    (h : List ℕ)
    → length h ≤ max_hash_size
    → All (λ b. b < 256) h
    → parse_id (encode h) ≡ ok (record { prefix = 0; hash = h })
unfolding parse_id encode
parse_plain [] le bytes = refl
parse_plain (b ∷ h) le bytes =
    ground (arith, length-encode h, parse_hash-encode 0 (b ∷ h) (omega arith) le bytes)

parse_prefixed :
    (p : ℕ) (h : List ℕ)
    → is_prefix_char p ≡ true
    → 0 < length h
    → length h ≤ max_hash_size
    → All (λ b. b < 256) h
    → parse_id (p ∷ encode h) ≡ ok (record { prefix = p; hash = h })
unfolding parse_id
parse_prefixed p h c pos le bytes =
    ground (arith, length-encode h, parse_hash-encode p h pos le bytes)

-- Every valid ID is the result of ParseID on its String.
pub parse_id-to_string : (i : ContentId) → IsValid i → parse_id (to_string i) ≡ ok i
unfolding to_string
parse_id-to_string i v = elim v.prefix [
  | inl p ↦ zero_prefix i.prefix i.hash p v.size v.bytes
  | inr p ↦ rw p (parse_prefixed i.prefix i.hash p (ground (arith, v.hash)) v.size v.bytes)
]
  where
    zero_prefix :
        (p : ℕ) (h : List ℕ)
        → p ≡ 0
        → length h ≤ max_hash_size
        → All (λ b. b < 256) h
        → parse_id (to_string (record { prefix = p; hash = h }))
          ≡ ok (record { prefix = p; hash = h })
    zero_prefix p h e le bytes = rw e (parse_plain h le bytes)

parse_hash-valid :
    (p : ℕ) (s : List ℕ) (i : ContentId)
    → parse_hash p s ≡ ok i
    → (i.prefix ≡ p)
      × (0 < length i.hash)
      × (length i.hash ≤ max_hash_size)
      × (encode i.hash ≡ map to_lower s)
      × All (λ b. b < 256) i.hash
unfolding parse_hash
parse_hash-valid p s i e = elim (Option-cases (decode s)) [
  | inl n ↦ absurd (ground arith)
  | inr (h, d) ↦
      let text = encode-decode s h d in
      let found : (i ≡ record { prefix = p; hash = h })
          × (0 < length h)
          × (length h ≤ max_hash_size) =
        ground (arith, length-encode h, ap length text.0, length-map s to_lower) in
      rw found.0 (refl, found.1, found.2, text.0, text.1)
]

-- The text of a hash that stands behind a prefix, and of one that stands alone.
prefixed_text :
    (c : ℕ) (s : List ℕ) (i : ContentId)
    → is_prefix_char c ≡ true
    → parse_hash c s ≡ ok i
    → IsValid i × (to_string i ≡ to_lower c ∷ map to_lower s)
unfolding to_string to_lower
prefixed_text c s i p e =
    let (ep, pos, le, text, bytes) = parse_hash-valid c s i e in
    (
      record { prefix = inr (rw ep p); size = le; bytes = bytes; hash = λ z. absurd (omega arith) },
      rw (ep, text, p) (ground arith),
    )

plain_text :
    (s : List ℕ) (i : ContentId)
    → parse_hash 0 s ≡ ok i
    → IsValid i × (to_string i ≡ map to_lower s)
unfolding to_string
plain_text s i e =
    let (ep, pos, le, text, bytes) = parse_hash-valid 0 s i e in
    (record { prefix = inl ep; size = le; bytes = bytes; hash = λ z. ep }, rw (ep, text) refl)

empty-IsValid : IsValid empty_id
empty-IsValid = record { prefix = inl refl; size = omega arith; bytes = tt; hash = λ z. refl }

-- An ID that ParseID returns is valid, and its String is the text, with the digits in lower case.
pub to_string-parse_id :
    (s : List ℕ) (i : ContentId) → parse_id s ≡ ok i → IsValid i × (to_string i ≡ map to_lower s)
unfolding parse_id
to_string-parse_id [] i e =
    let z : i ≡ empty_id = ground arith in rw z (empty-IsValid, unfold to_string encode in refl)
to_string-parse_id (c ∷ s) i e = elim (Bool-cases (length (c ∷ s) % 2 == 1)) [
  | inl odd ↦ elim (Bool-cases (is_prefix_char c)) [
    | inl p ↦ prefixed_text c s i p (ground arith)
    | inr p ↦ absurd (ground arith)
  ]
  | inr even ↦ plain_text (c ∷ s) i (ground arith)
]

-- Append writes the bytes of String behind what is there.
pub append-to_string :
    (i : ContentId) (out : List ℕ) → IsValid i → append i out ≡ out ++ to_string i
unfolding append to_string
append-to_string i out v = ground (arith, append_assoc out (i.prefix ∷ []) (encode i.hash))

-- The byte form of an index entry gives the ID back.
pub bytes_to_content_id-content_id_to_bytes :
    (i : ContentId) → bytes_to_content_id (content_id_to_bytes [] i) ≡ i
unfolding bytes_to_content_id content_id_to_bytes
bytes_to_content_id-content_id_to_bytes i = refl

-- what IDFromHash takes: no prefix or one allowed character, and a hash of 1 to 32 bytes
pub record AreParts (prefix hash : List ℕ) : Type 0 where
  pub short : length prefix ≤ 1
  pub allowed : All (λ c. is_prefix_char c ≡ true) prefix
  pub some_bytes : 0 < length hash
  pub few_bytes : length hash ≤ max_hash_size

-- the ID that is made of parts
abbrev pub Made : List ℕ → List ℕ → Type 0
Made prefix hash =
    (i : ContentId) × (id_from_hash prefix hash ≡ ok i)
    × IsValid i
    × (to_string i ≡ prefix ++ encode hash)

abbrev pub Refused : List ℕ → List ℕ → Type 0
Refused prefix hash = (e : IdError) × (id_from_hash prefix hash ≡ err e)

too_long : (prefix hash : List ℕ) → max_hash_size < length hash → Refused prefix hash
unfolding id_from_hash
too_long prefix hash h = (IdError.hash_too_long, ground (arith, h))

too_short : (prefix hash : List ℕ) → length hash ≡ 0 → Refused prefix hash
unfolding id_from_hash
too_short prefix hash h = (IdError.hash_too_short, ground (arith, h))

made :
    (prefix hash : List ℕ)
    → All (λ b. b < 256) hash
    → 0 < length hash
    → length hash ≤ max_hash_size
    → (AreParts prefix hash × Made prefix hash) ⊎ (¬ AreParts prefix hash × Refused prefix hash)
unfolding id_from_hash validate_single to_string
made [] hash bytes pos le = inl (
  record { short = omega arith; allowed = tt; some_bytes = pos; few_bytes = le },
  (
    record { prefix = 0; hash = hash },
    ground (arith, pos, le),
    record { prefix = inl refl; size = le; bytes = bytes; hash = λ z. refl },
    refl,
  ),
)
made (p ∷ []) hash bytes pos le = elim (Bool-cases (is_prefix_char p)) [
  | inl h ↦ inl (
    record { short = omega arith; allowed = (h, tt); some_bytes = pos; few_bytes = le },
    (
      record { prefix = p; hash = hash },
      ground (arith, pos, le, h),
      record {
        prefix = inr h;
        size = le;
        bytes = bytes;
        hash = λ z. absurd (omega (arith, z, pos));
      },
      rw h refl,
    ),
  )
  | inr h ↦ inr (
    λ a. absurd (ground (arith, h, a.allowed.0)),
    (IdError.invalid_prefix, ground (arith, pos, le, h)),
  )
]
made (p ∷ q ∷ r) hash bytes pos le =
    inr (λ a. absurd (omega (arith, a.short)), (IdError.invalid_prefix, ground (arith, pos, le)))

-- IDFromHash, of bytes below 256, succeeds exactly with no prefix or one allowed character and a hash of 1
-- to 32 bytes; the ID is then valid, and its String is the prefix and the hash in hexadecimal. Any other
-- parts are refused with an error.
pub id_from_hash-to_string :
    (prefix hash : List ℕ)
    → All (λ b. b < 256) hash
    → (AreParts prefix hash × Made prefix hash) ⊎ (¬ AreParts prefix hash × Refused prefix hash)
id_from_hash-to_string prefix hash bytes = elim (Bool-cases (ltb max_hash_size (length hash))) [
  | inl h ↦
      let long : max_hash_size < length hash = ground (arith, h) in
      inr (λ a. omega (arith, a.few_bytes, long), too_long prefix hash long)
  | inr h ↦ elim (Bool-cases (length hash == 0)) [
    | inl z ↦
        let none_ : length hash ≡ 0 = ground (arith, z) in
        inr (λ a. omega (arith, a.some_bytes, none_), too_short prefix hash none_)
    | inr z ↦ made prefix hash bytes (ground (arith, z)) (ground (arith, h))
  ]
]
