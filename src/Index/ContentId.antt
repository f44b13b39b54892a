-- ===== src/Index/ContentId.antt =====
-- repo/content/index/id.go, id_range.go and content_id_to_bytes.go: content identifiers.
-- A string is the list of its bytes. An ID keeps `data[0:idLen]` as `hash`: the bytes of `data` behind
-- idLen are zero in every ID that the package makes, so two IDs are equal if these two fields are.
pub mod Hex
pub mod RoundTrip
pub mod Order
use Prim.Native.Nat.{compare, Ordering}
use kopia.Prelude.{
  ℕ, ◌+◌, ◌*◌, ◌%◌, Bool, true, false, not, ◌&&◌, ◌||◌, List, [], ◌∷◌, ◌++◌, Option, none, some,
  length, take, ltb, leb, ◌==◌, if◌then◌else◌, Result, ok, err, map_err, ◌>>=◌, ◌>>◌, ◌≤◌, ◌<◌, ◌≡◌,
  ◌⊎◌, All,
}
use kopia.Index.ContentId.Hex.{encode, decode}

-- hashing.MaxHashSize
abbrev pub max_hash_size : ℕ
max_hash_size = 32

pub record ContentId : Type 0 where
  pub prefix : ℕ
  pub hash : List ℕ

abbrev pub empty_id : ContentId
empty_id = record { prefix = 0; hash = [] }

pub data IdError : Type 0 where
  invalid_prefix hash_too_long hash_too_short invalid_hash id_too_short : IdError

-- 'g' <= c && c <= 'z'
abbrev pub is_prefix_char : ℕ → Bool
is_prefix_char c = leb b'g' c && leb c b'z'

unfoldable pub validate_single : List ℕ → Result IdError (Unit {0})
validate_single [] = ok tt
validate_single (c ∷ []) = if is_prefix_char c then ok tt else err invalid_prefix
validate_single (c ∷ d ∷ p) = err invalid_prefix

-- prefixStrings[i.prefix]
abbrev pub prefix_string : ContentId → List ℕ
prefix_string i = if is_prefix_char i.prefix then i.prefix ∷ [] else []

-- String()
unfoldable pub to_string : ContentId → List ℕ
to_string i = prefix_string i ++ encode i.hash

-- Append(out)
unfoldable pub append : ContentId → List ℕ → List ℕ
append i out = (if not (i.prefix == 0) then out ++ (i.prefix ∷ []) else out) ++ encode i.hash

-- bytes.Compare and strings.Compare
unfoldable pub compare_bytes : List ℕ → List ℕ → Ordering
compare_bytes [] [] = Ordering.eq
compare_bytes [] (b ∷ bs) = Ordering.lt
compare_bytes (a ∷ as_) [] = Ordering.gt
compare_bytes (a ∷ as_) (b ∷ bs) =
    let rest = compare_bytes as_ bs in
    elim (compare a b) [
      | Ordering.lt ↦ Ordering.lt
      | Ordering.eq ↦ rest
      | Ordering.gt ↦ Ordering.gt
    ]

abbrev pub is_lt : Ordering → Bool
is_lt Ordering.lt = true
is_lt _ = false

-- less(other)
unfoldable pub less : ContentId → ContentId → Bool
less i other =
    if not (i.prefix == other.prefix)
    then (if other.prefix == 0 then false else ltb i.prefix other.prefix)
    else is_lt (compare_bytes i.hash other.hash)

-- i == EmptyID
unfoldable pub is_empty : ContentId → Bool
is_empty i = i.prefix == 0 && length i.hash == 0

-- comparePrefix(p)
unfoldable pub compare_prefix : ContentId → List ℕ → Ordering
compare_prefix i [] = if is_empty i then Ordering.eq else Ordering.gt
compare_prefix i (c ∷ p) = compare_bytes (to_string i) (c ∷ p)

unfoldable pub has_prefix : ContentId → Bool
has_prefix i = not (i.prefix == 0)

abbrev pub first_or_zero : List ℕ → ℕ
first_or_zero [] = 0
first_or_zero (c ∷ p) = c

-- IDFromHash
unfoldable pub id_from_hash : List ℕ → List ℕ → Result IdError ContentId
id_from_hash prefix hash =
    if ltb max_hash_size (length hash)
    then err hash_too_long
    else if length hash == 0
    then err hash_too_short
    else (do validate_single prefix; ok (record { prefix = first_or_zero prefix; hash = hash }))

-- The part of ParseID behind the prefix.
unfoldable pub parse_hash : ℕ → List ℕ → Result IdError ContentId
parse_hash prefix s =
    if ltb (2 * max_hash_size) (length s) then err hash_too_long else elim (decode s) [
      | none ↦ err invalid_hash
      | some hash ↦
          if length hash == 0
          then err id_too_short
          else ok (record { prefix = prefix; hash = hash })
    ]

-- ParseID
unfoldable pub parse_id : List ℕ → Result IdError ContentId
unfolding parse_hash
parse_id [] = ok empty_id
parse_id (c ∷ s) =
    if length (c ∷ s) % 2 == 1
    then (if ltb c b'g' || ltb b'z' c then err invalid_prefix else parse_hash c s)
    else parse_hash 0 (c ∷ s)

-- contentIDToBytes(output, c)
unfoldable pub content_id_to_bytes : List ℕ → ContentId → List ℕ
content_id_to_bytes output c = (output ++ (c.prefix ∷ [])) ++ c.hash

-- bytesToContentID(b)
unfoldable pub bytes_to_content_id : List ℕ → ContentId
bytes_to_content_id [] = empty_id
bytes_to_content_id (p ∷ h) = record { prefix = p; hash = h }

-- IDRange, from start_id (inclusive) to end_id (exclusive)
pub record IdRange : Type 0 where
  pub start_id : List ℕ
  pub end_id : List ℕ

-- Contains(id)
unfoldable pub contains : IdRange → ContentId → Bool
unfolding compare_prefix
contains r id = not (is_lt (compare_prefix id r.start_id)) && is_lt (compare_prefix id r.end_id)

-- maxIDCharacterPlus1
abbrev pub max_id_character_plus1 : ℕ
max_id_character_plus1 = 0x7b

-- PrefixRange(prefix)
unfoldable pub prefix_range : List ℕ → IdRange
prefix_range prefix = record { start_id = prefix; end_id = prefix ++ (max_id_character_plus1 ∷ []) }

-- AllIDs, AllPrefixedIDs and AllNonPrefixedIDs
abbrev pub all_ids : IdRange
all_ids = record { start_id = []; end_id = max_id_character_plus1 ∷ [] }

abbrev pub all_prefixed_ids : IdRange
all_prefixed_ids = record { start_id = b'g' ∷ []; end_id = max_id_character_plus1 ∷ [] }

abbrev pub all_non_prefixed_ids : IdRange
all_non_prefixed_ids = record { start_id = b'0' ∷ []; end_id = b'g' ∷ [] }

-- The IDs that IDFromHash and ParseID make.
pub record IsValid (i : ContentId) : Type 0 where
  pub prefix : (i.prefix ≡ 0) ⊎ (is_prefix_char i.prefix ≡ true)
  pub size : length i.hash ≤ max_hash_size
  pub bytes : All (λ b. b < 256) i.hash
  -- only the empty ID has no hash
  pub hash : length i.hash ≡ 0 → i.prefix ≡ 0
