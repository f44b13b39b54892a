-- ===== src/Checks/Ids.antt =====
-- The identifiers of repo/content/index and repo/object at concrete inputs.
use kopia.Prelude.{
  ◌⊎◌, ℕ, ◌≡◌, refl, true, false, not, ◌&&◌, inl, inr, List, [], ◌∷◌, ◌++◌, ok, arith, map,
  replicate,
}
use kopia.Index.ContentId
use kopia.Index.ContentId.{
  ContentId, compare_bytes, is_lt, contains, prefix_range, all_ids, all_prefixed_ids,
  all_non_prefixed_ids, has_prefix, is_empty, less, compare_prefix,
}
use kopia.Index.ContentId.Hex.{decode, to_lower}
use kopia.Index.ContentId.RoundTrip.{
  parse_id-to_string, to_string-parse_id, id_from_hash-to_string, AreParts, Made, Refused,
}
use kopia.Index.ContentId.Order.{
  less-to_string, compare_prefix-to_string, contains-prefix_range, ranges-has_prefix, starts_with,
}
use kopia.Object.Id
use kopia.Object.Id.{ObjectId}
use kopia.Object.Id.RoundTrip.{
  ObjectId-parse_id-to_string, parse_id-replicate, ids_from_strings-ids_to_strings,
}

-- "k0aff" and "10"
abbrev with_prefix : ContentId
with_prefix = record { prefix = b'k'; hash = 0x0a ∷ 0xff ∷ [] }

abbrev without_prefix : ContentId
without_prefix = record { prefix = 0; hash = 0x10 ∷ [] }

with_prefix-IsValid : ContentId.IsValid with_prefix
with_prefix-IsValid = record {
  prefix = inr refl;
  size = omega arith;
  bytes = omega arith;
  hash = λ e. absurd (omega arith);
}

without_prefix-IsValid : ContentId.IsValid without_prefix
without_prefix-IsValid = record {
  prefix = inl refl;
  size = omega arith;
  bytes = omega arith;
  hash = λ e. refl;
}

parse_id-to_string_example : ContentId.parse_id (ContentId.to_string with_prefix) ≡ ok with_prefix
parse_id-to_string_example = parse_id-to_string with_prefix with_prefix-IsValid

abbrev upper : List ℕ
upper = b'k' ∷ b'0' ∷ b'A' ∷ b'F' ∷ b'f' ∷ []

upper_parses : ContentId.parse_id upper ≡ ok with_prefix
unfolding ContentId.parse_id decode
upper_parses = refl

to_string-parse_id_example :
    ContentId.IsValid with_prefix × (ContentId.to_string with_prefix ≡ map to_lower upper)
to_string-parse_id_example = to_string-parse_id upper with_prefix upper_parses

id_from_hash_runs : ContentId.id_from_hash (b'k' ∷ []) (0x0a ∷ 0xff ∷ []) ≡ ok with_prefix
unfolding ContentId.id_from_hash ContentId.validate_single
id_from_hash_runs = refl

id_from_hash-to_string_example :
    (AreParts (b'k' ∷ []) (0x0a ∷ 0xff ∷ []) × Made (b'k' ∷ []) (0x0a ∷ 0xff ∷ []))
    ⊎ (¬ AreParts (b'k' ∷ []) (0x0a ∷ 0xff ∷ []) × Refused (b'k' ∷ []) (0x0a ∷ 0xff ∷ []))
id_from_hash-to_string_example = id_from_hash-to_string (b'k' ∷ []) (0x0a ∷ 0xff ∷ []) (omega arith)

less-to_string_example :
    less with_prefix without_prefix
    ≡ is_lt (compare_bytes (ContentId.to_string with_prefix) (ContentId.to_string without_prefix))
less-to_string_example =
    less-to_string with_prefix without_prefix with_prefix-IsValid without_prefix-IsValid

compare_prefix-to_string_example :
    compare_prefix with_prefix (b'k' ∷ [])
    ≡ compare_bytes (ContentId.to_string with_prefix) (b'k' ∷ [])
compare_prefix-to_string_example =
    compare_prefix-to_string with_prefix (b'k' ∷ []) with_prefix-IsValid

contains-prefix_range_example :
    contains (prefix_range (b'k' ∷ [])) with_prefix
    ≡ starts_with (ContentId.to_string with_prefix) (b'k' ∷ [])
contains-prefix_range_example = contains-prefix_range with_prefix (b'k' ∷ []) with_prefix-IsValid

ranges-has_prefix_example :
    (contains all_ids without_prefix ≡ true)
    × (contains all_prefixed_ids without_prefix ≡ has_prefix without_prefix)
    × (contains all_non_prefixed_ids without_prefix
        ≡ (not (has_prefix without_prefix) && not (is_empty without_prefix)))
ranges-has_prefix_example = ranges-has_prefix without_prefix without_prefix-IsValid

-- "IIk0aff"
abbrev indirect : ObjectId
indirect = record { cid = with_prefix; indirection = 2; compression = false }

indirect-IsValid : Id.IsValid indirect
indirect-IsValid = record {
  cid = with_prefix-IsValid;
  indirection = omega arith;
  direct = λ e. absurd (cc);
}

ObjectId-parse_id-to_string_example : Id.parse_id (Id.to_string indirect) ≡ ok indirect
ObjectId-parse_id-to_string_example = ObjectId-parse_id-to_string indirect indirect-IsValid

ids_from_strings-ids_to_strings_example :
    Id.ids_from_strings (Id.ids_to_strings (indirect ∷ indirect ∷ []))
    ≡ ok (indirect ∷ indirect ∷ [])
ids_from_strings-ids_to_strings_example =
    ids_from_strings-ids_to_strings (indirect ∷ indirect ∷ [])
      (indirect-IsValid, (indirect-IsValid, tt))

parse_id-replicate_example :
    Id.parse_id (replicate 256 b'I' ++ (b'Z' ∷ upper)) ≡ Id.parse_id (b'Z' ∷ upper)
parse_id-replicate_example = parse_id-replicate 256 (b'Z' ∷ upper) refl
