-- ===== src/Object/Id.antt =====
-- repo/object/objectid.go and indirect.go: object identifiers, and the entries of an indirect object.
-- A string is the list of its bytes.
pub mod RoundTrip
use kopia.Prelude.{
  ℕ, zero, suc, ◌+◌, ◌-◌, ◌%◌, ◌<◌, ◌≡◌, Bool, true, false, ◌&&◌, List, [], ◌∷◌, ◌++◌, replicate,
  ltb, ◌==◌, if◌then◌else◌, Result, ok, err, map_err, ◌>>=◌, ◌>>◌, map,
}
use kopia.Index.ContentId
use kopia.Index.ContentId.{ContentId, IdError, empty_id}

pub record ObjectId : Type 0 where
  pub cid : ContentId
  pub indirection : ℕ
  pub compression : Bool

-- EmptyID
abbrev pub empty_object_id : ObjectId
empty_object_id = record { cid = empty_id; indirection = 0; compression = false }

pub data ObjectIdError : Type 0 where
  compressed_and_indirect : ObjectIdError
  malformed_content_id : IdError → ObjectIdError

-- String()
unfoldable pub to_string : ObjectId → List ℕ
to_string i =
    replicate i.indirection b'I'
    ++ ((if i.compression then b'Z' ∷ [] else []) ++ ContentId.to_string i.cid)

-- `for j := 0; j < int(i.indirection); j++ { out = append(out, 'I') }`
unfoldable pub append_indirection : ℕ → List ℕ → List ℕ
append_indirection zero out = out
append_indirection (suc n) out = append_indirection n (out ++ (b'I' ∷ []))

-- Append(out)
unfoldable pub append : ObjectId → List ℕ → List ℕ
unfolding append_indirection
append i out =
    let out1 = append_indirection i.indirection out in
    let out2 = (if i.compression then out1 ++ (b'Z' ∷ []) else out1) in ContentId.append i.cid out2

-- IndexObjectID(): the ID of the underlying index object of an indirect object
unfoldable pub index_object_id : ObjectId → ObjectId × Bool
index_object_id i =
    if ltb 0 i.indirection then (record i { indirection = i.indirection - 1 }, true) else (i, false)

-- ContentID(): the content, whether it is compressed, and whether the object is direct
unfoldable pub content_id : ObjectId → ContentId × Bool × Bool
content_id i =
    if ltb 0 i.indirection then (empty_id, false, false) else (i.cid, i.compression, true)

-- DirectObjectID
abbrev pub direct_object_id : ContentId → ObjectId
direct_object_id cid = record { cid = cid; indirection = 0; compression = false }

-- Compressed
abbrev pub compressed : ObjectId → ObjectId
compressed i = record i { compression = true }

-- IndirectObjectID; the field is a byte
abbrev pub indirect_object_id : ObjectId → ObjectId
indirect_object_id i = record i { indirection = (i.indirection + 1) % 256 }

-- `for len(s) > 0 && s[0] == 'I'`: the count, a byte, and what follows
unfoldable pub parse_indirection : ℕ → List ℕ → ℕ × List ℕ
parse_indirection n [] = (n, [])
parse_indirection n (c ∷ s) =
    let rest = parse_indirection ((n + 1) % 256) s in if c == b'I' then rest else (n, c ∷ s)

-- `if len(s) > 0 && s[0] == c`: whether the character was there, and what follows
unfoldable pub skip_char : ℕ → List ℕ → Bool × List ℕ
skip_char c [] = (false, [])
skip_char c (d ∷ s) = if d == c then (true, s) else (false, d ∷ s)

-- ParseID
unfoldable pub parse_id : List ℕ → Result ObjectIdError ObjectId
parse_id s =
    let (indirection, s1) = parse_indirection 0 s in
    let (compression, s2) = skip_char b'Z' s1 in
    let (_, s3) = skip_char b'D' s2 in
    if ltb 0 indirection && compression then err compressed_and_indirect else (do
      cid ← map_err malformed_content_id (ContentId.parse_id s3)
      ok (record { cid = cid; indirection = indirection; compression = compression }))

-- IDsFromStrings
unfoldable pub ids_from_strings : List (List ℕ) → Result ObjectIdError (List ObjectId)
ids_from_strings [] = ok []
ids_from_strings (v ∷ vs) = do id ← parse_id v; ids ← ids_from_strings vs; ok (id ∷ ids)

-- IDsToStrings
unfoldable pub ids_to_strings : List ObjectId → List (List ℕ)
ids_to_strings = map to_string

-- IndirectObjectEntry
pub record Entry : Type 0 where
  pub start : ℕ
  pub length : ℕ
  pub object : ObjectId

-- endOffset()
abbrev pub end_offset : Entry → ℕ
end_offset e = e.start + e.length

-- The IDs that the writer makes: only a direct object is compressed.
pub record IsValid (i : ObjectId) : Type 0 where
  pub cid : ContentId.IsValid i.cid
  pub indirection : i.indirection < 256
  pub direct : i.compression ≡ true → i.indirection ≡ 0
