-- ===== src/Object/Id/RoundTrip.antt =====
-- ParseID, String and Append of repo/object/objectid.go undo one another.
use kopia.Prelude.{
  ℕ, zero, suc, ◌+◌, ◌%◌, ◌≤◌, ◌<◌, ◌≡◌, refl, Bool, true, false, inl, inr, List, [], ◌∷◌, ◌++◌,
  replicate, arith, ok, append_assoc, if◌then◌else◌, All, ◌==◌, Bool-cases, ◌∙◌, sym, append-nil,
  ◌⊎◌,
}
use kopia.Index.ContentId
use kopia.Index.ContentId.{ContentId, is_prefix_char}
use kopia.Index.ContentId.Hex.{encode, hex_digit}
use kopia.Index.ContentId.RoundTrip as Cid
use kopia.Object.Id.{
  ObjectId, IsValid, to_string, append, append_indirection, parse_indirection, skip_char, parse_id,
  ids_from_strings, ids_to_strings,
}

abbrev HeadNot : ℕ → List ℕ → Type 0
HeadNot x [] = Unit
HeadNot x (c ∷ s) = (c == x) ≡ false

-- the string of a content ID has no letter of an object ID in front
cid_text :
    (p : ℕ) (h : List ℕ) (x : ℕ)
    → (p ≡ 0) ⊎ (is_prefix_char p ≡ true)
    → All (λ b. b < 256) h
    → b'A' ≤ x
    → x ≤ b'Z'
    → HeadNot x (ContentId.to_string (record { prefix = p; hash = h }))
unfolding ContentId.to_string encode hex_digit
cid_text p [] x c bytes lo hi = ground (arith, c)
cid_text p (b ∷ h) x c bytes lo hi = ground (arith, c)

parse_indirection-HeadNot : (n : ℕ) (s : List ℕ) → HeadNot b'I' s → parse_indirection n s ≡ (n, s)
unfolding parse_indirection
parse_indirection-HeadNot n [] h = refl
parse_indirection-HeadNot n (c ∷ s) h = rw h

skip_char-HeadNot : (x : ℕ) (s : List ℕ) → HeadNot x s → skip_char x s ≡ (false, s)
unfolding skip_char
skip_char-HeadNot x [] h = refl
skip_char-HeadNot x (c ∷ s) h = rw h

parse_indirection-replicate :
    (k n : ℕ) (s : List ℕ)
    → n < 256
    → parse_indirection n (replicate k b'I' ++ s) ≡ parse_indirection ((n + k) % 256) s
unfolding parse_indirection
parse_indirection-replicate zero n s h = let e : (n + 0) % 256 ≡ n = omega arith in rw e
parse_indirection-replicate (suc k) n s h =
    let e : ((n + 1) % 256 + k) % 256 ≡ (n + suc k) % 256 = omega arith in
    parse_indirection-replicate k ((n + 1) % 256) s (omega arith) ∙ rw e

-- The count of the letters I is a byte: 256 of them more, or any multiple, change nothing.
pub parse_id-replicate :
    (k : ℕ) (s : List ℕ) → k % 256 ≡ 0 → parse_id (replicate k b'I' ++ s) ≡ parse_id s
unfolding parse_id
parse_id-replicate k s h =
    let e : (0 + k) % 256 ≡ 0 = omega arith in
    rw (parse_indirection-replicate k 0 s (omega arith), e)

-- What ParseID does behind the letters, on the string of a content ID.
parse_id_text :
    (k : ℕ) (z : Bool) (cid : ContentId)
    → ContentId.IsValid cid
    → k < 256
    → (z ≡ true → k ≡ 0)
    → parse_id (replicate k b'I' ++ ((if z then b'Z' ∷ [] else []) ++ ContentId.to_string cid))
      ≡ ok (record { cid = cid; indirection = k; compression = z })
unfolding parse_id skip_char
parse_id_text k true cid v lt d =
    let text = ContentId.to_string cid in
    let no_d = cid_text cid.prefix cid.hash b'D' v.prefix v.bytes (omega arith) (omega arith) in
    rw
      (
        d refl,
        parse_indirection-HeadNot 0 (b'Z' ∷ text) refl,
        skip_char-HeadNot b'D' text no_d,
        Cid.parse_id-to_string cid v,
      )
      refl
parse_id_text k false cid v lt d =
    let text = ContentId.to_string cid in
    let no_i = cid_text cid.prefix cid.hash b'I' v.prefix v.bytes (omega arith) (omega arith) in
    let no_z = cid_text cid.prefix cid.hash b'Z' v.prefix v.bytes (omega arith) (omega arith) in
    let no_d = cid_text cid.prefix cid.hash b'D' v.prefix v.bytes (omega arith) (omega arith) in
    let e : (0 + k) % 256 ≡ k = omega arith in
    rw
      (parse_indirection-replicate k 0 text (omega arith), e, parse_indirection-HeadNot k text no_i)
      (rw (skip_char-HeadNot b'Z' text no_z)
        (rw (skip_char-HeadNot b'D' text no_d, Cid.parse_id-to_string cid v) (ground arith)))

-- Every valid object ID is the result of ParseID on its String.
pub ObjectId-parse_id-to_string : (i : ObjectId) → IsValid i → parse_id (to_string i) ≡ ok i
unfolding to_string
ObjectId-parse_id-to_string i v =
    parse_id_text i.indirection i.compression i.cid v.cid v.indirection v.direct

-- IDsFromStrings reads back what IDsToStrings wrote.
pub ids_from_strings-ids_to_strings :
    (ids : List ObjectId) → All IsValid ids → ids_from_strings (ids_to_strings ids) ≡ ok ids
unfolding ids_from_strings ids_to_strings
ids_from_strings-ids_to_strings [] h = refl
ids_from_strings-ids_to_strings (i ∷ ids) h =
    rw (ObjectId-parse_id-to_string i h.0, ids_from_strings-ids_to_strings ids h.1)

append_indirection-replicate :
    (n : ℕ) (out : List ℕ) → append_indirection n out ≡ out ++ replicate n b'I'
unfolding append_indirection
append_indirection-replicate zero out = sym (append-nil out)
append_indirection-replicate (suc n) out =
    append_indirection-replicate n (out ++ (b'I' ∷ []))
    ∙ append_assoc out (b'I' ∷ []) (replicate n b'I')

-- Append writes the bytes of String behind what is there.
pub append-to_string : (i : ObjectId) (out : List ℕ) → IsValid i → append i out ≡ out ++ to_string i
unfolding append to_string
append-to_string i out v =
    rw (append_indirection-replicate i.indirection out, Cid.append-to_string i.cid _ v.cid)
      (elim (Bool-cases i.compression) [
        | inl z ↦ rw z (simp append_assoc)
        | inr z ↦ rw z (simp append_assoc)
      ])
