-- ===== src/Index/V1/Layout.antt =====
-- Where the entries stand in a file of repo/content/index/index_v1.go.
use mathlib.Core.List.{flatten}
use kopia.Prelude.{
  ℕ, zero, suc, ◌+◌, ◌*◌, ◌≡◌, refl, true, false, List, [], ◌∷◌, ◌++◌, Option, some, length, take,
  drop, map, arith, All, ok, leb, get_elem?, length-append, append_assoc, take-append_length,
  drop-append_length, ==_iff, ◌==◌,
}
use kopia.Index.ContentId.{content_id_to_bytes}
use kopia.Index.Encoding.{safe_slice}
use kopia.Index.Info.{Info}
use kopia.Index.V1.{
  IndexBuilderV1, entry_bytes, format_entry, write_entry, write_entries, slice_of, has_length,
}
use kopia.Index.V1.Entry.{Fits, entry_bytes-ReadsBack}

-- A slice within a longer one.
pub slice_of-append :
    (before xs after : List ℕ) (o n : ℕ)
    → o ≡ length before
    → n ≡ length xs
    → slice_of (before ++ (xs ++ after)) o n ≡ ok xs
unfolding safe_slice
slice_of-append before xs after o n e f =
    let inside : leb (o + n) (length (before ++ (xs ++ after))) ≡ true =
      ground (arith, e, f, length-append before (xs ++ after), length-append xs after) in
    let read : take n (drop o (before ++ (xs ++ after))) ≡ xs =
      rw (e, f, drop-append_length before (xs ++ after)) (take-append_length xs after) in
    rw (inside, read) refl

first_same : (x c rest : List ℕ) → Path (Option (List ℕ)) (some x) (some c) → x ++ rest ≡ c ++ rest
first_same x c rest e = let same : x ≡ c = cc in rw same refl

-- Chunks of one length: the one at a position starts at a multiple of it.
pub split_at :
    (w p : ℕ) (c : List ℕ) (cs : List (List ℕ))
    → All (λ x. length x ≡ w) cs
    → get_elem? cs p ≡ some c
    → (before : List ℕ) × (after : List ℕ) × (flatten cs ≡ before ++ (c ++ after))
      × (length before ≡ w * p)
unfolding flatten
split_at w p c [] a e = absurd (ground (arith, e))
split_at w zero c (x ∷ cs) a e = ([], flatten cs, first_same x c (flatten cs) e, omega arith)
split_at w (suc p) c (x ∷ cs) a e =
    let (before, after, s, l) = split_at w p c cs a.1 e in
    (
      x ++ before,
      after,
      rw (s, append_assoc x before (c ++ after)) refl,
      omega (arith, length-append x before, a.0, l),
    )

-- key and entry of one content
abbrev pub row : IndexBuilderV1 → Info → List ℕ
row b it = content_id_to_bytes [] it.content_id ++ entry_bytes b it

pub length-key : (k : ℕ) (it : Info) → Fits k it → length (content_id_to_bytes [] it.content_id) ≡ k
unfolding content_id_to_bytes
length-key k it f = omega (arith, f.key)

pub length-row : (k : ℕ) (b : IndexBuilderV1) (it : Info) → Fits k it → length (row b it) ≡ k + 20
length-row k b it f = omega (
  arith,
  length-append (content_id_to_bytes [] it.content_id) (entry_bytes b it),
  length-key k it f,
  (entry_bytes-ReadsBack k b it f).size,
)

write_entry-row :
    (k : ℕ) (b : IndexBuilderV1) (it : Info)
    → b.key_length ≡ some k
    → Fits k it
    → write_entry b it ≡ ok (row b it)
unfolding write_entry format_entry
write_entry-row k b it e f =
    let key = content_id_to_bytes [] it.content_id in
    let long : (length key == k) ≡ true = (==_iff (length key) k).1 (length-key k it f) in
    let fits : has_length b.key_length key ≡ true = rw e long in
    let plain : (it.compression_header_id == 0) ≡ true =
      (==_iff it.compression_header_id 0).1 f.no_compression in
    let no_key : (it.encryption_key_id == 0) ≡ true =
      (==_iff it.encryption_key_id 0).1 f.no_encryption_key in
    let named : (length it.pack_blob_id == 0) ≡ false = ground (arith, f.packed) in
    rw (fits, plain, no_key, named) refl

-- The entries are written one after the other.
pub write_entries-rows :
    (k : ℕ) (b : IndexBuilderV1) (its : List Info)
    → b.key_length ≡ some k
    → All (Fits k) its
    → write_entries b its ≡ ok (flatten (map (row b) its))
unfolding write_entries flatten
write_entries-rows k b [] e f = refl
write_entries-rows k b (it ∷ its) e f =
    rw (write_entry-row k b it e f.0, write_entries-rows k b its e f.1) refl
