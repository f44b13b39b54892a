-- ===== src/Index/V1/File.antt =====
-- A whole file of repo/content/index/index_v1.go: the header, and what is read at each position.
use mathlib.Core.List.{flatten}
use kopia.Prelude.{
  ℕ, zero, suc, ◌+◌, ◌*◌, ◌%◌, ◌^◌, ◌<◌, ◌≡◌, refl, sym, ap, false, List, [], ◌∷◌, ◌++◌, some,
  length, map, get_elem?, arith, All, ok, length-append, append_assoc, length-map, append-nil, leb,
}
use kopia.Index.Encoding.{put_uint16, put_uint32}
use kopia.Index.Encoding.RoundTrip.{decode-put_uint16, decode-put_uint32}
use kopia.Index.Info.{Info}
use kopia.Index.V1.{
  IndexBuilderV1, IndexV1, V1HeaderInfo, prepare_extra_data, key_length_of, header_of, build_v1,
  v1_read_header,
}
use kopia.Index.V1.Entry.{Fits}
use kopia.Index.V1.Layout.{row, length-key, length-row, slice_of-append, write_entries-rows}
use kopia.Index.V1.Reader.{open_v1}

-- What makes a file of version 1: contents whose keys have k bytes, that fit, in less than 4 GB.
pub record Buildable (k : ℕ) (cs : List Info) : Type 0 where
  pub some_content : 0 < length cs
  pub fits : All (Fits k) cs
  pub long_key : 1 < k
  pub short_key : k < 255
  pub room : 8 + length cs * (k + 20) + length (prepare_extra_data cs).1 < 2 ^ 32

abbrev pub builder_of : List Info → IndexBuilderV1
builder_of cs = (prepare_extra_data cs).0

abbrev pub rows : List Info → List (List ℕ)
rows cs = map (row (builder_of cs)) cs

-- what buildV1 writes, and bytes that Build appends
abbrev pub file : List Info → List ℕ → List ℕ
file cs suffix =
    header_of (builder_of cs) ++ (flatten (rows cs) ++ ((prepare_extra_data cs).1 ++ suffix))

pub All-map {ℓ κ μ} :
    {A : Type ℓ} {B : Type κ} (P : A → Type μ) (Q : B → Type μ) (f : A → B) (xs : List A)
    → ((x : A) → P x → Q (f x))
    → All P xs
    → All Q (map f xs)
All-map P Q f [] h a = tt
All-map P Q f (x ∷ xs) h a = (h x a.0, All-map P Q f xs h a.1)

pub get_elem?-map {ℓ κ} :
    {A : Type ℓ} {B : Type κ} (f : A → B) (xs : List A) (i : ℕ) (x : A)
    → get_elem? xs i ≡ some x
    → get_elem? (map f xs) i ≡ some (f x)
get_elem?-map f [] i x e = absurd (ground (arith, e))
get_elem?-map f (y ∷ xs) zero x e = let same : y ≡ x = cc in rw same refl
get_elem?-map f (y ∷ xs) (suc i) x e = get_elem?-map f xs i x e

length-rows :
    (k w : ℕ) (cs : List (List ℕ))
    → All (λ c. length c ≡ w) cs
    → length (flatten cs) ≡ w * length cs
unfolding flatten
length-rows k w [] a = omega arith
length-rows k w (c ∷ cs) a =
    omega (arith, length-append c (flatten cs), a.0, length-rows k w cs a.1)

module _ (k : ℕ) (cs : List Info) (h : Buildable k cs) where
  key_length-some : key_length_of cs ≡ some k
  key_length-some = first cs h.some_content h.fits
    where
      first : (its : List Info) → 0 < length its → All (Fits k) its → key_length_of its ≡ some k
      first [] lt a = absurd (omega (arith, lt))
      first (it ∷ its) lt a = ap some (length-key k it a.0)

  builder_key : (builder_of cs).key_length ≡ some k
  unfolding prepare_extra_data
  builder_key = key_length-some

  pub extra_data_offset-sum : (builder_of cs).extra_data_offset ≡ 8 + length cs * (k + 20)
  unfolding prepare_extra_data
  extra_data_offset-sum = rw key_length-some (omega (arith, h.room))

  abbrev pub built : List ℕ
  built = header_of (builder_of cs) ++ (flatten (rows cs) ++ (prepare_extra_data cs).1)

  pub build_v1-built : build_v1 cs ≡ ok built
  unfolding build_v1
  build_v1-built = rw (write_entries-rows k (builder_of cs) cs builder_key h.fits) refl

  pub built-file : (suffix : List ℕ) → built ++ suffix ≡ file cs suffix
  built-file suffix = simp append_assoc

  pub length-header : length (header_of (builder_of cs)) ≡ 8
  unfolding header_of put_uint16 put_uint32
  length-header = refl

  pub rows-length : All (λ r. length r ≡ k + 20) (rows cs)
  rows-length =
      All-map (Fits k) (λ r. length r ≡ k + 20) (row (builder_of cs)) cs
        (λ it f. length-row k (builder_of cs) it f) h.fits

  pub length-entries : length (flatten (rows cs)) ≡ length cs * (k + 20)
  length-entries = omega (
    arith,
    length-rows k (k + 20) (rows cs) rows-length,
    length-map cs (row (builder_of cs)),
    ap (λ (n : ℕ). (k + 20) * n) (length-map cs (row (builder_of cs))),
  )

  header-shape : header_of (builder_of cs) ≡ 1 ∷ k ∷ (put_uint16 20 ++ put_uint32 (length cs))
  unfolding header_of prepare_extra_data put_uint16
  header-shape =
      let byte : k % 256 ≡ k = omega (arith, h.short_key) in
      let count : length cs % 2 ^ 32 ≡ length cs = omega (arith, h.room) in
      rw (key_length-some, byte, count) refl

  abbrev pub header : V1HeaderInfo
  header = record { version = 1; key_size = k; value_size = 20; entry_count = length cs }

  abbrev pub opened : ℕ → List ℕ → IndexV1
  opened overhead suffix = record {
    hdr = header;
    bytes = file cs suffix;
    v1_per_content_overhead = overhead;
  }

  read_header : (suffix : List ℕ) → v1_read_header (file cs suffix) ≡ ok header
  unfolding v1_read_header put_uint16
  read_header suffix =
      let after = flatten (rows cs) ++ ((prepare_extra_data cs).1 ++ suffix) in
      let slice =
        slice_of-append [] (header_of (builder_of cs)) after 0 8 (omega arith)
          (sym length-header) in
      let size = decode-put_uint16 20 (put_uint32 (length cs)) (omega arith) in
      let count = rw (append-nil) at (decode-put_uint32 (length cs) [] (omega (arith, h.room))) in
      let long : leb k 1 ≡ false = ground (arith, h.long_key) in
      rw (slice, header-shape, long, size, count) refl

  pub open_v1-file :
      (overhead : ℕ) (suffix : List ℕ)
      → open_v1 (file cs suffix) overhead ≡ ok (opened overhead suffix)
  unfolding open_v1
  open_v1-file overhead suffix = rw (read_header suffix) refl
