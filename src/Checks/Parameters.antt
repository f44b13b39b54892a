-- ===== src/Checks/Parameters.antt =====
-- Concrete values for what the program does not implement: a rolling hash, and a content manager.
use kopia.Prelude.{
  ◌^◌, ltb, err, err_not_ok, ℕ, zero, suc, Bool, true, Option, none, some, get_elem?, ◌+◌, ◌≡◌,
  refl, ap, sym, ◌∙◌, false, List, [], ◌∷◌, ◌++◌, append_assoc, length, length-append, take,
  replicate, arith, take-append_length, Result, Result, ok,
}
use kopia.Checks.Encoding.{position, encode, decode, IsPosition, decode-encode}
use kopia.Index.ContentId.{ContentId}
use kopia.Object.Read.{IsContents}
use kopia.Object.Writer.{Contents}
use kopia.Splitter.Rolling.{RollingHash, IsWindowed, roll_all}

abbrev total : List ℕ → ℕ
total [] = 0
total (b ∷ bs) = b + total bs

-- The sum of the last 64 bytes; a hash is all that it has read, last byte first.
abbrev pub sum_hash : RollingHash
sum_hash = record {
  Hash = List ℕ;
  new_window = replicate 64 0;
  reset_window = λ h. replicate 64 0;
  roll = λ h b. b ∷ h;
  sum = λ h. total (take 64 h);
}

abbrev backwards : List ℕ → List ℕ
backwards [] = []
backwards (b ∷ bs) = backwards bs ++ (b ∷ [])

roll_all-backwards : (h w : List ℕ) → roll_all sum_hash h w ≡ backwards w ++ h
unfolding roll_all
roll_all-backwards h [] = refl
roll_all-backwards h (b ∷ w) =
    roll_all-backwards (b ∷ h) w ∙ sym (append_assoc (backwards w) (b ∷ []) h)

length-backwards : (w : List ℕ) → length (backwards w) ≡ length w
length-backwards [] = refl
length-backwards (b ∷ w) = omega (arith, length-backwards w, length-append (backwards w) (b ∷ []))

last_64 : (h w : List ℕ) → length w ≡ 64 → take 64 (roll_all sum_hash h w) ≡ backwards w
last_64 h w e =
    rw (roll_all-backwards h w, ← e, ← length-backwards w) (take-append_length (backwards w) h)

pub sum_hash-IsWindowed : IsWindowed sum_hash
sum_hash-IsWindowed = record { forgets = λ g h w e. ap total (last_64 g w e ∙ sym (last_64 h w e)) }

-- a content is kept, if there is a number left for it
abbrev keep : Bool → List (List ℕ) → List ℕ → Result (Unit {0}) ContentId × List (List ℕ)
keep true s bytes = (ok (position (length s)), s ++ (bytes ∷ []))
keep false s bytes = (err tt, s)

-- A content manager that keeps all contents in a list; an ID is a position in it.
abbrev pub list_contents : Contents
list_contents = record {
  Store = List (List ℕ);
  Error = Unit;
  Compressor = Unit;
  supports_content_compression = λ s. ok false;
  write_content = λ s bytes prefix comp. keep (ltb (length s) (2 ^ 64)) s bytes;
  header_id = λ c. 1;
  compress = λ c bytes. ok bytes;
  no_compression = 0;
  encode_index = encode;
}

get_elem?-kept :
    (s : List (List ℕ)) (x b : List ℕ) (k : ℕ)
    → get_elem? s k ≡ some b
    → get_elem? (s ++ (x ∷ [])) k ≡ some b
get_elem?-kept [] x b k h = absurd (ground (arith, h))
get_elem?-kept (y ∷ s) x b zero h = h
get_elem?-kept (y ∷ s) x b (suc k) h = get_elem?-kept s x b k h

get_elem?-last : (s : List (List ℕ)) (x : List ℕ) → get_elem? (s ++ (x ∷ [])) (length s) ≡ some x
get_elem?-last [] x = refl
get_elem?-last (y ∷ s) x = get_elem?-last s x

abbrev content_at : List (List ℕ) → List ℕ → Option (List ℕ)
content_at s [] = none
content_at s (k ∷ _) = get_elem? s k

pub content_at-kept :
    (s : List (List ℕ)) (x b hash : List ℕ)
    → content_at s hash ≡ some b
    → content_at (s ++ (x ∷ [])) hash ≡ some b
content_at-kept s x b [] h = absurd (ground (arith, h))
content_at-kept s x b (k ∷ _) h = get_elem?-kept s x b k h

pub ok-same : (x y : ContentId) → Path (Result (Unit {0}) ContentId) (ok x) (ok y) → y ≡ x
ok-same x y e = cc

pub same_output :
    (x y : List ℕ)
    → Path (Result (Unit {0}) (List ℕ)) (ok x) (ok y)
    → Path (Option (List ℕ)) (some y) (some x)
same_output x y e = cc

pub content_at-last :
    (s : List (List ℕ)) (x : List ℕ) (cid : ContentId)
    → cid ≡ position (length s)
    → content_at (s ++ (x ∷ [])) cid.hash ≡ some x
content_at-last s x cid e = rw e (get_elem?-last s x)

pub keep-written :
    (left : Bool) (s : List (List ℕ)) (bytes : List ℕ) (cid : ContentId)
    → (keep left s bytes).0 ≡ ok cid
    → content_at (keep left s bytes).1 cid.hash ≡ some bytes
keep-written true s bytes cid e = content_at-last s bytes cid (ok-same _ cid e)
keep-written false s bytes cid e = absurd (err_not_ok tt cid e)

pub keep-kept :
    (left : Bool) (s : List (List ℕ)) (bytes b hash : List ℕ)
    → content_at s hash ≡ some b
    → content_at (keep left s bytes).1 hash ≡ some b
keep-kept true s bytes b hash h = content_at-kept s bytes b hash h
keep-kept false s bytes b hash h = h

pub keep-IsPosition :
    (left : Bool) (s : List (List ℕ)) (bytes : List ℕ) (cid : ContentId)
    → ltb (length s) (2 ^ 64) ≡ left
    → (keep left s bytes).0 ≡ ok cid
    → IsPosition cid
keep-IsPosition true s bytes cid l e = (length s, ground (arith, l), ok-same _ cid e)
keep-IsPosition false s bytes cid l e = absurd (err_not_ok tt cid e)

abbrev pub list_contents-IsContents : IsContents list_contents
list_contents-IsContents = record {
  content = λ s cid. content_at s cid.hash;
  decompress = λ bytes. some bytes;
  decode_index = decode;
  IsIssued = IsPosition;
  content_written = λ s bytes prefix comp cid e. keep-written _ s bytes cid e;
  content_kept = λ s bytes prefix comp c b h. keep-kept _ s bytes b c.hash h;
  decompress-compress = λ c bytes output e. same_output bytes output e;
  issued = λ s bytes prefix comp cid e. keep-IsPosition _ s bytes cid refl e;
  decode_index-encode_index = decode-encode;
}
