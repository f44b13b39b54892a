-- ===== src/Checks/Encoding.antt =====
-- A text of the index of an object in bytes, as a concrete value of what encoding/json does.
use kopia.Prelude.{
  ◌%◌, ◌/◌, ◌^◌, ◌<◌, ℕ, zero, suc, ◌*◌, Bool, true, not, ◌==◌, Option, none, some, All, ◌+◌, ◌≡◌,
  refl, ap, ◌∙◌, false, List, [], ◌∷◌, ◌++◌, length, length-append, arith,
}
use kopia.Index.ContentId.{ContentId}
use kopia.Object.Id.{Entry}

abbrev pub first_or_zero : List ℕ → ℕ
first_or_zero [] = 0
first_or_zero (x ∷ xs) = x

abbrev pub flag : Bool → ℕ
flag false = 0
flag true = 1

-- A number in bytes: its last digits to base 256, and how often their range is exceeded.
abbrev pub unary : ℕ → List ℕ
unary zero = 0 ∷ []
unary (suc n) = 1 ∷ unary n

abbrev pub digits : ℕ → ℕ → List ℕ
digits zero n = unary n
digits (suc k) n = n % 256 ∷ digits k (n / 256)

abbrev pub one_more : Option (ℕ × List ℕ) → Option (ℕ × List ℕ)
one_more none = none
one_more (some (n, r)) = some (suc n, r)

abbrev pub shift : ℕ → Option (ℕ × List ℕ) → Option (ℕ × List ℕ)
shift b none = none
shift b (some (n, r)) = some (n * 256 + b, r)

abbrev pub read_unary : List ℕ → Option (ℕ × List ℕ)
read_unary [] = none
read_unary (zero ∷ r) = some (0, r)
read_unary (suc b ∷ r) = one_more (read_unary r)

abbrev pub read_digits : ℕ → List ℕ → Option (ℕ × List ℕ)
read_digits zero r = read_unary r
read_digits (suc k) [] = none
read_digits (suc k) (b ∷ r) = shift b (read_digits k r)

read_unary-unary : (n : ℕ) (r : List ℕ) → read_unary (unary n ++ r) ≡ some (n, r)
read_unary-unary zero r = refl
read_unary-unary (suc n) r = ap one_more (read_unary-unary n r)

read_digits-digits : (k n : ℕ) (r : List ℕ) → read_digits k (digits k n ++ r) ≡ some (n, r)
read_digits-digits zero n r = read_unary-unary n r
read_digits-digits (suc k) n r =
    let whole : n / 256 * 256 + n % 256 ≡ n = omega arith in
    ap (shift (n % 256)) (read_digits-digits k (n / 256) r) ∙ ap (λ m. some (m, r)) whole

-- what so many digits hold
abbrev pub range : ℕ → ℕ
range zero = 1
range (suc k) = 256 * range k

length-digits : (k n : ℕ) → n < range k → length (digits k n) ≡ k + 1
length-digits zero zero h = refl
length-digits zero (suc n) h = absurd (omega (arith, h))
length-digits (suc k) n h = omega (arith, length-digits k (n / 256) (omega (arith, h)))

eight_digits : (n : ℕ) → n < 2 ^ 64 → length (digits 8 n) ≡ 9
eight_digits n h = length-digits 8 n h

-- three numbers and a flag for each entry
abbrev pub encode : List Entry → List ℕ
encode [] = 0 ∷ []
encode (e ∷ es) =
    1
    ∷ (digits 8 e.start
        ++ (digits 8 e.length
            ++ (digits 8 (first_or_zero e.object.cid.hash)
                ++ (flag e.object.compression ∷ encode es))))

abbrev pub position : ℕ → ContentId
position k = record { prefix = 0; hash = k ∷ [] }

abbrev pub cons_entry : Entry → Option (List Entry) → Option (List Entry)
cons_entry e none = none
cons_entry e (some es) = some (e ∷ es)

abbrev pub then_read :
    Option (ℕ × List ℕ) → (ℕ → List ℕ → Option (List Entry)) → Option (List Entry)
then_read none f = none
then_read (some (n, r)) f = f n r

abbrev pub with_number : List ℕ → (ℕ → List ℕ → Option (List Entry)) → Option (List Entry)
with_number text f = then_read (read_digits 8 text) f

-- an object of a content that is a position
abbrev pub at_position : ℕ → ℕ → ContentId → Bool → Entry
at_position s n cid c = record {
  start = s;
  length = n;
  object = record { cid = cid; indirection = 0; compression = c };
}

abbrev pub last_of : ℕ → ℕ → ℕ → List ℕ → (List ℕ → Option (List Entry)) → Option (List Entry)
last_of s n k [] f = none
last_of s n k (b ∷ r) f = cons_entry (at_position s n (position k) (not (b == 0))) (f r)

abbrev pub decode_all : ℕ → List ℕ → Option (List Entry)
decode_all zero text = none
decode_all (suc fuel) [] = none
decode_all (suc fuel) (zero ∷ r) = some []
decode_all (suc fuel) (suc b ∷ r) =
    with_number r
      (λ s r1. with_number r1 (λ n r2. with_number r2 (λ k r3. last_of s n k r3 (decode_all fuel))))

abbrev pub decode : List ℕ → Option (List Entry)
decode text = decode_all (length text) text

abbrev pub IsPosition : ContentId → Type 0
IsPosition cid = (k : ℕ) × (k < 2 ^ 64) × (cid ≡ position k)

flag-same : (b : Bool) → not (flag b == 0) ≡ b
flag-same false = refl
flag-same true = refl

position-same : (cid : ContentId) → IsPosition cid → position (first_or_zero cid.hash) ≡ cid
position-same cid (k, lt, h) = rw h refl

with_number-digits :
    (n : ℕ) (r : List ℕ) (f : ℕ → List ℕ → Option (List Entry))
    → with_number (digits 8 n ++ r) f ≡ f n r
with_number-digits n r f = ap (λ o. then_read o f) (read_digits-digits 8 n r)

abbrev pub IsPlain : Entry → Type 0
IsPlain e = IsPosition e.object.cid × (e.object.indirection ≡ 0)

entry-same :
    (e : Entry)
    → IsPlain e
    → at_position e.start e.length
        (position (first_or_zero e.object.cid.hash))
        (not (flag e.object.compression == 0))
      ≡ e
entry-same e h = rw (flag-same e.object.compression, position-same e.object.cid h.0, ← h.1) refl

decode_all-encode :
    (fuel : ℕ) (es : List Entry)
    → length es < fuel
    → All IsPlain es
    → decode_all fuel (encode es) ≡ some es
decode_all-encode zero es lt h = absurd (omega (arith, lt))
decode_all-encode (suc fuel) [] lt h = refl
decode_all-encode (suc fuel) (e ∷ es) lt h =
    let hash = first_or_zero e.object.cid.hash in
    let r3 = flag e.object.compression ∷ encode es in
    let r2 = digits 8 hash ++ r3 in
    with_number-digits e.start (digits 8 e.length ++ r2) _
    ∙ (with_number-digits e.length r2 _
        ∙ (with_number-digits hash r3 _
            ∙ (ap (cons_entry _) (decode_all-encode fuel es (omega (arith, lt)) h.1)
                ∙ ap (λ x. some (x ∷ es)) (entry-same e h.0))))

encode-longer : (es : List Entry) → length es < length (encode es)
encode-longer [] = omega arith
encode-longer (e ∷ es) =
    let hash = first_or_zero e.object.cid.hash in
    let r3 = flag e.object.compression ∷ encode es in
    let r2 = digits 8 hash ++ r3 in
    omega (
      arith,
      encode-longer es,
      length-append (digits 8 e.start) (digits 8 e.length ++ r2),
      length-append (digits 8 e.length) r2,
      length-append (digits 8 hash) r3,
    )

pub decode-encode : (es : List Entry) → All IsPlain es → decode (encode es) ≡ some es
decode-encode es h = decode_all-encode (length (encode es)) es (encode-longer es) h

hash_small : (cid : ContentId) → IsPosition cid → first_or_zero cid.hash < 2 ^ 64
hash_small cid (k, lt, h) = rw h lt

-- an entry has 29 bytes
pub length-encode :
    (es : List Entry)
    → All
        (λ e. IsPosition e.object.cid × (e.object.indirection ≡ 0) × (e.start + e.length < 2 ^ 63))
        es
    → length (encode es) ≡ 29 * length es + 1
length-encode [] h = refl
length-encode (e ∷ es) h =
    let hash = first_or_zero e.object.cid.hash in
    let r3 = flag e.object.compression ∷ encode es in
    let r2 = digits 8 hash ++ r3 in
    omega (
      arith,
      length-encode es h.1,
      length-append (digits 8 e.start) (digits 8 e.length ++ r2),
      length-append (digits 8 e.length) r2,
      length-append (digits 8 hash) r3,
      eight_digits e.start (omega (arith, h.0.2)),
      eight_digits e.length (omega (arith, h.0.2)),
      eight_digits hash (hash_small e.object.cid h.0.0),
    )
