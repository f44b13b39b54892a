-- ===== src/Epoch/Advance.antt =====
-- internal/epoch/epoch_advance.go: when an epoch is advanced. A timestamp and a length is a natural
-- number; the int64 sum of the lengths is kept as its 64 bits and wraps around.
use mathlib.Core.List.{Memᴰ}
use mathlib.Core.List.Memᴰ
use kopia.Prelude.{
  ℕ, ◌+◌, ◌-◌, ◌%◌, ◌<◌, ◌≤◌, ◌≡◌, ◌⊎◌, ◌↔◌, refl, inl, inr, Bool, true, false, List, [], ◌∷◌,
  length, ltb, leb, if◌then◌else◌, arith,
}

-- blob.Metadata
pub record Metadata : Type 0 where
  pub blob_id : List ℕ
  pub length : ℕ
  pub timestamp : ℕ

-- `if bm.Timestamp.Before(min)` and `if bm.Timestamp.After(max)`
abbrev pub earlier : Metadata → ℕ → ℕ
earlier bm first = if ltb bm.timestamp first then bm.timestamp else first

abbrev pub later : Metadata → ℕ → ℕ
later bm last = if ltb last bm.timestamp then bm.timestamp else last

-- 2 ^ 64 and 2 ^ 63
abbrev pub word : ℕ
word = 18446744073709551616

abbrev pub half_word : ℕ
half_word = 9223372036854775808

-- `totalSize >= totalSizeBytesThreshold` for the bits of an int64 and a threshold that is not negative
abbrev pub at_least : ℕ → ℕ → Bool
at_least bits threshold = if leb half_word bits then false else leb threshold bits

-- the loop: the earliest and the latest timestamp, and the size
unfoldable pub scan_blobs : ℕ → ℕ → ℕ → List Metadata → ℕ × ℕ × ℕ
scan_blobs first last total_size [] = (first, last, total_size)
scan_blobs first last total_size (bm ∷ bms) =
    scan_blobs (earlier bm first) (later bm last) ((total_size + bm.length) % word) bms

-- shouldAdvance
unfoldable pub should_advance : List Metadata → ℕ → ℕ → ℕ → Bool
unfolding scan_blobs
should_advance [] min_epoch_duration count_threshold total_size_bytes_threshold = false
should_advance (bm ∷ bms) min_epoch_duration count_threshold total_size_bytes_threshold =
    let (first, last, total_size) = scan_blobs bm.timestamp bm.timestamp 0 (bm ∷ bms) in
    if ltb (last - first) min_epoch_duration
    then false
    else (if leb count_threshold (length (bm ∷ bms))
        then true
        else at_least total_size total_size_bytes_threshold)

abbrev pub size : List Metadata → ℕ
size [] = 0
size (bm ∷ bms) = bm.length + size bms

-- The timestamps of two blobs are as far apart as the duration.
pub record Spread (bms : List Metadata) (duration : ℕ) : Type 0 where
  pub early : Metadata
  pub late : Metadata
  pub early-Memᴰ : Memᴰ early bms
  pub late-Memᴰ : Memᴰ late bms
  pub apart : early.timestamp + duration ≤ late.timestamp

fits : (n : ℕ) → n < half_word → n % word ≡ n
fits n h = omega (arith, h)

scan-size :
    (f l t : ℕ) (bms : List Metadata)
    → t + size bms < half_word
    → (scan_blobs f l t bms).2 ≡ t + size bms
unfolding scan_blobs
scan-size f l t [] h = omega arith
scan-size f l t (bm ∷ bms) h =
    let sum = fits (t + bm.length) (omega (arith, h)) in
    let rest =
      scan-size (earlier bm f) (later bm l) ((t + bm.length) % word) bms (omega (arith, h, sum)) in
    omega (arith, rest, sum)

scan-first_le :
    (f l t : ℕ) (bms : List Metadata)
    → ((scan_blobs f l t bms).0 ≤ f) × (l ≤ (scan_blobs f l t bms).1)
unfolding scan_blobs
scan-first_le f l t [] = (omega arith, omega arith)
scan-first_le f l t (bm ∷ bms) =
    let h = scan-first_le (earlier bm f) (later bm l) ((t + bm.length) % word) bms in
    ground (arith, h.0, h.1)

-- all timestamps lie between the first and the last
scan-covers :
    (f l t : ℕ) (bms : List Metadata) (a : Metadata)
    → Memᴰ a bms
    → ((scan_blobs f l t bms).0 ≤ a.timestamp) × (a.timestamp ≤ (scan_blobs f l t bms).1)
unfolding scan_blobs
scan-covers f l t [] a m = elim m [ ]
scan-covers f l t (bm ∷ bms) a (Memᴰ.head e) =
    let h = scan-first_le (earlier bm f) (later bm l) ((t + bm.length) % word) bms in
    rw e (ground (arith, h.0, h.1))
scan-covers f l t (bm ∷ bms) a (Memᴰ.tail m) =
    scan-covers (earlier bm f) (later bm l) ((t + bm.length) % word) bms a m

-- a timestamp is that of a blob
abbrev Held : ℕ → List Metadata → Type 0
Held n bms = (a : Metadata) × (a.timestamp ≡ n) × Memᴰ a bms

scan-Held :
    (f l t : ℕ) (bms all : List Metadata)
    → ((a : Metadata) → Memᴰ a bms → Memᴰ a all)
    → Held f all
    → Held l all
    → Held (scan_blobs f l t bms).0 all × Held (scan_blobs f l t bms).1 all
unfolding scan_blobs
scan-Held f l t [] all sub hf hl = (hf, hl)
scan-Held f l t (bm ∷ bms) all sub hf hl =
    scan-Held (earlier bm f) (later bm l) ((t + bm.length) % word) bms all
      (λ a m. sub a (Memᴰ.tail m)) (choose (ltb bm.timestamp f) f hf)
      (choose (ltb l bm.timestamp) l hl)
  where
    choose : (b : Bool) (n : ℕ) → Held n all → Held (if b then bm.timestamp else n) all
    choose true n h = (bm, refl, sub bm (Memᴰ.head refl))
    choose false n h = h

judge_iff :
    (first last total_size d c t n : ℕ)
    → total_size < half_word
    → ((if ltb (last - first) d then false else (if leb c n then true else at_least total_size t))
        ≡ true)
      ↔ ((d ≤ last - first) × ((c ≤ n) ⊎ (t ≤ total_size)))
judge_iff first last total_size d c t n h = ground (arith, h)

-- If the lengths of the blobs sum up to less than 2 ^ 63, an epoch is advanced if and only if two of its
-- blobs are at least as far apart as the minimal duration, and there are at least as many blobs as the count
-- threshold or their lengths sum up to at least the size threshold.
pub should_advance_iff :
    (bms : List Metadata) (duration count total : ℕ)
    → size bms < half_word
    → (should_advance bms duration count total ≡ true)
      ↔ (Spread bms duration × ((count ≤ length bms) ⊎ (total ≤ size bms)))
unfolding should_advance
should_advance_iff [] d c t h =
    (λ h. absurd (ground (arith, h)), λ h. absurd (Memᴰ.not-nil h.0.early-Memᴰ))
should_advance_iff (bm ∷ bms) d c t small =
    let all = bm ∷ bms in
    let held =
      scan-Held bm.timestamp bm.timestamp 0 all all (λ a m. m) (bm, refl, Memᴰ.head refl)
        (bm, refl, Memᴰ.head refl) in
    let sized = scan-size bm.timestamp bm.timestamp 0 all (omega (arith, small)) in
    let order = scan-first_le bm.timestamp bm.timestamp 0 all in
    let s = scan_blobs bm.timestamp bm.timestamp 0 all in
    let judge = judge_iff s.0 s.1 s.2 d c t (length all) (omega (arith, sized, small)) in
    (
      λ h.
          let j = judge.0 h in
          (
            record {
              early = held.0.0;
              late = held.1.0;
              early-Memᴰ = held.0.2;
              late-Memᴰ = held.1.2;
              apart = omega (arith, held.0.1, held.1.1, order, j.0);
            },
            elim j.1 [ inl a ↦ inl a | inr b ↦ inr (omega (arith, b, sized)) ],
          ),
      λ h.
          let e = scan-covers bm.timestamp bm.timestamp 0 all h.0.early h.0.early-Memᴰ in
          let l = scan-covers bm.timestamp bm.timestamp 0 all h.0.late h.0.late-Memᴰ in
          judge.1 (
            omega (arith, e, l, h.0.apart),
            elim h.1 [ inl a ↦ inl a | inr b ↦ inr (omega (arith, b, sized)) ],
          ),
    )
