-- ===== src/Index/V1/Names.antt =====
-- The extra data of repo/content/index/index_v1.go: the names of the pack blobs, and where each stands.
use kopia.Prelude.{
  ℕ, ◌+◌, ◌%◌, ◌^◌, ◌≤◌, ◌<◌, ◌≡◌, refl, inl, inr, List, [], ◌∷◌, ◌++◌, Option, none, some, length,
  take, drop, arith, All, bytes_equal, bytes_equal_iff, bytes_equal_refl, Bool-cases, Option-cases,
  length-append, ◌==◌, take-append_le, drop-append_le, drop-append_length, take-length, length-drop,
}
use kopia.Index.Info.{Info}
use kopia.Index.V1.{Offsets, lookup_offset, add_missing, add_pack_blob_id, add_all_pack_blob_ids}

-- A name stands in the extra data at an offset.
pub record StandsAt (extra : List ℕ) (o : ℕ) (id : List ℕ) : Type 0 where
  pub inside : o + length id ≤ length extra
  pub read : take (length id) (drop o extra) ≡ id

StandsAt-append :
    (extra more : List ℕ) (o : ℕ) (id : List ℕ)
    → StandsAt extra o id
    → StandsAt (extra ++ more) o id
StandsAt-append extra more o id s = record {
  inside = omega (arith, s.inside, length-append extra more);
  read =
      rw
        (
          drop-append_le o extra more (omega (arith, s.inside)),
          take-append_le (length id) (drop o extra) more
              (omega (arith, s.inside, length-drop o extra)),
        )
        s.read;
}

StandsAt-last : (extra id : List ℕ) → StandsAt (extra ++ id) (length extra) id
StandsAt-last extra id = record {
  inside = omega (arith, length-append extra id);
  read = rw (drop-append_length extra id) (take-length id);
}

-- The map tells where each name stands.
abbrev pub Tells : Offsets × List ℕ → Type 0
Tells (offsets, extra) =
    (id : List ℕ) (o : ℕ) → lookup_offset offsets id ≡ some o → StandsAt extra o id

-- the names that the map has
abbrev pub Has : Offsets × List ℕ → List ℕ → Type 0
Has (offsets, extra) id = (o : ℕ) × (lookup_offset offsets id ≡ some o)

add_missing-Tells :
    (s : Offsets × List ℕ) (id : List ℕ) (found : Option ℕ)
    → length s.1 < 2 ^ 32
    → Tells s
    → Tells (add_missing found id s)
unfolding lookup_offset
add_missing-Tells (offsets, extra) id (some v) h t = t
add_missing-Tells (offsets, extra) id none h t = λ k o e. elim (Bool-cases (bytes_equal id k)) [
  | inl p ↦
      let same : id ≡ k = (bytes_equal_iff id k).0 p in
      let at : length extra % 2 ^ 32 ≡ o = ground (arith, p, e) in
      let here : length extra ≡ o = omega (arith, at, h) in
      rw (← here, ← same) (StandsAt-last extra id)
  | inr p ↦ StandsAt-append extra id o k (t k o (rw p at e))
]

add_pack_blob_id-Tells :
    (s : Offsets × List ℕ) (id : List ℕ)
    → length s.1 < 2 ^ 32
    → Tells s
    → Tells (add_pack_blob_id s id)
unfolding add_pack_blob_id
add_pack_blob_id-Tells (offsets, extra) id h t = elim (Bool-cases (length id == 0)) [
  | inl p ↦ rw p t
  | inr p ↦ rw p (add_missing-Tells (offsets, extra) id (lookup_offset offsets id) h t)
]

-- Names are only added.
add_missing-Has :
    (s : Offsets × List ℕ) (id k : List ℕ) (found : Option ℕ)
    → lookup_offset s.0 id ≡ found
    → (Has s k → Has (add_missing found id s) k) × Has (add_missing found id s) id
unfolding lookup_offset
add_missing-Has (offsets, extra) id k (some v) e = (λ h. h, (v, e))
add_missing-Has (offsets, extra) id k none e = (
  λ h. elim (Bool-cases (bytes_equal id k)) [
    | inl p ↦ (length extra % 2 ^ 32, rw p refl)
    | inr p ↦ (h.0, rw p h.1)
  ],
  (length extra % 2 ^ 32, rw (bytes_equal_refl id) refl),
)

add_pack_blob_id-Has :
    (s : Offsets × List ℕ) (id k : List ℕ)
    → (Has s k → Has (add_pack_blob_id s id) k) × (0 < length id → Has (add_pack_blob_id s id) id)
unfolding add_pack_blob_id
add_pack_blob_id-Has (offsets, extra) id k = elim (Bool-cases (length id == 0)) [
  | inl p ↦ rw p (λ h. h, λ lt. absurd (ground (arith, p, lt)))
  | inr p ↦
      let m = add_missing-Has (offsets, extra) id k (lookup_offset offsets id) refl in
      rw p (m.0, λ lt. m.1)
]

add_pack_blob_id-grows :
    (s : Offsets × List ℕ) (id : List ℕ) → length s.1 ≤ length (add_pack_blob_id s id).1
unfolding add_pack_blob_id
add_pack_blob_id-grows (offsets, extra) id =
    ground (arith, Option-cases (lookup_offset offsets id), length-append extra id)

pub grows :
    (s : Offsets × List ℕ) (its : List Info) → length s.1 ≤ length (add_all_pack_blob_ids s its).1
unfolding add_all_pack_blob_ids
grows s [] = omega arith
grows s (it ∷ its) = omega (
  arith,
  add_pack_blob_id-grows s it.pack_blob_id,
  grows (add_pack_blob_id s it.pack_blob_id) its,
)

-- While the extra data has less than 2 ^ 32 bytes, the map tells where each name stands.
pub offsets-Tells :
    (s : Offsets × List ℕ) (its : List Info)
    → length (add_all_pack_blob_ids s its).1 < 2 ^ 32
    → Tells s
    → Tells (add_all_pack_blob_ids s its)
unfolding add_all_pack_blob_ids
offsets-Tells s [] h t = t
offsets-Tells s (it ∷ its) h t =
    let next = add_pack_blob_id s it.pack_blob_id in
    offsets-Tells next its h (
      add_pack_blob_id-Tells s it.pack_blob_id
        (omega (arith, h, add_pack_blob_id-grows s it.pack_blob_id, grows next its)) t)

-- The map has the name of every content that is packed.
pub offsets-Has :
    (s : Offsets × List ℕ) (its : List Info) (k : List ℕ)
    → Has s k
    → Has (add_all_pack_blob_ids s its) k
unfolding add_all_pack_blob_ids
offsets-Has s [] k h = h
offsets-Has s (it ∷ its) k h =
    offsets-Has (add_pack_blob_id s it.pack_blob_id) its k
      ((add_pack_blob_id-Has s it.pack_blob_id k).0 h)

pub offsets-All :
    (s : Offsets × List ℕ) (its : List Info)
    → All (λ it. 0 < length it.pack_blob_id) its
    → All (λ it. Has (add_all_pack_blob_ids s its) it.pack_blob_id) its
unfolding add_all_pack_blob_ids
offsets-All s [] h = tt
offsets-All s (it ∷ its) h =
    let next = add_pack_blob_id s it.pack_blob_id in
    (
      offsets-Has next its it.pack_blob_id
          ((add_pack_blob_id-Has s it.pack_blob_id it.pack_blob_id).1 h.0),
      offsets-All next its h.1,
    )
