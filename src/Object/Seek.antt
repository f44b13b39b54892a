-- ===== src/Object/Seek.antt =====
-- findChunkIndexForOffset of repo/object/object_reader.go: the binary search in the seek table.
use kopia.Prelude.{
  ℕ, zero, suc, ◌+◌, ◌-◌, ◌/◌, ◌≤◌, ◌<◌, ◌≡◌, ◌⊎◌, refl, inl, inr, true, false, Bool, Bool-cases,
  ap, ◌∙◌, ltb→lt, List, [], ◌∷◌, Option, none, some, length, get_elem?, ltb, if◌then◌else◌, Result,
  ok, err, arith,
}
use kopia.Object.Id.{Entry, end_offset}

-- An offset is an int64, which may be negative.
pub data ℤ : Type 0 where
  pos : ℕ → ℤ
  negsuc : ℕ → ℤ

-- `offset < n`
abbrev pub below : ℤ → ℕ → Bool
below (pos k) n = ltb k n
below (negsuc k) n = true

pub data SeekError : Type 0 where
  no_chunk : SeekError

-- where the search goes on: to the left, to the right, or nowhere
pub data Turn : Type 0 where
  go_left : Turn
  go_right : Turn
  here : Turn

-- the two tests of the loop at an entry; `none` is an index out of range, where the code panics
abbrev pub turn : ℤ → Option Entry → Option Turn
turn offset none = none
turn offset (some e) = some (
    if below offset e.start
    then go_left
    else (if below offset (end_offset e) then here else go_right))

abbrev pub follow :
    Option Turn
    → ℕ
    → Option (Result SeekError ℕ)
    → Option (Result SeekError ℕ)
    → Option (Result SeekError ℕ)
follow none middle to_left to_right = none
follow (some go_left) middle to_left to_right = to_left
follow (some go_right) middle to_left to_right = to_right
follow (some here) middle to_left to_right = some (ok middle)

-- The loop, with `right` one more than the source's, which may be -1. `none` means that the fuel ran
-- out or that the code panics.
unfoldable pub search_chunk : ℕ → List Entry → ℤ → ℕ → ℕ → Option (Result SeekError ℕ)
search_chunk zero table offset left right = none
search_chunk (suc fuel) table offset left right =
    let middle = (left + (right - 1)) / 2 in
    let to_left = search_chunk fuel table offset left middle in
    let to_right = search_chunk fuel table offset (suc middle) right in
    if ltb left right
    then follow (turn offset (get_elem? table middle)) middle to_left to_right
    else some (err no_chunk)

-- findChunkIndexForOffset(offset): every round leaves fewer entries, so one more than there are is
-- enough.
unfoldable pub find_chunk_index_for_offset : List Entry → ℤ → Option (Result SeekError ℕ)
unfolding search_chunk
find_chunk_index_for_offset table offset =
    search_chunk (suc (length table)) table offset 0 (length table)

-- Every entry starts where the one before it ends.
abbrev pub Contiguous : ℕ → List Entry → Type 0
Contiguous p [] = Unit
Contiguous p (e ∷ es) = (e.start ≡ p) × Contiguous (end_offset e) es

-- where the entry at an index starts, and at the end of the table where the object ends
unfoldable pub bound : ℕ → List Entry → ℕ → ℕ
bound p es zero = p
bound p [] (suc i) = p
bound p (e ∷ es) (suc i) = bound (end_offset e) es i

-- the entry at an index lies between two bounds
record EntryAt (p : ℕ) (es : List Entry) (i : ℕ) : Type 0 where
  entry : Entry
  at : get_elem? es i ≡ some entry
  starts : entry.start ≡ bound p es i
  ends : end_offset entry ≡ bound p es (suc i)

entry_at : (p : ℕ) (es : List Entry) (i : ℕ) → Contiguous p es → i < length es → EntryAt p es i
unfolding bound
entry_at p [] i c h = absurd (omega (arith, h))
entry_at p (e ∷ es) zero c h = record { entry = e; at = refl; starts = c.0; ends = refl }
entry_at p (e ∷ es) (suc i) c h =
    let x = entry_at (end_offset e) es i c.1 (omega (arith, h)) in
    record { entry = x.entry; at = x.at; starts = x.starts; ends = x.ends }

-- What the search gives: the index of the chunk that has the offset, or an error for an offset
-- outside the object.
abbrev pub Finds : List Entry → ℤ → Option (Result SeekError ℕ) → Type 0
Finds es offset none = ⊥
Finds es (pos k) (some (ok i)) = (i < length es) × (bound 0 es i ≤ k) × (k < bound 0 es (suc i))
Finds es (pos k) (some (err e)) = bound 0 es (length es) ≤ k
Finds es (negsuc k) (some (ok i)) = ⊥
Finds es (negsuc k) (some (err e)) = Unit

-- what holds before a round, at `left` and `right`
abbrev Between : List Entry → ℤ → ℕ → ℕ → Type 0
Between es (pos k) left right =
    (bound 0 es left ≤ k) × ((k < bound 0 es right) ⊎ (right ≡ length es))
Between es (negsuc k) left right = Unit

-- a round that stops has found the chunk
here-Finds :
    (es : List Entry) (offset : ℤ) (m : ℕ)
    → m < length es
    → below offset (bound 0 es m) ≡ false
    → below offset (bound 0 es (suc m)) ≡ true
    → Finds es offset (some (ok m))
here-Finds es (pos k) m h a b = (h, ground (arith, a), ground (arith, b))
here-Finds es (negsuc k) m h a b = absurd (ground (arith, a))

follow-Finds :
    (es : List Entry) (offset : ℤ) (m : ℕ) (x y : Option (Result SeekError ℕ))
    → EntryAt 0 es m
    → m < length es
    → (below offset (bound 0 es m) ≡ true → Finds es offset x)
    → (below offset (bound 0 es (suc m)) ≡ false → Finds es offset y)
    → Finds es offset (follow (turn offset (get_elem? es m)) m x y)
follow-Finds es offset m x y e h f g =
    rw (e.at, e.ends, e.starts)
      (elim (Bool-cases (below offset (bound 0 es m))) [
        | inl p ↦ rw p (f p)
        | inr p ↦ rw p (elim (Bool-cases (below offset (bound 0 es (suc m)))) [
          | inl q ↦ rw q (here-Finds es offset m h p q)
          | inr q ↦ rw q (g q)
        ])
      ])

Between-left :
    (es : List Entry) (offset : ℤ) (left right m : ℕ)
    → Between es offset left right
    → below offset (bound 0 es m) ≡ true
    → Between es offset left m
Between-left es (pos k) left right m b h = (b.0, inl (ground (arith, h)))
Between-left es (negsuc k) left right m b h = tt

Between-right :
    (es : List Entry) (offset : ℤ) (left right m : ℕ)
    → Between es offset left right
    → below offset (bound 0 es (suc m)) ≡ false
    → Between es offset (suc m) right
Between-right es (pos k) left right m b h = (ground (arith, h), b.1)
Between-right es (negsuc k) left right m b h = tt

-- no entry is left
stop-Finds :
    (es : List Entry) (offset : ℤ) (left right : ℕ)
    → left ≡ right
    → Between es offset left right
    → Finds es offset (some (err no_chunk))
stop-Finds es (negsuc k) left right e b = tt
stop-Finds es (pos k) left right e b = elim b.1 [
  | inl h ↦ absurd (omega (arith, h, b.0, ap (bound 0 es) e))
  | inr h ↦ omega (arith, b.0, ap (bound 0 es) (e ∙ h))
]

search-Finds :
    (fuel : ℕ) (es : List Entry) (offset : ℤ) (left right : ℕ)
    → Contiguous 0 es
    → right < fuel + left
    → left ≤ right
    → right ≤ length es
    → Between es offset left right
    → Finds es offset (search_chunk fuel es offset left right)
unfolding search_chunk
search-Finds zero es offset left right c enough lr le b = absurd (omega (arith, enough, lr))
search-Finds (suc fuel) es offset left right c enough lr le b = elim (Bool-cases (ltb left right)) [
  | inl p ↦
      let lt = ltb→lt left right p in
      let m = (left + (right - 1)) / 2 in
      let ml : left ≤ m = omega (arith, lt) in
      let mr : m < right = omega (arith, lt) in
      rw p (
        follow-Finds es offset m _ _ (entry_at 0 es m c (omega (arith, mr, le)))
          (omega (arith, mr, le))
          (λ q.
            search-Finds fuel es offset left m c (omega (arith, mr, enough)) ml
              (omega (arith, mr, le)) (Between-left es offset left right m b q))
          (λ q.
            search-Finds fuel es offset (suc m) right c (omega (arith, ml, enough))
              (omega (arith, mr)) le (Between-right es offset left right m b q)))
  | inr p ↦ rw p (stop-Finds es offset left right (ground (arith, p, lr)) b)
]

-- In a table whose entries follow one another, from 0, the search returns: for an offset within the
-- object it finds the index of the chunk that has it, and for a negative one, or one that is not
-- before the end, it has an error.
pub find_chunk-Finds :
    (es : List Entry) (offset : ℤ)
    → Contiguous 0 es
    → Finds es offset (find_chunk_index_for_offset es offset)
unfolding find_chunk_index_for_offset bound
find_chunk-Finds es (pos k) c =
    search-Finds (suc (length es)) es (pos k) 0 (length es) c (omega arith) (omega arith)
      (omega arith) (omega arith, inr refl)
find_chunk-Finds es (negsuc k) c =
    search-Finds (suc (length es)) es (negsuc k) 0 (length es) c (omega arith) (omega arith)
      (omega arith) tt
