-- ===== src/Object/Writer/Reads.antt =====
-- Reading an indirect object by repo/object/object_reader.go, from what the store holds.
use mathlib.Core.List.{flatten}
use kopia.Prelude.{
  ℕ, zero, suc, ◌+◌, ◌%◌, ◌-◌, ◌≤◌, ◌<◌, ◌≡◌, refl, ap, true, false, List, [], ◌∷◌, ◌++◌, Option,
  none, some, length, take, length-append, arith, append-nil, ltb, lt→ltb, ◌==◌, ◌&&◌,
}
use kopia.Object.Id.{ObjectId, Entry, indirect_object_id, index_object_id}
use kopia.Object.Read.{
  IsContents, raw_bytes, read_object, read_chunks, read_table, assert_length, total_length,
  load_index, read_reader, read_full,
}
use kopia.Object.Writer.{Contents}
use kopia.Object.Writer.Stored.{Holds, raw_bytes-direct, Holds-IsRaw}

empty-length : (xs : List ℕ) → 0 ≡ length xs → [] ≡ xs
empty-length [] h = refl
empty-length (x ∷ xs) h = absurd (omega (arith, h))

take-whole : (n : ℕ) (xs : List ℕ) → length xs ≤ n → take n xs ≡ xs
take-whole zero [] h = refl
take-whole (suc n) [] h = refl
take-whole zero (x ∷ xs) h = absurd (omega (arith, h))
take-whole (suc n) (x ∷ xs) h = rw (take-whole n xs (omega (arith, h))) refl

module _ (cm : Contents) (laws : IsContents cm) where
  open cm use {Store, Error}

  -- An object reads as these bytes, at as many levels of indirection as its ID says.
  pub record Reads (s : Store) (oid : ObjectId) (bytes : List ℕ) : Type 0 where
    pub reads : (k : ℕ) → oid.indirection ≤ k → read_object cm laws (suc k) s oid none ≡ some bytes

  direct_read :
      (s : Store) (oid : ObjectId) (k : ℕ) (wanted : Option ℕ)
      → oid.indirection ≡ 0
      → read_object cm laws (suc k) s oid wanted
        ≡ assert_length cm laws wanted (raw_bytes cm laws s oid)
  unfolding read_object index_object_id
  direct_read s oid k wanted h = rw h refl

  pub raw_bytes-Reads :
      (s : Store) (oid : ObjectId) (b : List ℕ) → raw_bytes cm laws s oid ≡ some b → Reads s oid b
  raw_bytes-Reads s oid b h = record {
    reads = λ k le. rw h at (direct_read s oid k none (raw_bytes-direct cm laws s oid b h));
  }

  length_refl : (b : List ℕ) → assert_length cm laws (some (length b)) (some b) ≡ some b
  length_refl b = ground arith

  chunk_read :
      (s : Store) (oid : ObjectId) (k : ℕ) (b : List ℕ)
      → raw_bytes cm laws s oid ≡ some b
      → read_object cm laws (suc k) s oid (some (length b)) ≡ some b
  chunk_read s oid k b h =
      rw (direct_read s oid k (some (length b)) (raw_bytes-direct cm laws s oid b h), h)
        (length_refl b)

  -- Read gives the bytes of the chunks, for a buffer of all their lengths.
  Holds-read :
      (s : Store) (pos k n : ℕ) (es : List Entry) (ps : List (List ℕ))
      → Holds cm laws s pos es ps
      → n ≡ length (flatten ps)
      → read_chunks cm laws (λ o m. read_object cm laws (suc k) s o (some m)) n es
        ≡ some (flatten ps)
  unfolding read_chunks flatten
  Holds-read s pos k n [] [] h e = refl
  Holds-read s pos k zero (e ∷ es) (p ∷ ps) h q = ap some (empty-length (p ++ flatten ps) q)
  Holds-read s pos k (suc n) (e ∷ es) (p ∷ ps) h q =
      let split : suc n ≡ length p + length (flatten ps) =
        omega (arith, q, length-append p (flatten ps)) in
      let chunk = chunk_read s e.object k p h.2 in
      let rest =
        Holds-read s (pos + length p) k (suc n - length p) es ps h.4 (omega (arith, split)) in
      rw (h.1, chunk, rest, take-whole (suc n) p (omega (arith, split))) refl
  Holds-read s pos k n [] (p ∷ ps) h q = absurd h
  Holds-read s pos k n (e ∷ es) [] h q = absurd h

  Holds-total :
      (s : Store) (pos : ℕ) (es : List Entry) (ps : List (List ℕ))
      → Holds cm laws s pos es ps
      → 0 < length es
      → total_length cm laws es ≡ some (pos + length (flatten ps))
  unfolding total_length flatten
  Holds-total s pos [] ps h lt = absurd (omega (arith, lt))
  Holds-total s pos (e ∷ []) (p ∷ []) h lt = ground (arith, h.0, h.1, append-nil p)
  Holds-total s pos (e ∷ []) (p ∷ q ∷ ps) h lt = absurd h.4
  Holds-total s pos (e ∷ e1 ∷ es) (p ∷ ps) h lt =
      rw
        (
          Holds-total s (pos + length p) (e1 ∷ es) ps h.4 (omega arith),
          length-append p (flatten ps),
        )
        (ground arith)
  Holds-total s pos (e ∷ es) [] h lt = absurd h

  index-indirect :
      (oid : ObjectId)
      → oid.indirection < 255
      → index_object_id (indirect_object_id oid) ≡ (oid, true)
  unfolding index_object_id
  index-indirect oid lt =
      let same : (oid.indirection + 1) % 256 ≡ suc oid.indirection = omega (arith, lt) in
      let below = lt→ltb 0 (suc oid.indirection) (omega arith) in
      let back : suc oid.indirection - 1 ≡ oid.indirection = omega arith in
      rw (same, below, back) refl

  indirect_round :
      (s : Store) (oid : ObjectId) (k : ℕ)
      → oid.indirection < 255
      → read_object cm laws (suc (suc k)) s (indirect_object_id oid) none
        ≡ read_table cm laws
            (λ o m. read_object cm laws (suc k) s o (some m))
            none
            (load_index cm laws (read_object cm laws (suc k) s oid none))
  unfolding read_object
  indirect_round s oid k lt = rw (index-indirect oid lt) refl

  read_full_refl : (b : List ℕ) → read_full cm laws (length b) (some b) ≡ some b
  read_full_refl b = ground arith

  never_short : (n : ℕ) → ((n == 0) && ltb 0 n) ≡ false
  never_short n = ground arith

  Holds-read_reader :
      (s : Store) (k n : ℕ) (es : List Entry) (ps : List (List ℕ))
      → Holds cm laws s 0 es ps
      → n ≡ length (flatten ps)
      → read_reader cm laws (λ o m. read_object cm laws (suc k) s o (some m)) none es (some n)
        ≡ some (flatten ps)
  Holds-read_reader s k n es ps h e =
      rw (never_short n, Holds-read s 0 k n es ps h e, e) (read_full_refl (flatten ps))

  Holds-read_table :
      (s : Store) (k : ℕ) (es : List Entry) (ps : List (List ℕ))
      → Holds cm laws s 0 es ps
      → 0 < length es
      → read_table cm laws (λ o m. read_object cm laws (suc k) s o (some m)) none (some es)
        ≡ some (flatten ps)
  Holds-read_table s k es ps h lt =
      rw (Holds-total s 0 es ps h lt)
        (Holds-read_reader s k (0 + length (flatten ps)) es ps h (omega arith))

  indirect-read :
      (s : Store) (oid : ObjectId) (es : List Entry) (ps : List (List ℕ))
      → Reads s oid (cm.encode_index es)
      → Holds cm laws s 0 es ps
      → 0 < length es
      → oid.indirection < 255
      → (k : ℕ) → (oid.indirection + 1) % 256 ≤ k
      → read_object cm laws (suc k) s (indirect_object_id oid) none ≡ some (flatten ps)
  indirect-read s oid es ps h holds some_entry lt zero le = absurd (omega (arith, lt, le))
  indirect-read s oid es ps h holds some_entry lt (suc k) le =
      rw
        (
          indirect_round s oid k lt,
          h.reads k (omega (arith, lt, le)),
          laws.decode_index-encode_index es (Holds-IsRaw cm laws s 0 es ps holds),
        )
        (Holds-read_table s k es ps holds some_entry)

  -- An indirect object reads as the chunks that its index names.
  pub indirect-Reads :
      (s : Store) (oid : ObjectId) (es : List Entry) (ps : List (List ℕ))
      → Reads s oid (cm.encode_index es)
      → Holds cm laws s 0 es ps
      → 0 < length es
      → oid.indirection < 255
      → Reads s (indirect_object_id oid) (flatten ps)
  indirect-Reads s oid es ps h holds some_entry lt = record {
    reads = indirect-read s oid es ps h holds some_entry lt;
  }
