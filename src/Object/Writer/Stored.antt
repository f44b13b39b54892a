-- ===== src/Object/Writer/Stored.antt =====
-- What the index of repo/object/object_writer.go says of the contents in the store.
use mathlib.Core.List.{flatten}
use kopia.Prelude.{
  ◌<◌, ◌^◌, ℕ, ◌+◌, ◌≡◌, refl, inl, inr, true, false, List, All, [], ◌∷◌, ◌++◌, Option, none, some,
  length, Result, ok, err, arith, Result-cases, length-append, Bool, Option-cases, ltb,
  if◌then◌else◌,
}
use kopia.Index.ContentId.{ContentId}
use kopia.Object.Id.{ObjectId, Entry}
use kopia.Object.Read.{IsContents, raw_bytes}
use kopia.Object.Writer.{
  Contents, ChunkWriter, maybe_compressed_content_bytes, set_object, write_chunk,
  prepare_and_write_content_chunk, maybe_compressed_object_id,
}

module _ (cm : Contents) (laws : IsContents cm) where
  open cm use {Store, Error, write_content}
  open laws use {content, decompress, content_written, content_kept}

  -- No content is lost.
  pub record Kept (s t : Store) : Type 0 where
    pub keeps : (c : ContentId) (b : List ℕ) → content s c ≡ some b → content t c ≡ some b

  pub Kept-refl : (s : Store) → Kept s s
  Kept-refl s = record { keeps = λ c b h. h }

  pub Kept-trans : (s t u : Store) → Kept s t → Kept t u → Kept s u
  Kept-trans s t u p q = record { keeps = λ c b h. q.keeps c b (p.keeps c b h) }

  pub raw_bytes-Kept :
      (s t : Store) (oid : ObjectId) (b : List ℕ)
      → Kept s t
      → raw_bytes cm laws s oid ≡ some b
      → raw_bytes cm laws t oid ≡ some b
  unfolding raw_bytes
  raw_bytes-Kept s t oid b k h = elim (Option-cases (content s oid.cid)) [
    | inl e ↦ absurd (ground arith)
    | inr (c, e) ↦ ground (arith, k.keeps oid.cid c e)
  ]

  -- The chunks of an index, from position `pos` on, with the bytes that each stands for.
  abbrev pub Holds : Store → ℕ → List Entry → List (List ℕ) → Type 0
  Holds s pos [] [] = Unit
  Holds s pos [] (p ∷ ps) = ⊥
  Holds s pos (e ∷ es) [] = ⊥
  Holds s pos (e ∷ es) (p ∷ ps) =
      (e.start ≡ pos)
      × (e.length ≡ length p)
      × (raw_bytes cm laws s e.object ≡ some p)
      × laws.IsIssued e.object.cid
      × Holds s (pos + length p) es ps

  pub Holds-Kept :
      (s t : Store) (pos : ℕ) (es : List Entry) (ps : List (List ℕ))
      → Kept s t
      → Holds s pos es ps
      → Holds t pos es ps
  Holds-Kept s t pos [] [] k h = tt
  Holds-Kept s t pos (e ∷ es) (p ∷ ps) k h = (
    h.0,
    h.1,
    raw_bytes-Kept s t e.object p k h.2,
    h.3,
    Holds-Kept s t (pos + length p) es ps k h.4,
  )
  Holds-Kept s t pos [] (p ∷ ps) k h = absurd h
  Holds-Kept s t pos (e ∷ es) [] k h = absurd h

  -- one chunk more, behind all others
  pub Holds-append :
      (s : Store) (pos end : ℕ) (es : List Entry) (ps : List (List ℕ)) (oid : ObjectId) (p : List ℕ)
      → pos + length (flatten ps) ≡ end
      → raw_bytes cm laws s oid ≡ some p
      → laws.IsIssued oid.cid
      → Holds s pos es ps
      → Holds s pos
          (es ++ (record { start = end; length = length p; object = oid } ∷ []))
          (ps ++ (p ∷ []))
  unfolding flatten
  Holds-append s pos end [] [] oid p e r is h = (omega arith, refl, r, is, tt)
  Holds-append s pos end (x ∷ es) (q ∷ ps) oid p e r is h = (
    h.0,
    h.1,
    h.2,
    h.3,
    Holds-append s (pos + length q) end es ps oid p (omega (arith, length-append q (flatten ps))) r
        is h.4,
  )
  Holds-append s pos end [] (q ∷ ps) oid p e r is h = absurd h
  Holds-append s pos end (x ∷ es) [] oid p e r is h = absurd h

  set_object-append :
      (es : List Entry) (e : Entry) (oid : ObjectId)
      → set_object cm (es ++ (e ∷ [])) (length es) oid ≡ es ++ (record e { object = oid } ∷ [])
  unfolding set_object
  set_object-append [] e oid = refl
  set_object-append (x ∷ es) e oid = rw (set_object-append es e oid)

  -- The bytes that are written stand for the bytes of the chunk.
  abbrev Prepared : List ℕ → List ℕ → Bool → Type 0
  Prepared bytes out false = out ≡ bytes
  Prepared bytes out true = decompress out ≡ some bytes

  maybe_compressed-Prepared :
      (comp : Option cm.Compressor) (bytes out : List ℕ) (flag : Bool)
      → maybe_compressed_content_bytes cm comp bytes ≡ ok (out, flag)
      → Prepared bytes out flag
  unfolding maybe_compressed_content_bytes
  maybe_compressed-Prepared none bytes out false e = ground arith
  maybe_compressed-Prepared none bytes out true e = absurd (ground arith)
  maybe_compressed-Prepared (some c) bytes out flag e = elim (Result-cases (cm.compress c bytes)) [
    | inl (z, q) ↦
        chosen z flag (laws.decompress-compress c bytes z q)
          (rw (q, maybe_compressed_content_bytes) at e)
    | inr (x, q) ↦ absurd (ground arith)
  ]
    where
      chosen :
          (z : List ℕ) (f : Bool)
          → decompress z ≡ some bytes
          → Path
              (Result Error (List ℕ × Bool))
              (ok (if ltb (length z) (length bytes) then (z, true) else (bytes, false)))
              (ok (out, f))
          → Prepared bytes out f
      chosen z true d q = let same : z ≡ out = ground arith in rw (← same) d
      chosen z false d q = ground arith

  -- A chunk is written: its entry has the ID of an object that stands for its bytes.
  pub record Chunk (w : ChunkWriter cm) (es : List Entry) (e : Entry) (bytes : List ℕ)
      (v : ChunkWriter cm) : Type 0 where
    pub store : Store
    pub object : ObjectId
    pub state :
        v ≡ record w { store = store; indirect_index = es ++ (record e { object = object } ∷ []) }
    pub kept : Kept w.store store
    pub raw : raw_bytes cm laws store object ≡ some bytes
    pub issued : laws.IsIssued object.cid

  compressed-IsIssued :
      (cid : ContentId) (flag : Bool)
      → laws.IsIssued cid
      → laws.IsIssued (maybe_compressed_object_id cm cid flag).cid
  compressed-IsIssued cid false h = h
  compressed-IsIssued cid true h = h

  pub raw_bytes-direct :
      (s : Store) (oid : ObjectId) (b : List ℕ)
      → raw_bytes cm laws s oid ≡ some b
      → oid.indirection ≡ 0
  unfolding raw_bytes
  raw_bytes-direct s oid b h = ground (arith, h)

  -- an entry of an index that is written: a content, or a compressed one, below 2 ^ 63
  abbrev pub IsListed : Entry → Type 0
  IsListed e =
      laws.IsIssued e.object.cid × (e.object.indirection ≡ 0) × (e.start + e.length < 2 ^ 63)

  pub Holds-IsRaw :
      (s : Store) (pos : ℕ) (es : List Entry) (ps : List (List ℕ))
      → Holds s pos es ps
      → All (λ e. laws.IsIssued e.object.cid × (e.object.indirection ≡ 0)) es
  Holds-IsRaw s pos [] ps h = tt
  Holds-IsRaw s pos (e ∷ es) (p ∷ ps) h =
      ((h.3, raw_bytes-direct s e.object p h.2), Holds-IsRaw s (pos + length p) es ps h.4)
  Holds-IsRaw s pos (e ∷ es) [] h = absurd h

  pub Holds-IsListed :
      (s : Store) (pos : ℕ) (es : List Entry) (ps : List (List ℕ))
      → Holds s pos es ps
      → pos + length (flatten ps) < 2 ^ 63
      → All IsListed es
  unfolding flatten
  Holds-IsListed s pos [] ps h lt = tt
  Holds-IsListed s pos (e ∷ es) (p ∷ ps) h lt =
      let both = length-append p (flatten ps) in
      (
        (h.3, raw_bytes-direct s e.object p h.2, omega (arith, h.0, h.1, both, lt)),
        Holds-IsListed s (pos + length p) es ps h.4 (omega (arith, both, lt)),
      )
  Holds-IsListed s pos (e ∷ es) [] h lt = absurd h

  raw_bytes-written :
      (s : Store) (cid : ContentId) (bytes out : List ℕ) (flag : Bool)
      → Prepared bytes out flag
      → content s cid ≡ some out
      → raw_bytes cm laws s (maybe_compressed_object_id cm cid flag) ≡ some bytes
  unfolding raw_bytes
  raw_bytes-written s cid bytes out false p h = rw (h, p) refl
  raw_bytes-written s cid bytes out true p h = rw (h, p) refl

  after_write-Chunk :
      (w : ChunkWriter cm) (es : List Entry) (e : Entry) (bytes out : List ℕ) (flag : Bool)
      (comp : ℕ)
      → w.indirect_index ≡ es ++ (e ∷ [])
      → Prepared bytes out flag
      → (write_chunk cm w (length es) comp (ok (out, flag))).0 ≡ ok tt
      → Chunk w es e bytes (write_chunk cm w (length es) comp (ok (out, flag))).1
  after_write-Chunk w es e bytes out flag comp i p h =
      let x = write_content w.store out w.prefix comp in
      elim (Result-cases x.0) [
        | inl (cid, q) ↦ rw q (record {
          store = x.1;
          object = maybe_compressed_object_id cm cid flag;
          state = rw (i, set_object-append es e (maybe_compressed_object_id cm cid flag)) refl;
          kept = record { keeps = λ c b k. content_kept w.store out w.prefix comp c b k };
          raw =
              raw_bytes-written x.1 cid bytes out flag p
                (content_written w.store out w.prefix comp cid q);
          issued = compressed-IsIssued cid flag (laws.issued w.store out w.prefix comp cid q);
        })
        | inr (z, q) ↦ absurd (ground arith)
      ]

  write_chunk-Chunk :
      (w : ChunkWriter cm) (es : List Entry) (e : Entry) (bytes : List ℕ) (comp : ℕ)
      (prepared : Result Error (List ℕ × Bool)) (oc : Option cm.Compressor)
      → maybe_compressed_content_bytes cm oc bytes ≡ prepared
      → w.indirect_index ≡ es ++ (e ∷ [])
      → (write_chunk cm w (length es) comp prepared).0 ≡ ok tt
      → Chunk w es e bytes (write_chunk cm w (length es) comp prepared).1
  write_chunk-Chunk w es e bytes comp (err z) oc q i h = absurd (cc)
  write_chunk-Chunk w es e bytes comp (ok (out, flag)) oc q i h =
      after_write-Chunk w es e bytes out flag comp i (maybe_compressed-Prepared oc bytes out flag q)
        h

  pub prepare-Chunk :
      (w : ChunkWriter cm) (es : List Entry) (e : Entry) (bytes : List ℕ)
      → w.indirect_index ≡ es ++ (e ∷ [])
      → (prepare_and_write_content_chunk cm w (length es) bytes).0 ≡ ok tt
      → Chunk w es e bytes (prepare_and_write_content_chunk cm w (length es) bytes).1
  unfolding prepare_and_write_content_chunk
  prepare-Chunk w es e bytes i h = elim (Result-cases (cm.supports_content_compression w.store)) [
    | inl (scc, q) ↦ rw q (write_chunk-Chunk w es e bytes _ _ _ refl i (rw q at h))
    | inr (z, q) ↦ absurd (ground arith)
  ]
