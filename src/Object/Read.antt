-- ===== src/Object/Read.antt =====
-- repo/object/object_reader.go: opening an object and reading all of it. A direct object is a content,
-- an indirect one is the list of its chunks, which is an object itself.
use kopia.Prelude.{
  ℕ, zero, suc, ◌-◌, ◌&&◌, take, All, ◌≡◌, Bool, List, [], ◌∷◌, ◌++◌, Option, none, some, length,
  ◌==◌, ltb, if◌then◌else◌, ok,
}
use kopia.Index.ContentId.{ContentId}
use kopia.Object.Id.{ObjectId, Entry, end_offset, index_object_id, content_id}
use kopia.Object.Writer.{Contents}

-- The reading side of the content manager, of the compressors and of encoding/json: what was written
-- is found again, and no later write takes it away.
pub record IsContents (cm : Contents) : Type 1 where
  -- GetContent, `none` for an error
  pub content : cm.Store → ContentId → Option (List ℕ)
  -- DecompressByHeader
  pub decompress : List ℕ → Option (List ℕ)
  -- json.NewDecoder(r).Decode
  pub decode_index : List ℕ → Option (List Entry)
  pub content_written :
      (s : cm.Store) (bytes prefix : List ℕ) (comp : ℕ) (cid : ContentId)
      → (cm.write_content s bytes prefix comp).0 ≡ ok cid
      → content (cm.write_content s bytes prefix comp).1 cid ≡ some bytes
  pub content_kept :
      (s : cm.Store) (bytes prefix : List ℕ) (comp : ℕ) (c : ContentId) (b : List ℕ)
      → content s c ≡ some b
      → content (cm.write_content s bytes prefix comp).1 c ≡ some b
  pub decompress-compress :
      (c : cm.Compressor) (bytes output : List ℕ)
      → cm.compress c bytes ≡ ok output
      → decompress output ≡ some bytes
  -- the IDs that WriteContent gives, which are those that encoding/json has to keep
  pub IsIssued : ContentId → Type 0
  pub issued :
      (s : cm.Store) (bytes prefix : List ℕ) (comp : ℕ) (cid : ContentId)
      → (cm.write_content s bytes prefix comp).0 ≡ ok cid
      → IsIssued cid
  -- the entries that the writer makes: contents, compressed or not, but no indirect objects
  pub decode_index-encode_index :
      (es : List Entry)
      → All (λ e. IsIssued e.object.cid × (e.object.indirection ≡ 0)) es
      → decode_index (cm.encode_index es) ≡ some es

module _ (cm : Contents) (laws : IsContents cm) where
  open cm use {Store}
  open laws use {content, decompress, decode_index}

  -- the payload, decompressed if the ID says so
  abbrev pub payload : Bool → Option (List ℕ) → Option (List ℕ)
  payload is_compressed none = none
  payload is_compressed (some bytes) = if is_compressed then decompress bytes else some bytes

  -- `if assertLength != -1 && int64(len(payload)) != assertLength`
  abbrev pub assert_length : Option ℕ → Option (List ℕ) → Option (List ℕ)
  assert_length wanted none = none
  assert_length none (some bytes) = some bytes
  assert_length (some n) (some bytes) = if length bytes == n then some bytes else none

  -- newRawReader, before its length is asserted
  unfoldable pub raw_bytes : Store → ObjectId → Option (List ℕ)
  unfolding content_id
  raw_bytes s oid =
      let (cid, is_compressed, is_direct) = content_id oid in
      if is_direct then payload is_compressed (content s cid) else none

  -- one chunk is copied, or what the buffer has room for, before the chunks behind it
  abbrev pub copy_chunk : ℕ → Option (List ℕ) → Option (List ℕ) → Option (List ℕ)
  copy_chunk remaining (some b) (some bs) = some (take remaining b ++ bs)
  copy_chunk remaining (some b) none = none
  copy_chunk remaining none rest = none

  -- Read(buffer) at the first position of a seek table, for a buffer of `remaining` bytes:
  -- openCurrentChunk gives each chunk, which has the length that the table says.
  unfoldable pub read_chunks : (ObjectId → ℕ → Option (List ℕ)) → ℕ → List Entry → Option (List ℕ)
  read_chunks read remaining [] = some []
  read_chunks read zero (e ∷ es) = some []
  read_chunks read (suc n) (e ∷ es) =
      copy_chunk (suc n) (read e.object e.length) (read_chunks read (suc n - e.length) es)

  -- `seekTable[len(seekTable)-1].endOffset()`; for an empty table the code panics.
  unfoldable pub total_length : List Entry → Option ℕ
  total_length [] = none
  total_length (e ∷ es) = elim es [ [] ↦ some (end_offset e) | _ ∷ _ ↦ total_length es ]

  -- io.ReadFull of n bytes: an error if there are fewer
  abbrev pub read_full : ℕ → Option (List ℕ) → Option (List ℕ)
  read_full n none = none
  read_full n (some bytes) = if length bytes == n then some bytes else none

  -- the buffer: the length that is asserted, or else the whole object
  abbrev pub buffer_length : Option ℕ → ℕ → ℕ
  buffer_length none total = total
  buffer_length (some n) total = n

  -- an objectReader over a seek table is made and read
  abbrev pub read_reader :
      (ObjectId → ℕ → Option (List ℕ)) → Option ℕ → List Entry → Option ℕ → Option (List ℕ)
  read_reader read wanted es none = none
  read_reader read wanted es (some total) =
      let n = buffer_length wanted total in
      if (total == 0) && ltb 0 n then none else read_full n (read_chunks read n es)

  -- LoadIndexObject, given the bytes of the index object, and what follows it
  abbrev pub read_table :
      (ObjectId → ℕ → Option (List ℕ)) → Option ℕ → Option (List Entry) → Option (List ℕ)
  read_table read wanted none = none
  read_table read wanted (some es) = read_reader read wanted es (total_length es)

  abbrev pub load_index : Option (List ℕ) → Option (List Entry)
  load_index none = none
  load_index (some text) = decode_index text

  -- openAndAssertLength, and io.ReadFull of the length that is asserted, or of all; the fuel bounds
  -- the levels of indirection.
  unfoldable pub read_object : ℕ → Store → ObjectId → Option ℕ → Option (List ℕ)
  unfolding index_object_id raw_bytes read_chunks total_length
  read_object zero s oid wanted = none
  read_object (suc fuel) s oid wanted =
      let (index_id, is_indirect) = index_object_id oid in
      let indirect =
        read_table (λ o n. read_object fuel s o (some n)) wanted
          (load_index (read_object fuel s index_id none)) in
      if is_indirect then indirect else assert_length wanted (raw_bytes s oid)
