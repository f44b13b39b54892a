-- ===== src/Object/Writer.antt =====
-- repo/object/object_writer.go: the writer that cuts a stream into contents at the split points of a
-- splitter, and makes an object of them.
-- The content manager, the compressors and encoding/json are parameters (Contents). A content is the
-- list of its bytes. Locks are not modelled: the public methods exclude one another. An asynchronous
-- write stands in `in_flight` from the moment the code starts its goroutine until `finish_async`.

pub mod Streaming
pub mod Calls
pub mod Stored
pub mod Flushed
pub mod Taking
pub mod Reads
pub mod ReadBack
pub mod Levels
pub mod Returns
use kopia.Prelude.{
  ℕ, zero, suc, ◌+◌, ◌-◌, Bool, true, false, not, ◌&&◌, ◌||◌, List, [], ◌∷◌, ◌++◌, Option, none,
  some, length, take, drop, get_elem?, set, ltb, ◌==◌, if◌then◌else◌, Result, ok, err,
}
use kopia.Index.ContentId.{ContentId}
use kopia.Object.Id.{
  ObjectId, Entry, empty_object_id, direct_object_id, compressed, indirect_object_id,
}
use kopia.Splitter.{Splitter}

-- The content manager behind the interface contentManager, as a state that a write changes, and the
-- libraries that the writer calls.
pub record Contents : Type 1 where
  pub Store : Type 0
  pub Error : Type 0
  pub Compressor : Type 0
  -- SupportsContentCompression()
  pub supports_content_compression : Store → Result Error Bool
  -- WriteContent(ctx, data, prefix, comp)
  pub write_content : Store → List ℕ → List ℕ → ℕ → Result Error ContentId × Store
  -- HeaderID()
  pub header_id : Compressor → ℕ
  -- Compress(output, input)
  pub compress : Compressor → List ℕ → Result Error (List ℕ)
  -- content.NoCompression
  pub no_compression : ℕ
  -- json.NewEncoder(w).Encode of the stream "kopia:indirect"
  pub encode_index : List Entry → List ℕ

module _ (cm : Contents) where
  open cm use {Store, Error, Compressor}

  -- The fields of objectWriter that writing a chunk reads and changes.
  pub record ChunkWriter : Type 0 where
    pub store : Store
    pub compressor : Option Compressor
    pub prefix : List ℕ
    pub buffer : List ℕ
    pub current_position : ℕ
    pub indirect_index : List Entry
    -- asyncWritesSemaphore != nil
    pub async_writes : Bool
    pub in_flight : List (ℕ × List ℕ)
    pub content_write_error : Option Error

module _ (cm : Contents) where
  open cm use {
    Store, Error, Compressor, supports_content_compression, write_content, header_id, compress,
    no_compression,
  }

  -- maybeCompressedObjectID
  abbrev pub maybe_compressed_object_id : ContentId → Bool → ObjectId
  maybe_compressed_object_id cid is_compressed =
      if is_compressed then compressed (direct_object_id cid) else direct_object_id cid

  -- maybeCompressedContentBytes: the bytes to write, and whether they are compressed
  unfoldable pub maybe_compressed_content_bytes :
      Option Compressor → List ℕ → Result Error (List ℕ × Bool)
  maybe_compressed_content_bytes none input = ok (input, false)
  maybe_compressed_content_bytes (some comp) input = elim (compress comp input) [
    | err e ↦ err e
    | ok output ↦ ok (if ltb (length output) (length input) then (output, true) else (input, false))
  ]

  -- `w.indirectIndex[chunkID].Object = id`
  unfoldable pub set_object : List Entry → ℕ → ObjectId → List Entry
  set_object [] k id = []
  set_object (e ∷ es) zero id = record e { object = id } ∷ es
  set_object (e ∷ es) (suc k) id = e ∷ set_object es k id

  -- the compression that is left to the content manager, and that of this layer
  abbrev pub choose_compression : Bool → Option Compressor → ℕ × Option Compressor
  choose_compression scc none = (no_compression, none)
  choose_compression scc (some c) = if scc then (header_id c, none) else (no_compression, some c)

  -- the index under its lock, after WriteContent
  abbrev pub after_write :
      ChunkWriter cm
      → ℕ
      → Bool
      → Result Error ContentId × Store
      → Result Error (Unit {0}) × ChunkWriter cm
  after_write w chunk_id is_compressed (err e, store) = (err e, record w { store = store })
  after_write w chunk_id is_compressed (ok cid, store) = (
    ok tt,
    record w {
      store = store;
      indirect_index =
          set_object w.indirect_index chunk_id (maybe_compressed_object_id cid is_compressed);
    },
  )

  -- WriteContent, if there are bytes to write
  abbrev pub write_chunk :
      ChunkWriter cm
      → ℕ
      → ℕ
      → Result Error (List ℕ × Bool)
      → Result Error (Unit {0}) × ChunkWriter cm
  write_chunk w chunk_id comp (err e) = (err e, w)
  write_chunk w chunk_id comp (ok (content_bytes, is_compressed)) =
      after_write w chunk_id is_compressed (write_content w.store content_bytes w.prefix comp)

  -- what follows SupportsContentCompression
  abbrev pub prepare_chunk :
      ChunkWriter cm → ℕ → List ℕ → Result Error Bool → Result Error (Unit {0}) × ChunkWriter cm
  prepare_chunk w chunk_id bytes (err e) = (err e, w)
  prepare_chunk w chunk_id bytes (ok scc) =
      let (comp, object_comp) = choose_compression scc w.compressor in
      write_chunk w chunk_id comp (maybe_compressed_content_bytes object_comp bytes)

  -- prepareAndWriteContentChunk(chunkID, data)
  unfoldable pub prepare_and_write_content_chunk :
      ChunkWriter cm → ℕ → List ℕ → Result Error (Unit {0}) × ChunkWriter cm
  prepare_and_write_content_chunk w chunk_id bytes =
      prepare_chunk w chunk_id bytes (supports_content_compression w.store)

  -- saveError(err)
  unfoldable pub save_error :
      Result Error (Unit {0}) × ChunkWriter cm → Result Error (Unit {0}) × ChunkWriter cm
  save_error (ok x, w) = (ok x, w)
  save_error (err e, w) = (err e, record w { content_write_error = some e })

  abbrev pub reset_buffer :
      Result Error (Unit {0}) × ChunkWriter cm → Result Error (Unit {0}) × ChunkWriter cm
  reset_buffer (r, w) = (r, record w { buffer = [] })

  -- the entry that flushBuffer adds to the index, and the position behind it
  unfoldable pub grow_index : ChunkWriter cm → ChunkWriter cm
  grow_index w = record w {
    indirect_index =
        w.indirect_index
        ++ (record {
          start = w.current_position;
          length = length w.buffer;
          object = empty_object_id;
        }
            ∷ []);
    current_position = w.current_position + length w.buffer;
  }

  -- flushBuffer()
  unfoldable pub flush_buffer : ChunkWriter cm → Result Error (Unit {0}) × ChunkWriter cm
  unfolding save_error grow_index
  flush_buffer w =
      let chunk_id = length w.indirect_index in
      let w1 = grow_index w in
      if w.async_writes
      then (
        ok tt,
        record w1 { in_flight = w.in_flight ++ ((chunk_id, w.buffer) ∷ []); buffer = [] },
      )
      else reset_buffer (save_error (prepare_and_write_content_chunk w1 chunk_id w.buffer))

  -- w.buffer.Append(data)
  abbrev pub append_buffer : ChunkWriter cm → List ℕ → ChunkWriter cm
  append_buffer w bytes = record w { buffer = w.buffer ++ bytes }

  -- The body of one goroutine: the asynchronous write at position k of those in flight.
  unfoldable pub finish_write : ChunkWriter cm → ℕ × List ℕ → ChunkWriter cm
  unfolding save_error
  finish_write w (chunk_id, bytes) =
      (save_error (prepare_and_write_content_chunk w chunk_id bytes)).1

  -- asyncWritesWG.Wait(): all writes in flight end, one after the other in the order of the list.
  unfoldable pub finish_all : ChunkWriter cm → List (ℕ × List ℕ) → ChunkWriter cm
  finish_all w [] = w
  finish_all w (p ∷ ps) = finish_all (finish_write w p) ps

module _ (cm : Contents) (S : Splitter) where
  open cm use {Error, encode_index}
  open S use {State, next_split_point}

  pub record ObjectWriter : Type 0 where
    pub chunks : ChunkWriter cm
    pub total_length : ℕ
    pub splitter : State

  -- The loop of Write over what is left of the data. `none` means that the fuel ran out.
  unfoldable pub write_loop :
      ℕ
      → State
      → ChunkWriter cm
      → List ℕ
      → Option (Result Error (Unit {0}) × State × ChunkWriter cm)
  write_loop fuel s w [] = some (ok tt, s, w)
  write_loop zero s w (b ∷ bs) = none
  write_loop (suc fuel) s w (b ∷ bs) =
      let (at, s1) = next_split_point s (b ∷ bs) in
      elim at [
        | none ↦ some (ok tt, s1, append_buffer cm w (b ∷ bs))
        | some n ↦
            let (r, w1) = flush_buffer cm (append_buffer cm w (take n (b ∷ bs))) in
            elim r [ err e ↦ some (err e, s1, w1) | ok _ ↦ write_loop fuel s1 w1 (drop n (b ∷ bs)) ]
      ]

  abbrev pub finish_write_call :
      ℕ
      → ℕ
      → Option (Result Error (Unit {0}) × State × ChunkWriter cm)
      → Option (Result Error ℕ × ObjectWriter)
  finish_write_call n total none = none
  finish_write_call n total (some (ok _, s, w)) =
      some (ok n, record { chunks = w; total_length = total; splitter = s })
  finish_write_call n total (some (err e, s, w)) =
      some (err e, record { chunks = w; total_length = total; splitter = s })

  -- Write(data): every round takes a byte at least, so `length data` rounds are enough.
  unfoldable pub write : ObjectWriter → List ℕ → Option (Result Error ℕ × ObjectWriter)
  unfolding write_loop
  write w bytes =
      finish_write_call (length bytes) (w.total_length + length bytes)
        (write_loop (length bytes) w.splitter w.chunks bytes)

module _ (cm : Contents) (S : Splitter) (new_splitter : S.State) where
  open cm use {Error, encode_index}

  abbrev pub Outcome : Type 0
  Outcome = Option (Result Error ObjectId × ChunkWriter cm)

  -- The writer of the list of entries: `iw` in checkpointLocked.
  unfoldable pub index_writer : ChunkWriter cm → ChunkWriter cm
  index_writer w = record {
    store = w.store;
    compressor = none;
    prefix = if length w.prefix == 0 then b'x' ∷ [] else w.prefix;
    buffer = [];
    current_position = 0;
    indirect_index = [];
    async_writes = false;
    in_flight = [];
    content_write_error = none;
  }

  -- asyncWritesWG.Wait()
  abbrev pub wait : ChunkWriter cm → ChunkWriter cm
  wait w = finish_all cm (record w { in_flight = [] }) w.in_flight

  -- Result(), given checkpointLocked()
  unfoldable pub result_with : (ChunkWriter cm → Outcome) → ChunkWriter cm → Outcome
  result_with checkpoint w =
      if ltb 0 (length w.buffer) || length w.indirect_index == 0
      then (let (r, w1) = flush_buffer cm w in
          elim r [ err e ↦ some (err e, w1) | ok _ ↦ checkpoint w1 ])
      else checkpoint w

  -- IndirectObjectID(oid) of the inner writer's result; the outer writer keeps the store.
  unfoldable pub indirect_result : ChunkWriter cm → Outcome → Outcome
  indirect_result w none = none
  indirect_result w (some (err e, iw)) = some (err e, record w { store = iw.store })
  indirect_result w (some (ok oid, iw)) =
      some (ok (indirect_object_id oid), record w { store = iw.store })

  -- what follows writeIndirectObject
  abbrev pub after_index_write :
      (ChunkWriter cm → Outcome)
      → ChunkWriter cm
      → Option (Result Error (Unit {0}) × S.State × ChunkWriter cm)
      → Outcome
  after_index_write checkpoint w none = none
  after_index_write checkpoint w (some (err e, s, iw)) = some (err e, record w { store = iw.store })
  after_index_write checkpoint w (some (ok _, s, iw)) =
      indirect_result w (result_with checkpoint iw)

  -- The index object: its entries are written, and its own result is taken.
  unfoldable pub write_indirect_object : (ChunkWriter cm → Outcome) → ChunkWriter cm → Outcome
  write_indirect_object checkpoint w =
      let text = encode_index w.indirect_index in
      after_index_write checkpoint w
        (write_loop cm S (length text) new_splitter (index_writer w) text)

  -- the ID by the number of entries, given what writes the index object
  abbrev pub by_entries : (ChunkWriter cm → Outcome) → ChunkWriter cm → List Entry → Outcome
  by_entries indirect w [] = some (ok empty_object_id, w)
  by_entries indirect w (e ∷ []) = some (ok e.object, w)
  by_entries indirect w (e ∷ _ ∷ _) = indirect w

  -- what follows the wait
  abbrev pub after_wait : (ChunkWriter cm → Outcome) → ChunkWriter cm → Option Error → Outcome
  after_wait indirect w (some e) = some (err e, w)
  after_wait indirect w none = by_entries indirect w w.indirect_index

  -- checkpointLocked(); the fuel bounds the levels of indirection.
  unfoldable pub checkpoint_locked : ℕ → ChunkWriter cm → Outcome
  unfolding write_indirect_object
  checkpoint_locked zero w = none
  checkpoint_locked (suc fuel) w =
      after_wait (write_indirect_object (checkpoint_locked fuel)) (wait w)
        (wait w).content_write_error

  -- Result()
  unfoldable pub result : ℕ → ChunkWriter cm → Outcome
  unfolding checkpoint_locked result_with
  result fuel w = result_with (checkpoint_locked fuel) w
