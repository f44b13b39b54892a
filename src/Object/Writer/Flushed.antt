-- ===== src/Object/Writer/Flushed.antt =====
-- flushBuffer and Write of repo/object/object_writer.go keep every byte: the chunks of the index stand
-- for the bytes before those that are buffered. For a writer without asynchronous writes.
use mathlib.Core.List.{flatten}
use kopia.Prelude.{
  ℕ, zero, suc, ◌+◌, ◌≡◌, refl, sym, inl, inr, false, List, [], ◌∷◌, ◌++◌, Option, none, some,
  length, take, drop, Result, ok, err, arith, Option-cases, length-append, append-nil, append_assoc,
  take-append-drop,
}
use kopia.Object.Id.{empty_object_id}
use kopia.Object.Read.{IsContents}
use kopia.Object.Writer.{
  Contents, ChunkWriter, prepare_and_write_content_chunk, save_error, reset_buffer, grow_index,
  flush_buffer, append_buffer, write_loop,
}
use kopia.Object.Writer.Stored.{
  Kept, Kept-refl, Kept-trans, Holds, Holds-Kept, Holds-append, Chunk, prepare-Chunk,
}
use kopia.Object.Writer.Streaming.{go_on, write_loop-round, write_loop-nil}
use kopia.Splitter.{Splitter, IsSplitter}

flatten-snoc : (ps : List (List ℕ)) (p : List ℕ) → flatten (ps ++ (p ∷ [])) ≡ flatten ps ++ p
unfolding flatten
flatten-snoc [] p = append-nil p
flatten-snoc (q ∷ ps) p = rw (flatten-snoc ps p, append_assoc q (flatten ps) p)

module _ (cm : Contents) (laws : IsContents cm) where
  open cm use {Store, Error}

  -- The writer has taken these bytes, none of them asynchronously and with no error.
  pub record Wrote (w : ChunkWriter cm) (bytes : List ℕ) : Type 0 where
    pub pieces : List (List ℕ)
    pub holds : Holds cm laws w.store 0 w.indirect_index pieces
    pub position : w.current_position ≡ length (flatten pieces)
    pub all : flatten pieces ++ w.buffer ≡ bytes
    pub sync : w.async_writes ≡ false
    pub idle : w.in_flight ≡ []
    pub no_error : w.content_write_error ≡ none

  flush_sync :
      (w : ChunkWriter cm)
      → w.async_writes ≡ false
      → flush_buffer cm w
        ≡ reset_buffer cm (
            save_error cm (
              prepare_and_write_content_chunk cm
                (grow_index cm w)
                (length w.indirect_index)
                w.buffer))
  unfolding flush_buffer
  flush_sync w h = rw h refl

  -- The state behind a flush.
  pub record Flushed (w : ChunkWriter cm) (bytes : List ℕ) (v : ChunkWriter cm) : Type 0 where
    pub wrote : Wrote v bytes
    pub empty : v.buffer ≡ []
    pub kept : Kept cm laws w.store v.store
    pub grown : length v.indirect_index ≡ length w.indirect_index + 1

  Chunk-Flushed :
      (w : ChunkWriter cm) (bytes : List ℕ) (v : ChunkWriter cm)
      → Wrote w bytes
      → Chunk cm laws
          (grow_index cm w)
          w.indirect_index
          (record {
            start = w.current_position;
            length = length w.buffer;
            object = empty_object_id;
          })
          w.buffer
          v
      → Flushed w bytes (record v { buffer = [] })
  unfolding grow_index
  Chunk-Flushed w bytes v h c = rw c.state (record {
    wrote = record {
      pieces = h.pieces ++ (w.buffer ∷ []);
      holds =
          Holds-append cm laws c.store 0 w.current_position w.indirect_index h.pieces c.object
            w.buffer (omega (arith, h.position)) c.raw c.issued
            (Holds-Kept cm laws w.store c.store 0 w.indirect_index h.pieces c.kept h.holds);
      position =
          rw flatten-snoc (omega (arith, h.position, length-append (flatten h.pieces) w.buffer));
      all = rw (flatten-snoc, append-nil) h.all;
      sync = h.sync;
      idle = h.idle;
      no_error = h.no_error;
    };
    empty = refl;
    kept = c.kept;
    grown = omega (
      arith,
      length-append w.indirect_index
          (record { start = w.current_position; length = length w.buffer; object = c.object } ∷ []),
    );
  })

  saved-Flushed :
      (w : ChunkWriter cm) (bytes : List ℕ) (x : Result Error (Unit {0}) × ChunkWriter cm)
      → Wrote w bytes
      → (reset_buffer cm (save_error cm x)).0 ≡ ok tt
      → (x.0 ≡ ok tt
          → Chunk cm laws
              (grow_index cm w)
              w.indirect_index
              (record {
                start = w.current_position;
                length = length w.buffer;
                object = empty_object_id;
              })
              w.buffer
              x.1)
      → Flushed w bytes (reset_buffer cm (save_error cm x)).1
  unfolding save_error
  saved-Flushed w bytes (ok u, v) h e c = Chunk-Flushed w bytes v h (c refl)
  saved-Flushed w bytes (err z, v) h e c = absurd (cc)

  pub flush-Flushed :
      (w : ChunkWriter cm) (bytes : List ℕ)
      → Wrote w bytes
      → (flush_buffer cm w).0 ≡ ok tt
      → Flushed w bytes (flush_buffer cm w).1
  unfolding grow_index
  flush-Flushed w bytes h e = rw (flush_sync w h.sync) (
      saved-Flushed w bytes _ h (rw (flush_sync w h.sync) at e)
        (λ q. prepare-Chunk cm laws (grow_index cm w) w.indirect_index _ w.buffer refl q))

  pub Wrote-append_buffer :
      (w : ChunkWriter cm) (bytes more : List ℕ)
      → Wrote w bytes
      → Wrote (append_buffer cm w more) (bytes ++ more)
  Wrote-append_buffer w bytes more h = record {
    pieces = h.pieces;
    holds = h.holds;
    position = h.position;
    all = rw (← h.all) (sym (append_assoc (flatten h.pieces) w.buffer more));
    sync = h.sync;
    idle = h.idle;
    no_error = h.no_error;
  }

module _ (cm : Contents) (laws : IsContents cm) (S : Splitter) (splits : IsSplitter S) where
  open cm use {Store, Error}
  open S use {State, next_split_point}

  -- A call of Write that has no error has taken all bytes, and lost none.
  abbrev pub Took :
      Store → List ℕ → Option (Result Error (Unit {0}) × State × ChunkWriter cm) → Type 0
  Took s bytes none = Unit
  Took s bytes (some (err e, t, v)) = Unit
  Took s bytes (some (ok u, t, v)) = Wrote cm laws v bytes × Kept cm laws s v.store

  go_on-Took :
      (s : Store) (x : Result Error (Unit {0}) × ChunkWriter cm) (t : State) (rest bytes : List ℕ)
      (k : State
        → ChunkWriter cm
        → List ℕ
        → Option (Result Error (Unit {0}) × State × ChunkWriter cm))
      → (x.0 ≡ ok tt → Took s bytes (k t x.1 rest))
      → Took s bytes (go_on cm S splits x t rest k)
  go_on-Took s (ok u, v) t rest bytes k h = h refl
  go_on-Took s (err e, v) t rest bytes k h = tt

  Took-Kept :
      (s t : Store) (bytes : List ℕ) (x : Option (Result Error (Unit {0}) × State × ChunkWriter cm))
      → Kept cm laws s t
      → Took t bytes x
      → Took s bytes x
  Took-Kept s t bytes none k h = tt
  Took-Kept s t bytes (some (err e, u, v)) k h = tt
  Took-Kept s t bytes (some (ok x, u, v)) k h = (h.0, Kept-trans cm laws s t v.store k h.1)

  -- From a writer that has taken some bytes, a call of Write that has no error adds its own to them:
  -- the chunks of the index, each with its position and length, stand for the bytes before those in
  -- the buffer, and no content of the store is lost.
  pub write_loop-Took :
      (fuel : ℕ) (s : State) (w : ChunkWriter cm) (bytes more : List ℕ)
      → Wrote cm laws w bytes
      → Took w.store (bytes ++ more) (write_loop cm S fuel s w more)
  write_loop-Took fuel s w bytes [] h =
      rw (write_loop-nil cm S splits fuel s w, append-nil bytes) (h, Kept-refl cm laws w.store)
  write_loop-Took zero s w bytes (b ∷ bs) h = unfold write_loop in tt
  write_loop-Took (suc fuel) s w bytes (b ∷ bs) h =
      let more = b ∷ bs in
      rw (write_loop-round cm S splits fuel s w b bs)
        (elim (Option-cases (next_split_point s more).0) [
          | inl p ↦ rw p (Wrote-append_buffer cm laws w bytes more h, Kept-refl cm laws w.store)
          | inr (n, p) ↦
              let v = append_buffer cm w (take n more) in
              let x = flush_buffer cm v in
              let t = (next_split_point s more).1 in
              rw p (
                go_on-Took w.store x t (drop n more) (bytes ++ more) (write_loop cm S fuel) (λ q.
                  let f =
                    flush-Flushed cm laws v (bytes ++ take n more)
                      (Wrote-append_buffer cm laws w bytes (take n more) h) q in
                  Took-Kept w.store x.1.store (bytes ++ more)
                    (write_loop cm S fuel t x.1 (drop n more)) f.kept
                    (rw (append_assoc bytes (take n more) (drop n more), take-append-drop n more) at
                      (write_loop-Took fuel t x.1 (bytes ++ take n more) (drop n more) f.wrote))))
        ])
