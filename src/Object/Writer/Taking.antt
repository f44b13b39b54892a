-- ===== src/Object/Writer/Taking.antt =====
-- Write of repo/object/object_writer.go comes to an end: all bytes are taken, or a flush fails. For a
-- writer without asynchronous writes.
use kopia.Prelude.{
  ℕ, zero, suc, ◌≤◌, ◌≡◌, refl, ap, ◌∙◌, inl, inr, List, [], ◌∷◌, ◌++◌, Option, none, some, length,
  take, drop, Result, ok, err, arith, Option-cases, append-nil, append_assoc, take-append-drop,
}
use kopia.Object.Read.{IsContents}
use kopia.Object.Writer.{Contents, ChunkWriter, flush_buffer, append_buffer, write_loop}
use kopia.Object.Writer.Flushed.{Wrote, flush-Flushed, Wrote-append_buffer}
use kopia.Object.Writer.Stored.{Kept, Kept-refl, Kept-trans}
use kopia.Object.Writer.Streaming.{go_on, write_loop-round, write_loop-nil, drop_shorter}
use kopia.Splitter.{Splitter, IsSplitter}

module _ (cm : Contents) (laws : IsContents cm) where
  -- the error of a flush, by a writer that had taken a first part of the bytes
  pub record FailedFlush (bytes : List ℕ) (e : cm.Error) (v : ChunkWriter cm) : Type 0 where
    pub before : ChunkWriter cm
    pub taken : List ℕ
    pub untaken : List ℕ
    pub wrote : Wrote cm laws before taken
    pub parts : taken ++ untaken ≡ bytes
    pub failed : flush_buffer cm before ≡ (err e, v)

module _ (cm : Contents) (laws : IsContents cm) (S : Splitter) (splits : IsSplitter S) where
  open cm use {Store, Error}
  open S use {State, next_split_point}
  open splits use {Ready, next-Ready, next_bounds}

  -- The loop has ended and left the splitter ready: without an error with all bytes taken and no content lost,
  -- or with the error of a flush.
  abbrev pub Ended :
      Store → List ℕ → Option (Result Error (Unit {0}) × State × ChunkWriter cm) → Type 0
  Ended s bytes none = ⊥
  Ended s bytes (some (err e, t, v)) = Ready t × FailedFlush cm laws bytes e v
  Ended s bytes (some (ok u, t, v)) = Ready t × Wrote cm laws v bytes × Kept cm laws s v.store

  Ended-Kept :
      (s t : Store) (bytes : List ℕ) (x : Option (Result Error (Unit {0}) × State × ChunkWriter cm))
      → Kept cm laws s t
      → Ended t bytes x
      → Ended s bytes x
  Ended-Kept s t bytes none k h = absurd h
  Ended-Kept s t bytes (some (err e, u, v)) k h = h
  Ended-Kept s t bytes (some (ok x, u, v)) k h = (h.0, h.1, Kept-trans cm laws s t v.store k h.2)

  go_on-Ended :
      (s : Store) (x : Result Error (Unit {0}) × ChunkWriter cm) (t : State) (rest bytes : List ℕ)
      (k : State
        → ChunkWriter cm
        → List ℕ
        → Option (Result Error (Unit {0}) × State × ChunkWriter cm))
      → Ready t
      → ((e : Error) → x ≡ (err e, x.1) → FailedFlush cm laws bytes e x.1)
      → (x.0 ≡ ok tt → Ended s bytes (k t x.1 rest))
      → Ended s bytes (go_on cm S splits x t rest k)
  go_on-Ended s (ok u, v) t rest bytes k r f h = h refl
  go_on-Ended s (err e, v) t rest bytes k r f h = (r, f e refl)

  -- From a writer that has taken some bytes, none of them asynchronously, with no error and with its splitter
  -- ready, a call of Write ends within a round for each byte and leaves the splitter ready. Without an
  -- error its bytes are added to those taken: the chunks of the index, each with its position and
  -- length, stand for the bytes before those in the buffer, and no content of the store is lost. An
  -- error is that of a flush by a writer that had taken a first part of all these bytes.
  pub write_loop-Ended :
      (fuel : ℕ) (s : State) (w : ChunkWriter cm) (bytes more : List ℕ)
      → Ready s
      → length more ≤ fuel
      → Wrote cm laws w bytes
      → Ended w.store (bytes ++ more) (write_loop cm S fuel s w more)
  write_loop-Ended fuel s w bytes [] ready le h =
      rw (write_loop-nil cm S splits fuel s w, append-nil bytes)
        (ready, h, Kept-refl cm laws w.store)
  write_loop-Ended zero s w bytes (b ∷ bs) ready le h = absurd (omega (arith, le))
  write_loop-Ended (suc fuel) s w bytes (b ∷ bs) ready le h =
      let more = b ∷ bs in
      let t = (next_split_point s more).1 in
      let ready1 = next-Ready s more ready in
      rw (write_loop-round cm S splits fuel s w b bs)
        (elim (Option-cases (next_split_point s more).0) [
          | inl p ↦
              rw p (ready1, Wrote-append_buffer cm laws w bytes more h, Kept-refl cm laws w.store)
          | inr (n, p) ↦
              let v = append_buffer cm w (take n more) in
              let x = flush_buffer cm v in
              let taken = Wrote-append_buffer cm laws w bytes (take n more) h in
              let parts : (bytes ++ take n more) ++ drop n more ≡ bytes ++ more =
                append_assoc bytes (take n more) (drop n more)
                ∙ ap (λ y. bytes ++ y) (take-append-drop n more) in
              rw p (
                go_on-Ended w.store x t (drop n more) (bytes ++ more) (write_loop cm S fuel) ready1
                  (λ e q. record {
                    before = v;
                    taken = bytes ++ take n more;
                    untaken = drop n more;
                    wrote = taken;
                    parts = parts;
                    failed = q;
                  })
                  (λ q.
                    let f = flush-Flushed cm laws v (bytes ++ take n more) taken q in
                    Ended-Kept w.store x.1.store (bytes ++ more)
                      (write_loop cm S fuel t x.1 (drop n more)) f.kept
                      (rw parts at (
                        write_loop-Ended fuel t x.1 (bytes ++ take n more) (drop n more) ready1
                          (drop_shorter n more fuel (next_bounds s more n ready p) le) f.wrote))))
        ])
