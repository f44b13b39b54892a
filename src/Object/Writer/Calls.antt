-- ===== src/Object/Writer/Calls.antt =====
-- Sequences of calls of Write of repo/object/object_writer.go.
use mathlib.Core.List.{flatten}
use kopia.Prelude.{
  ℕ, zero, suc, ◌+◌, ◌≤◌, ◌≡◌, refl, inl, inr, List, [], ◌∷◌, Option, none, some, length, take,
  drop, Result, ok, err, arith, Option-cases, length-append, append-nil,
}
use kopia.Splitter.{Splitter, IsSplitter}
use kopia.Object.Writer.{
  Contents, ChunkWriter, ObjectWriter, flush_buffer, append_buffer, write_loop, write,
  finish_write_call,
}
use kopia.Object.Writer.Streaming.{
  SameLoop, SameLoop-trans, SameLoop-sym, SameLoop-refl, Loop, go_on, write_loop-round,
  write_loop-nil, then_call, write_loop-append, drop_shorter,
}

flatten-one : (xs : List ℕ) → flatten (xs ∷ []) ≡ xs
unfolding flatten
flatten-one xs = append-nil xs

module _ (cm : Contents) (S : Splitter) (laws : IsSplitter S) where
  open cm use {Error}
  open S use {State, next_split_point}
  open laws use {Ready, Alike-refl, next-Ready, next_bounds}

  -- The loop has ended, and left the splitter ready for the next call.
  abbrev pub Ends : Loop cm S laws → Type 0
  Ends none = ⊥
  Ends (some (r, s, w)) = Ready s

  go_on-Ends :
      (x : Result Error (Unit {0}) × ChunkWriter cm) (s : State) (rest : List ℕ)
      (k : State → ChunkWriter cm → List ℕ → Loop cm S laws)
      → Ready s
      → ((w : ChunkWriter cm) → Ends (k s w rest))
      → Ends (go_on cm S laws x s rest k)
  go_on-Ends (ok u, w) s rest k h e = e w
  go_on-Ends (err x, w) s rest k h e = h

  -- With a round for each byte the loop of Write ends, and leaves the splitter ready.
  pub write_loop-Ends :
      (f : ℕ) (s : State) (w : ChunkWriter cm) (bytes : List ℕ)
      → Ready s
      → length bytes ≤ f
      → Ends (write_loop cm S f s w bytes)
  write_loop-Ends f s w [] ready h = rw (write_loop-nil cm S laws f s w) ready
  write_loop-Ends zero s w (b ∷ bs) ready h = absurd (omega arith)
  write_loop-Ends (suc f) s w (b ∷ bs) ready h =
      let bytes = b ∷ bs in
      let s1 = (next_split_point s bytes).1 in
      let ready1 = next-Ready s bytes ready in
      rw (write_loop-round cm S laws f s w b bs) (elim (Option-cases (next_split_point s bytes).0) [
        | inl p ↦ rw p ready1
        | inr (n, p) ↦ rw p (
            go_on-Ends (flush_buffer cm (append_buffer cm w (take n bytes))) s1 (drop n bytes)
              (write_loop cm S f) ready1
              (λ w1.
                write_loop-Ends f s1 w1 (drop n bytes) ready1
                  (drop_shorter n bytes f (next_bounds s bytes n ready p) h)))
      ])

  abbrev pub after_call :
      Option (Result Error ℕ × ObjectWriter cm S)
      → (ObjectWriter cm S → Option (Result Error (Unit {0}) × ObjectWriter cm S))
      → Option (Result Error (Unit {0}) × ObjectWriter cm S)
  after_call none k = none
  after_call (some (err e, w)) k = some (err e, w)
  after_call (some (ok n, w)) k = k w

  -- Calls of Write with one slice after the other, up to the first error.
  pub write_calls :
      ObjectWriter cm S → List (List ℕ) → Option (Result Error (Unit {0}) × ObjectWriter cm S)
  write_calls w [] = some (ok tt, w)
  write_calls w (p ∷ ps) = after_call (write cm S w p) (λ v. write_calls v ps)

  -- the result, the splitter, and all that the writer has written
  abbrev pub outcome : Option (Result Error (Unit {0}) × ObjectWriter cm S) → Loop cm S laws
  outcome none = none
  outcome (some (r, w)) = some (r, w.splitter, w.chunks)

  -- the same calls, over the loop of Write
  calls : State → ChunkWriter cm → List (List ℕ) → Loop cm S laws
  calls s w [] = some (ok tt, s, w)
  calls s w (p ∷ ps) = then_call cm S laws (write_loop cm S (length p) s w p) (λ t v. calls t v ps)

  outcome-after_call :
      (n total : ℕ) (x : Loop cm S laws)
      (k : ObjectWriter cm S → Option (Result Error (Unit {0}) × ObjectWriter cm S))
      (l : State → ChunkWriter cm → Loop cm S laws)
      → ((v : ObjectWriter cm S) → outcome (k v) ≡ l v.splitter v.chunks)
      → outcome (after_call (finish_write_call cm S n total x) k) ≡ then_call cm S laws x l
  outcome-after_call n total none k l h = refl
  outcome-after_call n total (some (err e, s, w)) k l h = refl
  outcome-after_call n total (some (ok u, s, w)) k l h =
      h (record { chunks = w; total_length = total; splitter = s })

  outcome-write_calls :
      (w : ObjectWriter cm S) (ps : List (List ℕ))
      → outcome (write_calls w ps) ≡ calls w.splitter w.chunks ps
  unfolding write_calls calls write
  outcome-write_calls w [] = refl
  outcome-write_calls w (p ∷ ps) =
      outcome-after_call (length p) (w.total_length + length p)
        (write_loop cm S (length p) w.splitter w.chunks p) (λ v. write_calls v ps)
        (λ t v. calls t v ps) (λ v. outcome-write_calls v ps)

  then_call-same :
      (x : Loop cm S laws) (k l : State → ChunkWriter cm → Loop cm S laws)
      → Ends x
      → ((s : State) (w : ChunkWriter cm) → Ready s → SameLoop cm S laws (k s w) (l s w))
      → SameLoop cm S laws (then_call cm S laws x k) (then_call cm S laws x l)
  then_call-same none k l e h = absurd e
  then_call-same (some (err x, s, w)) k l e h = SameLoop-refl cm S laws (err x) s w
  then_call-same (some (ok u, s, w)) k l e h = h s w e

  calls-flatten :
      (f : ℕ) (s : State) (w : ChunkWriter cm) (ps : List (List ℕ))
      → Ready s
      → length (flatten ps) ≤ f
      → SameLoop cm S laws (calls s w ps) (write_loop cm S f s w (flatten ps))
  unfolding calls flatten
  calls-flatten f s w [] ready h =
      rw (write_loop-nil cm S laws f s w) (SameLoop-refl cm S laws (ok tt) s w)
  calls-flatten f s w (p ∷ ps) ready h =
      SameLoop-trans cm S laws
        (then_call-same (write_loop cm S (length p) s w p) _ _
          (write_loop-Ends (length p) s w p ready (omega arith))
          (λ t v r. calls-flatten (length (flatten ps)) t v ps r (omega arith)))
        (SameLoop-sym cm S laws (
          write_loop-append cm S laws f (length p) (length (flatten ps)) s w p (flatten ps) ready
            (omega (arith, length-append p (flatten ps))) (omega arith) (omega arith)))

  -- Whether the bytes come in one call of Write or in several, of any sizes: the calls have the same
  -- error or none, and the same contents are written, with the same index and buffer, so that Result
  -- makes the same object. The splitters may differ in what no further bytes can show.
  pub write_calls-flatten :
      (w : ObjectWriter cm S) (ps : List (List ℕ))
      → Ready w.splitter
      → SameLoop cm S laws (outcome (write_calls w ps)) (outcome (write_calls w (flatten ps ∷ [])))
  write_calls-flatten w ps ready =
      let whole = flatten ps in
      let one =
        calls-flatten (length whole) w.splitter w.chunks (whole ∷ []) ready
          (rw (flatten-one whole) (omega arith)) in
      rw (outcome-write_calls w ps, outcome-write_calls w (whole ∷ []))
        (SameLoop-trans cm S laws
          (calls-flatten (length whole) w.splitter w.chunks ps ready (omega arith))
          (SameLoop-sym cm S laws (rw (flatten-one whole) at one)))
