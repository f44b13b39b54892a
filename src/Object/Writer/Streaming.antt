-- ===== src/Object/Writer/Streaming.antt =====
-- The object that repo/object/object_writer.go makes does not depend on how the bytes are cut into
-- calls of Write.
use mathlib.Core.Option
use kopia.Prelude.{
  ℕ, zero, suc, ◌+◌, ◌≤◌, ◌<◌, ◌≡◌, refl, sym, inl, inr, List, [], ◌∷◌, ◌++◌, append-nil,
  append_assoc, Option, none, some, length, take, drop, Result, ok, err, arith, Option-cases,
  length-append, length-drop, take-append_add, drop-append_add, take-append_le, drop-append_le,
}
use kopia.Splitter.{Splitter, IsSplitter}
use kopia.Object.Writer.{Contents, ChunkWriter, flush_buffer, append_buffer, write_loop}

pub drop_shorter :
    (n : ℕ) (bytes : List ℕ) (fuel : ℕ)
    → (0 < n) × (n ≤ length bytes)
    → length bytes ≤ suc fuel
    → length (drop n bytes) ≤ fuel
drop_shorter n bytes fuel h le = omega (arith, length-drop n bytes)

module _ (cm : Contents) (S : Splitter) (laws : IsSplitter S) where
  open cm use {Error}
  open S use {State, next_split_point}
  open laws use {
    Ready, Alike, Alike-refl, Alike-sym, Alike-trans, Ready-Alike, next-Ready, next_bounds,
    next-Alike, next-append_some, next-append_none,
  }

  abbrev pub Loop : Type 0
  Loop = Option (Result Error (Unit {0}) × State × ChunkWriter cm)

  -- The same result, the same contents and index, and splitters that behave alike.
  pub data SameLoop : Loop → Loop → Type 0 where
    same :
        {r : Result Error (Unit {0})} {s t : State} {w : ChunkWriter cm}
        → Alike s t
        → SameLoop (some (r, s, w)) (some (r, t, w))

  pub SameLoop-refl :
      (r : Result Error (Unit {0})) (s : State) (w : ChunkWriter cm)
      → SameLoop (some (r, s, w)) (some (r, s, w))
  SameLoop-refl r s w = same (Alike-refl s)

  pub SameLoop-trans : {x y z : Loop} → SameLoop x y → SameLoop y z → SameLoop x z
  SameLoop-trans (same a) (same b) = same (Alike-trans _ _ _ a b)

  pub SameLoop-sym : {x y : Loop} → SameLoop x y → SameLoop y x
  SameLoop-sym (same a) = same (Alike-sym _ _ a)

  -- what follows a flush
  abbrev pub go_on :
      Result Error (Unit {0}) × ChunkWriter cm
      → State
      → List ℕ
      → (State → ChunkWriter cm → List ℕ → Loop)
      → Loop
  go_on x s rest k = elim x.0 [ err e ↦ some (err e, s, x.1) | ok _ ↦ k s x.1 rest ]

  -- one round of the loop
  abbrev pub round :
      Option ℕ × State → ChunkWriter cm → List ℕ → (State → ChunkWriter cm → List ℕ → Loop) → Loop
  round x w bytes k = elim x.0 [
    | none ↦ some (ok tt, x.1, append_buffer cm w bytes)
    | some n ↦ go_on (flush_buffer cm (append_buffer cm w (take n bytes))) x.1 (drop n bytes) k
  ]

  pub write_loop-round :
      (fuel : ℕ) (s : State) (w : ChunkWriter cm) (b : ℕ) (bs : List ℕ)
      → write_loop cm S (suc fuel) s w (b ∷ bs)
        ≡ round (next_split_point s (b ∷ bs)) w (b ∷ bs) (write_loop cm S fuel)
  unfolding write_loop
  write_loop-round fuel s w b bs = refl

  pub write_loop-nil :
      (fuel : ℕ) (s : State) (w : ChunkWriter cm) → write_loop cm S fuel s w [] ≡ some (ok tt, s, w)
  unfolding write_loop
  write_loop-nil fuel s w = refl

  -- Two rounds are alike if their split points are, and what follows is.
  go_on-same :
      (x : Result Error (Unit {0}) × ChunkWriter cm) (s t : State) (rest rest' : List ℕ)
      (k l : State → ChunkWriter cm → List ℕ → Loop)
      → Alike s t
      → ((w : ChunkWriter cm) → SameLoop (k s w rest) (l t w rest'))
      → SameLoop (go_on x s rest k) (go_on x t rest' l)
  go_on-same (ok u, w) s t rest rest' k l a h = h w
  go_on-same (err e, w) s t rest rest' k l a h = same a

  pub write_loop-same :
      (f g : ℕ) (s t : State) (w : ChunkWriter cm) (bytes : List ℕ)
      → Ready s
      → Alike s t
      → length bytes ≤ f
      → length bytes ≤ g
      → SameLoop (write_loop cm S f s w bytes) (write_loop cm S g t w bytes)
  write_loop-same f g s t w [] ready a hf hg =
      rw (write_loop-nil f s w, write_loop-nil g t w) (same a)
  write_loop-same zero g s t w (b ∷ bs) ready a hf hg = absurd (omega arith)
  write_loop-same (suc f) zero s t w (b ∷ bs) ready a hf hg = absurd (omega arith)
  write_loop-same (suc f) (suc g) s t w (b ∷ bs) ready a hf hg =
      let bytes = b ∷ bs in
      let e = next-Alike s t bytes ready a in
      rw (write_loop-round f s w b bs, write_loop-round g t w b bs)
        (elim (Option-cases (next_split_point s bytes).0) [
          | inl p ↦ rw (sym e.0, p) (same e.1)
          | inr (n, p) ↦
              rw (sym e.0, p)
                (go_on-same (flush_buffer cm (append_buffer cm w (take n bytes))) _ _ _ _
                  (write_loop cm S f) (write_loop cm S g) e.1
                  (λ w1.
                    write_loop-same f g _ _ w1 (drop n bytes) (next-Ready s bytes ready) e.1
                      (drop_shorter n bytes f (next_bounds s bytes n ready p) hf)
                      (drop_shorter n bytes g (next_bounds s bytes n ready p) hg)))
        ])

  -- a second call, made if the first one has no error
  abbrev pub then_call : Loop → (State → ChunkWriter cm → Loop) → Loop
  then_call none k = none
  then_call (some (err e, s, w)) k = some (err e, s, w)
  then_call (some (ok _, s, w)) k = k s w

  then_call-nil : (x : Loop) (h : ℕ) → then_call x (λ s w. write_loop cm S h s w []) ≡ x
  then_call-nil none h = refl
  then_call-nil (some (err e, s, w)) h = refl
  then_call-nil (some (ok u, s, w)) h = write_loop-nil h s w

  then_call-go_on :
      (x : Result Error (Unit {0}) × ChunkWriter cm) (s : State) (rest : List ℕ)
      (k : State → ChunkWriter cm → List ℕ → Loop) (l : State → ChunkWriter cm → Loop)
      → then_call (go_on x s rest k) l ≡ go_on x s rest (λ t w r. then_call (k t w r) l)
  then_call-go_on (ok u, w) s rest k l = refl
  then_call-go_on (err e, w) s rest k l = refl

  -- The second call, where the first one has found no split point.
  rest_of_call :
      (f g : ℕ) (s t : State) (w : ChunkWriter cm) (a b : List ℕ) (x y : Option ℕ × State)
      → x.0 ≡ Option.map (λ n. length a + n) y.0
      → Alike x.1 y.1
      → Ready y.1
      → length b ≤ suc f
      → length b ≤ suc g
      → ((n : ℕ) → y.0 ≡ some n → (0 < n) × (n ≤ length b))
      → SameLoop
          (round x w (a ++ b) (write_loop cm S f))
          (round y (append_buffer cm w a) b (write_loop cm S g))
  rest_of_call f g s t w a b (none, x) (none, y) e al ready hf hg bound =
      rw (append_assoc w.buffer a b) (same al)
  rest_of_call f g s t w a b (none, x) (some n, y) e al ready hf hg bound = absurd (cc)
  rest_of_call f g s t w a b (some m, x) (none, y) e al ready hf hg bound = absurd (cc)
  rest_of_call f g s t w a b (some m, x) (some n, y) e al ready hf hg bound =
      let k : length a + n ≡ m = ground arith in
      rw (take-append_add a b n m k, drop-append_add a b n m k, append_assoc w.buffer a (take n b))
        (go_on-same (flush_buffer cm (append_buffer cm w (a ++ take n b))) x y (drop n b) (drop n b)
          (write_loop cm S f) (write_loop cm S g) al
          (λ w1.
            write_loop-same f g x y w1 (drop n b) (Ready-Alike y x (Alike-sym x y al) ready) al
              (drop_shorter n b f (bound n refl) hf) (drop_shorter n b g (bound n refl) hg)))

  pub write_loop-append :
      (f g h : ℕ) (s : State) (w : ChunkWriter cm) (a b : List ℕ)
      → Ready s
      → length a + length b ≤ f
      → length a ≤ g
      → length b ≤ h
      → SameLoop
          (write_loop cm S f s w (a ++ b))
          (then_call (write_loop cm S g s w a) (λ t v. write_loop cm S h t v b))
  write_loop-append f g h s w [] b ready hf hg hh =
      rw (write_loop-nil g s w) (write_loop-same f h s s w b ready (Alike-refl s) (omega arith) hh)
  write_loop-append f g h s w (x ∷ a) [] ready hf hg hh =
      rw (then_call-nil (write_loop cm S g s w (x ∷ a)) h, append-nil (x ∷ a))
        (write_loop-same f g s s w (x ∷ a) ready (Alike-refl s) (omega arith) hg)
  write_loop-append (suc f) (suc g) (suc h) s w (x ∷ a) (y ∷ b) ready hf hg hh =
      rw (write_loop-round f s w x (a ++ y ∷ b), write_loop-round g s w x a)
        (elim (Option-cases (next_split_point s (x ∷ a)).0) [
          | inl p ↦
              let e = next-append_none s (x ∷ a) (y ∷ b) ready p in
              let s1 = (next_split_point s (x ∷ a)).1 in
              let ready1 = next-Ready s (x ∷ a) ready in
              rw (p, write_loop-round h s1 (append_buffer cm w (x ∷ a)) y b)
                (rest_of_call f h s s1 w (x ∷ a) (y ∷ b) _ _ e.0 e.1 (next-Ready s1 (y ∷ b) ready1)
                  (omega arith) hh (λ n q. next_bounds s1 (y ∷ b) n ready1 q))
          | inr (n, p) ↦
              let e = next-append_some s (x ∷ a) (y ∷ b) n ready p in
              let bound = next_bounds s (x ∷ a) n ready p in
              let s1 = (next_split_point s (x ∷ a)).1 in
              let s2 = (next_split_point s (x ∷ a ++ y ∷ b)).1 in
              let ready1 = next-Ready s (x ∷ a) ready in
              let rest = drop n (x ∷ a) in
              let len : length rest ≤ g = drop_shorter n (x ∷ a) g bound hg in
              let all : length rest + length (y ∷ b) ≤ f = omega (arith, length-drop n (x ∷ a)) in
              let both : length (rest ++ y ∷ b) ≤ f = omega (arith, length-append rest (y ∷ b)) in
              rw
                (
                  e.0,
                  p,
                  take-append_le n (x ∷ a) (y ∷ b) bound.1,
                  drop-append_le n (x ∷ a) (y ∷ b) bound.1,
                  then_call-go_on (flush_buffer cm (append_buffer cm w (take n (x ∷ a)))) s1 rest
                      (write_loop cm S g) (λ t v. write_loop cm S (suc h) t v (y ∷ b)),
                )
                (go_on-same (flush_buffer cm (append_buffer cm w (take n (x ∷ a)))) s2 s1
                  (rest ++ y ∷ b) rest (write_loop cm S f)
                  (λ t v r.
                    then_call (write_loop cm S g t v r)
                      (λ t v. write_loop cm S (suc h) t v (y ∷ b)))
                  e.1
                  (λ w1.
                    SameLoop-trans
                      (write_loop-same f f s2 s1 w1 (rest ++ y ∷ b)
                        (Ready-Alike s1 s2 (Alike-sym s2 s1 e.1) ready1) e.1 both both)
                      (write_loop-append f g (suc h) s1 w1 rest (y ∷ b) ready1 all len hh)))
        ])
  write_loop-append zero g h s w (x ∷ a) (y ∷ b) ready hf hg hh = absurd (omega arith)
  write_loop-append (suc f) zero h s w (x ∷ a) (y ∷ b) ready hf hg hh = absurd (omega arith)
  write_loop-append (suc f) (suc g) zero s w (x ∷ a) (y ∷ b) ready hf hg hh = absurd (omega arith)
