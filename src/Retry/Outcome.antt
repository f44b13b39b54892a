-- ===== src/Retry/Outcome.antt =====
-- How internalRetry of internal/retry/retry.go ends.
use kopia.Prelude.{
  ℕ, zero, suc, ◌+◌, ◌<◌, ◌≡◌, ◌⊎◌, refl, ap, ◌∙◌, inl, inr, true, false, Option, none, some, arith,
  Bool-cases, Option-cases,
}
use kopia.Retry.{
  Returned, Environment, Policy, goes_on, grow_sleep, fails, after_attempt, retry_loop,
  internal_retry,
}

-- before a round: the world, the time to sleep and the last error
pub record Before (W E : Type 0) : Type 0 where
  pub world : W
  pub amount : ℕ
  pub last : Option E

module _ {W V E : Type 0} (env : Environment W V E) (p : Policy) where
  abbrev pub next : Before W E → Before W E
  next s = record {
    world = env.sleep s.amount (env.attempt s.world).1;
    amount = grow_sleep p s.amount;
    last = (env.attempt s.world).0.error;
  }

  -- A round in which the context lives and the attempt fails with an error that is retried.
  pub record Retries (s : Before W E) : Type 0 where
    pub error : E
    pub alive : env.ctx_err s.world ≡ none
    pub failed : (env.attempt s.world).0.error ≡ some error
    pub retriable : env.is_retriable error ≡ true

  -- a number of such rounds, one after the other
  pub data Retried : ℕ → Before W E → Before W E → Type 0 where
    none_yet : (s : Before W E) → Retried 0 s s
    one_more : (k : ℕ) (s t : Before W E) → Retries s → Retried k (next s) t → Retried (suc k) s t

  -- A round that ends the loop, and what is returned.
  abbrev pub Decides : Before W E → Option (Returned V E × W) → Type 0
  Decides s r =
      ((e : E) × (env.ctx_err s.world ≡ some e) × (r ≡ some (fails e, s.world)))
      ⊎ ((env.ctx_err s.world ≡ none)
          × ((e : E) → (env.attempt s.world).0.error ≡ some e → env.is_retriable e ≡ false)
          × (r ≡ some (env.attempt s.world)))

  -- After at most n rounds.
  abbrev pub Ends : ℕ → Before W E → Option (Returned V E × W) → Type 0
  Ends n s r =
      (m : ℕ) × (t : Before W E) × Retried m s t
      × (((m ≡ n) × (r ≡ some (record { value = none; error = t.last }, t.world)))
          ⊎ ((m < n) × Decides t r))

  one_round_more :
      (k : ℕ) (s : Before W E) (r : Option (Returned V E × W))
      → Retries s
      → Ends k (next s) r
      → Ends (suc k) s r
  one_round_more k s r h (m, t, path, inl e) =
      (suc m, t, one_more m s t h path, inl (omega (arith, e.0), e.1))
  one_round_more k s r h (m, t, path, inr e) =
      (suc m, t, one_more m s t h path, inr (omega (arith, e.0), e.1))

  -- one round of the loop, by what happens in it
  pub round-alive :
      (fuel i : ℕ) (s : Before W E)
      → goes_on p.count i ≡ true
      → env.ctx_err s.world ≡ none
      → retry_loop env p (suc fuel) i s.amount s.last s.world
        ≡ after_attempt env p
            (env.attempt s.world).0.error
            (env.attempt s.world).0
            (env.attempt s.world).1
            (retry_loop env p fuel (suc i) (next s).amount (next s).last (next s).world)
  unfolding retry_loop
  round-alive fuel i s on h = rw (on, h) refl

  pub after-none :
      (r : Returned V E) (w : W) (again : Option (Returned V E × W))
      → r.error ≡ none
      → after_attempt env p r.error r w again ≡ some (r, w)
  after-none r w again e = ap (λ o. after_attempt env p o r w again) e

  pub after-refused :
      (r : Returned V E) (w : W) (again : Option (Returned V E × W)) (x : E)
      → r.error ≡ some x
      → env.is_retriable x ≡ false
      → after_attempt env p r.error r w again ≡ some (r, w)
  after-refused r w again x e g = ap (λ o. after_attempt env p o r w again) e ∙ rw g refl

  pub after-retriable :
      (r : Returned V E) (w : W) (again : Option (Returned V E × W)) (x : E)
      → r.error ≡ some x
      → env.is_retriable x ≡ true
      → after_attempt env p r.error r w again ≡ again
  after-retriable r w again x e g = ap (λ o. after_attempt env p o r w again) e ∙ rw g refl

  only_error :
      (o : Option E) (x y : E)
      → o ≡ some x
      → o ≡ some y
      → env.is_retriable x ≡ false
      → env.is_retriable y ≡ false
  only_error o x y e f g = let same : x ≡ y = cc in rw (← same) g

  retry_loop-Ends :
      (n k i : ℕ) (s : Before W E)
      → p.count ≡ some n
      → i + k ≡ n
      → Ends k s (retry_loop env p (suc k) i s.amount s.last s.world)
  unfolding retry_loop
  retry_loop-Ends n zero i s c e =
      let over : goes_on p.count i ≡ false = rw c (ground (arith, e)) in
      (0, s, none_yet s, inl (refl, rw over refl))
  retry_loop-Ends n (suc k) i s c e =
      let on : goes_on p.count i ≡ true = rw c (ground (arith, e)) in
      let rest = retry_loop-Ends n k (suc i) (next s) c (omega (arith, e)) in
      let r = (env.attempt s.world).0 in
      let w = (env.attempt s.world).1 in
      let again = retry_loop env p (suc k) (suc i) (next s).amount (next s).last (next s).world in
      elim (Option-cases (env.ctx_err s.world)) [
        | inr (x, h) ↦ (0, s, none_yet s, inr (omega arith, inl (x, h, rw (on, h) refl)))
        | inl h ↦ elim (Option-cases r.error) [
          | inl f ↦ (
            0,
            s,
            none_yet s,
            inr (
              omega arith,
              inr (
                h,
                (λ x g. absurd (ground (arith, f, g))),
                round-alive (suc k) i s on h ∙ after-none r w again f,
              ),
            ),
          )
          | inr (x, f) ↦ elim (Bool-cases (env.is_retriable x)) [
            | inr g ↦ (
              0,
              s,
              none_yet s,
              inr (
                omega arith,
                inr (
                  h,
                  (λ y f'. only_error r.error x y f f' g),
                  round-alive (suc k) i s on h ∙ after-refused r w again x f g,
                ),
              ),
            )
            | inl g ↦
                one_round_more k s (retry_loop env p (suc (suc k)) i s.amount s.last s.world)
                  (record { error = x; alive = h; failed = f; retriable = g })
                  (rw (round-alive (suc k) i s on h, after-retriable r w again x f g) rest)
          ]
        ]
      ]

  abbrev pub at_start : W → Before W E
  at_start w = record { world = w; amount = p.initial; last = none }

  -- With a count of n, n + 1 rounds of fuel are enough: the loop ends, after n rounds that are retried or in
  -- an earlier round that decides.
  pub internal_retry-Ends :
      (n : ℕ) (w : W) → p.count ≡ some n → Ends n (at_start w) (internal_retry env p (suc n) w)
  unfolding internal_retry
  internal_retry-Ends n w c = retry_loop-Ends n n 0 (at_start w) c (omega arith)
