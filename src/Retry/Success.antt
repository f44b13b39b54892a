-- ===== src/Retry/Success.antt =====
-- When internalRetry of internal/retry/retry.go succeeds, and how long it sleeps.
use kopia.Prelude.{
  ℕ, zero, suc, ◌+◌, ◌-◌, ◌≤◌, ◌<◌, ◌≡◌, ◌⊎◌, refl, sym, ap, ◌∙◌, inl, inr, true, false, Option,
  none, some, arith, Bool-cases, Option-cases,
}
use kopia.Retry.{
  Returned, Environment, Policy, goes_on, after_attempt, fails, grow_sleep, retry_loop,
  internal_retry, backoff, retry_initial_sleep_amount, retry_max_sleep_amount,
}
use kopia.Retry.Outcome.{
  Before, next, Retried, none_yet, one_more, at_start, round-alive, after-none, after-retriable,
  after-refused, Retries,
}

module _ {W V E : Type 0} (env : Environment W V E) (p : Policy) where
  -- The loop goes through the rounds that are retried.
  retry_loop-Retried :
      (m i n rounds fuel : ℕ) (s t : Before W E)
      → p.count ≡ some n
      → i + m ≤ n
      → rounds ≡ m + fuel
      → Retried env p m s t
      → retry_loop env p rounds i s.amount s.last s.world
        ≡ retry_loop env p fuel (i + m) t.amount t.last t.world
  retry_loop-Retried _ i n rounds fuel _ _ c le e (none_yet s) =
      let here : i + 0 ≡ i = omega arith in
      let same : rounds ≡ fuel = omega (arith, e) in rw (here, same) refl
  retry_loop-Retried _ i n rounds fuel _ _ c le e (one_more k s t h path) =
      let same : rounds ≡ suc (k + fuel) = omega (arith, e) in
      let on : goes_on p.count i ≡ true = rw c (ground (arith, le)) in
      let r = (env.attempt s.world).0 in
      let w = (env.attempt s.world).1 in
      let again =
        retry_loop env p (k + fuel) (suc i) (next env p s).amount (next env p s).last
          (next env p s).world in
      let count : i + suc k ≡ suc i + k = omega arith in
      ap (λ f. retry_loop env p f i s.amount s.last s.world) same
      ∙ (round-alive env p (k + fuel) i s on h.alive
          ∙ (after-retriable env p r w again h.error h.failed h.retriable
              ∙ rw count (
                  retry_loop-Retried k (suc i) n (k + fuel) fuel (next env p s) t c
                    (omega (arith, le)) refl path)))

  -- An attempt that succeeds in an earlier round than that of the count, after attempts that are retried, is
  -- what is returned, if the context lives.
  pub internal_retry-succeeds :
      (m n : ℕ) (w : W) (t : Before W E)
      → p.count ≡ some n
      → m < n
      → Retried env p m (at_start env p w) t
      → env.ctx_err t.world ≡ none
      → (env.attempt t.world).0.error ≡ none
      → internal_retry env p (suc n) w ≡ some (env.attempt t.world)
  unfolding internal_retry
  internal_retry-succeeds m n w t c lt path alive success =
      let rest = n - m in
      let on : goes_on p.count (0 + m) ≡ true = rw c (ground (arith, lt)) in
      let again =
        retry_loop env p rest (suc (0 + m)) (next env p t).amount (next env p t).last
          (next env p t).world in
      retry_loop-Retried m 0 n (suc n) (suc rest) (at_start env p w) t c (omega (arith, lt))
        (omega (arith, lt)) path
      ∙ (round-alive env p rest (0 + m) t on alive
          ∙ after-none env p (env.attempt t.world).0 (env.attempt t.world).1 again success)

  abbrev error_of : Option (Returned V E × W) → Option E
  error_of none = none
  error_of (some (r, w)) = r.error

  no_error_or_some : (o q : Option E) (e : E) → o ≡ some e → o ≡ q → q ≡ none → ⊥
  no_error_or_some o q e h same n = cc

  same_pair : (a b : Returned V E × W) → Path (Option (Returned V E × W)) (some a) (some b) → a ≡ b
  same_pair a b h = cc

  -- An attempt after some rounds that are retried, whose result is returned.
  abbrev pub FromAttempt : Before W E → Returned V E → W → Type 0
  FromAttempt s r w' =
      (m : ℕ) × (t : Before W E) × Retried env p m s t × (env.attempt t.world ≡ (r, w'))

  -- no round, and no error so far
  abbrev NoRound : ℕ → Before W E → Type 0
  NoRound i s = (goes_on p.count i ≡ false) × (s.last ≡ none)

  one_more_attempt :
      (s : Before W E) (r : Returned V E) (w' : W)
      → Retries env p s
      → FromAttempt (next env p s) r w'
      → FromAttempt s r w'
  one_more_attempt s r w' h (m, t, path, e) = (suc m, t, one_more m s t h path, e)

  after_round :
      (i : ℕ) (s : Before W E) (r : Returned V E) (w' : W) (x : E)
      → Retries env p s
      → (env.attempt s.world).0.error ≡ some x
      → NoRound (suc i) (next env p s) ⊎ FromAttempt (next env p s) r w'
      → NoRound i s ⊎ FromAttempt s r w'
  after_round i s r w' x h e (inl (off, n)) = absurd (ground (arith, e, n))
  after_round i s r w' x h e (inr found) = inr (one_more_attempt s r w' h found)

  refused :
      (a : Returned V E × W) (x : E) (again : Option (Returned V E × W)) (r : Returned V E) (w' : W)
      → a.0.error ≡ some x
      → env.is_retriable x ≡ false
      → after_attempt env p a.0.error a.0 a.1 again ≡ some (r, w')
      → r.error ≡ none
      → ⊥
  refused a x again r w' e g run n =
      no_error_or_some a.0.error r.error x e
        (ap error_of (sym (after-refused env p a.0 a.1 again x e g) ∙ run)) n

  retry_loop-no_error :
      (fuel i : ℕ) (s : Before W E) (r : Returned V E) (w' : W)
      → retry_loop env p fuel i s.amount s.last s.world ≡ some (r, w')
      → r.error ≡ none
      → NoRound i s ⊎ FromAttempt s r w'
  unfolding retry_loop
  retry_loop-no_error zero i s r w' e n = absurd (cc)
  retry_loop-no_error (suc fuel) i s r w' e n = elim (Bool-cases (goes_on p.count i)) [
    | inr off ↦
        let run : some (record { value = none; error = s.last }, s.world) ≡ some (r, w') =
          rw off at e in
        inl (off, ap error_of run ∙ n)
    | inl on ↦
        let again =
          retry_loop env p fuel (suc i) (next env p s).amount (next env p s).last
            (next env p s).world in
        let a = env.attempt s.world in
        elim (Option-cases (env.ctx_err s.world)) [
          | inr (x, h) ↦
              let run : some (fails x, s.world) ≡ some (r, w') = rw (on, h) at e in
              absurd (no_error_or_some (some x) r.error x refl (ap error_of run) n)
          | inl h ↦
              let run = sym (round-alive env p fuel i s on h) ∙ e in
              elim (Option-cases a.0.error) [
                | inl f ↦ inr (
                  0,
                  s,
                  none_yet s,
                  same_pair a (r, w') (sym (after-none env p a.0 a.1 again f) ∙ run),
                )
                | inr (x, f) ↦ elim (Bool-cases (env.is_retriable x)) [
                  | inr g ↦ absurd (refused a x again r w' f g run n)
                  | inl g ↦
                      let rest =
                        retry_loop-no_error fuel (suc i) (next env p s) r w'
                          (sym (after-retriable env p a.0 a.1 again x f g) ∙ run) n in
                      after_round i s r w' x
                        (record { error = x; alive = h; failed = f; retriable = g }) f rest
                ]
              ]
        ]
  ]

  -- What is returned without an error, after however many rounds and for any count, also one that lets
  -- the loop run forever, is what an attempt returned after attempts that are retried, unless the count is 0.
  pub internal_retry-no_error :
      (fuel : ℕ) (w w' : W) (r : Returned V E)
      → internal_retry env p fuel w ≡ some (r, w')
      → r.error ≡ none
      → (p.count ≡ some 0) ⊎ FromAttempt (at_start env p w) r w'
  unfolding internal_retry
  internal_retry-no_error fuel w w' r e n =
      elim (retry_loop-no_error fuel 0 (at_start env p w) r w' e n) [
        | inl h ↦ inl (no_count p.count h.0)
        | inr h ↦ inr h
      ]
    where
      no_count : (c : Option ℕ) → goes_on c 0 ≡ false → c ≡ some 0
      no_count none h = absurd (ground (arith, h))
      no_count (some zero) h = refl
      no_count (some (suc k)) h = absurd (ground (arith, h))

-- a time to sleep with exponential backoff
abbrev pub IsBackoff : ℕ → Type 0
IsBackoff a = (retry_initial_sleep_amount ≤ a) × (a ≤ retry_max_sleep_amount)

module _ {W V E : Type 0} (env : Environment W V E) where
  grow_sleep-IsBackoff :
      (count : Option ℕ) (a : ℕ) → IsBackoff a → IsBackoff (grow_sleep (backoff count) a)
  grow_sleep-IsBackoff count a h = ground (arith, h.0, h.1)

  module _ {κ} (P : W → Type κ) (attempted : (w : W) → P w → P (env.attempt w).1)
      (slept : (a : ℕ) (w : W) → IsBackoff a → P w → P (env.sleep a w)) where
    retry_loop-keeps :
        (count : Option ℕ) (fuel i : ℕ) (s : Before W E) (r : Returned V E) (w' : W)
        → IsBackoff s.amount
        → P s.world
        → retry_loop env (backoff count) fuel i s.amount s.last s.world ≡ some (r, w')
        → P w'
    unfolding retry_loop
    retry_loop-keeps count zero i s r w' b h e = absurd (cc)
    retry_loop-keeps count (suc fuel) i s r w' b h e = elim (Bool-cases (goes_on count i)) [
      | inr off ↦
          let run : some (record { value = none; error = s.last }, s.world) ≡ some (r, w') =
            rw off at e in
          let same : s.world ≡ w' = cc in rw same at h
      | inl on ↦
          let p = backoff count in
          let again =
            retry_loop env p fuel (suc i) (next env p s).amount (next env p s).last
              (next env p s).world in
          let a = env.attempt s.world in
          let after : P a.1 = attempted s.world h in
          let ends : some a ≡ some (r, w') → P w' =
            λ g. let same : a.1 ≡ w' = cc in rw same at after in
          elim (Option-cases (env.ctx_err s.world)) [
            | inr (x, h') ↦
                let run : some (fails x, s.world) ≡ some (r, w') = rw (on, h') at e in
                let same : s.world ≡ w' = cc in rw same at h
            | inl h' ↦
                let run = sym (round-alive env p fuel i s on h') ∙ e in
                elim (Option-cases a.0.error) [
                  | inl f ↦ ends (sym (after-none env p a.0 a.1 again f) ∙ run)
                  | inr (x, f) ↦ elim (Bool-cases (env.is_retriable x)) [
                    | inr g ↦ ends (sym (after-refused env p a.0 a.1 again x f g) ∙ run)
                    | inl g ↦
                        retry_loop-keeps count fuel (suc i) (next env p s) r w'
                          (grow_sleep-IsBackoff count s.amount b) (slept s.amount a.1 b after)
                          (sym (after-retriable env p a.0 a.1 again x f g) ∙ run)
                  ]
                ]
          ]
    ]

    -- The retry loop with exponential backoff sleeps for 100 ms at least and 32 s at most: what holds of the
    -- world before, and is kept by every attempt and by every sleep of such a length, holds of the world in
    -- which the loop ends, for any count and after however many rounds.
    pub internal_retry-keeps :
        (count : Option ℕ) (fuel : ℕ) (w w' : W) (r : Returned V E)
        → P w
        → internal_retry env (backoff count) fuel w ≡ some (r, w')
        → P w'
    unfolding internal_retry
    internal_retry-keeps count fuel w w' r h e =
        retry_loop-keeps count fuel 0 (at_start env (backoff count) w) r w'
          (omega arith, omega arith) h e
