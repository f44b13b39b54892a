-- ===== src/Retry.antt =====
-- internal/retry/retry.go. What an attempt, the context and time.Sleep do to the world is a parameter; so
-- is what they answer. A count below 0 is `none`. A nil value or error is `none`. The factor is a
-- fraction: float64 holds the products exactly, which stay below 2 ^ 53 nanoseconds. Logging is left out.
pub mod Outcome
pub mod Success
use kopia.Prelude.{
  ℕ, zero, suc, ◌+◌, ◌*◌, ◌/◌, Bool, true, false, not, Option, none, some, ltb, if◌then◌else◌,
}

-- what a function returns: a value and an error
pub record Returned (V E : Type 0) : Type 0 where
  pub value : Option V
  pub error : Option E

pub record Environment (W V E : Type 0) : Type 0 where
  -- attempt(), which may change the world
  pub attempt : W → Returned V E × W
  -- isRetriableError
  pub is_retriable : E → Bool
  -- ctx.Err()
  pub ctx_err : W → Option E
  -- time.Sleep
  pub sleep : ℕ → W → W

-- initial, max, count and factor
pub record Policy : Type 0 where
  pub initial : ℕ
  pub max : ℕ
  pub count : Option ℕ
  pub factor_num : ℕ
  pub factor_den : ℕ

-- `i < count || count < 0`
abbrev pub goes_on : Option ℕ → ℕ → Bool
goes_on none i = true
goes_on (some n) i = ltb i n

-- the next sleepAmount
abbrev pub grow_sleep : Policy → ℕ → ℕ
grow_sleep p amount =
    let grown = amount * p.factor_num / p.factor_den in if ltb p.max grown then p.max else grown

abbrev pub fails : {V E : Type 0} → E → Returned V E
fails e = record { value = none; error = some e }

module _ {W V E : Type 0} (env : Environment W V E) (p : Policy) where
  -- behind an attempt
  abbrev pub after_attempt :
      Option E → Returned V E → W → Option (Returned V E × W) → Option (Returned V E × W)
  after_attempt none r w again = some (r, w)
  after_attempt (some e) r w again = if not (env.is_retriable e) then some (r, w) else again

  -- the body of the loop
  abbrev pub one_round :
      Option E → W → Returned V E → W → Option (Returned V E × W) → Option (Returned V E × W)
  one_round (some cerr) w r w1 again = some (fails cerr, w)
  one_round none w r w1 again = after_attempt r.error r w1 again

  -- The loop; `none` is that the rounds given are used up. errors.Wrapf of nil is nil.
  unfoldable pub retry_loop : ℕ → ℕ → ℕ → Option E → W → Option (Returned V E × W)
  retry_loop zero i amount last w = none
  retry_loop (suc fuel) i amount last w =
      let r = (env.attempt w).0 in
      let w1 = (env.attempt w).1 in
      let again = retry_loop fuel (suc i) (grow_sleep p amount) r.error (env.sleep amount w1) in
      if goes_on p.count i
      then one_round (env.ctx_err w) w r w1 again
      else some (record { value = none; error = last }, w)

  -- internalRetry
  unfoldable pub internal_retry : ℕ → W → Option (Returned V E × W)
  unfolding retry_loop
  internal_retry fuel w = retry_loop fuel 0 p.initial none w

-- in nanoseconds
abbrev pub max_attempts : ℕ
max_attempts = 10

abbrev pub retry_initial_sleep_amount : ℕ
retry_initial_sleep_amount = 100000000

abbrev pub retry_max_sleep_amount : ℕ
retry_max_sleep_amount = 32000000000

abbrev pub backoff : Option ℕ → Policy
backoff count = record {
  initial = retry_initial_sleep_amount;
  max = retry_max_sleep_amount;
  count = count;
  factor_num = 3;
  factor_den = 2;
}

abbrev pub periodic : ℕ → Option ℕ → Policy
periodic interval count = record {
  initial = interval;
  max = interval;
  count = count;
  factor_num = 1;
  factor_den = 1;
}

module _ {W V E : Type 0} (env : Environment W V E) where
  -- WithExponentialBackoff
  unfoldable pub with_exponential_backoff : ℕ → W → Option (Returned V E × W)
  unfolding internal_retry
  with_exponential_backoff fuel w = internal_retry env (backoff (some max_attempts)) fuel w

  -- WithExponentialBackoffMaxRetries
  unfoldable pub with_exponential_backoff_max_retries : Option ℕ → ℕ → W → Option (Returned V E × W)
  unfolding internal_retry
  with_exponential_backoff_max_retries count fuel w = internal_retry env (backoff count) fuel w

  -- Periodically
  unfoldable pub periodically : ℕ → Option ℕ → ℕ → W → Option (Returned V E × W)
  unfolding internal_retry
  periodically interval count fuel w = internal_retry env (periodic interval count) fuel w

-- Always and Never
abbrev pub always : {E : Type 0} → E → Bool
always e = true

abbrev pub never : {E : Type 0} → E → Bool
never e = false
