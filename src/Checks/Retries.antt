-- ===== src/Checks/Retries.antt =====
-- internal/retry/retry.go at concrete inputs: the world counts the attempts, the third one succeeds.
use kopia.Prelude.{
  All, List, [], ◌∷◌, length, ℕ, suc, ◌≡◌, ◌⊎◌, refl, none, some, ltb, if◌then◌else◌, arith,
}
use kopia.Retry.{
  Environment, Policy, backoff, internal_retry, with_exponential_backoff_max_retries, periodically,
  max_attempts, always,
}
use kopia.Retry.Outcome.{
  Before, Ends, Retried, none_yet, one_more, at_start, next, internal_retry-Ends,
}
use kopia.Retry.Success.{
  internal_retry-succeeds, internal_retry-no_error, internal_retry-keeps, FromAttempt, IsBackoff,
}

abbrev third_succeeds : Environment ℕ ℕ ℕ
third_succeeds = record {
  attempt = λ w. (
    (if ltb w 2
        then record { value = none; error = some w }
        else record { value = some w; error = none }),
    suc w,
  );
  is_retriable = always;
  ctx_err = λ w. none;
  sleep = λ amount w. w;
}

abbrev ten : Policy
ten = backoff (some max_attempts)

abbrev second : Before ℕ ℕ
second = next third_succeeds ten (at_start third_succeeds ten 0)

abbrev third : Before ℕ ℕ
third = next third_succeeds ten second

two-Retried : Retried third_succeeds ten 2 (at_start third_succeeds ten 0) third
two-Retried =
    one_more 1 (at_start third_succeeds ten 0) third
      (record { error = 0; alive = refl; failed = refl; retriable = refl })
      (one_more 0 second third (record { error = 1; alive = refl; failed = refl; retriable = refl })
        (none_yet third))

sleeps : third.amount ≡ 225000000
sleeps = refl

internal_retry-succeeds_example :
    internal_retry third_succeeds ten 11 0 ≡ some (record { value = some 2; error = none }, 3)
internal_retry-succeeds_example =
    internal_retry-succeeds third_succeeds ten 2 10 0 third refl (omega arith) two-Retried refl refl

internal_retry-Ends_example :
    Ends third_succeeds ten 10
      (at_start third_succeeds ten 0)
      (internal_retry third_succeeds ten 11 0)
internal_retry-Ends_example = internal_retry-Ends third_succeeds ten 10 0 refl

third_run :
    internal_retry third_succeeds ten 11 0 ≡ some (record { value = some 2; error = none }, 3)
unfolding internal_retry
third_run = refl

internal_retry-no_error_example :
    (ten.count ≡ some 0)
    ⊎ FromAttempt third_succeeds ten
        (at_start third_succeeds ten 0)
        (record { value = some 2; error = none })
        3
internal_retry-no_error_example =
    internal_retry-no_error third_succeeds ten 11 0 3 (record { value = some 2; error = none })
      third_run refl

-- with no limit to the attempts, in a world that keeps the sleeps
abbrev keeps_sleeps : Environment (List ℕ) ℕ ℕ
keeps_sleeps = record {
  attempt = λ w. (
    (if ltb (length w) 2
        then record { value = none; error = some 7 }
        else record { value = some 2; error = none }),
    w,
  );
  is_retriable = always;
  ctx_err = λ w. none;
  sleep = λ amount w. amount ∷ w;
}

slept_twice :
    internal_retry keeps_sleeps (backoff none) 3 []
    ≡ some (record { value = some 2; error = none }, 150000000 ∷ 100000000 ∷ [])
unfolding internal_retry
slept_twice = refl

internal_retry-keeps_example : All IsBackoff (150000000 ∷ 100000000 ∷ [])
internal_retry-keeps_example =
    internal_retry-keeps keeps_sleeps (All IsBackoff) (λ w h. h) (λ a w b h. (b, h)) none 3 []
      (150000000 ∷ 100000000 ∷ []) (record { value = some 2; error = none }) tt slept_twice

-- with a count of 0, neither an attempt nor an error
no_attempt :
    with_exponential_backoff_max_retries third_succeeds (some 0) 1 0
    ≡ some (record { value = none; error = none }, 0)
unfolding with_exponential_backoff_max_retries
no_attempt = refl

given_up :
    periodically third_succeeds 5 (some 2) 3 0 ≡ some (record { value = none; error = some 1 }, 2)
unfolding periodically
given_up = refl
