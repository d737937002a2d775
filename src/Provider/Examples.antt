-- ===== src/Provider/Examples.antt =====
-- A provider that is overloaded once and then answers.
use hera_v.Shared.{ℕ, zero, suc, ◌≡◌, some}
use hera_v.Provider.Retry.{
  Failure, sdk_error, RetryAfter, ahead, Attempt, returned, failed, Retries, with_retries,
}
use hera_v.Provider.Retry.Attempts.{EndsWell, with_retries-EndsWell}

abbrev overloaded_once : ℕ → Attempt ℕ
overloaded_once zero = failed (sdk_error (some 503) "InternalServerError")
overloaded_once (suc n) = returned 7

abbrev in_a_minute : Failure → RetryAfter
in_a_minute error = ahead 60000

with_retries-EndsWell_example :
    (r : Retries ℕ) × (with_retries overloaded_once in_a_minute ≡ some r)
    × EndsWell overloaded_once in_a_minute 0 r
with_retries-EndsWell_example = with_retries-EndsWell overloaded_once in_a_minute
