-- ===== src/Provider/Retry.antt =====
-- src/providers/retry.ts: which failures of a provider are tried again, how long the wait is, and the
-- loop that tries. The call itself is a parameter: what its nth run comes to.
use hera_v.Shared.{
  ℕ, zero, suc, ◌+◌, ◌*◌, Bool, true, false, not, ◌&&◌, ◌||◌, Option, none, some, List, [], ◌∷◌,
  String, ◌==◌, if◌then◌else◌, leb, min, any, or_else, get_elem?, length,
}
use hera_v.Shared.Dict.{str_eq}
pub mod Attempts

pub data StatusClass : Type 0 where
  retryable fatal unknown : StatusClass

unfoldable pub retryable_status : List ℕ
retryable_status = 408 ∷ 429 ∷ 500 ∷ 502 ∷ 503 ∷ 504 ∷ []

unfoldable pub fatal_status : List ℕ
fatal_status = 400 ∷ 401 ∷ 403 ∷ 404 ∷ []

unfoldable pub retry_delays_ms : List ℕ
retry_delays_ms = 2000 ∷ 8000 ∷ []

abbrev pub retry_after_cap_ms : ℕ
retry_after_cap_ms = 30000

abbrev pub retry_max : ℕ
retry_max = 2

pub classify_status : Option ℕ → StatusClass
unfolding retryable_status fatal_status
classify_status none = unknown
classify_status (some status) =
    if any (λ s. s == status) retryable_status
    then retryable
    else if any (λ s. s == status) fatal_status
    then fatal
    else if leb 500 status
    then retryable
    else fatal

-- What the policy reads of an error: a `ProviderError` says itself whether it can be retried; an
-- error of a vendor's library has a class name and maybe an HTTP status.
pub data Failure : Type 0 where
  provider_error : Bool → Failure
  sdk_error : Option ℕ → String → Failure

abbrev is_retryable_class : StatusClass → Bool
is_retryable_class retryable = true
is_retryable_class _ = false

transport_errors : List String
transport_errors =
    "APIConnectionError" ∷ "APIConnectionTimeoutError" ∷ "APITimeoutError" ∷ "ConnectionError"
    ∷ "TimeoutError" ∷ []

pub is_retryable_error : Failure → Bool
unfolding classify_status transport_errors
is_retryable_error (provider_error again) = again
is_retryable_error (sdk_error none name) = any (str_eq name) transport_errors
is_retryable_error (sdk_error (some status) name) =
    is_retryable_class (classify_status (some status))

-- The header `Retry-After` as JavaScript reads it: a finite number, in milliseconds; a date, by its
-- distance from now; what is negative is `behind`.
pub data RetryAfter : Type 0 where
  absent unreadable behind : RetryAfter
  ahead : ℕ → RetryAfter

unfoldable pub retry_after_ms : RetryAfter → Option ℕ
retry_after_ms absent = none
retry_after_ms unreadable = none
retry_after_ms behind = some 0
retry_after_ms (ahead ms) = some (min ms retry_after_cap_ms)

pub data Attempt {ℓ} (A : Type ℓ) : Type ℓ where
  returned : A → Attempt A
  failed : Failure → Attempt A

-- How the loop ended, after how many calls, with which waits between them.
pub record Retries {ℓ} (A : Type ℓ) : Type ℓ where
  pub outcome : Attempt A
  pub calls : ℕ
  pub waits : List ℕ

unfoldable pub delay_ms : Option ℕ → ℕ → ℕ
unfolding retry_delays_ms
delay_ms (some ms) attempt = ms
delay_ms none attempt = or_else (get_elem? retry_delays_ms attempt) 8000

module _ {ℓ} {A : Type ℓ} (start : ℕ → Attempt A) (retry_after : Failure → RetryAfter) where
  abbrev pub once : Attempt A → Option (Retries A)
  once outcome = some (record { outcome = outcome; calls = 1; waits = [] })

  abbrev pub after_wait : ℕ → Option (Retries A) → Option (Retries A)
  after_wait delay none = none
  after_wait delay (some r) =
      some (record { outcome = r.outcome; calls = suc r.calls; waits = delay ∷ r.waits })

  abbrev pub attempt_with : Attempt A → ℕ → Option (Retries A) → Option (Retries A)
  attempt_with (returned value) attempt rest = once (returned value)
  attempt_with (failed error) attempt rest =
      if leb retry_max attempt || not (is_retryable_error error)
      then once (failed error)
      else after_wait (delay_ms (retry_after_ms (retry_after error)) attempt) rest

  -- The loop of `withRetries`; none means that the fuel ran out.
  pub retry_loop : ℕ → ℕ → Option (Retries A)
  unfolding delay_ms retry_after_ms is_retryable_error
  retry_loop zero attempt = none
  retry_loop (suc fuel) attempt =
      attempt_with (start attempt) attempt (retry_loop fuel (suc attempt))

  pub with_retries : Option (Retries A)
  unfolding retry_loop
  with_retries = retry_loop (suc retry_max) 0
