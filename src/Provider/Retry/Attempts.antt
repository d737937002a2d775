-- ===== src/Provider/Retry/Attempts.antt =====
-- The loop of src/providers/retry.ts ends within its budget.
use mathlib.Core.Path.{subst}
use hera_v.Shared.{
  sym, ap, ◌∙◌, ℕ, zero, suc, ◌+◌, ◌≤◌, ◌<◌, ◌≡◌, refl, true, not, ◌||◌, Option, none, some, [],
  ◌∷◌, arith, All, length, leb, Bool-cases, inl, inr, ◌-◌,
}
use hera_v.Provider.Retry.{
  Failure, RetryAfter, absent, unreadable, behind, ahead, retry_after_ms, delay_ms,
  is_retryable_error, Attempt, returned, failed, Retries, retry_max, attempt_with, retry_loop,
  with_retries, retry_after_cap_ms,
}

-- A failure that is worth another call.
abbrev pub IsTransient {ℓ} : {A : Type ℓ} → Attempt A → Type 0
IsTransient (returned value) = ⊥
IsTransient (failed error) = is_retryable_error error ≡ true

delay_ms-capped : (r : RetryAfter) (attempt : ℕ) → delay_ms (retry_after_ms r) attempt ≤ 30000
unfolding delay_ms retry_after_ms
delay_ms-capped absent zero = omega arith
delay_ms-capped absent (suc zero) = omega arith
delay_ms-capped absent (suc (suc n)) = omega arith
delay_ms-capped unreadable zero = omega arith
delay_ms-capped unreadable (suc zero) = omega arith
delay_ms-capped unreadable (suc (suc n)) = omega arith
delay_ms-capped behind attempt = omega arith
delay_ms-capped (ahead ms) attempt = omega arith

module _ {ℓ} {A : Type ℓ} (start : ℕ → Attempt A) (retry_after : Failure → RetryAfter) where
  -- The calls from an attempt on: within the budget, the last one decides, all before it failed
  -- in a way that is worth another call, and no wait is longer than the cap.
  pub record EndsWell (attempt : ℕ) (r : Retries A) : Type ℓ where
    pub some_call : 1 ≤ r.calls
    pub budget : attempt + r.calls ≤ suc retry_max
    pub waited : suc (length r.waits) ≡ r.calls
    pub capped : All (λ ms. ms ≤ retry_after_cap_ms) r.waits
    pub decided : r.outcome ≡ start (attempt + (r.calls - 1))
    pub transient : (i : ℕ) → i + 1 < r.calls → IsTransient (start (attempt + i))

  once-EndsWell :
      (attempt : ℕ) (o : Attempt A)
      → attempt ≤ retry_max
      → start attempt ≡ o
      → EndsWell attempt (record { outcome = o; calls = 1; waits = [] })
  once-EndsWell attempt o h e = record {
    some_call = omega arith;
    budget = omega (arith, h);
    waited = refl;
    capped = tt;
    decided = sym e ∙ ap start (omega arith);
    transient = λ i late. absurd (omega (arith, late));
  }

  later-IsTransient :
      (attempt : ℕ) (r : Retries A)
      → IsTransient (start attempt)
      → EndsWell (suc attempt) r
      → (i : ℕ) → i + 1 < suc r.calls
      → IsTransient (start (attempt + i))
  later-IsTransient attempt r first w zero early =
      subst (λ n. IsTransient (start n)) (omega arith) first
  later-IsTransient attempt r first w (suc i) early =
      subst (λ n. IsTransient (start n)) (omega arith) (w.transient i (omega (arith, early)))

  wait-EndsWell :
      (attempt delay : ℕ) (r : Retries A)
      → delay ≤ retry_after_cap_ms
      → IsTransient (start attempt)
      → EndsWell (suc attempt) r
      → EndsWell attempt
          (record { outcome = r.outcome; calls = suc r.calls; waits = delay ∷ r.waits })
  wait-EndsWell attempt delay r cap first w = record {
    some_call = omega arith;
    budget = omega (arith, w.budget);
    waited = ap suc w.waited;
    capped = (cap, w.capped);
    decided = w.decided ∙ ap start (omega (arith, w.some_call));
    transient = later-IsTransient attempt r first w;
  }

  abbrev Ends : ℕ → Option (Retries A) → Type ℓ
  Ends attempt o = (r : Retries A) × (o ≡ some r) × EndsWell attempt r

  attempt_with-Ends :
      (o : Attempt A) (attempt : ℕ) (rest : Option (Retries A))
      → attempt ≤ retry_max
      → start attempt ≡ o
      → (attempt < retry_max → Ends (suc attempt) rest)
      → Ends attempt (attempt_with start retry_after o attempt rest)
  attempt_with-Ends (returned value) attempt rest h e more =
      (_, refl, once-EndsWell attempt (returned value) h e)
  attempt_with-Ends (failed error) attempt rest h e more =
      elim (Bool-cases (leb retry_max attempt || not (is_retryable_error error))) [
        | inl stop ↦ (
          record { outcome = failed error; calls = 1; waits = [] },
          rw stop,
          once-EndsWell attempt (failed error) h e,
        )
        | inr again ↦
            let delay = delay_ms (retry_after_ms (retry_after error)) attempt in
            let (r, ran, w) = more (ground (arith, again)) in
            let first : IsTransient (start attempt) =
              subst IsTransient (sym e) (ground (arith, again)) in
            (
              record { outcome = r.outcome; calls = suc r.calls; waits = delay ∷ r.waits },
              rw (again, ran),
              wait-EndsWell attempt delay r (delay_ms-capped (retry_after error) attempt) first w,
            )
      ]

  retry_loop-Ends :
      (fuel attempt : ℕ)
      → attempt + fuel ≡ retry_max
      → Ends attempt (retry_loop start retry_after (suc fuel) attempt)
  unfolding retry_loop
  retry_loop-Ends zero attempt h =
      attempt_with-Ends (start attempt) attempt none (omega (arith, h)) refl
        (λ less. absurd (omega (arith, h, less)))
  retry_loop-Ends (suc fuel) attempt h =
      attempt_with-Ends (start attempt) attempt _ (omega (arith, h)) refl
        (λ less. retry_loop-Ends fuel (suc attempt) (omega (arith, h)))

  -- Whatever the calls come to, `withRetries` ends: after at most three calls, with a wait of at most
  -- thirty seconds between one call and the next. It ends as the last call did, and each call before
  -- that failed in a way that is worth another one.
  pub with_retries-EndsWell :
      (r : Retries A) × (with_retries start retry_after ≡ some r) × EndsWell 0 r
  unfolding with_retries
  with_retries-EndsWell = retry_loop-Ends retry_max 0 refl
