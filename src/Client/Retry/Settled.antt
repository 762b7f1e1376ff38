-- ===== src/Client/Retry/Settled.antt =====
-- The retry loop returns what the first attempt returns that is no transient error, and gives up
-- after the sixth attempt.
use cluster_api_provider_ovh.Prelude.{
  ℕ, zero, suc, ◌+◌, ◌≤◌, ◌≡◌, refl, ◌⊎◌, inl, inr, true, false, Text, Outcome, ok, err, GoError,
  wrap, Exec, arith, Bool-cases, ◌∙◌,
}
use cluster_api_provider_ovh.Errors.{is_retryable}
use cluster_api_provider_ovh.Cloud.{World}
use cluster_api_provider_ovh.Client.Retry.{
  backoff, retries_text, sleep, retry_from, retry_with_backoff,
}

module _ {W A : Type 0} (fn : Exec (World W) A) where
  -- The world in which attempt `attempt + k` starts, the earlier ones having slept.
  abbrev pub before : ℕ → ℕ → World W → World W
  before zero attempt w = w
  before (suc k) attempt w = before k (attempt + 1) (sleep (backoff attempt) (fn w).1)

  -- The `k` attempts from `attempt` on all end in a transient error.
  abbrev pub AllTransient : ℕ → ℕ → World W → Type 0
  AllTransient zero attempt w = Unit
  AllTransient (suc k) attempt w =
      (e : GoError) × ((fn w).0 ≡ err e)
      × (is_retryable e ≡ true)
      × AllTransient k (attempt + 1) (sleep (backoff attempt) (fn w).1)

-- The loop returns this and does not try again.
abbrev pub IsFinal : {A : Type 0} → Outcome A → Type 0
IsFinal (ok a) = Unit
IsFinal (err e) = is_retryable e ≡ false

module _ {W A : Type 0} (operation : Text) (fn : Exec (World W) A) where
  abbrev pub SettlesWithin : ℕ → ℕ → World W → Outcome A × World W → Type 0
  SettlesWithin left attempt w result =
      (k : ℕ) × (k ≤ left)
      × AllTransient fn k attempt w
      × IsFinal (fn (before fn k attempt w)).0
      × (result ≡ fn (before fn k attempt w))

  abbrev pub GivesUp : ℕ → ℕ → World W → Outcome A × World W → Type 0
  GivesUp left attempt w result =
      (e : GoError) × AllTransient fn left attempt w
      × ((fn (before fn left attempt w)).0 ≡ err e)
      × (is_retryable e ≡ true)
      × (result ≡ (err (wrap (retries_text operation) e), (fn (before fn left attempt w)).1))

  stops_now :
      (left attempt : ℕ) (w : World W)
      → IsFinal (fn w).0
      → retry_from operation fn left attempt w ≡ fn w
  unfolding retry_from
  stops_now zero attempt w final = ground arith
  stops_now (suc left) attempt w final = ground arith

  goes_on :
      (left attempt : ℕ) (w : World W) (e : GoError)
      → (fn w).0 ≡ err e
      → is_retryable e ≡ true
      → retry_from operation fn (suc left) attempt w
        ≡ retry_from operation fn left (attempt + 1) (sleep (backoff attempt) (fn w).1)
  unfolding retry_from
  goes_on left attempt w e failed transient = rw (failed, retry_from) (rw transient)

  ends :
      (attempt : ℕ) (w : World W) (e : GoError)
      → (fn w).0 ≡ err e
      → is_retryable e ≡ true
      → retry_from operation fn zero attempt w ≡ (err (wrap (retries_text operation) e), (fn w).1)
  unfolding retry_from
  ends attempt w e failed transient = rw (failed, retry_from) (rw transient)

  settled_or_transient :
      (r : Outcome A) → IsFinal r ⊎ ((e : GoError) × (r ≡ err e) × (is_retryable e ≡ true))
  settled_or_transient (ok a) = inl tt
  settled_or_transient (err e) = elim (Bool-cases (is_retryable e)) [
    | inl transient ↦ inr (e, refl, transient)
    | inr final ↦ inl final
  ]

  retry_from-settles :
      (left attempt : ℕ) (w : World W)
      → SettlesWithin left attempt w (retry_from operation fn left attempt w)
        ⊎ GivesUp left attempt w (retry_from operation fn left attempt w)
  retry_from-settles zero attempt w = elim (settled_or_transient (fn w).0) [
    | inl final ↦ inl (0, omega arith, tt, final, stops_now zero attempt w final)
    | inr (e, failed, transient) ↦ inr (e, tt, failed, transient, ends attempt w e failed transient)
  ]
  retry_from-settles (suc left) attempt w = elim (settled_or_transient (fn w).0) [
    | inl final ↦ inl (0, omega arith, tt, final, stops_now (suc left) attempt w final)
    | inr (e, failed, transient) ↦
        elim (retry_from-settles left (attempt + 1) (sleep (backoff attempt) (fn w).1)) [
          | inl (k, within, before_k, final, same) ↦ inl (
            suc k,
            omega arith,
            (e, failed, transient, before_k),
            final,
            goes_on left attempt w e failed transient ∙ same,
          )
          | inr (e', all, last, transient', same) ↦ inr (
            e',
            (e, failed, transient, all),
            last,
            transient',
            goes_on left attempt w e failed transient ∙ same,
          )
        ]
  ]

  -- The retry loop returns exactly what the first attempt returns that is no transient error, with
  -- at most five transient failures before it; if all six attempts fail so, it returns the sixth's
  -- error, wrapped.
  pub retry_settles :
      (w : World W)
      → SettlesWithin 5 0 w (retry_with_backoff operation fn w)
        ⊎ GivesUp 5 0 w (retry_with_backoff operation fn w)
  unfolding retry_with_backoff
  retry_settles w = retry_from-settles 5 0 w
