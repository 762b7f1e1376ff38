-- ===== src/Client/Retry.antt =====
-- The client value, its paths and the retry loop (pkg/ovh/client.go). Durations are in seconds:
-- both bounds of the backoff are whole seconds, and float64 holds their powers of two exactly.
pub mod Settled
pub mod Bounds
use cluster_api_provider_ovh.Prelude.{
  ℕ, zero, suc, ◌+◌, ◌*◌, ◌^◌, min, true, false, ◌∷◌, ◌++◌, Text, codes, Outcome, ok, err, wrap,
  Exec, if◌then◌else◌,
}
use cluster_api_provider_ovh.Errors.{is_retryable}
use cluster_api_provider_ovh.Cloud.{Method, Kind, Reply, Body, Api, sent, slept, World}

abbrev pub max_retries : ℕ
max_retries = 5

abbrev pub initial_backoff : ℕ
initial_backoff = 2

abbrev pub max_backoff : ℕ
max_backoff = 60

-- The fields of `Client`; the logger has no effect on what is returned.
pub record Client (W : Type 0) : Type 0 where
  pub api : Api W
  pub service_name : Text
  pub region : Text

-- `min(initialBackoff * 2^attempt, maxBackoff)`
unfoldable pub backoff : ℕ → ℕ
backoff attempt = min (initial_backoff * 2 ^ attempt) max_backoff

abbrev pub retries_text : Text → Text
retries_text operation = operation ++ codes " failed after 5 retries"

module _ {W : Type 0} where
  -- `time.Sleep`
  abbrev pub sleep : ℕ → World W → World W
  sleep seconds w = record w { events = slept seconds ∷ w.events }

  -- One call of `c.api`.
  unfoldable pub request : Client W → (k : Kind) → Method → Text → Body → Exec (World W) (Reply k)
  request c k method path body w =
      let (r, cloud) = c.api.call k method path body w.cloud in
      (r, record { cloud = cloud; events = sent method path body ∷ w.events })

  -- `projectPath` with the suffix already formatted.
  unfoldable pub project_path : Client W → Text → Text
  project_path c suffix = codes "/cloud/project/" ++ (c.service_name ++ suffix)

  -- `regionPath` with the suffix already formatted.
  unfoldable pub region_path : Client W → Text → Text
  region_path c suffix =
      codes "/cloud/project/" ++ (c.service_name ++ (codes "/region/" ++ (c.region ++ suffix)))

  module _ {A : Type 0} (operation : Text) (fn : Exec (World W) A) where
    -- What follows the attempt `attempt`, of which `left` may still follow.
    unfoldable pub retry_from : ℕ → ℕ → Exec (World W) A
    retry_from zero attempt w =
        let (r, w') = fn w in
        elim r [
          | ok a ↦ (ok a, w')
          | err e ↦ (err (if is_retryable e then wrap (retries_text operation) e else e), w')
        ]
    retry_from (suc left) attempt w =
        let (r, w') = fn w in
        elim r [
          | ok a ↦ (ok a, w')
          | err e ↦ elim (is_retryable e) [
            | true ↦ retry_from left (attempt + 1) (sleep (backoff attempt) w')
            | false ↦ (err e, w')
          ]
        ]

    -- `retryWithBackoff`
    unfoldable pub retry_with_backoff : Exec (World W) A
    unfolding retry_from
    retry_with_backoff = retry_from max_retries 0
