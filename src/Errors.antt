-- ===== src/Errors.antt =====
-- The classes of API errors (pkg/ovh/errors.go). A nil error is no value here: the callers that
-- pass one test it before.
pub mod Classes
use cluster_api_provider_ovh.Prelude.{
  ℕ, ◌++◌, Bool, false, Option, none, some, ◌&&◌, ◌||◌, Text, codes, contains, nat_eq, GoError, api,
  plain, wrap, if◌then◌else◌,
}

-- `err.Error()`
unfoldable pub error_text : GoError → Text
error_text (api code message) = message
error_text (plain message) = message
error_text (wrap prefix inner) = prefix ++ (codes ": " ++ error_text inner)

-- `errors.As(err, &apiErr)`: the status code of the first API error in the chain.
unfoldable pub as_api : GoError → Option ℕ
as_api (api code message) = some code
as_api (plain message) = none
as_api (wrap prefix inner) = as_api inner

abbrev pub says : GoError → Text → Bool
says e part = contains (error_text e) part

not_found_code : Option ℕ → GoError → Bool
not_found_code (some code) e = nat_eq code 404
not_found_code none e = says e (codes "404") || says e (codes "not found")

unfoldable pub is_not_found : GoError → Bool
unfolding not_found_code
is_not_found e = not_found_code (as_api e) e

abbrev pub has_code : Option ℕ → ℕ → Bool
has_code (some code) n = nat_eq code n
has_code none n = false

unfoldable pub is_conflict : GoError → Bool
is_conflict e = has_code (as_api e) 409

unfoldable pub is_already_deleting : GoError → Bool
unfolding is_conflict
is_already_deleting e =
    is_conflict e && (says e (codes "PENDING_DELETE") || says e (codes "PENDING_UPDATE"))

abbrev pub transient_code : ℕ → Bool
transient_code code =
    nat_eq code 429 || nat_eq code 500 || nat_eq code 502 || nat_eq code 503 || nat_eq code 504

retryable_code : Option ℕ → GoError → Bool
retryable_code (some code) e = transient_code code
retryable_code none e =
    says e (codes "connection refused")
    || says e (codes "connection reset")
    || says e (codes "timeout")
    || says e (codes "temporary failure")

unfoldable pub is_retryable : GoError → Bool
unfolding retryable_code
is_retryable e = retryable_code (as_api e) e

unfoldable pub is_forbidden : GoError → Bool
is_forbidden e = has_code (as_api e) 403

unfoldable pub is_unauthorized : GoError → Bool
is_unauthorized e = has_code (as_api e) 401
