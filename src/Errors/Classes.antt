-- ===== src/Errors/Classes.antt =====
-- How the classes of pkg/ovh/errors.go stand to one another, and what wrapping does to them.
use cluster_api_provider_ovh.Prelude.{
  ℕ, ◌≡◌, refl, Bool, true, false, none, some, Text, codes, contains-append, GoError, wrap, arith,
  ◌+◌, ◌≤◌, ◌++◌, not, ◌&&◌, ◌||◌,
}
use cluster_api_provider_ovh.Errors.{
  error_text, as_api, says, is_not_found, is_conflict, is_already_deleting, is_retryable,
  is_forbidden, is_unauthorized,
}

abbrev pub indicator : Bool → ℕ
indicator true = 1
indicator false = 0

-- An error that carries an API status code is in at most one of the classes not-found, conflict,
-- retryable, forbidden and unauthorized.
pub api_classes_disjoint :
    (e : GoError) (code : ℕ)
    → as_api e ≡ some code
    → indicator (is_not_found e)
        + indicator (is_conflict e)
        + indicator (is_retryable e)
        + indicator (is_forbidden e)
        + indicator (is_unauthorized e)
      ≤ 1
unfolding is_not_found is_conflict is_retryable is_forbidden is_unauthorized
api_classes_disjoint e code h = ground arith

-- Text that an error holds is in the text of every error that wraps it.
pub says-wrap :
    (prefix part : Text) (e : GoError) → says e part ≡ true → says (wrap prefix e) part ≡ true
unfolding error_text
says-wrap prefix part e h =
    contains-append prefix (codes ": " ++ error_text e) part
      (contains-append (codes ": ") (error_text e) part h)

-- Wrapping an API error with `%w`, however often that was done before, keeps it in exactly those of
-- the classes not-found, conflict, retryable, forbidden and unauthorized in which it was. One that
-- counts as already deleting goes on to do so. Whether the wrapped error counts so is decided by the
-- status 409 and by the text of the whole, the prefix included.
pub wrap_api_classes :
    (prefix : Text) (e : GoError) (code : ℕ)
    → as_api e ≡ some code
    → (is_not_found (wrap prefix e) ≡ is_not_found e)
      × (is_conflict (wrap prefix e) ≡ is_conflict e)
      × (is_retryable (wrap prefix e) ≡ is_retryable e)
      × (is_forbidden (wrap prefix e) ≡ is_forbidden e)
      × (is_unauthorized (wrap prefix e) ≡ is_unauthorized e)
      × ((not (is_already_deleting e) || is_already_deleting (wrap prefix e)) ≡ true)
      × (is_already_deleting (wrap prefix e) ≡ (
          is_conflict e
          && (says (wrap prefix e) (codes "PENDING_DELETE")
              || says (wrap prefix e) (codes "PENDING_UPDATE"))))
unfolding is_not_found is_already_deleting is_conflict is_retryable is_forbidden is_unauthorized
    as_api
wrap_api_classes prefix e code h = (
  ground arith,
  refl,
  ground arith,
  refl,
  refl,
  ground (
    arith,
    says-wrap prefix (codes "PENDING_DELETE") e,
    says-wrap prefix (codes "PENDING_UPDATE") e,
  ),
  refl,
)

-- An error that counts as not found does so too when it is wrapped.
pub wrap_not_found :
    (prefix : Text) (e : GoError) → is_not_found e ≡ true → is_not_found (wrap prefix e) ≡ true
unfolding is_not_found as_api
wrap_not_found prefix e =
    ground (arith, says-wrap prefix (codes "404") e, says-wrap prefix (codes "not found") e)

-- An error counts as already deleting only when it is an API error of status 409, so it is never
-- retried and never taken for a missing resource.
pub already_deleting_is_conflict :
    (e : GoError)
    → is_already_deleting e ≡ true
    → (as_api e ≡ some 409) × (is_retryable e ≡ false) × (is_not_found e ≡ false)
unfolding is_already_deleting is_conflict is_retryable is_not_found
already_deleting_is_conflict e h = ground arith

-- An error that carries no API status code, a failure of the network above all, counts as a
-- missing resource as soon as its text holds "404".
pub plain_not_found :
    (e : GoError) → as_api e ≡ none → says e (codes "404") ≡ true → is_not_found e ≡ true
unfolding is_not_found
plain_not_found e h s = ground arith
