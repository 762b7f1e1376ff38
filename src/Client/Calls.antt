-- ===== src/Client/Calls.antt =====
-- The call patterns that every method of the client repeats.
use cluster_api_provider_ovh.Prelude.{
  ◌++◌, Bool, Text, codes, Outcome, ok, err, GoError, wrap, Exec, or_wrap, if◌then◌else◌,
}
use cluster_api_provider_ovh.Cloud.{Method, Kind, Reply, Body, World}
use cluster_api_provider_ovh.Client.Retry.{Client, request, retry_with_backoff}

-- What `fmt` prints for %q.
abbrev pub quoted : Text → Text
quoted name = codes "\"" ++ (name ++ codes "\"")

-- `if err != nil { if forgiven(err) { return nil }; return fmt.Errorf("<prefix>: %w", err) }`
abbrev pub forgive : (GoError → Bool) → Text → Outcome (Unit {0}) → Outcome (Unit {0})
forgive forgiven prefix (ok u) = ok u
forgive forgiven prefix (err e) = if forgiven e then ok tt else err (wrap prefix e)

module _ {W : Type 0} (c : Client W) (operation : Text) where
  -- `c.retryWithBackoff(operation, func() error { return c.api.<Method>(path, body, &reply) })`
  abbrev pub retried : (k : Kind) → Method → Text → Body → Exec (World W) (Reply k)
  retried k method path body = retry_with_backoff operation (request c k method path body)

  -- The same, with the error wrapped.
  abbrev pub fetch : (k : Kind) → Method → Text → Body → Text → Exec (World W) (Reply k)
  fetch k method path body prefix = or_wrap prefix (retried k method path body)

  -- A DELETE, or a POST that may be repeated, whose error counts as success if it is forgiven.
  abbrev pub drop : Method → Text → Body → (GoError → Bool) → Text → Exec (World W) (Unit {0})
  drop method path body forgiven prefix w =
      let (r, w') = retried Kind.nothing method path body w in (forgive forgiven prefix r, w')
