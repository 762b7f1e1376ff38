-- ===== src/Reconcile/Deferred.antt =====
-- The deferred patch: the object is handed to the API server after every reconciliation, failed
-- ones included.
use cluster_api_provider_ovh.Prelude.{
  List, ◌∷◌, Bool, false, Option, none, some, Outcome, ok, err, Exec,
}
use cluster_api_provider_ovh.Cloud.{World}
use cluster_api_provider_ovh.NodeInit.{outside}
use cluster_api_provider_ovh.Resources.{Result}

-- The world, and the objects that were handed to Patch, the latest first.
pub record Session (W O : Type 0) : Type 0 where
  pub world : World W
  pub patched : List O

-- `if rerr == nil { rerr = patchErr }`
unfoldable pub settle : Outcome Result → Outcome (Unit {0}) → Outcome Result
settle (err e) patched = err e
settle (ok r) (err e) = err e
settle (ok r) (ok u) = ok r

-- `ptr.Deref(p, false)`
abbrev pub or_false : Option Bool → Bool
or_false none = false
or_false (some b) = b

module _ {W O : Type 0} where
  -- A call of the API server.
  abbrev pub in_session : {A : Type 0} → (W → Outcome A × W) → Exec (Session W O) A
  in_session f s = let (r, w) = outside f s.world in (r, record s { world = w })

  -- The body of Reconcile behind `defer`, with the patch at its end.
  unfoldable pub with_patch :
      (O → W → Outcome (Unit {0}) × W)
      → (World W → Outcome Result × (O × World W))
      → Exec (Session W O) Result
  unfolding settle
  with_patch patch body s =
      let (r, after) = body s.world in
      let (p, w) = outside (patch after.0) after.1 in
      (settle r p, record { world = w; patched = after.0 ∷ s.patched })
