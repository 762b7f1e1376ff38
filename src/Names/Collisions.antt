-- ===== src/Names/Collisions.antt =====
-- The load balancer name of a cluster and the prefix by which ReconcileDelete of
-- internal/controller/ovhcluster_controller.go looks for orphans are the same text.
use cluster_api_provider_ovh.Prelude.{
  ◌≡◌, true, [], ◌∷◌, ◌++◌, Text, codes, has_prefix, has_prefix-append-append,
}
use mathlib.Core.List.{append_assoc}
use cluster_api_provider_ovh.Names.{join, generate_rfc1035_name}
use cluster_api_provider_ovh.Names.Labels.{IsLabel, generate_fixes}

-- `GenerateRFC1035Name("capi", cluster, "lb")`
unfoldable pub lb_name : Text → Text
lb_name cluster = generate_rfc1035_name (codes "capi" ∷ cluster ∷ codes "lb" ∷ [])

joins_prefix :
    (cluster more : Text)
    → has_prefix
        (join (codes "-") (codes "capi" ∷ (cluster ++ (codes "-lb" ++ more)) ∷ codes "lb" ∷ []))
        (join (codes "-") (codes "capi" ∷ cluster ∷ codes "lb" ∷ []))
      ≡ true
unfolding join codes has_prefix
joins_prefix cluster more =
    rw append_assoc
      (has_prefix-append-append cluster (codes "-lb" ++ (more ++ codes "-lb")) (codes "-lb"))

-- Two clusters, the second named like the first with "-lb" and any text behind it, have load
-- balancer names of which the first is a prefix of the second, as long as both are labels unchanged.
pub lb_name_prefix :
    (cluster more : Text)
    → IsLabel (join (codes "-") (codes "capi" ∷ cluster ∷ codes "lb" ∷ []))
    → IsLabel
        (join (codes "-") (codes "capi" ∷ (cluster ++ (codes "-lb" ++ more)) ∷ codes "lb" ∷ []))
    → has_prefix (lb_name (cluster ++ (codes "-lb" ++ more))) (lb_name cluster) ≡ true
unfolding lb_name
lb_name_prefix cluster more first second =
    rw (generate_fixes _ first) (rw (generate_fixes _ second) (joins_prefix cluster more))
