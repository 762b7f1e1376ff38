-- ===== src/Reconcile/Watches.antt =====
-- The functions that map a changed object to the OVHClusters to reconcile, and the index that finds
-- them.
use cluster_api_provider_ovh.Prelude.{
  not, List, [], ◌∷◌, map, Text, codes, is_empty, keep, ◌==◌, Outcome, ok, err, if◌then◌else◌,
}
use cluster_api_provider_ovh.Resources.{OvhCluster, SecretKey}
use cluster_api_provider_ovh.Reconcile.Server.{Manager, OwnerCluster}

-- reconcile.Request
pub record Request : Type 0 where
  pub namespace : Text
  pub name : Text

-- The index ".spec.identitySecret.name".
unfoldable pub indexed_names : OvhCluster → List Text
indexed_names cluster =
    if is_empty cluster.spec.identity_secret.name
    then []
    else cluster.spec.identity_secret.name ∷ []

abbrev pub request_for : OvhCluster → Request
request_for cluster = record { namespace = cluster.meta.namespace; name = cluster.meta.name }

unfoldable pub requests_of : SecretKey → Outcome (List OvhCluster) → List Request
requests_of secret (err e) = []
requests_of secret (ok clusters) =
    map request_for (keep (λ c. c.spec.identity_secret.namespace == secret.namespace) clusters)

module _ {W : Type 0} (m : Manager W) where
  -- `secretToOVHCluster`, for an object that is a Secret.
  unfoldable pub secret_to_ovh_cluster : SecretKey → W → List Request
  unfolding requests_of
  secret_to_ovh_cluster secret w = requests_of secret (m.clusters_by_secret secret.name w).0

  -- `clusterToOVHCluster`
  unfoldable pub cluster_to_ovh_cluster : OwnerCluster → List Request
  cluster_to_ovh_cluster cluster =
      if not (m.is_defined cluster.infrastructure_ref)
      then []
      else if not (cluster.infrastructure_ref.kind == codes "OVHCluster")
      then []
      else record { namespace = cluster.namespace; name = cluster.infrastructure_ref.name } ∷ []
