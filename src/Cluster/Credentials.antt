-- ===== src/Cluster/Credentials.antt =====
-- reconcileCredentials.
use cluster_api_provider_ovh.Prelude.{
  ◌++◌, [], codes, wrap, Outcome, ok, err, Exec, fail, attempt, ◌>>=◌, ◌>>◌,
}
use cluster_api_provider_ovh.Errors.{error_text}
use cluster_api_provider_ovh.Client.Instances.{validate_credentials}
use cluster_api_provider_ovh.Resources.{
  condition_true, condition_false, Kube, ovh_connection_ready_condition,
  ovh_authentication_failed_reason,
}
use cluster_api_provider_ovh.Cluster.Scope.{
  ClusterScope, ClusterState, on_client, set_cluster_condition,
}

module _ {W : Type 0} (k : Kube W) (scope : ClusterScope W) where
  unfoldable pub judge_credentials : Outcome (Unit {0}) → Exec (ClusterState W) (Unit {0})
  judge_credentials (err e) =
      set_cluster_condition k ovh_connection_ready_condition condition_false
        ovh_authentication_failed_reason
        (codes "Failed to validate OVH credentials: " ++ error_text e)
      >> fail (wrap (codes "validating OVH credentials") e)
  judge_credentials (ok u) =
      set_cluster_condition k ovh_connection_ready_condition condition_true
        ovh_connection_ready_condition []

  -- `reconcileCredentials`
  unfoldable pub reconcile_credentials : Exec (ClusterState W) (Unit {0})
  unfolding judge_credentials
  reconcile_credentials = do
    valid ← attempt (on_client (validate_credentials scope.ovh_client))
    judge_credentials valid
