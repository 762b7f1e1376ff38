-- ===== src/Cluster/Normal.antt =====
-- ReconcileNormal of the OVHCluster controller, without its metrics.
use cluster_api_provider_ovh.Prelude.{
  ℕ, true, not, ◌&&◌, some, [], nat_eq, Exec, pure, attempt, modify, ◌>>=◌, ◌>>◌, if◌then◌else◌,
}
use cluster_api_provider_ovh.Resources.{
  condition_true, Kube, Result, no_requeue, requeue, cluster_finalizer,
  infrastructure_ready_condition,
}
use cluster_api_provider_ovh.Cluster.Scope.{
  ClusterScope, ClusterState, set_cluster_status, set_cluster_condition,
}
use cluster_api_provider_ovh.Cluster.Credentials.{reconcile_credentials}
use cluster_api_provider_ovh.Cluster.Network.{
  NetworkProgress, in_place, not_active, reconcile_network,
}
use cluster_api_provider_ovh.Cluster.Groups.{reconcile_security_groups}
use cluster_api_provider_ovh.Cluster.Domains.{reconcile_failure_domains, reconcile_dns}
use cluster_api_provider_ovh.Cluster.Balancer.{requeue_time_short, reconcile_load_balancer}

abbrev pub requeue_time_long : ℕ
requeue_time_long = 180

module _ {W : Type 0} (k : Kube W) (scope : ClusterScope W) where
  unfoldable pub add_cluster_finalizer : Exec (ClusterState W) (Unit {0})
  add_cluster_finalizer = modify λ s. record s {
    cluster = record s.cluster {
      meta = record s.cluster.meta {
        finalizers = k.add_finalizer cluster_finalizer s.cluster.meta.finalizers;
      };
    };
  }

  -- All infrastructure is ready.
  unfoldable pub declare_ready : Exec (ClusterState W) Result
  declare_ready =
      set_cluster_status
        (λ st. record st { ready = true; initialization = record { provisioned = some true } })
      >> set_cluster_condition k infrastructure_ready_condition condition_true
          infrastructure_ready_condition []
      >> pure (requeue requeue_time_long)

  unfoldable pub after_balancer : Result → Exec (ClusterState W) Result
  unfolding declare_ready
  after_balancer result =
      if nat_eq result.requeue_after 0
      then attempt (reconcile_dns scope) >> declare_ready
      else pure result

  unfoldable pub after_network : NetworkProgress → Exec (ClusterState W) Result
  unfolding after_balancer
  after_network not_active = pure (requeue requeue_time_short)
  after_network in_place = do
    reconcile_failure_domains scope
    attempt (reconcile_security_groups scope)
    result ← reconcile_load_balancer k scope
    after_balancer result

  -- `ReconcileNormal`
  unfoldable pub reconcile_cluster_normal : Exec (ClusterState W) Result
  unfolding add_cluster_finalizer after_network
  reconcile_cluster_normal s =
      if not (k.contains_finalizer s.cluster.meta.finalizers cluster_finalizer)
        && not s.cluster.meta.deleting
      then (add_cluster_finalizer >> pure no_requeue) s
      else (do
        reconcile_credentials k scope
        progress ← reconcile_network k scope
        after_network progress)
          s
