-- ===== src/Reconcile/Clusters.antt =====
-- OVHClusterReconciler.Reconcile.
use cluster_api_provider_ovh.Prelude.{
  ◌++◌, Option, none, some, Text, codes, Outcome, ok, err, Exec, pure, fail, lift, attempt, ◌>>=◌,
  ◌>>◌, if◌then◌else◌,
}
use cluster_api_provider_ovh.Errors.{error_text}
use cluster_api_provider_ovh.Cloud.{World}
use cluster_api_provider_ovh.Client.Retry.{Client}
use cluster_api_provider_ovh.NodeInit.{outside}
use cluster_api_provider_ovh.Resources.{
  OvhCluster, Result, no_requeue, requeue, condition_false, ovh_connection_ready_condition,
}
use cluster_api_provider_ovh.Cluster.Scope.{
  ClusterScope, ClusterState, on_client, set_cluster_condition,
}
use cluster_api_provider_ovh.Cluster.Balancer.{requeue_time_short}
use cluster_api_provider_ovh.Cluster.Normal.{reconcile_cluster_normal}
use cluster_api_provider_ovh.Cluster.Delete.{reconcile_cluster_delete}
use cluster_api_provider_ovh.Reconcile.Server.{Manager, OwnerCluster}
use cluster_api_provider_ovh.Reconcile.Clients.{get_ovh_client_from_cluster}
use cluster_api_provider_ovh.Reconcile.Deferred.{Session, in_session, with_patch}

abbrev pub ovh_connection_failed_reason : Text
ovh_connection_failed_reason = codes "OVHConnectionFailed"

module _ {W : Type 0} (m : Manager W) where
  unfoldable pub dispatch_cluster : ClusterScope W → Exec (ClusterState W) Result
  dispatch_cluster scope s =
      if s.cluster.meta.deleting
      then reconcile_cluster_delete m.kube scope s
      else reconcile_cluster_normal m.kube scope s

  -- A client that cannot be made is told in a condition.
  unfoldable pub with_cluster_client :
      OwnerCluster → Outcome (Client W) → Exec (ClusterState W) Result
  unfolding dispatch_cluster
  with_cluster_client owner (err e) =
      set_cluster_condition m.kube ovh_connection_ready_condition condition_false
        ovh_connection_failed_reason (codes "Failed to create OVH client: " ++ error_text e)
      >> pure (requeue requeue_time_short)
  with_cluster_client owner (ok client) =
      dispatch_cluster (record { cluster_name = owner.name; ovh_client = client })

  unfoldable pub with_owner_cluster : Option OwnerCluster → Exec (ClusterState W) Result
  unfolding with_cluster_client
  with_owner_cluster none s = (ok (requeue requeue_time_short), s)
  with_owner_cluster (some owner) s =
      (do
        made ← attempt (on_client (get_ovh_client_from_cluster m s.cluster))
        with_cluster_client owner made)
        s

  -- The part of Reconcile behind the patch helper.
  unfoldable pub reconcile_owned_cluster : Exec (ClusterState W) Result
  unfolding with_owner_cluster
  reconcile_owned_cluster s =
      (do owner ← on_client (outside (m.owner_cluster s.cluster.meta)); with_owner_cluster owner) s

  unfoldable pub owned_cluster : OvhCluster → World W → Outcome Result × (OvhCluster × World W)
  unfolding reconcile_owned_cluster
  owned_cluster cluster w =
      let (r, s) = reconcile_owned_cluster (record { cluster = cluster; world = w }) in
      (r, (s.cluster, s.world))

  unfoldable pub fetched_cluster : Outcome OvhCluster → Exec (Session W OvhCluster) Result
  unfolding owned_cluster with_patch
  fetched_cluster (err e) = if m.kube.is_missing e then pure no_requeue else fail e
  fetched_cluster (ok cluster) =
      lift (m.cluster_helper cluster)
      >> with_patch (m.patch_cluster cluster) (owned_cluster cluster)

  -- `Reconcile`
  unfoldable pub reconcile_cluster : Text → Text → Exec (Session W OvhCluster) Result
  unfolding fetched_cluster
  reconcile_cluster namespace name = do
    cluster ← attempt (in_session (m.get_cluster namespace name))
    fetched_cluster cluster
