-- ===== src/Cluster/Deletion.antt =====
-- What is gone when ReconcileDelete of the OVHCluster controller is through.
use cluster_api_provider_ovh.Prelude.{
  ℕ, ◌≡◌, ◌⊎◌, true, false, List, [], Text, is_empty, Outcome, ok, err,
}
use cluster_api_provider_ovh.Cloud.{World}
use cluster_api_provider_ovh.Client.Balancers.{delete_load_balancer}
use cluster_api_provider_ovh.Client.Networks.{delete_private_network}
use cluster_api_provider_ovh.Resources.{
  Kube, Result, network_created_by_controller_condition, OvhClusterStatus,
}
use cluster_api_provider_ovh.Cluster.Scope.{ClusterScope, ClusterState}
use cluster_api_provider_ovh.Cluster.Delete.{
  delete_dns, delete_groups, gather_fips, delete_lb_parts, delete_balancer, delete_orphans,
  cleanup_floating_ips, delete_cluster_gateway,
}

abbrev delay : Outcome Result → ℕ
delay (ok r) = r.requeue_after
delay (err e) = 0

-- The status without what the steps of the deletion clear.
abbrev pub held : {W : Type 0} → ClusterState W → OvhClusterStatus
held s = record s.cluster.status { dns_record_id = 0; security_group_ids = [] }

module _ {W : Type 0} (k : Kube W) (scope : ClusterScope W) where
  -- The network was not created by the controller, as the object says, or none is recorded, or it was
  -- deleted in that world.
  abbrev pub NetworkGone : OvhClusterStatus → World W → Type 0
  NetworkGone st w =
      (k.is_true st.conditions network_created_by_controller_condition ≡ false)
      ⊎ (is_empty st.network_id ≡ true)
      ⊎ ((delete_private_network scope.ovh_client st.network_id w).0 ≡ ok tt)

  -- The balancer of the status was deleted behind its pool and its listener, or there is none.
  abbrev pub BalancerGone : OvhClusterStatus → ClusterState W → Type 0
  BalancerGone st s =
      (is_empty st.load_balancer_id ≡ true)
      ⊎ ((delete_load_balancer scope.ovh_client st.load_balancer_id
            (delete_lb_parts k scope st.pool_id st.listener_id s).1.world).0
          ≡ ok tt)

  -- The states in which ReconcileDelete turns to the balancer, to the floating IPs and to the
  -- network.
  abbrev pub before_gathering : ClusterState W → ClusterState W
  before_gathering s =
      (delete_groups k scope s.cluster.status.security_group_ids
        (delete_dns k scope s.cluster.spec.dns_config s.cluster.status.dns_record_id s).1).1

  abbrev pub before_balancer : ClusterState W → ClusterState W
  before_balancer s = (gather_fips k scope (before_gathering s)).1

  abbrev pub before_fips : ClusterState W → ClusterState W
  before_fips s = (delete_orphans k scope (delete_balancer k scope (before_balancer s)).1).1

  abbrev pub before_network : List Text → ClusterState W → ClusterState W
  before_network fips s =
      (delete_cluster_gateway k scope (cleanup_floating_ips k scope fips (before_fips s)).1).1

  -- What ReconcileDelete has made sure of: the balancer and the network of the status are gone, as
  -- far as they are the controller's, and none of the floating IPs that were gathered is still
  -- attached.
  pub record TornDown (s : ClusterState W) : Type 0 where
    pub balancer : BalancerGone (held s) (before_balancer s)
    pub fips : List Text
    pub gathered : (gather_fips k scope (before_gathering s)).0 ≡ ok fips
    pub none_attached : (cleanup_floating_ips k scope fips (before_fips s)).0 ≡ ok false
    pub network : NetworkGone (held s) (before_network fips s).world
