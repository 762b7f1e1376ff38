-- ===== src/Cluster/Delete.antt =====
-- ReconcileDelete and cleanupFloatingIPs of the OVHCluster controller, without the metrics. The
-- security groups of the status are taken in the order of the list.
use cluster_api_provider_ovh.Prelude.{
  ℕ, ◌++◌, Bool, true, false, not, ◌&&◌, ◌||◌, Option, none, some, List, [], ◌∷◌, any, find?, Text,
  codes, is_empty, ◌==◌, nat_eq, Outcome, ok, err, Exec, pure, attempt, modify, or_wrap, ◌>>=◌,
  ◌>>◌, if◌then◌else◌,
}
use cluster_api_provider_ovh.Cloud.{FloatingIp, Gateway, LoadBalancer}
use cluster_api_provider_ovh.Client.Balancers.{
  delete_load_balancer, list_load_balancers_by_prefix, list_gateways, delete_gateway,
}
use cluster_api_provider_ovh.Client.Listeners.{delete_listener, delete_pool}
use cluster_api_provider_ovh.Client.Networks.{delete_private_network}
use cluster_api_provider_ovh.Client.Regions.{
  delete_security_group, delete_dns_record, refresh_dns_zone,
}
use cluster_api_provider_ovh.Client.Storage.{list_floating_ips, get_floating_ip, delete_floating_ip}
use cluster_api_provider_ovh.Names.Collisions.{lb_name}
use cluster_api_provider_ovh.Resources.{
  TextMap, lookup_text, erase_text, OvhCluster, OvhDnsConfig, Kube, Result, no_requeue, requeue,
  cluster_finalizer, network_created_by_controller_condition,
}
use cluster_api_provider_ovh.Cluster.Scope.{
  ClusterScope, ClusterState, on_client, set_cluster_status,
}
use cluster_api_provider_ovh.Cluster.Gateways.{gateway_name}
use cluster_api_provider_ovh.Cluster.FloatingIps.{belongs_to}
use cluster_api_provider_ovh.Cluster.Balancer.{requeue_time_short}

unfoldable pub keeps_cluster : OvhCluster → Bool
keeps_cluster c =
    lookup_text (codes "capiovh.cluster.x-k8s.io/adoption-policy") c.meta.annotations
    == codes "keep"

-- The floating IPs of a balancer behind those that are already there, none of them twice.
unfoldable pub add_fips : Text → List FloatingIp → List Text → List Text
add_fips lb_id [] ids = ids
add_fips lb_id (fip ∷ fips) ids = add_fips lb_id fips (
    if belongs_to lb_id fip.associated_entity && not (any (λ id. id == fip.id) ids)
    then ids ++ (fip.id ∷ [])
    else ids)

-- The floating IP was read back behind its deletion and is not merely waiting to be reaped.
unfoldable pub still_attached : Outcome FloatingIp → Bool
still_attached (err e) = false
still_attached (ok fip) = elim fip.associated_entity [
  | some entity ↦ true
  | none ↦ not (fip.status == codes "down")
]

module _ {W : Type 0} (k : Kube W) (scope : ClusterScope W) where
  -- What fails is logged and passed over.
  abbrev tried : {A : Type 0} → Exec (ClusterState W) A → Exec (ClusterState W) (Unit {0})
  tried m s = (ok tt, (m s).1)

  unfoldable pub dns_deleted : Text → Outcome (Unit {0}) → Exec (ClusterState W) (Unit {0})
  dns_deleted zone (err e) = pure tt
  dns_deleted zone (ok u) =
      tried (on_client (refresh_dns_zone scope.ovh_client zone))
      >> set_cluster_status (λ st. record st { dns_record_id = 0 })

  unfoldable pub delete_dns : Option OvhDnsConfig → ℕ → Exec (ClusterState W) (Unit {0})
  unfolding dns_deleted
  delete_dns none id = pure tt
  delete_dns (some dns) id = if nat_eq id 0 then pure tt else do
    deleted ← attempt (on_client (delete_dns_record scope.ovh_client dns.zone_name id))
    dns_deleted dns.zone_name deleted

  unfoldable pub group_deleted : Text → Outcome (Unit {0}) → Exec (ClusterState W) (Unit {0})
  group_deleted name (err e) = pure tt
  group_deleted name (ok u) =
      set_cluster_status
        λ st. record st { security_group_ids = erase_text name st.security_group_ids }

  unfoldable pub delete_groups : TextMap → Exec (ClusterState W) (Unit {0})
  unfolding group_deleted
  delete_groups [] = pure tt
  delete_groups ((name, id) ∷ groups) =
      (do
        deleted ← attempt (on_client (delete_security_group scope.ovh_client id))
        group_deleted name deleted)
      >> delete_groups groups

  unfoldable pub fips_of : Text → List Text → Outcome (List FloatingIp) → List Text
  fips_of lb_id recorded (err e) = recorded
  fips_of lb_id recorded (ok fips) = add_fips lb_id fips recorded

  -- The floating IPs to delete, gathered while the balancer still names them.
  unfoldable pub gather_fips : Exec (ClusterState W) (List Text)
  unfolding fips_of
  gather_fips s =
      let st = s.cluster.status in
      let recorded = if is_empty st.floating_ip_id then [] else st.floating_ip_id ∷ [] in
      if is_empty st.load_balancer_id
      then (ok recorded, s)
      else (do
        fips ← attempt (on_client (list_floating_ips scope.ovh_client))
        pure (fips_of st.load_balancer_id recorded fips))
          s

  abbrev unless_empty : Text → Exec (ClusterState W) (Unit {0}) → Exec (ClusterState W) (Unit {0})
  unless_empty id m = if is_empty id then pure tt else m

  -- The pool and the listener of the API port, as far as they are known.
  unfoldable pub delete_lb_parts : Text → Text → Exec (ClusterState W) (Unit {0})
  delete_lb_parts pool_id listener_id =
      unless_empty pool_id (tried (on_client (delete_pool scope.ovh_client pool_id)))
      >> unless_empty listener_id (tried (on_client (delete_listener scope.ovh_client listener_id)))

  unfoldable pub delete_lb : Text → Exec (ClusterState W) (Unit {0})
  delete_lb lb_id =
      or_wrap (codes "deleting LB") (on_client (delete_load_balancer scope.ovh_client lb_id))

  unfoldable pub delete_balancer : Exec (ClusterState W) (Unit {0})
  unfolding delete_lb_parts delete_lb
  delete_balancer s =
      let st = s.cluster.status in
      unless_empty st.load_balancer_id
        (delete_lb_parts st.pool_id st.listener_id >> delete_lb st.load_balancer_id) s

  unfoldable pub delete_all : List LoadBalancer → Exec (ClusterState W) (Unit {0})
  delete_all [] = pure tt
  delete_all (lb ∷ lbs) =
      tried (on_client (delete_load_balancer scope.ovh_client lb.id)) >> delete_all lbs

  unfoldable pub delete_listed : Outcome (List LoadBalancer) → Exec (ClusterState W) (Unit {0})
  unfolding delete_all
  delete_listed (err e) = pure tt
  delete_listed (ok lbs) = delete_all lbs

  -- Every balancer whose name begins with the cluster's balancer name.
  unfoldable pub delete_orphans : Exec (ClusterState W) (Unit {0})
  unfolding delete_listed
  delete_orphans = do
    orphans ←
        attempt
          (on_client (list_load_balancers_by_prefix scope.ovh_client (lb_name scope.cluster_name)))
    delete_listed orphans

  -- `cleanupFloatingIPs`: whether one of them is still there.
  unfoldable pub cleanup_floating_ips : List Text → Exec (ClusterState W) Bool
  cleanup_floating_ips [] = pure false
  cleanup_floating_ips (id ∷ ids) = do
    tried (on_client (delete_floating_ip scope.ovh_client id))
    fip ← attempt (on_client (get_floating_ip scope.ovh_client id))
    later ← cleanup_floating_ips ids
    pure (still_attached fip || later)

  unfoldable pub gateway_found : Option Gateway → Exec (ClusterState W) (Unit {0})
  gateway_found none = pure tt
  gateway_found (some gw) = tried (on_client (delete_gateway scope.ovh_client gw.id))

  unfoldable pub gateways_listed : Outcome (List Gateway) → Exec (ClusterState W) (Unit {0})
  unfolding gateway_found
  gateways_listed (err e) = pure tt
  gateways_listed (ok gws) = gateway_found (find? (λ gw. gw.name == gateway_name scope) gws)

  unfoldable pub delete_cluster_gateway : Exec (ClusterState W) (Unit {0})
  unfolding gateways_listed
  delete_cluster_gateway = do
    gws ← attempt (on_client (list_gateways scope.ovh_client))
    gateways_listed gws

  unfoldable pub release_cluster : Exec (ClusterState W) Result
  release_cluster =
      modify (λ s. record s {
        cluster = record s.cluster {
          meta = record s.cluster.meta {
            finalizers = k.remove_finalizer cluster_finalizer s.cluster.meta.finalizers;
          };
        };
      })
      >> pure no_requeue

  unfoldable pub network_deleted : Outcome (Unit {0}) → Exec (ClusterState W) Result
  unfolding release_cluster
  network_deleted (ok u) = release_cluster
  network_deleted (err e) = pure (requeue requeue_time_short)

  -- The network goes only if the controller created it, and the finalizer only behind it.
  unfoldable pub delete_network_and_release : Exec (ClusterState W) Result
  unfolding network_deleted release_cluster
  delete_network_and_release s =
      if k.is_true s.cluster.status.conditions network_created_by_controller_condition
        && not (is_empty s.cluster.status.network_id)
      then (do
        deleted ←
            attempt
              (on_client (delete_private_network scope.ovh_client s.cluster.status.network_id))
        network_deleted deleted)
          s
      else release_cluster s

  unfoldable pub after_fips : Bool → Exec (ClusterState W) Result
  unfolding delete_cluster_gateway delete_network_and_release
  after_fips present =
      if present
      then pure (requeue requeue_time_short)
      else delete_cluster_gateway >> delete_network_and_release

  -- `ReconcileDelete`
  unfoldable pub reconcile_cluster_delete : Exec (ClusterState W) Result
  unfolding after_fips
  reconcile_cluster_delete s =
      if keeps_cluster s.cluster
      then release_cluster s
      else (do
        delete_dns s.cluster.spec.dns_config s.cluster.status.dns_record_id
        delete_groups s.cluster.status.security_group_ids
        fips ← gather_fips
        delete_balancer
        delete_orphans
        present ← cleanup_floating_ips fips
        after_fips present)
          s
