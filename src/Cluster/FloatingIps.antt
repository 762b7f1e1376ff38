-- ===== src/Cluster/FloatingIps.antt =====
-- reconcileFloatingIP: the public address of the balancer, or the empty text while there is none.
use cluster_api_provider_ovh.Prelude.{
  Bool, false, Option, none, some, List, [], Text, codes, is_empty, find?, ◌==◌, Outcome, ok, err,
  Exec, pure, attempt, or_wrap, ◌>>=◌, ◌>>◌, if◌then◌else◌,
}
use cluster_api_provider_ovh.Errors.{is_not_found}
use cluster_api_provider_ovh.Cloud.{FloatingIp, FloatingIpAssociation, FloatingIpRef, LoadBalancer}
use cluster_api_provider_ovh.Client.Balancers.{get_load_balancer, create_load_balancer_floating_ip}
use cluster_api_provider_ovh.Client.Storage.{list_floating_ips, get_floating_ip}
use cluster_api_provider_ovh.Cluster.Scope.{
  ClusterScope, ClusterState, on_client, set_cluster_status,
}
use cluster_api_provider_ovh.Cluster.Gateways.{gateway_name, ensure_gateway_exposed}

-- `fip.AssociatedEntity != nil && fip.AssociatedEntity.ID == id`
unfoldable pub belongs_to : Text → Option FloatingIpAssociation → Bool
belongs_to id none = false
belongs_to id (some entity) = entity.id == id

module _ {W : Type 0} (scope : ClusterScope W) where
  -- A gateway that cannot be exposed is logged and tried again.
  unfoldable pub try_expose : Exec (ClusterState W) (Unit {0})
  try_expose s = (ok tt, (ensure_gateway_exposed scope s).1)

  abbrev pub record_fip : Text → Exec (ClusterState W) (Unit {0})
  record_fip id = set_cluster_status λ st. record st { floating_ip_id = id }

  -- Behind the allocation: the balancer does not show its address, so it is looked for in the list.
  unfoldable pub settle_listed : Option FloatingIp → Exec (ClusterState W) Text
  settle_listed none = pure []
  settle_listed (some fip) = record_fip fip.id >> pure fip.ip

  unfoldable pub settle_by_list : Text → Outcome (List FloatingIp) → Exec (ClusterState W) Text
  unfolding settle_listed
  settle_by_list lb_id (err e) = pure []
  settle_by_list lb_id (ok fips) =
      settle_listed (find? (λ fip. belongs_to lb_id fip.associated_entity) fips)

  unfoldable pub settle_by_ref : Text → Option FloatingIpRef → Exec (ClusterState W) Text
  unfolding settle_by_list
  settle_by_ref lb_id none = do
    fips ← attempt (on_client (list_floating_ips scope.ovh_client))
    settle_by_list lb_id fips
  settle_by_ref lb_id (some ref) =
      if is_empty ref.id
      then (do
        fips ← attempt (on_client (list_floating_ips scope.ovh_client))
        settle_by_list lb_id fips)
      else record_fip ref.id >> pure ref.ip

  unfoldable pub settle : Text → Outcome LoadBalancer → Exec (ClusterState W) Text
  unfolding settle_by_ref
  settle lb_id (err e) = settle_by_ref lb_id none
  settle lb_id (ok lb) = settle_by_ref lb_id lb.floating_ip

  unfoldable pub allocate : LoadBalancer → Exec (ClusterState W) Text
  unfolding try_expose settle
  allocate lb = if is_empty lb.vip_address then pure [] else do
    or_wrap (codes "allocating floating IP for LB") (
        on_client (
          create_load_balancer_floating_ip scope.ovh_client lb.id lb.vip_address
            (gateway_name scope)))
    try_expose
    refreshed ← attempt (on_client (get_load_balancer scope.ovh_client lb.id))
    settle lb.id refreshed

  unfoldable pub adopt_listed : LoadBalancer → Option FloatingIp → Exec (ClusterState W) Text
  unfolding try_expose allocate
  adopt_listed lb none = allocate lb
  adopt_listed lb (some fip) =
      record_fip fip.id >> (if is_empty fip.ip then pure [] else try_expose >> pure fip.ip)

  unfoldable pub adopt_by_list :
      LoadBalancer → Outcome (List FloatingIp) → Exec (ClusterState W) Text
  unfolding adopt_listed
  adopt_by_list lb (err e) = allocate lb
  adopt_by_list lb (ok fips) =
      adopt_listed lb (find? (λ fip. belongs_to lb.id fip.associated_entity) fips)

  -- No floating IP is recorded: it is discovered, or allocated.
  unfoldable pub rediscover : LoadBalancer → Exec (ClusterState W) Text
  unfolding adopt_by_list
  rediscover lb = do
    fips ← attempt (on_client (list_floating_ips scope.ovh_client))
    adopt_by_list lb fips

  unfoldable pub judge_fip : LoadBalancer → Outcome FloatingIp → Exec (ClusterState W) Text
  unfolding rediscover
  judge_fip lb (ok fip) = pure fip.ip
  judge_fip lb (err e) = if is_not_found e then record_fip [] >> rediscover lb else pure []

  unfoldable pub by_recorded_fip : LoadBalancer → Exec (ClusterState W) Text
  unfolding judge_fip
  by_recorded_fip lb s =
      if is_empty s.cluster.status.floating_ip_id
      then rediscover lb s
      else (do
        try_expose
        fip ← attempt (on_client (get_floating_ip scope.ovh_client s.cluster.status.floating_ip_id))
        judge_fip lb fip)
          s

  -- The address that the balancer shows, if it shows one.
  unfoldable pub by_ref : LoadBalancer → Option FloatingIpRef → Exec (ClusterState W) Text
  unfolding by_recorded_fip
  by_ref lb none = by_recorded_fip lb
  by_ref lb (some ref) =
      if is_empty ref.ip then by_recorded_fip lb else record_fip ref.id >> try_expose >> pure ref.ip

  -- `reconcileFloatingIP`
  unfoldable pub reconcile_floating_ip : LoadBalancer → Exec (ClusterState W) Text
  unfolding by_ref
  reconcile_floating_ip lb = by_ref lb lb.floating_ip
