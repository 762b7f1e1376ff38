-- ===== src/Cluster/Network.antt =====
-- reconcileNetwork. The sentinel error errNetworkNotReady, which the caller takes for a delay, is
-- the value `not_active` here.
use cluster_api_provider_ovh.Prelude.{
  ◌++◌, true, false, Option, none, some, List, [], ◌∷◌, Text, codes, is_empty, ◌==◌, find?, plain,
  wrap, Outcome, ok, err, Exec, pure, fail, attempt, or_wrap, ◌>>=◌, ◌>>◌, if◌then◌else◌,
}
use cluster_api_provider_ovh.Errors.{error_text, is_not_found}
use cluster_api_provider_ovh.Cloud.{NetworkRegion, PrivateNetwork, Subnet}
use cluster_api_provider_ovh.Client.Calls.{quoted}
use cluster_api_provider_ovh.Client.Networks.{
  create_private_network, get_private_network, list_subnets, create_subnet,
}
use cluster_api_provider_ovh.Names.{generate_rfc1035_name}
use cluster_api_provider_ovh.Names.Subnets.{subnet_range}
use cluster_api_provider_ovh.Resources.{
  condition_true, condition_false, Kube, OvhNetworkConfig, network_ready_condition,
  network_creation_failed_reason, network_created_by_controller_condition,
}
use cluster_api_provider_ovh.Cluster.Scope.{
  ClusterScope, ClusterState, on_client, set_cluster_status, set_cluster_condition,
}

-- What reconcileNetwork returns without a proper error.
pub data NetworkProgress : Type 0 where
  in_place not_active : NetworkProgress

-- The status of a network in a region; empty if the region is not listed.
unfoldable pub status_of : Option NetworkRegion → Text
status_of none = []
status_of (some r) = r.status

unfoldable pub region_status : PrivateNetwork → Text → Text
unfolding status_of
region_status net region = status_of (find? (λ r. r.region == region) net.regions)

module _ {W : Type 0} (k : Kube W) (scope : ClusterScope W) where
  unfoldable pub record_network : Outcome PrivateNetwork → Exec (ClusterState W) (Unit {0})
  record_network (err e) =
      set_cluster_condition k network_ready_condition condition_false network_creation_failed_reason
        (codes "Failed to create network: " ++ error_text e)
      >> fail (wrap (codes "creating private network") e)
  record_network (ok network) =
      set_cluster_status (λ st. record st { network_id = network.id })
      >> set_cluster_condition k network_created_by_controller_condition condition_true
          network_created_by_controller_condition []

  -- Step 1 of the function: the network exists.
  unfoldable pub ensure_network : OvhNetworkConfig → Exec (ClusterState W) (Unit {0})
  unfolding record_network
  ensure_network config s =
      if is_empty s.cluster.status.network_id
      then (if is_empty config.private_network_id
            then (do
              created ← attempt (
                  on_client (
                    create_private_network scope.ovh_client (record {
                      name =
                          generate_rfc1035_name
                            (codes "capi" ∷ scope.cluster_name ∷ codes "net" ∷ []);
                      vlan_id = config.vlan_id;
                      regions = s.cluster.spec.region ∷ [];
                    })))
              record_network created)
            else set_cluster_status (λ st. record st { network_id = config.private_network_id }))
          s
      else (ok tt, s)

  -- A network that vanished is forgotten; the message quotes the identifier just cleared.
  unfoldable pub known_network :
      Text → Outcome PrivateNetwork → Exec (ClusterState W) PrivateNetwork
  known_network id (ok net) = pure net
  known_network id (err e) =
      if is_not_found e
      then set_cluster_status (λ st. record st { network_id = []; subnet_id = [] })
        >> fail (plain (codes "network " ++ codes " vanished, will recreate"))
      else fail (wrap (codes "getting network " ++ id) e)

  unfoldable pub first_or_new_subnet :
      OvhNetworkConfig → Text → Text → List Subnet → Exec (ClusterState W) (Unit {0})
  first_or_new_subnet config region network_id (subnet ∷ subnets) =
      set_cluster_status λ st. record st { subnet_id = subnet.id }
  first_or_new_subnet config region network_id [] =
      if is_empty config.subnet_cidr then pure tt else do
        subnet ← or_wrap (codes "creating subnet") (
            on_client (
              create_subnet scope.ovh_client network_id (record {
                network = config.subnet_cidr;
                start = (subnet_range config.subnet_cidr).0;
                end = (subnet_range config.subnet_cidr).1;
                region = region;
                dhcp = true;
                no_gateway = false;
              })))
        set_cluster_status λ st. record st { subnet_id = subnet.id }

  -- Step 3: a subnet exists, or no CIDR for one is given.
  unfoldable pub ensure_subnet : OvhNetworkConfig → Exec (ClusterState W) (Unit {0})
  unfolding first_or_new_subnet
  ensure_subnet config s =
      if is_empty s.cluster.status.subnet_id
      then (do
        subnets ←
            or_wrap (codes "listing subnets")
              (on_client (list_subnets scope.ovh_client s.cluster.status.network_id))
        first_or_new_subnet config s.cluster.spec.region s.cluster.status.network_id subnets)
          s
      else (ok tt, s)

  unfoldable pub network_in_place : Exec (ClusterState W) NetworkProgress
  network_in_place =
      set_cluster_condition k network_ready_condition condition_true network_ready_condition []
      >> pure in_place

  -- Steps 2 and 3: the network is ACTIVE in the region, and has its subnet.
  unfoldable pub await_network :
      OvhNetworkConfig → Text → PrivateNetwork → Exec (ClusterState W) NetworkProgress
  unfolding network_in_place
  await_network config region net =
      if region_status net region == codes "ACTIVE"
      then ensure_subnet config >> network_in_place
      else set_cluster_condition k network_ready_condition condition_false
          network_creation_failed_reason
          (codes "Network "
            ++ (net.id
                ++ (codes " status in "
                    ++ (region
                        ++ (codes " is "
                            ++ (quoted (region_status net region)
                                ++ codes ", waiting for ACTIVE"))))))
        >> pure not_active

  unfoldable pub look_up_network : Exec (ClusterState W) PrivateNetwork
  unfolding known_network
  look_up_network s =
      (do
        found ←
            attempt (on_client (get_private_network scope.ovh_client s.cluster.status.network_id))
        known_network s.cluster.status.network_id found)
        s

  unfoldable pub configured_network :
      Option OvhNetworkConfig → Text → Exec (ClusterState W) NetworkProgress
  unfolding network_in_place
  configured_network none region = network_in_place
  configured_network (some config) region = do
    ensure_network config
    net ← look_up_network
    await_network config region net

  -- `reconcileNetwork`
  unfoldable pub reconcile_network : Exec (ClusterState W) NetworkProgress
  unfolding configured_network
  reconcile_network s = configured_network s.cluster.spec.network_config s.cluster.spec.region s
