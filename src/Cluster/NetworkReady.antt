-- ===== src/Cluster/NetworkReady.antt =====
-- What reconcileNetwork promises of the network that it calls ready.
use cluster_api_provider_ovh.Prelude.{
  ◌≡◌, refl, ap, true, Bool-cases, inl, inr, some, List, [], ◌∷◌, Text, codes, ◌==◌, is_empty,
  Outcome, ok, err, Keeps, bind_ok, arith, Keeps-then, Keeps-bind, or_wrap, ◌>>=◌,
}
use cluster_api_provider_ovh.Errors.{is_not_found}
use cluster_api_provider_ovh.Cloud.{PrivateNetwork, Subnet, World}
use cluster_api_provider_ovh.Client.Networks.{get_private_network, list_subnets}
use cluster_api_provider_ovh.Resources.{Kube, OvhNetworkConfig}
use cluster_api_provider_ovh.Cluster.Scope.{ClusterScope, ClusterState, on_client}
use cluster_api_provider_ovh.Cluster.Network.{
  in_place, region_status, ensure_network, known_network, first_or_new_subnet, ensure_subnet,
  network_in_place, await_network, look_up_network, configured_network, reconcile_network,
}

abbrev network_of : {W : Type 0} → ClusterState W → Text
network_of s = s.cluster.status.network_id

module _ {W : Type 0} (k : Kube W) (scope : ClusterScope W) where
  first_or_new-Keeps :
      (config : OvhNetworkConfig) (region id : Text) (subnets : List Subnet)
      → Keeps network_of (first_or_new_subnet k scope config region id subnets)
  unfolding first_or_new_subnet
  first_or_new-Keeps config region id (subnet ∷ subnets) = record { at = λ s. refl }
  first_or_new-Keeps config region id [] = record { at = λ s. ground arith }

  ensure_subnet-Keeps :
      (config : OvhNetworkConfig) → Keeps network_of (ensure_subnet k scope config)
  unfolding ensure_subnet
  ensure_subnet-Keeps config = record {
    at = λ s. elim (Bool-cases (is_empty s.cluster.status.subnet_id)) [
      | inl unset ↦ rw unset (
          (Keeps-bind {f = network_of}
              {m = or_wrap (codes "listing subnets")
                (on_client (list_subnets scope.ovh_client (network_of s)))}
              (record { at = λ x. refl })
              (first_or_new-Keeps config s.cluster.spec.region (network_of s))).at
            s)
      | inr set ↦ rw set refl
    ];
  }

  -- The network answers a lookup in that world, and is ACTIVE in the region.
  pub record NetworkActive (network_id region : Text) (world : World W) : Type 0 where
    pub network : PrivateNetwork
    pub answered : (get_private_network scope.ovh_client network_id world).0 ≡ ok network
    pub active : (region_status network region == codes "ACTIVE") ≡ true

  known_network-ok :
      (id : Text) (r : Outcome PrivateNetwork) (s : ClusterState W) (net : PrivateNetwork)
      → (known_network k scope id r s).0 ≡ ok net
      → (r ≡ ok net) × (network_of (known_network k scope id r s).1 ≡ network_of s)
  unfolding known_network
  known_network-ok id (ok net') s net h = (h, refl)
  known_network-ok id (err e) s net h = absurd (elim (Bool-cases (is_not_found e)) [
    | inl gone ↦ (let h' = rw gone at h in cc)
    | inr other ↦ (let h' = rw other at h in cc)
  ])

  looked_up :
      (s : ClusterState W) (net : PrivateNetwork)
      → (look_up_network k scope s).0 ≡ ok net
      → ((get_private_network scope.ovh_client (network_of s) s.world).0 ≡ ok net)
        × (network_of (look_up_network k scope s).1 ≡ network_of s)
  unfolding look_up_network
  looked_up s net h = known_network-ok (network_of s) _ _ net h

  awaited :
      (config : OvhNetworkConfig) (region : Text) (net : PrivateNetwork) (s : ClusterState W)
      → (await_network k scope config region net s).0 ≡ ok in_place
      → ((region_status net region == codes "ACTIVE") ≡ true)
        × (network_of (await_network k scope config region net s).1 ≡ network_of s)
  unfolding await_network network_in_place
  awaited config region net s h = elim (Bool-cases (region_status net region == codes "ACTIVE")) [
    | inl active ↦ (
      active,
      rw active (
          (Keeps-then {f = network_of} (ensure_subnet-Keeps config) (record { at = λ x. refl })).at
            s),
    )
    | inr waits ↦ absurd (let h' = rw waits at h in cc)
  ]

  configured_Active :
      (config : OvhNetworkConfig) (region : Text) (s : ClusterState W)
      → (configured_network k scope (some config) region s).0 ≡ ok in_place
      → NetworkActive
          (network_of (configured_network k scope (some config) region s).1)
          region
          (ensure_network k scope config s).1.world
  unfolding configured_network
  configured_Active config region s h =
      let s1 = (ensure_network k scope config s).1 in
      let (u, ensured, rest) =
        bind_ok (ensure_network k scope config)
          (λ _. look_up_network k scope >>= await_network k scope config region) s in_place h in
      let (net, found, waited) =
        bind_ok (look_up_network k scope) (await_network k scope config region) s1 in_place rest in
      let (answered, same) = looked_up s1 net found in
      let (active, kept) = awaited config region net (look_up_network k scope s1).1 waited in
      rw (ensured, found)
        (record { network = net; answered = rw (kept, same) answered; active = active })

  configured_is :
      (s : ClusterState W) (config : OvhNetworkConfig)
      → s.cluster.spec.network_config ≡ some config
      → reconcile_network k scope s
        ≡ configured_network k scope (some config) s.cluster.spec.region s
  unfolding reconcile_network
  configured_is s config configured =
      ap (λ c. configured_network k scope c s.cluster.spec.region s) configured

  -- If reconcileNetwork reports the network of a configuration to be in place, then the lookup behind
  -- the network's creation or adoption was answered for the network that the object's status names
  -- at the end, and showed it ACTIVE in the region of the object.
  pub network_in_place-Active :
      (s : ClusterState W) (config : OvhNetworkConfig)
      → s.cluster.spec.network_config ≡ some config
      → (reconcile_network k scope s).0 ≡ ok in_place
      → NetworkActive
          (network_of (reconcile_network k scope s).1)
          s.cluster.spec.region
          (ensure_network k scope config s).1.world
  network_in_place-Active s config configured h =
      let same = configured_is s config configured in
      rw same (configured_Active config s.cluster.spec.region s (rw same at h))
