-- ===== src/Cluster/Frames.antt =====
-- What the steps of a cluster's reconciliation leave alone: the specification and the readiness.
use cluster_api_provider_ovh.Prelude.{
  Bool, refl, Option, none, some, List, [], ◌∷◌, Text, Outcome, ok, err, Exec, attempt, or_wrap,
  ◌>>=◌, Keeps, Keeps-bind, Keeps-then, arith,
}
use cluster_api_provider_ovh.Cloud.{World, PrivateNetwork, SecurityGroup}
use cluster_api_provider_ovh.Resources.{
  OvhClusterSpec, Initialization, Kube, ConditionStatus, OvhNetworkConfig, OvhSecurityGroup,
  OvhSecurityRule,
}
use cluster_api_provider_ovh.Cluster.Scope.{
  ClusterScope, ClusterState, on_client, set_cluster_condition,
}
use cluster_api_provider_ovh.Cluster.Credentials.{judge_credentials, reconcile_credentials}
use cluster_api_provider_ovh.Cluster.Network.{
  record_network, ensure_network, known_network, first_or_new_subnet, ensure_subnet,
  network_in_place, await_network, look_up_network, configured_network, reconcile_network,
}
use cluster_api_provider_ovh.Cluster.Groups.{
  last_named, group_name, record_group, create_rules, new_group, fill_group, create_group,
  adopt_or_create, ensure_group, ensure_groups, list_groups, groups_of, reconcile_security_groups,
}
use cluster_api_provider_ovh.Cluster.Domains.{
  record_domains, discovered, discover, reconcile_failure_domains, create_record, dns_of,
  reconcile_dns,
}

-- The specification and the readiness of the object.
pub record Core : Type 0 where
  pub spec : OvhClusterSpec
  pub ready : Bool
  pub initialization : Initialization

abbrev pub core : {W : Type 0} → ClusterState W → Core
core s = record {
  spec = s.cluster.spec;
  ready = s.cluster.status.ready;
  initialization = s.cluster.status.initialization;
}

abbrev pub KeepsCore : {W A : Type 0} → Exec (ClusterState W) A → Type 0
KeepsCore m = Keeps core m

module _ {W : Type 0} where
  pub on_client-Keeps : {A : Type 0} (m : Exec (World W) A) → KeepsCore (on_client m)
  on_client-Keeps m = record { at = λ s. refl }

  -- A call of the client, its error wrapped or looked at, and what follows.
  pub call-Keeps :
      {A B : Type 0} (prefix : Text) (m : Exec (World W) A) (g : A → Exec (ClusterState W) B)
      → ((a : A) → KeepsCore (g a))
      → KeepsCore (or_wrap prefix (on_client m) >>= g)
  call-Keeps prefix m g after =
      Keeps-bind {m = or_wrap prefix (on_client m)} {g = g} (record { at = λ s. refl }) after

  pub attempt-Keeps :
      {A B : Type 0} (m : Exec (World W) A) (g : Outcome A → Exec (ClusterState W) B)
      → ((r : Outcome A) → KeepsCore (g r))
      → KeepsCore (attempt (on_client m) >>= g)
  attempt-Keeps m g after =
      Keeps-bind {m = attempt (on_client m)} {g = g} (record { at = λ s. refl }) after

  pub condition-Keeps :
      (k : Kube W) (kind : Text) (status : ConditionStatus) (reason message : Text)
      → KeepsCore (set_cluster_condition k kind status reason message)
  condition-Keeps k kind status reason message = record { at = λ s. refl }

module _ {W : Type 0} (k : Kube W) (scope : ClusterScope W) where
  pub credentials-Keeps : KeepsCore (reconcile_credentials k scope)
  unfolding reconcile_credentials judge_credentials
  credentials-Keeps = record { at = λ s. ground arith }

  record_network-Keeps : (r : Outcome PrivateNetwork) → KeepsCore (record_network k scope r)
  unfolding record_network
  record_network-Keeps (ok n) = record { at = λ s. refl }
  record_network-Keeps (err e) = record { at = λ s. refl }

  ensure_network-Keeps : (config : OvhNetworkConfig) → KeepsCore (ensure_network k scope config)
  unfolding ensure_network record_network
  ensure_network-Keeps config = record { at = λ s. ground arith }

  look_up_network-Keeps : KeepsCore (look_up_network k scope)
  unfolding look_up_network known_network
  look_up_network-Keeps = record { at = λ s. ground arith }

  await_network-Keeps :
      (config : OvhNetworkConfig) (region : Text) (net : PrivateNetwork)
      → KeepsCore (await_network k scope config region net)
  unfolding await_network ensure_subnet first_or_new_subnet network_in_place
  await_network-Keeps config region net = record { at = λ s. ground arith }

  configured-Keeps :
      (config : Option OvhNetworkConfig) (region : Text)
      → KeepsCore (configured_network k scope config region)
  unfolding configured_network network_in_place
  configured-Keeps none region = record { at = λ s. refl }
  configured-Keeps (some config) region =
      search
        (Keeps-bind, Keeps-then, ensure_network-Keeps, look_up_network-Keeps, await_network-Keeps)

  pub network-Keeps : KeepsCore (reconcile_network k scope)
  unfolding reconcile_network
  network-Keeps = record {
    at = λ s. (configured-Keeps s.cluster.spec.network_config s.cluster.spec.region).at s;
  }

  create_rules-Keeps :
      (id : Text) (rules : List OvhSecurityRule) → KeepsCore (create_rules scope id rules)
  unfolding create_rules
  create_rules-Keeps id [] = record { at = λ s. refl }
  create_rules-Keeps id (rule ∷ rules) = record { at = λ s. (create_rules-Keeps id rules).at _ }

  fill_group-Keeps :
      (spec : OvhSecurityGroup) (sg : SecurityGroup) → KeepsCore (fill_group scope spec sg)
  unfolding fill_group record_group
  fill_group-Keeps spec sg = record { at = λ s. (create_rules-Keeps sg.id spec.rules).at _ }

  create_group-Keeps : (spec : OvhSecurityGroup) → KeepsCore (create_group scope spec)
  unfolding create_group new_group
  create_group-Keeps spec =
      Keeps-bind {m = new_group scope spec} {g = fill_group scope spec} (record { at = λ s. refl })
        (fill_group-Keeps spec)

  adopt-Keeps :
      (spec : OvhSecurityGroup) (id : Option Text) → KeepsCore (adopt_or_create scope spec id)
  unfolding adopt_or_create record_group
  adopt-Keeps spec (some id) = record { at = λ s. refl }
  adopt-Keeps spec none = create_group-Keeps spec

  ensure_group-Keeps :
      (existing : List SecurityGroup) (spec : OvhSecurityGroup)
      → KeepsCore (ensure_group scope existing spec)
  unfolding ensure_group
  ensure_group-Keeps existing spec = record {
    at = λ s.
        ground (arith, (adopt-Keeps spec (last_named existing (group_name scope spec.name))).at s);
  }

  ensure_groups-Keeps :
      (existing : List SecurityGroup) (specs : List OvhSecurityGroup)
      → KeepsCore (ensure_groups scope existing specs)
  unfolding ensure_groups
  ensure_groups-Keeps existing [] = record { at = λ s. refl }
  ensure_groups-Keeps existing (spec ∷ specs) =
      Keeps-then (ensure_group-Keeps existing spec) (ensure_groups-Keeps existing specs)

  groups_of-Keeps : (specs : List OvhSecurityGroup) → KeepsCore (groups_of scope specs)
  unfolding groups_of list_groups
  groups_of-Keeps [] = record { at = λ s. refl }
  groups_of-Keeps (spec ∷ specs) =
      Keeps-bind (record { at = λ s. refl })
        (λ existing. ensure_groups-Keeps existing (spec ∷ specs))

  pub groups-Keeps : KeepsCore (reconcile_security_groups scope)
  unfolding reconcile_security_groups
  groups-Keeps = record { at = λ s. (groups_of-Keeps s.cluster.spec.security_groups).at s }

  pub domains-Keeps : KeepsCore (reconcile_failure_domains scope)
  unfolding reconcile_failure_domains discover discovered record_domains
  domains-Keeps = record { at = λ s. ground arith }

  pub dns-Keeps : KeepsCore (reconcile_dns scope)
  unfolding reconcile_dns dns_of create_record
  dns-Keeps = record { at = λ s. ground arith }
