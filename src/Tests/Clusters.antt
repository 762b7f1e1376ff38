-- ===== src/Tests/Clusters.antt =====
-- The cluster controller's theorems at the cluster "demo".
use cluster_api_provider_ovh.Prelude.{
  none, ℕ, ◌≡◌, refl, some, [], ◌∷◌, codes, ◌==◌, ok, err, api, Outcome,
}
use cluster_api_provider_ovh.Cloud.{Api, Kind, Reply, PrivateNetwork}
use cluster_api_provider_ovh.Client.Retry.{request, retry_with_backoff, retry_from}
use cluster_api_provider_ovh.Client.Networks.{get_private_network}
use cluster_api_provider_ovh.Client.Regions.{list_security_groups, create_security_group}
use cluster_api_provider_ovh.Resources.{
  network_created_by_controller_condition, condition_true, OvhNetworkConfig, insert_text,
  lookup_text,
}
use cluster_api_provider_ovh.Cluster.Scope.{ClusterScope, ClusterState}
use cluster_api_provider_ovh.Cluster.Network.{
  in_place, status_of, region_status, ensure_network, known_network, ensure_subnet,
  network_in_place, await_network, look_up_network, configured_network, reconcile_network,
}
use cluster_api_provider_ovh.Cluster.NetworkReady.{NetworkActive, network_in_place-Active}
use cluster_api_provider_ovh.Cluster.Groups.{
  last_named, record_group, create_rules, new_group, fill_group, create_group, adopt_or_create,
  ensure_group, ensure_groups, list_groups, groups_of, reconcile_security_groups,
}
use cluster_api_provider_ovh.Cluster.GroupsRecorded.{AllRecorded, groups_recorded}
use cluster_api_provider_ovh.Tests.Clouds.{client_of, start}
use cluster_api_provider_ovh.Tests.Fixtures.{kube, cluster}

abbrev network : PrivateNetwork
network = record {
  id = codes "n-1";
  name = codes "capi-demo-net";
  vlan_id = 7;
  regions =
      record { region = codes "GRA7"; status = codes "ACTIVE"; openstack_id = codes "os-1" } ∷ [];
  status = codes "ACTIVE";
  kind = codes "private";
}

abbrev reply : (k : Kind) → Outcome (Reply k)
reply Kind.one_private_network = ok network
reply Kind.security_groups = ok []
reply Kind.one_security_group = ok (record { id = codes "sg-1"; name = codes "capi-demo-web" })
reply k = err (api 404 (codes "no such resource"))

-- The cloud has the network and creates security groups; it has nothing else.
abbrev quiet : Api ℕ
quiet = record { call = λ k m p b n. (reply k, n) }

abbrev scope : ClusterScope ℕ
scope = record { cluster_name = codes "demo"; ovh_client = client_of quiet }

abbrev config : OvhNetworkConfig
config = record {
  private_network_id = codes "n-1";
  subnet_cidr = codes "10.0.0.0/24";
  vlan_id = 7;
  gateway = [];
  dns_servers = [];
}

abbrev networked : ClusterState ℕ
networked = record {
  cluster = record cluster { spec = record cluster.spec { network_config = some config } };
  world = start;
}

in_place_now : (reconcile_network kube scope networked).0 ≡ ok in_place
unfolding reconcile_network configured_network ensure_network look_up_network known_network
    get_private_network await_network region_status status_of ensure_subnet network_in_place
    retry_with_backoff retry_from request codes ◌==◌
in_place_now = refl

network_in_place-Active_example :
    NetworkActive kube scope
      (reconcile_network kube scope networked).1.cluster.status.network_id
      (codes "GRA7")
      (ensure_network kube scope config networked).1.world
network_in_place-Active_example =
    network_in_place-Active kube scope networked config refl in_place_now

abbrev guarded : ClusterState ℕ
guarded = record {
  cluster = record cluster {
    spec = record cluster.spec { security_groups = record { name = codes "web"; rules = [] } ∷ [] };
  };
  world = start;
}

groups_done : (reconcile_security_groups scope guarded).0 ≡ ok tt
unfolding reconcile_security_groups groups_of list_groups list_security_groups ensure_groups
    ensure_group adopt_or_create create_group new_group fill_group record_group create_rules
    last_named create_security_group lookup_text insert_text retry_with_backoff retry_from request
    codes ◌==◌
groups_done = refl

groups_recorded_example :
    AllRecorded scope guarded.cluster.spec.security_groups
      (reconcile_security_groups scope guarded).1.cluster.status.security_group_ids
groups_recorded_example = groups_recorded scope guarded groups_done

-- A cluster with a balancer that has a floating IP, and a network that the controller created, in a
-- cloud that deletes what it is asked to.
abbrev reply_deleting : (k : Kind) → Outcome (Reply k)
reply_deleting Kind.nothing = ok tt
reply_deleting Kind.floating_ips = ok (
    record {
      id = codes "fip-2";
      ip = codes "51.0.0.2";
      region = codes "GRA7";
      network_id = [];
      status = codes "active";
      associated_entity = none;
    }
    ∷ [])
reply_deleting k = reply k

abbrev deleting_scope : ClusterScope ℕ
deleting_scope = record {
  cluster_name = codes "demo";
  ovh_client = client_of (record { call = λ k m p b n. (reply_deleting k, n) });
}

abbrev full : ClusterState ℕ
full = record {
  cluster = record cluster {
    status = record cluster.status {
      floating_ip_id = codes "fip-1";
      conditions =
          record {
            kind = network_created_by_controller_condition;
            status = condition_true;
            reason = [];
            message = [];
          }
          ∷ [];
    };
  };
  world = start;
}
