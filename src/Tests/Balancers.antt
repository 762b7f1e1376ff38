-- ===== src/Tests/Balancers.antt =====
-- A cluster whose cloud has everything up, with a floating IP before its balancer.
use cluster_api_provider_ovh.Prelude.{
  ℕ, false, true, ◌≡◌, refl, some, [], ◌∷◌, Text, codes, ◌==◌, api, Outcome, ok, err,
}
use cluster_api_provider_ovh.Errors.{is_retryable, as_api}
use cluster_api_provider_ovh.Cloud.{Api, Kind, Reply, Listener, Pool}
use cluster_api_provider_ovh.Resources.{cluster_finalizer}
use cluster_api_provider_ovh.Client.Retry.{request, retry_from, retry_with_backoff}
use cluster_api_provider_ovh.Client.Instances.{validate_credentials}
use cluster_api_provider_ovh.Client.Regions.{get_region_info}
use cluster_api_provider_ovh.Client.Balancers.{get_load_balancer, list_gateways}
use cluster_api_provider_ovh.Client.Listeners.{
  list_health_monitors, list_listeners, find_listener_by_name, create_listener, find_pool_by_name,
  create_pool, find_health_monitor_by_name, create_health_monitor,
}
use cluster_api_provider_ovh.Cluster.Scope.{ClusterScope, ClusterState}
use cluster_api_provider_ovh.Cluster.Credentials.{judge_credentials, reconcile_credentials}
use cluster_api_provider_ovh.Cluster.Network.{
  network_in_place, configured_network, reconcile_network,
}
use cluster_api_provider_ovh.Cluster.Groups.{groups_of, reconcile_security_groups}
use cluster_api_provider_ovh.Cluster.Domains.{
  discovered, discover, reconcile_failure_domains, dns_of, reconcile_dns,
}
use cluster_api_provider_ovh.Cluster.Port.{
  listener_or_new, ensure_listener, pool_or_new, ensure_pool, monitor_or_new,
  ensure_pool_health_monitor, attach_monitor, reconcile_lb_port,
}
use cluster_api_provider_ovh.Cluster.Gateways.{discover_gateway, ensure_gateway_exposed}
use cluster_api_provider_ovh.Cluster.FloatingIps.{try_expose, by_ref, reconcile_floating_ip}
use cluster_api_provider_ovh.Cluster.Balancer.{
  adopt_existing, with_endpoint, set_endpoint, await_floating_ip, publish_endpoint,
  handle_existing_lb, known_lb, load_balancer_step, reconcile_load_balancer,
}
use cluster_api_provider_ovh.Cluster.Normal.{
  declare_ready, after_balancer, after_network, reconcile_cluster_normal,
}
use cluster_api_provider_ovh.Cluster.Ready.{IsPublished}
use cluster_api_provider_ovh.Cluster.Settled.{
  endpoint_set_once, reconcile_cluster_normal-IsPublished,
}
use cluster_api_provider_ovh.Tests.Clouds.{client_of, start, balancer_named}
use cluster_api_provider_ovh.Tests.Fixtures.{kube, cluster}

abbrev listener : Listener
listener = record {
  id = codes "li-2";
  name = codes "rke2-register";
  protocol = codes "tcp";
  protocol_port = 9345;
  port = 9345;
  default_pool_id = [];
  load_balancer_id = codes "lb-1";
  load_balancer_ids = codes "lb-1" ∷ [];
  provisioning_status = codes "active";
  operating_status = codes "online";
}

abbrev pool : Pool
pool = record {
  id = codes "pool-2";
  name = codes "rke2-register-pool";
  protocol = codes "tcp";
  lb_algorithm = codes "roundRobin";
  listener_id = codes "li-2";
  load_balancer_id = codes "lb-1";
  provisioning_status = codes "active";
  operating_status = codes "online";
}

abbrev reply : (k : Kind) → Outcome (Reply k)
reply Kind.ignored = ok tt
reply Kind.nothing = ok tt
reply Kind.region_names = ok (codes "GRA7" ∷ [])
reply Kind.one_load_balancer = ok (record (balancer_named (codes "capi-demo-lb")) {
  floating_ip = some (record { id = codes "fip-1"; ip = codes "51.0.0.1" });
})
reply Kind.listeners = ok []
reply Kind.one_listener = ok listener
reply Kind.pools = ok []
reply Kind.one_pool = ok pool
reply k = err (api 404 (codes "no such resource"))

abbrev reply_unaddressed : (k : Kind) → Outcome (Reply k)
reply_unaddressed Kind.one_load_balancer =
    ok (record (balancer_named (codes "capi-demo-lb")) { vip_address = [] })
reply_unaddressed k = reply k

abbrev up : Api ℕ
up = record { call = λ k m p b n. (reply k, n) }

abbrev scope : ClusterScope ℕ
scope = record { cluster_name = codes "demo"; ovh_client = client_of up }

-- The cluster, not ready and with this host for its endpoint.
abbrev with_host : Text → ClusterState ℕ
with_host host = record {
  cluster = record cluster {
    meta = record cluster.meta { finalizers = cluster_finalizer ∷ [] };
    spec = record cluster.spec {
      control_plane_endpoint = record { host = host; port = 6443 };
      load_balancer_config = record cluster.spec.load_balancer_config {
        floating_network_id = codes "ext-net";
      };
    };
    status = record cluster.status { ready = false };
  };
  world = start;
}

turns_ready : (reconcile_cluster_normal kube scope (with_host [])).1.cluster.status.ready ≡ true
unfolding reconcile_cluster_normal after_network after_balancer declare_ready reconcile_credentials
    judge_credentials validate_credentials reconcile_network configured_network network_in_place
    reconcile_failure_domains discover discovered get_region_info reconcile_security_groups
    groups_of reconcile_load_balancer adopt_existing load_balancer_step known_lb handle_existing_lb
    get_load_balancer reconcile_lb_port ensure_listener listener_or_new find_listener_by_name
    list_listeners create_listener ensure_pool pool_or_new find_pool_by_name create_pool
    attach_monitor ensure_pool_health_monitor monitor_or_new find_health_monitor_by_name
    create_health_monitor publish_endpoint reconcile_floating_ip by_ref try_expose
    ensure_gateway_exposed discover_gateway list_gateways await_floating_ip set_endpoint
    with_endpoint reconcile_dns dns_of list_health_monitors is_retryable as_api retry_with_backoff
    retry_from request codes ◌==◌
turns_ready = refl

reconcile_cluster_normal-IsPublished_example :
    IsPublished (reconcile_cluster_normal kube scope (with_host [])).1.cluster.spec
reconcile_cluster_normal-IsPublished_example =
    reconcile_cluster_normal-IsPublished kube scope (with_host []) refl turns_ready

endpoint_set_once_example :
    (reconcile_cluster_normal kube scope (with_host (codes "51.0.0.9"))
      ).1.cluster.spec.control_plane_endpoint
    ≡ record { host = codes "51.0.0.9"; port = 6443 }
unfolding codes
endpoint_set_once_example = endpoint_set_once kube scope (with_host (codes "51.0.0.9")) refl

-- The same cloud, but the active balancer has no address yet, and the cluster wants no floating IP.
abbrev unaddressed : Api ℕ
unaddressed = record { call = λ k m p b n. (reply_unaddressed k, n) }

abbrev internal_cluster : ClusterState ℕ
internal_cluster = record {
  cluster = record (with_host []).cluster { spec = cluster.spec };
  world = start;
}

abbrev settled : ClusterState ℕ
settled =
    (reconcile_cluster_normal kube (record scope { ovh_client = client_of unaddressed })
      internal_cluster).1

ready_without_endpoint :
    (settled.cluster.status.ready ≡ true) × (settled.cluster.spec.control_plane_endpoint.host ≡ [])
unfolding reconcile_cluster_normal after_network after_balancer declare_ready reconcile_credentials
    judge_credentials validate_credentials reconcile_network configured_network network_in_place
    reconcile_failure_domains discover discovered get_region_info reconcile_security_groups
    groups_of reconcile_load_balancer adopt_existing load_balancer_step known_lb handle_existing_lb
    get_load_balancer reconcile_lb_port ensure_listener listener_or_new find_listener_by_name
    list_listeners create_listener ensure_pool pool_or_new find_pool_by_name create_pool
    attach_monitor ensure_pool_health_monitor monitor_or_new find_health_monitor_by_name
    create_health_monitor publish_endpoint reconcile_floating_ip by_ref try_expose
    ensure_gateway_exposed discover_gateway list_gateways await_floating_ip set_endpoint
    with_endpoint reconcile_dns dns_of list_health_monitors is_retryable as_api retry_with_backoff
    retry_from request codes ◌==◌
ready_without_endpoint = (refl, refl)
