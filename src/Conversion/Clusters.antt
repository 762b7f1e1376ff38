-- ===== src/Conversion/Clusters.antt =====
-- OVHCluster.ConvertTo and ConvertFrom. A field that the code does not name keeps the
-- destination's value, and so do the listeners and the network where the source has none.
use cluster_api_provider_ovh.Prelude.{
  Option, none, some, List, [], ◌∷◌, ◌++◌, map, Text, codes, ◌==◌, if◌then◌else◌, Outcome, ok, err,
  GoError, plain, wrap_outcome, and_then,
}
use cluster_api_provider_ovh.Client.Calls.{quoted}
use cluster_api_provider_ovh.Resources.{
  OvhCluster, OvhListener, OvhNetworkConfig, Protocol, tcp, udp, sctp,
}
use cluster_api_provider_ovh.Conversion.Older.{OvhClusterV1alpha1, OvhListenerV1alpha1}
use cluster_api_provider_ovh.Conversion.Hubs.{Hub, hub_type}

-- The loops over a slice that return at the first error.
unfoldable pub convert_each : {A B : Type 0} → (A → Outcome B) → List A → Outcome (List B)
convert_each f [] = ok []
convert_each f (x ∷ xs) = and_then (f x) (λ y. and_then (convert_each f xs) (λ ys. ok (y ∷ ys)))

-- `fmt.Errorf("expected %T, got %T")`
abbrev pub expected : {A : Type 0} → Text → Hub → Outcome A
expected kind hub = err (plain (codes "expected " ++ (kind ++ (codes ", got " ++ hub_type hub))))

unfoldable pub protocol_error : Text → GoError
protocol_error p =
    if p == codes "HTTP"
    then plain
        (codes "protocol HTTP is deprecated in v1alpha2; use TCP with an HTTP health check instead")
    else plain (codes "unknown protocol " ++ quoted p)

unfoldable pub convert_protocol_to_v1alpha2 : Text → Outcome Protocol
unfolding protocol_error
convert_protocol_to_v1alpha2 p =
    if p == codes "TCP"
    then ok tcp
    else if p == codes "UDP"
    then ok udp
    else if p == codes "SCTP"
    then ok sctp
    else err (protocol_error p)

-- `string(l.Protocol)`
unfoldable pub protocol_text : Protocol → Text
protocol_text tcp = codes "TCP"
protocol_text udp = codes "UDP"
protocol_text sctp = codes "SCTP"

unfoldable pub convert_listener_to : OvhListenerV1alpha1 → Outcome OvhListener
unfolding convert_protocol_to_v1alpha2
convert_listener_to l =
    and_then
      (wrap_outcome (codes "listener " ++ quoted l.name) (convert_protocol_to_v1alpha2 l.protocol))
      λ proto.
        ok
          (record { name = l.name; port = l.port; protocol = proto; backend_port = l.backend_port })

unfoldable pub convert_listener_from : OvhListener → OvhListenerV1alpha1
unfolding protocol_text
convert_listener_from l = record {
  name = l.name;
  port = l.port;
  protocol = protocol_text l.protocol;
  backend_port = l.backend_port;
}

-- `if src.Spec.NetworkConfig != nil { ... dst.Spec.NetworkConfig = nc }`
unfoldable pub convert_network_config :
    Option OvhNetworkConfig → Option OvhNetworkConfig → Option OvhNetworkConfig
convert_network_config none old = old
convert_network_config (some nc) old = some (record {
  private_network_id = nc.private_network_id;
  subnet_cidr = nc.subnet_cidr;
  vlan_id = nc.vlan_id;
  gateway = nc.gateway;
  dns_servers = nc.dns_servers;
})

-- `if len(src) > 0 { dst = make(...); ... }`
abbrev pub unless_empty : {A : Type 0} → List A → List A → List A
unless_empty [] old = old
unless_empty (x ∷ xs) old = x ∷ xs

unfoldable pub write_hub_cluster : OvhClusterV1alpha1 → OvhCluster → List OvhListener → OvhCluster
unfolding convert_network_config
write_hub_cluster src dst listeners = record dst {
  meta = src.meta;
  spec = record dst.spec {
    service_name = src.spec.service_name;
    region = src.spec.region;
    identity_secret = src.spec.identity_secret;
    control_plane_endpoint = src.spec.control_plane_endpoint;
    ssh_key_name = src.spec.ssh_key_name;
    load_balancer_config = record dst.spec.load_balancer_config {
      subnet_id = src.spec.load_balancer_config.subnet_id;
      flavor_name = src.spec.load_balancer_config.flavor_name;
      floating_network_id = src.spec.load_balancer_config.floating_network_id;
      listeners = unless_empty listeners dst.spec.load_balancer_config.listeners;
    };
    network_config = convert_network_config src.spec.network_config dst.spec.network_config;
  };
  status = record dst.status {
    ready = src.status.ready;
    conditions = src.status.conditions;
    network_id = src.status.network_id;
    subnet_id = src.status.subnet_id;
    load_balancer_id = src.status.load_balancer_id;
    listener_id = src.status.listener_id;
    pool_id = src.status.pool_id;
    floating_ip_id = src.status.floating_ip_id;
    gateway_id = src.status.gateway_id;
    gateway_exposed = src.status.gateway_exposed;
    register_listener_id = src.status.register_listener_id;
    register_pool_id = src.status.register_pool_id;
  };
}

-- ConvertTo, behind the check of the hub's type.
unfoldable pub cluster_to_hub : OvhClusterV1alpha1 → OvhCluster → Outcome OvhCluster
unfolding write_hub_cluster convert_listener_to convert_each
cluster_to_hub src dst =
    and_then (convert_each convert_listener_to src.spec.load_balancer_config.listeners)
      λ listeners. ok (write_hub_cluster src dst listeners)

unfoldable pub cluster_convert_to : OvhClusterV1alpha1 → Hub → Outcome Hub
unfolding cluster_to_hub
cluster_convert_to src (Hub.cluster dst) =
    and_then (cluster_to_hub src dst) (λ d. ok (Hub.cluster d))
cluster_convert_to src other = expected (codes "*v1alpha2.OVHCluster") other

-- ConvertFrom, behind the check of the hub's type.
unfoldable pub cluster_from_hub : OvhClusterV1alpha1 → OvhCluster → OvhClusterV1alpha1
unfolding convert_network_config convert_listener_from
cluster_from_hub dst src = record dst {
  meta = src.meta;
  spec = record dst.spec {
    service_name = src.spec.service_name;
    region = src.spec.region;
    identity_secret = src.spec.identity_secret;
    control_plane_endpoint = src.spec.control_plane_endpoint;
    ssh_key_name = src.spec.ssh_key_name;
    load_balancer_config = record dst.spec.load_balancer_config {
      subnet_id = src.spec.load_balancer_config.subnet_id;
      flavor_name = src.spec.load_balancer_config.flavor_name;
      floating_network_id = src.spec.load_balancer_config.floating_network_id;
      listeners =
          unless_empty (map convert_listener_from src.spec.load_balancer_config.listeners)
            dst.spec.load_balancer_config.listeners;
    };
    network_config = convert_network_config src.spec.network_config dst.spec.network_config;
  };
  status = record dst.status {
    ready = src.status.ready;
    conditions = src.status.conditions;
    network_id = src.status.network_id;
    subnet_id = src.status.subnet_id;
    load_balancer_id = src.status.load_balancer_id;
    listener_id = src.status.listener_id;
    pool_id = src.status.pool_id;
    floating_ip_id = src.status.floating_ip_id;
    gateway_id = src.status.gateway_id;
    gateway_exposed = src.status.gateway_exposed;
    register_listener_id = src.status.register_listener_id;
    register_pool_id = src.status.register_pool_id;
  };
}

unfoldable pub cluster_convert_from : OvhClusterV1alpha1 → Hub → Outcome OvhClusterV1alpha1
unfolding cluster_from_hub
cluster_convert_from dst (Hub.cluster src) = ok (cluster_from_hub dst src)
cluster_convert_from dst other = expected (codes "*v1alpha2.OVHCluster") other
