-- ===== src/Resources/Cluster.antt =====
-- OVHCluster (api/v1alpha2/ovhcluster_types.go). Ports, VLAN numbers, TTLs and DNS record numbers
-- are never negative.
use cluster_api_provider_ovh.Prelude.{ℕ, Bool, Option, List, Text, codes}
use cluster_api_provider_ovh.Resources.Meta.{ObjectMeta, TextMap, Condition}
use cluster_api_provider_ovh.Resources.Machine.{Initialization}

abbrev pub cluster_finalizer : Text
cluster_finalizer = codes "ovhcluster.infrastructure.cluster.x-k8s.io/finalizer"

abbrev pub ovh_connection_ready_condition : Text
ovh_connection_ready_condition = codes "OVHConnectionReady"

abbrev pub ovh_authentication_failed_reason : Text
ovh_authentication_failed_reason = codes "OVHAuthenticationFailed"

abbrev pub network_ready_condition : Text
network_ready_condition = codes "NetworkReady"

abbrev pub network_creation_failed_reason : Text
network_creation_failed_reason = codes "NetworkCreationFailed"

abbrev pub network_created_by_controller_condition : Text
network_created_by_controller_condition = codes "NetworkCreatedByController"

abbrev pub load_balancer_ready_condition : Text
load_balancer_ready_condition = codes "LoadBalancerReady"

abbrev pub load_balancer_not_ready_reason : Text
load_balancer_not_ready_reason = codes "LoadBalancerNotReady"

abbrev pub load_balancer_creation_failed_reason : Text
load_balancer_creation_failed_reason = codes "LoadBalancerCreationFailed"

abbrev pub infrastructure_ready_condition : Text
infrastructure_ready_condition = codes "InfrastructureReady"

abbrev pub infrastructure_provisioning_in_progress_reason : Text
infrastructure_provisioning_in_progress_reason = codes "InfrastructureProvisioningInProgress"

pub record SecretKey : Type 0 where
  pub namespace : Text
  pub name : Text

-- corev1.Protocol, a string that the schema of the object bounds to these three.
pub data Protocol : Type 0 where
  tcp udp sctp : Protocol

pub record OvhListener : Type 0 where
  pub name : Text
  pub port : ℕ
  pub protocol : Protocol
  pub backend_port : ℕ

pub record OvhLoadBalancerConfig : Type 0 where
  pub subnet_id : Text
  pub flavor_name : Text
  pub floating_network_id : Text
  pub listeners : List OvhListener
  pub existing_load_balancer_id : Text
  pub existing_floating_ip_id : Text

pub record OvhNetworkConfig : Type 0 where
  pub private_network_id : Text
  pub subnet_cidr : Text
  pub vlan_id : ℕ
  pub gateway : Text
  pub dns_servers : List Text

pub record OvhSecurityRule : Type 0 where
  pub direction : Text
  pub protocol : Text
  pub port_range_min : Option ℕ
  pub port_range_max : Option ℕ
  pub remote_ip_prefix : Text
  pub ether_type : Text

pub record OvhSecurityGroup : Type 0 where
  pub name : Text
  pub rules : List OvhSecurityRule

pub record OvhDnsConfig : Type 0 where
  pub zone_name : Text
  pub record_name : Text
  pub ttl : ℕ

-- clusterv1.APIEndpoint
pub record ApiEndpoint : Type 0 where
  pub host : Text
  pub port : ℕ

pub record OvhClusterSpec : Type 0 where
  pub service_name : Text
  pub region : Text
  pub identity_secret : SecretKey
  pub control_plane_endpoint : ApiEndpoint
  pub load_balancer_config : OvhLoadBalancerConfig
  pub network_config : Option OvhNetworkConfig
  pub ssh_key_name : Text
  pub failure_domains : List Text
  pub security_groups : List OvhSecurityGroup
  pub default_tags : TextMap
  pub dns_config : Option OvhDnsConfig

-- clusterv1.FailureDomain
pub record FailureDomain : Type 0 where
  pub name : Text
  pub control_plane : Option Bool

pub record OvhClusterStatus : Type 0 where
  pub ready : Bool
  pub initialization : Initialization
  pub conditions : List Condition
  pub network_id : Text
  pub subnet_id : Text
  pub load_balancer_id : Text
  pub listener_id : Text
  pub pool_id : Text
  pub floating_ip_id : Text
  pub gateway_id : Text
  pub gateway_exposed : Bool
  pub register_listener_id : Text
  pub register_pool_id : Text
  pub failure_domains : List FailureDomain
  pub security_group_ids : TextMap
  pub dns_record_id : ℕ

pub record OvhCluster : Type 0 where
  pub meta : ObjectMeta
  pub spec : OvhClusterSpec
  pub status : OvhClusterStatus
