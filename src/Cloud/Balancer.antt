-- ===== src/Cloud/Balancer.antt =====
-- Load balancers, listeners, pools, members and health monitors of pkg/ovh/types.go.
use cluster_api_provider_ovh.Prelude.{ℕ, Option, List, Text, codes}

pub record LbFlavor : Type 0 where
  pub id : Text
  pub name : Text
  pub region : Text

pub record FloatingIpRef : Type 0 where
  pub id : Text
  pub ip : Text

pub record ListenerRef : Type 0 where
  pub id : Text

pub record LoadBalancer : Type 0 where
  pub id : Text
  pub name : Text
  pub created_at : Text
  pub updated_at : Text
  pub region : Text
  pub flavor_id : Text
  pub operating_status : Text
  pub provisioning_status : Text
  pub vip_address : Text
  pub vip_network_id : Text
  pub vip_subnet_id : Text
  pub floating_ip : Option FloatingIpRef
  pub listeners : List ListenerRef

abbrev pub lb_provisioning_status_active : Text
lb_provisioning_status_active = codes "active"

pub record LbNetworkRef : Type 0 where
  pub id : Text
  pub subnet_id : Text

pub record LbPrivateNetwork : Type 0 where
  pub network : LbNetworkRef

pub record LbNetworkConfig : Type 0 where
  pub private : LbPrivateNetwork

pub record CreateLoadBalancerOpts : Type 0 where
  pub name : Text
  pub flavor_id : Text
  pub network : LbNetworkConfig

pub record Listener : Type 0 where
  pub id : Text
  pub name : Text
  pub protocol : Text
  pub protocol_port : ℕ
  pub port : ℕ
  pub default_pool_id : Text
  pub load_balancer_id : Text
  pub load_balancer_ids : List Text
  pub provisioning_status : Text
  pub operating_status : Text

pub record CreateListenerOpts : Type 0 where
  pub name : Text
  pub protocol : Text
  pub port : ℕ
  pub load_balancer_id : Text
  pub default_pool_id : Text

pub record Pool : Type 0 where
  pub id : Text
  pub name : Text
  pub protocol : Text
  pub lb_algorithm : Text
  pub listener_id : Text
  pub load_balancer_id : Text
  pub provisioning_status : Text
  pub operating_status : Text

pub record CreatePoolOpts : Type 0 where
  pub name : Text
  pub protocol : Text
  pub algorithm : Text
  pub listener_id : Text
  pub load_balancer_id : Text

pub record Member : Type 0 where
  pub id : Text
  pub name : Text
  pub address : Text
  pub protocol_port : ℕ
  pub subnet_id : Text
  pub operating_status : Text
  pub provisioning_status : Text
  pub weight : ℕ

pub record CreateMemberOpts : Type 0 where
  pub name : Text
  pub address : Text
  pub protocol_port : ℕ
  pub subnet_id : Text
  pub weight : ℕ

pub record AddPoolMembersRequest : Type 0 where
  pub members : List CreateMemberOpts

pub record HealthMonitor : Type 0 where
  pub id : Text
  pub name : Text
  pub monitor_type : Text
  pub delay : ℕ
  pub timeout : ℕ
  pub max_retries : ℕ
  pub pool_id : Text
  pub url_path : Text
  pub http_method : Text
  pub expected_codes : Text
  pub provisioning_status : Text
  pub operating_status : Text

pub record CreateHealthMonitorOpts : Type 0 where
  pub name : Text
  pub monitor_type : Text
  pub delay : ℕ
  pub timeout : ℕ
  pub max_retries : ℕ
  pub pool_id : Text
