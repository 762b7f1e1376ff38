-- ===== src/Cloud/Network.antt =====
-- Networks, gateways, floating IPs, regions, security groups and DNS of pkg/ovh/types.go. A pointer
-- that may be nil is an Option; VLAN numbers, ports and TTLs are native numbers.
use cluster_api_provider_ovh.Prelude.{ℕ, Bool, Option, none, some, List, [], Text, find?, ◌==◌}

pub record NetworkRegion : Type 0 where
  pub region : Text
  pub status : Text
  pub openstack_id : Text

pub record PrivateNetwork : Type 0 where
  pub id : Text
  pub name : Text
  pub vlan_id : ℕ
  pub regions : List NetworkRegion
  pub status : Text
  pub kind : Text

openstack_id_of : Option NetworkRegion → Text
openstack_id_of none = []
openstack_id_of (some r) = r.openstack_id

-- `OpenStackIDForRegion`
unfoldable pub openstack_id_for_region : PrivateNetwork → Text → Text
unfolding openstack_id_of
openstack_id_for_region n region = openstack_id_of (find? (λ r. r.region == region) n.regions)

pub record CreateNetworkOpts : Type 0 where
  pub name : Text
  pub vlan_id : ℕ
  pub regions : List Text

pub record IpPool : Type 0 where
  pub start : Text
  pub end : Text
  pub network : Text
  pub region : Text
  pub dhcp : Bool

pub record Subnet : Type 0 where
  pub id : Text
  pub cidr : Text
  pub gateway_ip : Text
  pub ip_pools : List IpPool
  pub region : Text
  pub dhcp : Bool
  pub no_gateway : Bool

pub record CreateSubnetOpts : Type 0 where
  pub network : Text
  pub start : Text
  pub end : Text
  pub region : Text
  pub dhcp : Bool
  pub no_gateway : Bool

pub record GatewayInterface : Type 0 where
  pub id : Text
  pub ip : Text
  pub network_id : Text
  pub subnet_id : Text

pub record Gateway : Type 0 where
  pub id : Text
  pub name : Text
  pub status : Text
  pub model : Text
  pub region : Text
  pub interfaces : List GatewayInterface

pub record FloatingIpAssociation : Type 0 where
  pub id : Text
  pub kind : Text
  pub ip : Text
  pub gateway_id : Text

pub record FloatingIp : Type 0 where
  pub id : Text
  pub ip : Text
  pub status : Text
  pub associated_entity : Option FloatingIpAssociation
  pub region : Text
  pub network_id : Text

pub record CreateFloatingIpOpts : Type 0 where
  pub ip : Text
  pub description : Text

pub record RegionService : Type 0 where
  pub name : Text
  pub status : Text

pub record RegionInfo : Type 0 where
  pub name : Text
  pub services : List RegionService

pub record SecurityGroup : Type 0 where
  pub id : Text
  pub name : Text

pub record SecurityGroupRule : Type 0 where
  pub id : Text
  pub direction : Text
  pub protocol : Text
  pub port_range_min : Option ℕ
  pub port_range_max : Option ℕ
  pub remote_ip_prefix : Text
  pub ether_type : Text

pub record CreateSecurityGroupOpts : Type 0 where
  pub name : Text
  pub description : Text

pub record CreateSecurityGroupRuleOpts : Type 0 where
  pub direction : Text
  pub protocol : Text
  pub port_range_min : Option ℕ
  pub port_range_max : Option ℕ
  pub remote_ip_prefix : Text
  pub ether_type : Text

pub record DnsRecord : Type 0 where
  pub id : ℕ
  pub field_type : Text
  pub sub_domain : Text
  pub target : Text
  pub ttl : ℕ
  pub zone : Text

pub record CreateDnsRecordOpts : Type 0 where
  pub field_type : Text
  pub sub_domain : Text
  pub target : Text
  pub ttl : ℕ
