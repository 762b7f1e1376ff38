-- ===== src/Cloud/Transport.antt =====
-- The library behind `Client.api` as a parameter: one call sends a method, a path and a body, and
-- answers with a value of the type that the caller decodes into, or with an error. The calls made
-- and the sleeps are recorded, the latest first.
use cluster_api_provider_ovh.Prelude.{ℕ, List, Text, Outcome}
use cluster_api_provider_ovh.Cloud.Compute.{
  Instance, CreateInstanceOpts, Flavor, Image, SshKey, CreateSshKeyOpts, Volume, CreateVolumeOpts,
  AttachVolumeOpts,
}
use cluster_api_provider_ovh.Cloud.Network.{
  PrivateNetwork, CreateNetworkOpts, Subnet, CreateSubnetOpts, Gateway, FloatingIp,
  CreateFloatingIpOpts, RegionInfo, SecurityGroup, SecurityGroupRule, CreateSecurityGroupOpts,
  CreateSecurityGroupRuleOpts, DnsRecord, CreateDnsRecordOpts,
}
use cluster_api_provider_ovh.Cloud.Balancer.{
  LbFlavor, LoadBalancer, CreateLoadBalancerOpts, Listener, CreateListenerOpts, Pool,
  CreatePoolOpts, Member, AddPoolMembersRequest, HealthMonitor, CreateHealthMonitorOpts,
}

pub data Method : Type 0 where
  get post delete : Method

-- The type of the Go variable that a reply is decoded into; `nothing` is a nil pointer, and
-- `ignored` a variable that is never read.
pub data Kind : Type 0 where
  nothing ignored region_names one_instance instances flavors images ssh_keys one_ssh_key : Kind
  private_networks one_private_network subnets one_subnet lb_flavors load_balancers : Kind
  one_load_balancer gateways floating_ips one_floating_ip listeners one_listener pools : Kind
  one_pool members health_monitors one_health_monitor one_volume region_info : Kind
  security_groups one_security_group security_group_rules one_security_group_rule : Kind
  dns_record : Kind

abbrev pub Reply : Kind → Type 0
Reply Kind.nothing = Unit
Reply Kind.ignored = Unit
Reply Kind.region_names = List Text
Reply Kind.one_instance = Instance
Reply Kind.instances = List Instance
Reply Kind.flavors = List Flavor
Reply Kind.images = List Image
Reply Kind.ssh_keys = List SshKey
Reply Kind.one_ssh_key = SshKey
Reply Kind.private_networks = List PrivateNetwork
Reply Kind.one_private_network = PrivateNetwork
Reply Kind.subnets = List Subnet
Reply Kind.one_subnet = Subnet
Reply Kind.lb_flavors = List LbFlavor
Reply Kind.load_balancers = List LoadBalancer
Reply Kind.one_load_balancer = LoadBalancer
Reply Kind.gateways = List Gateway
Reply Kind.floating_ips = List FloatingIp
Reply Kind.one_floating_ip = FloatingIp
Reply Kind.listeners = List Listener
Reply Kind.one_listener = Listener
Reply Kind.pools = List Pool
Reply Kind.one_pool = Pool
Reply Kind.members = List Member
Reply Kind.health_monitors = List HealthMonitor
Reply Kind.one_health_monitor = HealthMonitor
Reply Kind.one_volume = Volume
Reply Kind.region_info = RegionInfo
Reply Kind.security_groups = List SecurityGroup
Reply Kind.one_security_group = SecurityGroup
Reply Kind.security_group_rules = List SecurityGroupRule
Reply Kind.one_security_group_rule = SecurityGroupRule
Reply Kind.dns_record = DnsRecord

-- The request bodies. `floating_ip_id` and `lb_floating_ip` are the two maps that the client builds.
pub data Body : Type 0 where
  no_body : Body
  new_instance : CreateInstanceOpts → Body
  new_ssh_key : CreateSshKeyOpts → Body
  new_volume : CreateVolumeOpts → Body
  volume_target : AttachVolumeOpts → Body
  new_network : CreateNetworkOpts → Body
  new_subnet : CreateSubnetOpts → Body
  new_load_balancer : CreateLoadBalancerOpts → Body
  floating_ip_id : Text → Body
  lb_floating_ip : Text → Text → Text → Body  -- ip, gateway model, gateway name
  new_listener : CreateListenerOpts → Body
  new_pool : CreatePoolOpts → Body
  new_members : AddPoolMembersRequest → Body
  new_health_monitor : CreateHealthMonitorOpts → Body
  new_floating_ip : CreateFloatingIpOpts → Body
  new_security_group : CreateSecurityGroupOpts → Body
  new_security_group_rule : CreateSecurityGroupRuleOpts → Body
  new_dns_record : CreateDnsRecordOpts → Body

-- `W` is the state of the cloud.
pub record Api (W : Type 0) : Type 0 where
  pub call : (k : Kind) → Method → Text → Body → W → Outcome (Reply k) × W

pub data Event : Type 0 where
  sent : Method → Text → Body → Event
  slept : ℕ → Event  -- seconds

pub record World (W : Type 0) : Type 0 where
  pub cloud : W
  pub events : List Event
