-- ===== src/Conversion/Older.antt =====
-- The objects of version v1alpha1 (api/v1alpha1/*_types.go), and the value that Go gives to one
-- that nobody has written yet.
use cluster_api_provider_ovh.Prelude.{ℕ, ℤ, pos, Bool, false, Option, none, List, [], Text}
use cluster_api_provider_ovh.Resources.{
  ObjectMeta, TextMap, Condition, SecretKey, ApiEndpoint, OvhNetworkConfig, OvhVolume,
  MachineAddress,
}

pub record OvhListenerV1alpha1 : Type 0 where
  pub name : Text
  pub port : ℕ
  pub protocol : Text
  pub backend_port : ℕ

pub record OvhLoadBalancerConfigV1alpha1 : Type 0 where
  pub subnet_id : Text
  pub flavor_name : Text
  pub floating_network_id : Text
  pub listeners : List OvhListenerV1alpha1

pub record OvhClusterSpecV1alpha1 : Type 0 where
  pub service_name : Text
  pub region : Text
  pub identity_secret : SecretKey
  pub control_plane_endpoint : ApiEndpoint
  pub load_balancer_config : OvhLoadBalancerConfigV1alpha1
  pub network_config : Option OvhNetworkConfig
  pub ssh_key_name : Text

pub record OvhClusterStatusV1alpha1 : Type 0 where
  pub ready : Bool
  pub failure_reason : Text
  pub failure_message : Text
  pub conditions : List Condition
  pub network_id : Text
  pub subnet_id : Text
  pub load_balancer_id : Text
  pub listener_id : Text
  pub pool_id : Text
  pub floating_ip_id : Text
  pub gateway_id : Text
  pub gateway_exposed : Bool
  pub register_listener_id : Text
  pub register_pool_id : Text

pub record OvhClusterV1alpha1 : Type 0 where
  pub meta : ObjectMeta
  pub spec : OvhClusterSpecV1alpha1
  pub status : OvhClusterStatusV1alpha1

pub record InitializationV1alpha1 : Type 0 where
  pub provisioned : Bool

pub record OvhMachineSpecV1alpha1 : Type 0 where
  pub provider_id : Text
  pub flavor_name : Text
  pub image_name : Text
  pub ssh_key_name : Text
  pub root_disk_size : ℤ
  pub additional_volumes : List OvhVolume
  pub failure_domain : Text

pub record OvhMachineStatusV1alpha1 : Type 0 where
  pub ready : Bool
  pub conditions : List Condition
  pub failure_reason : Text
  pub failure_message : Text
  pub addresses : List MachineAddress
  pub initialization : InitializationV1alpha1
  pub instance_id : Text
  pub volume_ids : List Text
  pub lb_pool_member_id : Text
  pub register_pool_member_id : Text

pub record OvhMachineV1alpha1 : Type 0 where
  pub meta : ObjectMeta
  pub spec : OvhMachineSpecV1alpha1
  pub status : OvhMachineStatusV1alpha1

-- clusterv1.ObjectMeta, which the conversion copies whole.
pub record TemplateMeta : Type 0 where
  pub labels : TextMap
  pub annotations : TextMap

-- metav1.ListMeta, which the conversion copies whole.
pub record ListMeta : Type 0 where
  pub resource_version : Text
  pub continue_token : Text

-- `Spec.Template` of a template object, and the object around it.
pub record OvhClusterTemplateV1alpha1 : Type 0 where
  pub meta : ObjectMeta
  pub template_meta : TemplateMeta
  pub template_spec : OvhClusterSpecV1alpha1

pub record OvhMachineTemplateV1alpha1 : Type 0 where
  pub meta : ObjectMeta
  pub template_meta : TemplateMeta
  pub template_spec : OvhMachineSpecV1alpha1

pub record OvhClusterListV1alpha1 : Type 0 where
  pub meta : ListMeta
  pub items : List OvhClusterV1alpha1

pub record OvhMachineListV1alpha1 : Type 0 where
  pub meta : ListMeta
  pub items : List OvhMachineV1alpha1

pub record OvhClusterTemplateListV1alpha1 : Type 0 where
  pub meta : ListMeta
  pub items : List OvhClusterTemplateV1alpha1

pub record OvhMachineTemplateListV1alpha1 : Type 0 where
  pub meta : ListMeta
  pub items : List OvhMachineTemplateV1alpha1

abbrev pub zero_meta : ObjectMeta
zero_meta = record {
  namespace = [];
  name = [];
  finalizers = [];
  annotations = [];
  deleting = false;
}

abbrev pub zero_template_meta : TemplateMeta
zero_template_meta = record { labels = []; annotations = [] }

abbrev pub zero_cluster_spec_v1alpha1 : OvhClusterSpecV1alpha1
zero_cluster_spec_v1alpha1 = record {
  service_name = [];
  region = [];
  identity_secret = record { namespace = []; name = [] };
  control_plane_endpoint = record { host = []; port = 0 };
  load_balancer_config = record {
    subnet_id = [];
    flavor_name = [];
    floating_network_id = [];
    listeners = [];
  };
  network_config = none;
  ssh_key_name = [];
}

abbrev pub zero_cluster_v1alpha1 : OvhClusterV1alpha1
zero_cluster_v1alpha1 = record {
  meta = zero_meta;
  spec = zero_cluster_spec_v1alpha1;
  status = record {
    ready = false;
    failure_reason = [];
    failure_message = [];
    conditions = [];
    network_id = [];
    subnet_id = [];
    load_balancer_id = [];
    listener_id = [];
    pool_id = [];
    floating_ip_id = [];
    gateway_id = [];
    gateway_exposed = false;
    register_listener_id = [];
    register_pool_id = [];
  };
}

abbrev pub zero_machine_spec_v1alpha1 : OvhMachineSpecV1alpha1
zero_machine_spec_v1alpha1 = record {
  provider_id = [];
  flavor_name = [];
  image_name = [];
  ssh_key_name = [];
  root_disk_size = pos 0;
  additional_volumes = [];
  failure_domain = [];
}

abbrev pub zero_machine_v1alpha1 : OvhMachineV1alpha1
zero_machine_v1alpha1 = record {
  meta = zero_meta;
  spec = zero_machine_spec_v1alpha1;
  status = record {
    ready = false;
    conditions = [];
    failure_reason = [];
    failure_message = [];
    addresses = [];
    initialization = record { provisioned = false };
    instance_id = [];
    volume_ids = [];
    lb_pool_member_id = [];
    register_pool_member_id = [];
  };
}

abbrev pub zero_cluster_template_v1alpha1 : OvhClusterTemplateV1alpha1
zero_cluster_template_v1alpha1 = record {
  meta = zero_meta;
  template_meta = zero_template_meta;
  template_spec = zero_cluster_spec_v1alpha1;
}

abbrev pub zero_machine_template_v1alpha1 : OvhMachineTemplateV1alpha1
zero_machine_template_v1alpha1 = record {
  meta = zero_meta;
  template_meta = zero_template_meta;
  template_spec = zero_machine_spec_v1alpha1;
}
