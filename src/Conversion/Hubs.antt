-- ===== src/Conversion/Hubs.antt =====
-- The kinds of v1alpha2 that are hubs of the conversion (api/v1alpha2/conversion.go), the
-- templates and lists of that version, and the values that Go gives to objects not yet written.
use cluster_api_provider_ovh.Prelude.{pos, false, none, List, [], Text, codes}
use cluster_api_provider_ovh.Resources.{
  ObjectMeta, OvhClusterSpec, OvhCluster, OvhMachineSpec, OvhMachine,
}
use cluster_api_provider_ovh.Conversion.Older.{
  ListMeta, TemplateMeta, zero_meta, zero_template_meta,
}

pub record OvhClusterTemplate : Type 0 where
  pub meta : ObjectMeta
  pub template_meta : TemplateMeta
  pub template_spec : OvhClusterSpec

pub record OvhMachineTemplate : Type 0 where
  pub meta : ObjectMeta
  pub template_meta : TemplateMeta
  pub template_spec : OvhMachineSpec

pub record OvhClusterList : Type 0 where
  pub meta : ListMeta
  pub items : List OvhCluster

pub record OvhMachineList : Type 0 where
  pub meta : ListMeta
  pub items : List OvhMachine

pub record OvhClusterTemplateList : Type 0 where
  pub meta : ListMeta
  pub items : List OvhClusterTemplate

pub record OvhMachineTemplateList : Type 0 where
  pub meta : ListMeta
  pub items : List OvhMachineTemplate

-- `conversion.Hub`: what stands behind the interface.
pub data Hub : Type 0 where
  cluster : OvhCluster → Hub
  cluster_list : OvhClusterList → Hub
  machine : OvhMachine → Hub
  machine_list : OvhMachineList → Hub
  cluster_template : OvhClusterTemplate → Hub
  cluster_template_list : OvhClusterTemplateList → Hub
  machine_template : OvhMachineTemplate → Hub
  machine_template_list : OvhMachineTemplateList → Hub

-- `%T` of a hub.
unfoldable pub hub_type : Hub → Text
hub_type (cluster x) = codes "*v1alpha2.OVHCluster"
hub_type (cluster_list x) = codes "*v1alpha2.OVHClusterList"
hub_type (machine x) = codes "*v1alpha2.OVHMachine"
hub_type (machine_list x) = codes "*v1alpha2.OVHMachineList"
hub_type (cluster_template x) = codes "*v1alpha2.OVHClusterTemplate"
hub_type (cluster_template_list x) = codes "*v1alpha2.OVHClusterTemplateList"
hub_type (machine_template x) = codes "*v1alpha2.OVHMachineTemplate"
hub_type (machine_template_list x) = codes "*v1alpha2.OVHMachineTemplateList"

abbrev pub zero_cluster_spec : OvhClusterSpec
zero_cluster_spec = record {
  service_name = [];
  region = [];
  identity_secret = record { namespace = []; name = [] };
  control_plane_endpoint = record { host = []; port = 0 };
  load_balancer_config = record {
    subnet_id = [];
    flavor_name = [];
    floating_network_id = [];
    listeners = [];
    existing_load_balancer_id = [];
    existing_floating_ip_id = [];
  };
  network_config = none;
  ssh_key_name = [];
  failure_domains = [];
  security_groups = [];
  default_tags = [];
  dns_config = none;
}

abbrev pub zero_cluster : OvhCluster
zero_cluster = record {
  meta = zero_meta;
  spec = zero_cluster_spec;
  status = record {
    ready = false;
    initialization = record { provisioned = none };
    conditions = [];
    network_id = [];
    subnet_id = [];
    load_balancer_id = [];
    listener_id = [];
    pool_id = [];
    floating_ip_id = [];
    gateway_id = [];
    gateway_exposed = false;
    register_listener_id = [];
    register_pool_id = [];
    failure_domains = [];
    security_group_ids = [];
    dns_record_id = 0;
  };
}

abbrev pub zero_machine_spec : OvhMachineSpec
zero_machine_spec = record {
  provider_id = [];
  flavor_name = [];
  image_name = [];
  ssh_key_name = [];
  root_disk_size = pos 0;
  additional_volumes = [];
  failure_domain = [];
  security_group_names = [];
  tags = [];
  bootstrap_format = [];
  existing_instance_id = [];
}

abbrev pub zero_machine : OvhMachine
zero_machine = record {
  meta = zero_meta;
  spec = zero_machine_spec;
  status = record {
    ready = false;
    conditions = [];
    addresses = [];
    initialization = record { provisioned = none };
    instance_id = [];
    volume_ids = [];
    lb_pool_member_id = [];
    register_pool_member_id = [];
  };
}

abbrev pub zero_cluster_template : OvhClusterTemplate
zero_cluster_template = record {
  meta = zero_meta;
  template_meta = zero_template_meta;
  template_spec = zero_cluster_spec;
}

abbrev pub zero_machine_template : OvhMachineTemplate
zero_machine_template = record {
  meta = zero_meta;
  template_meta = zero_template_meta;
  template_spec = zero_machine_spec;
}
