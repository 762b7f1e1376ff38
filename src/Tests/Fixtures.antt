-- ===== src/Tests/Fixtures.antt =====
-- A small Kubernetes, the machine "cp-0" of the cluster "demo" and its scope.
use cluster_api_provider_ovh.Prelude.{
  if◌then◌else◌, ℕ, Bool, true, false, none, some, [], ◌∷◌, Text, codes, ◌==◌, not, any, keep, pos,
  plain, ok, err,
}
use cluster_api_provider_ovh.Cloud.{Api}
use cluster_api_provider_ovh.Resources.{
  Kube, condition_true, condition_false, ConditionStatus, ObjectMeta, OvhMachine, OvhCluster,
  machine_finalizer,
}
use cluster_api_provider_ovh.Machine.Scope.{MachineScope, MachineState}
use cluster_api_provider_ovh.Tests.Clouds.{client_of, start}

abbrev is_set : ConditionStatus → Bool
is_set condition_true = true
is_set condition_false = false

abbrev pub kube : Kube ℕ
kube = record {
  set_condition = λ c cs. c ∷ keep (λ x. not (x.kind == c.kind)) cs;
  is_true = λ cs kind. any (λ x. if x.kind == kind then is_set x.status else false) cs;
  contains_finalizer = λ fs f. any (λ x. x == f) fs;
  add_finalizer = λ f fs. f ∷ fs;
  remove_finalizer = λ f fs. keep (λ x. not (x == f)) fs;
  is_missing = λ e. false;
  get_secret = λ namespace name n. (ok ((codes "value", codes "#cloud-config") ∷ []), n);
  kubeconfig = λ namespace name n. (ok (codes "kubeconfig"), n);
  rest_config = λ kubeconfig. ok (codes "rest");
  new_clientset = λ cfg. ok tt;
  get_node = λ cfg name n. (err (plain (codes "no node yet")), n);
  patch_provider_id = λ cfg name id n. (ok tt, n);
  patch_taints = λ cfg name taints n. (ok tt, n);
}

abbrev meta_named : Text → ObjectMeta
meta_named name = record {
  namespace = codes "default";
  name = name;
  finalizers = machine_finalizer ∷ [];
  annotations = [];
  deleting = false;
}

abbrev pub machine_with_id : Text → OvhMachine
machine_with_id id = record {
  meta = meta_named (codes "cp-0");
  spec = record {
    provider_id = [];
    flavor_name = codes "b3-8";
    image_name = codes "Ubuntu 22.04";
    ssh_key_name = [];
    root_disk_size = pos 0;
    additional_volumes = [];
    failure_domain = [];
    security_group_names = [];
    tags = [];
    bootstrap_format = [];
    existing_instance_id = [];
  };
  status = record {
    ready = false;
    conditions = [];
    addresses = [];
    initialization = record { provisioned = none };
    instance_id = id;
    volume_ids = [];
    lb_pool_member_id = [];
    register_pool_member_id = [];
  };
}

abbrev pub cluster : OvhCluster
cluster = record {
  meta = meta_named (codes "demo");
  spec = record {
    service_name = codes "p1";
    region = codes "GRA7";
    identity_secret = record { namespace = codes "default"; name = codes "ovh" };
    control_plane_endpoint = record { host = []; port = 0 };
    load_balancer_config = record {
      subnet_id = [];
      flavor_name = codes "small";
      floating_network_id = [];
      listeners = [];
      existing_load_balancer_id = [];
      existing_floating_ip_id = [];
    };
    network_config = none;
    ssh_key_name = [];
    failure_domains = [];
    security_groups = [];
    default_tags = [];
    dns_config = none;
  };
  status = record {
    ready = true;
    initialization = record { provisioned = some true };
    conditions = [];
    network_id = codes "n-1";
    subnet_id = codes "s-1";
    load_balancer_id = codes "lb-1";
    listener_id = codes "li-1";
    pool_id = codes "pool-1";
    floating_ip_id = [];
    gateway_id = [];
    gateway_exposed = false;
    register_listener_id = [];
    register_pool_id = [];
    failure_domains = [];
    security_group_ids = [];
    dns_record_id = 0;
  };
}

abbrev pub scope_of : Api ℕ → MachineScope ℕ
scope_of cloud = record {
  cluster_namespace = codes "default";
  cluster_name = codes "demo";
  paused = false;
  infrastructure_provisioned = true;
  machine_namespace = codes "default";
  machine_name = codes "cp-0";
  data_secret_name = some (codes "cp-0-bootstrap");
  is_control_plane = true;
  ovh_cluster = cluster;
  ovh_client = client_of cloud;
}

abbrev pub state_of : Text → MachineState ℕ
state_of id = record { machine = machine_with_id id; world = start }
