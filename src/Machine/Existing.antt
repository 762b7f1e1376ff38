-- ===== src/Machine/Existing.antt =====
-- An instance that exists in OVH (handleExistingInstance and getWorkloadRESTConfig). The client of
-- the controller is always there, so the test of `r.Client` for nil is left out.
use cluster_api_provider_ovh.Prelude.{
  ◌++◌, Bool, true, false, Option, none, some, List, [], map, Text, codes, keep, nat_eq, ◌==◌,
  Outcome, ok, err, wrap, wrap_outcome, Exec, pure, fail, lift, attempt, modify, ◌>>=◌, ◌>>◌,
  if◌then◌else◌,
}
use cluster_api_provider_ovh.Cloud.{
  IpAddress, Instance, instance_status_active, instance_status_build, instance_status_error, World,
}
use cluster_api_provider_ovh.Names.ProviderId.{provider_id_from_instance}
use cluster_api_provider_ovh.NodeInit.{outside, initialize_workload_node}
use cluster_api_provider_ovh.Resources.{
  condition_true, condition_false, internal_ip, external_ip, MachineAddress, OvhMachine, Result,
  no_requeue, requeue, Kube, instance_created_condition, instance_provisioning_ready_condition,
  instance_provisioning_in_progress_reason, instance_provisioning_failed_reason,
  instance_running_condition, instance_not_running_reason,
}
use cluster_api_provider_ovh.Machine.Scope.{
  MachineScope, MachineState, set_status, set_condition, best_effort, requeue_delay_long,
}
use cluster_api_provider_ovh.Machine.Members.{ensure_lb_pool_member}

abbrev pub is_ipv4 : IpAddress → Bool
is_ipv4 a = nat_eq a.version 4

abbrev pub machine_address : IpAddress → MachineAddress
machine_address a = record {
  kind = if a.kind == codes "public" then external_ip else internal_ip;
  address = a.ip;
}

-- The loop over `instance.IPAddresses`.
unfoldable pub addresses_of : Instance → List MachineAddress
addresses_of i = map machine_address (keep is_ipv4 i.ip_addresses)

module _ {W : Type 0} (k : Kube W) (scope : MachineScope W) where
  parse_config : Outcome Text → Exec (World W) (Option Text)
  parse_config (ok kubeconfig) =
      lift (wrap_outcome (codes "parsing kubeconfig") (k.rest_config kubeconfig)) >>= λ cfg.
      pure (some cfg)
  parse_config (err e) =
      if k.is_missing e then pure none else fail (wrap (codes "reading kubeconfig secret") e)

  -- `getWorkloadRESTConfig`
  unfoldable pub get_workload_rest_config : Exec (World W) (Option Text)
  unfolding parse_config
  get_workload_rest_config = do
    found ← attempt (outside (k.kubeconfig scope.cluster_namespace scope.cluster_name))
    parse_config found

  initialize_with : Outcome (Option Text) → Text → Text → World W → World W
  initialize_with (ok (some cfg)) node_name provider_id w =
      initialize_workload_node k cfg node_name provider_id w
  initialize_with (ok none) node_name provider_id w = w
  initialize_with (err e) node_name provider_id w = w

  -- The providerID is patched on the node of the workload cluster, if its kubeconfig is there.
  unfoldable pub initialize_node : Text → Exec (MachineState W) (Unit {0})
  unfolding initialize_with
  initialize_node node_name s =
      let (cfg, w) = get_workload_rest_config s.world in
      (ok tt, record s { world = initialize_with cfg node_name s.machine.spec.provider_id w })

  -- What the ACTIVE branch writes to the object before the pool and the node are seen to.
  unfoldable pub mark_active : Instance → OvhMachine → OvhMachine
  mark_active i m = record m {
    spec = record m.spec {
      provider_id = provider_id_from_instance scope.ovh_cluster.spec.region i.id;
    };
    status = record m.status {
      addresses = addresses_of i;
      ready = true;
      initialization = record { provisioned = some true };
    };
  }

  unfoldable pub on_active : Instance → Exec (MachineState W) Result
  unfolding mark_active
  on_active instance =
      modify (λ s. record s { machine = mark_active instance s.machine })
      >> set_condition k instance_provisioning_ready_condition condition_true
          instance_provisioning_ready_condition []
      >> set_condition k instance_running_condition condition_true instance_running_condition []
      >> best_effort (ensure_lb_pool_member scope instance)
      >> initialize_node instance.name
      >> pure no_requeue

  unfoldable pub not_ready : Exec (MachineState W) (Unit {0})
  not_ready = set_status λ st. record st { ready = false }

  unfoldable pub on_build : Exec (MachineState W) Result
  unfolding not_ready
  on_build =
      set_condition k instance_provisioning_ready_condition condition_false
        instance_provisioning_in_progress_reason
        (codes "Instance is being provisioned (BUILD state)")
      >> set_condition k instance_running_condition condition_false instance_not_running_reason
          (codes "Instance is not yet running")
      >> not_ready
      >> pure (requeue requeue_delay_long)

  unfoldable pub on_error : Instance → Exec (MachineState W) Result
  unfolding not_ready
  on_error instance =
      set_condition k instance_provisioning_ready_condition condition_false
        instance_provisioning_failed_reason
        (codes "Instance provisioning failed: OVH instance "
          ++ (instance.id ++ codes " is in ERROR state"))
      >> not_ready
      >> pure no_requeue

  -- `handleExistingInstance`
  unfoldable pub handle_existing_instance : Instance → Exec (MachineState W) Result
  unfolding on_active on_build on_error not_ready
  handle_existing_instance instance =
      set_status (λ st. record st { instance_id = instance.id })
      >> set_condition k instance_created_condition condition_true instance_created_condition []
      >> (if instance.status == instance_status_active
          then on_active instance
          else if instance.status == instance_status_build
          then on_build
          else if instance.status == instance_status_error
          then on_error instance
          else not_ready >> pure (requeue requeue_delay_long))
