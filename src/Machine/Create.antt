-- ===== src/Machine/Create.antt =====
-- Creation of an instance (createInstance and getBootstrapData).
use cluster_api_provider_ovh.Prelude.{
  ◌++◌, Option, none, some, List, [], ◌∷◌, Text, codes, is_empty, ◌==◌, plain, wrap, Outcome, ok,
  err, wrap_outcome, Exec, pure, fail, lift, attempt, or_wrap, ◌>>=◌, ◌>>◌, if◌then◌else◌, false,
}
use cluster_api_provider_ovh.Errors.{error_text}
use cluster_api_provider_ovh.Cloud.{Instance, InstanceNetwork, CreateInstanceOpts, World}
use cluster_api_provider_ovh.Client.Calls.{quoted}
use cluster_api_provider_ovh.Client.Instances
use cluster_api_provider_ovh.Client.Catalog.{
  get_flavor_by_name, get_image_by_name, get_ssh_key_by_name,
}
use cluster_api_provider_ovh.Names.{generate_rfc1035_name, get_ssh_key_name, prepare_user_data}
use cluster_api_provider_ovh.NodeInit.{outside}
use cluster_api_provider_ovh.Resources.{
  condition_true, condition_false, OvhMachineSpec, Result, requeue, Kube,
  instance_created_condition, instance_provisioning_ready_condition,
  instance_provisioning_in_progress_reason, instance_provisioning_failed_reason,
}
use cluster_api_provider_ovh.Machine.Scope.{
  MachineScope, MachineState, on_world, set_status, set_condition, requeue_delay_long,
}

-- `locutil.GenerateRFC1035Name(scope.Cluster.Name, scope.OVHMachine.Name)`
unfoldable pub instance_name : {W : Type 0} → MachineScope W → Text → Text
instance_name scope machine_name = generate_rfc1035_name (scope.cluster_name ∷ machine_name ∷ [])

-- `data, ok := secret.Data["value"]`
value_of : Text → List (Text × Text) → Outcome Text
value_of key [] = err (plain (codes "bootstrap secret " ++ (key ++ codes " missing 'value' key")))
value_of key ((name, value) ∷ entries) =
    if name == codes "value" then ok value else value_of key entries

networks_of : Text → List InstanceNetwork
networks_of network_id = if is_empty network_id then [] else record { network_id = network_id } ∷ []

module _ {W : Type 0} (k : Kube W) (scope : MachineScope W) where
  secret_value : Option Text → Exec (World W) Text
  unfolding value_of
  secret_value none = fail (plain (codes "bootstrap data secret name is nil"))
  secret_value (some name) = do
    let key = scope.machine_namespace ++ (codes "/" ++ name)
    secret ←
        or_wrap (codes "getting bootstrap secret " ++ key)
          (outside (k.get_secret scope.machine_namespace name))
    lift (value_of key secret)

  -- `getBootstrapData`
  unfoldable pub get_bootstrap_data : Exec (World W) Text
  unfolding secret_value
  get_bootstrap_data = secret_value scope.data_secret_name

  -- The SSH key is resolved only if the machine or the cluster names one.
  unfoldable pub resolve_ssh_key : Text → Exec (World W) Text
  resolve_ssh_key name = if is_empty name then pure [] else do
    key ←
        or_wrap (codes "resolving SSH key " ++ quoted name)
          (get_ssh_key_by_name scope.ovh_client name)
    pure key.id

  -- What createInstance gathers before it sends the request.
  unfoldable pub creation_opts : Text → OvhMachineSpec → Exec (World W) CreateInstanceOpts
  unfolding networks_of
  creation_opts machine_name spec = do
    flavor ←
        or_wrap (codes "resolving flavor " ++ quoted spec.flavor_name)
          (get_flavor_by_name scope.ovh_client spec.flavor_name)
    image ←
        or_wrap (codes "resolving image " ++ quoted spec.image_name)
          (get_image_by_name scope.ovh_client spec.image_name)
    bootstrap_data ← or_wrap (codes "getting bootstrap data") get_bootstrap_data
    user_data ← lift (wrap_outcome (codes "preparing user data") (prepare_user_data bootstrap_data))
    ssh_key_id ←
        resolve_ssh_key (get_ssh_key_name spec.ssh_key_name scope.ovh_cluster.spec.ssh_key_name)
    pure (record {
      name = instance_name scope machine_name;
      flavor_id = flavor.id;
      image_id = image.id;
      region = scope.ovh_cluster.spec.region;
      ssh_key_id = ssh_key_id;
      user_data = user_data;
      networks = networks_of scope.ovh_cluster.status.network_id;
      monthly_billing = false;
      group_id = [];
    })

  unfoldable pub record_created : Outcome Instance → Exec (MachineState W) Result
  record_created (err e) =
      set_condition k instance_created_condition condition_false instance_provisioning_failed_reason
        (codes "Failed to create instance: " ++ error_text e)
      >> fail (wrap (codes "creating OVH instance") e)
  record_created (ok instance) =
      set_status (λ st. record st { instance_id = instance.id })
      >> set_condition k instance_created_condition condition_true instance_created_condition []
      >> set_condition k instance_provisioning_ready_condition condition_false
          instance_provisioning_in_progress_reason
          (codes "Instance created, waiting for ACTIVE state")
      >> pure (requeue requeue_delay_long)

  -- `createInstance`
  unfoldable pub create_instance : Exec (MachineState W) Result
  unfolding record_created
  create_instance s =
      (do
        opts ← on_world (creation_opts s.machine.meta.name s.machine.spec)
        created ← attempt (on_world (Instances.create_instance scope.ovh_client opts))
        record_created created)
        s
