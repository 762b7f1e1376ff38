-- ===== src/Machine/Normal.antt =====
-- ReconcileNormal of the OVHMachine controller. The deferred metrics are left out.
use cluster_api_provider_ovh.Prelude.{
  ◌++◌, Bool, true, false, not, ◌&&◌, Option, none, some, [], Text, codes, is_empty, wrap, Outcome,
  ok, err, Exec, pure, fail, attempt, modify, or_wrap, ◌>>=◌, ◌>>◌, if◌then◌else◌,
}
use cluster_api_provider_ovh.Errors.{is_not_found}
use cluster_api_provider_ovh.Cloud.{Instance}
use cluster_api_provider_ovh.Client.Instances.{get_instance, find_instance_by_name}
use cluster_api_provider_ovh.Resources.{
  condition_false, Result, no_requeue, requeue, Kube, machine_finalizer,
  instance_provisioning_ready_condition, infrastructure_provisioning_in_progress_reason,
}
use cluster_api_provider_ovh.Machine.Scope.{
  MachineScope, MachineState, on_world, set_status, set_condition, requeue_delay,
}
use cluster_api_provider_ovh.Machine.Existing.{handle_existing_instance}
use cluster_api_provider_ovh.Machine.Create.{instance_name, create_instance}

-- `Machine.Spec.Bootstrap.DataSecretName != nil`
unfoldable pub has_data_secret : Option Text → Bool
has_data_secret none = false
has_data_secret (some name) = true

module _ {W : Type 0} (k : Kube W) (scope : MachineScope W) where
  unfoldable pub not_provisioned : Exec (MachineState W) (Unit {0})
  not_provisioned =
      set_status
        λ st. record st { ready = false; initialization = record { provisioned = some false } }

  unfoldable pub add_finalizer : Exec (MachineState W) (Unit {0})
  add_finalizer = modify λ s. record s {
    machine = record s.machine {
      meta = record s.machine.meta {
        finalizers = k.add_finalizer machine_finalizer s.machine.meta.finalizers;
      };
    };
  }

  unfoldable pub recorded : Text → Outcome Instance → Exec (MachineState W) (Option Instance)
  recorded id (ok i) = pure (some i)
  recorded id (err e) =
      if is_not_found e
      then set_status (λ st. record st { instance_id = [] }) >> pure none
      else fail (wrap (codes "getting instance " ++ id) e)

  -- The instance of `Status.InstanceID`.
  unfoldable pub by_recorded_id : Exec (MachineState W) (Option Instance)
  unfolding recorded
  by_recorded_id s =
      if is_empty s.machine.status.instance_id
      then (ok none, s)
      else (do
        found ← attempt (on_world (get_instance scope.ovh_client s.machine.status.instance_id))
        recorded s.machine.status.instance_id found)
          s

  -- The instance of `Spec.ExistingInstanceID`, if none was found.
  unfoldable pub by_adoption : Option Instance → Exec (MachineState W) (Option Instance)
  by_adoption (some i) s = (ok (some i), s)
  by_adoption none s =
      if is_empty s.machine.spec.existing_instance_id
      then (ok none, s)
      else (do
        i ←
            or_wrap (codes "adopting instance " ++ s.machine.spec.existing_instance_id)
              (on_world (get_instance scope.ovh_client s.machine.spec.existing_instance_id))
        pure (some i))
          s

  -- The instance with the machine's generated name, if none was found.
  unfoldable pub by_name : Option Instance → Exec (MachineState W) (Option Instance)
  by_name (some i) s = (ok (some i), s)
  by_name none s =
      or_wrap (codes "finding instance by name " ++ instance_name scope s.machine.meta.name)
        (on_world
          (find_instance_by_name scope.ovh_client (instance_name scope s.machine.meta.name)))
        s

  unfoldable pub handle_or_create : Option Instance → Exec (MachineState W) Result
  handle_or_create (some i) = handle_existing_instance k scope i
  handle_or_create none = create_instance k scope

  -- The part of ReconcileNormal behind its early returns.
  unfoldable pub reconcile_instance : Exec (MachineState W) Result
  unfolding handle_or_create
  reconcile_instance = do
    known ← by_recorded_id
    adopted ← by_adoption known
    named ← by_name adopted
    handle_or_create named

  -- `ReconcileNormal`
  unfoldable pub reconcile_normal : Exec (MachineState W) Result
  unfolding not_provisioned add_finalizer has_data_secret
  reconcile_normal s =
      if scope.paused
      then (not_provisioned >> pure no_requeue) s
      else if not (k.contains_finalizer s.machine.meta.finalizers machine_finalizer)
          && not s.machine.meta.deleting
      then (add_finalizer >> not_provisioned >> pure no_requeue) s
      else if not scope.infrastructure_provisioned
      then (set_condition k instance_provisioning_ready_condition condition_false
              infrastructure_provisioning_in_progress_reason
              (codes "Waiting for cluster infrastructure")
            >> pure (requeue requeue_delay))
          s
      else if not (has_data_secret scope.data_secret_name)
      then (ok (requeue requeue_delay), s)
      else reconcile_instance s
