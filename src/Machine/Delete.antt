-- ===== src/Machine/Delete.antt =====
-- ReconcileDelete of the OVHMachine controller. The metrics are left out.
use cluster_api_provider_ovh.Prelude.{
  ◌++◌, Bool, false, not, List, [], ◌∷◌, Text, codes, is_empty, ◌==◌, Outcome, ok, err, Exec, pure,
  attempt, modify, or_wrap, ◌>>=◌, ◌>>◌, if◌then◌else◌,
}
use cluster_api_provider_ovh.Cloud.{Instance, instance_status_deleted}
use cluster_api_provider_ovh.Client.Instances.{get_instance, delete_instance}
use cluster_api_provider_ovh.Client.Storage.{detach_volume, delete_volume}
use cluster_api_provider_ovh.Resources.{
  lookup_text, OvhMachine, Result, no_requeue, requeue, Kube, machine_finalizer,
}
use cluster_api_provider_ovh.Machine.Scope.{
  MachineScope, MachineState, on_world, best_effort, requeue_delay,
}
use cluster_api_provider_ovh.Machine.Members.{remove_lb_pool_member}

-- `Annotations["capiovh.cluster.x-k8s.io/adoption-policy"] == "keep"`
unfoldable pub keeps_instance : OvhMachine → Bool
keeps_instance m =
    lookup_text (codes "capiovh.cluster.x-k8s.io/adoption-policy") m.meta.annotations
    == codes "keep"

-- The instance answered after its deletion, and is not marked as deleted.
unfoldable pub still_there : Outcome Instance → Bool
still_there (ok i) = not (i.status == instance_status_deleted)
still_there (err e) = false

module _ {W : Type 0} (k : Kube W) (scope : MachineScope W) where
  unfoldable pub remove_finalizer : Exec (MachineState W) (Unit {0})
  remove_finalizer = modify λ s. record s {
    machine = record s.machine {
      meta = record s.machine.meta {
        finalizers = k.remove_finalizer machine_finalizer s.machine.meta.finalizers;
      };
    };
  }

  unfoldable pub detach : Text → Text → Exec (MachineState W) (Unit {0})
  detach volume_id instance_id =
      if is_empty instance_id
      then pure tt
      else best_effort (on_world (detach_volume scope.ovh_client volume_id instance_id))

  -- The loop over `Status.VolumeIDs`.
  unfoldable pub delete_volumes : Text → List Text → Exec (MachineState W) (Unit {0})
  unfolding detach
  delete_volumes instance_id [] = pure tt
  delete_volumes instance_id (volume_id ∷ volume_ids) =
      detach volume_id instance_id
      >> best_effort (on_world (delete_volume scope.ovh_client volume_id))
      >> delete_volumes instance_id volume_ids

  unfoldable pub finish : Exec (MachineState W) Result
  unfolding remove_finalizer
  finish = remove_finalizer >> pure no_requeue

  -- The instance is deleted, and looked up again before the finalizer goes.
  unfoldable pub delete_recorded : Text → Exec (MachineState W) Result
  unfolding finish
  delete_recorded id = do
    or_wrap (codes "deleting instance " ++ id) (on_world (delete_instance scope.ovh_client id))
    left ← attempt (on_world (get_instance scope.ovh_client id))
    if still_there left then pure (requeue requeue_delay) else finish

  -- `ReconcileDelete`
  unfoldable pub reconcile_delete : Exec (MachineState W) Result
  unfolding finish
  reconcile_delete s =
      if keeps_instance s.machine
      then finish s
      else (delete_volumes s.machine.status.instance_id s.machine.status.volume_ids
            >> remove_lb_pool_member scope
            >> (if is_empty s.machine.status.instance_id
                then finish
                else delete_recorded s.machine.status.instance_id))
          s
