-- ===== src/Machine/Creation.antt =====
-- What createInstance leaves in the object.
use cluster_api_provider_ovh.Prelude.{
  ◌≡◌, refl, ◌⊎◌, inl, inr, [], GoError, Outcome, ok, err, Outcome-cases,
}
use cluster_api_provider_ovh.Cloud.{Instance, CreateInstanceOpts, World}
use cluster_api_provider_ovh.Client.Instances
use cluster_api_provider_ovh.Resources.{OvhMachine, Result, requeue, Kube}
use cluster_api_provider_ovh.Machine.Scope.{MachineScope, MachineState, requeue_delay_long}
use cluster_api_provider_ovh.Machine.Create.{creation_opts, create_instance, record_created}

-- The object without the instance ID and the conditions.
abbrev pub but_creation : OvhMachine → OvhMachine
but_creation m = record m { status = record m.status { instance_id = []; conditions = [] } }

module _ {W : Type 0} (k : Kube W) (scope : MachineScope W) where
  -- An instance was created and its ID recorded.
  abbrev pub Created : MachineState W → Outcome Result × MachineState W → Type 0
  Created s (r, s') =
      (i : Instance) × (opts : CreateInstanceOpts) × (w : World W) × ((creation_opts k scope
          s.machine.meta.name s.machine.spec s.world)
        ≡ (ok opts, w))
      × ((Instances.create_instance scope.ovh_client opts w).0 ≡ ok i)
      × (r ≡ ok (requeue requeue_delay_long))
      × (s'.machine.status.instance_id ≡ i.id)

  -- The reconciliation failed and the recorded ID is the one from before.
  abbrev pub Failed : MachineState W → Outcome Result × MachineState W → Type 0
  Failed s (r, s') =
      (e : GoError) × (r ≡ err e) × (s'.machine.status.instance_id ≡ s.machine.status.instance_id)

  -- createInstance either creates an instance from the options that it gathered, records its ID and
  -- asks for a requeue in 30 seconds, or fails and leaves the recorded ID; in both cases everything
  -- else of the object but the conditions stays, the ready flag and the provider ID included.
  pub create_outcome :
      (s : MachineState W)
      → (Created s (create_instance k scope s) ⊎ Failed s (create_instance k scope s))
        × (but_creation (create_instance k scope s).1.machine ≡ but_creation s.machine)
  unfolding create_instance record_created
  create_outcome s =
      let gather = creation_opts k scope s.machine.meta.name s.machine.spec s.world in
      elim (Outcome-cases gather.0) [
        | inl (opts, gathered) ↦
            elim (Outcome-cases (Instances.create_instance scope.ovh_client opts gather.1).0) [
              | inl (i, made) ↦
                  rw gathered (rw made (inl (i, opts, gather.1, refl, made, refl, refl), refl))
              | inr (e, refused) ↦ rw gathered (rw refused (inr (_, refl, refl), refl))
            ]
        | inr (e, failed) ↦ rw failed (inr (e, refl, refl), refl)
      ]
