-- ===== src/Machine/Lifecycle.antt =====
-- The life of a machine as the rest of Cluster API sees it: the instance that its status records,
-- whether it is ready, and the provider ID of its spec. A turn is what one reconciliation may make of
-- them, given what the cloud answered to it.
use cluster_api_provider_ovh.Prelude.{
  ◌≡◌, ◌⊎◌, Bool, true, false, none, some, [], Text, is_empty, ◌==◌, ok, err, GoError,
  if◌then◌else◌,
}
use cluster_api_provider_ovh.Errors.{is_not_found}
use cluster_api_provider_ovh.Cloud.{Instance, CreateInstanceOpts, World, instance_status_active}
use cluster_api_provider_ovh.Client.Instances
use cluster_api_provider_ovh.Client.Instances.{get_instance, find_instance_by_name}
use cluster_api_provider_ovh.Names.ProviderId.{provider_id_from_instance}
use cluster_api_provider_ovh.Resources.{OvhMachine, Kube, machine_finalizer}
use cluster_api_provider_ovh.Machine.Scope.{MachineScope, MachineState}
use cluster_api_provider_ovh.Machine.Create.{instance_name, creation_opts}

pub record Phase : Type 0 where
  pub instance_id : Text
  pub ready : Bool
  pub provider_id : Text

abbrev pub phase_of : OvhMachine → Phase
phase_of m = record {
  instance_id = m.status.instance_id;
  ready = m.status.ready;
  provider_id = m.spec.provider_id;
}

-- What is reported of an instance: only an ACTIVE one makes the machine ready, and only then is the
-- provider ID written.
abbrev pub reported_of : Text → Instance → Phase → Phase
reported_of region i p = record {
  instance_id = i.id;
  ready = i.status == instance_status_active;
  provider_id =
      if i.status == instance_status_active
      then provider_id_from_instance region i.id
      else p.provider_id;
}

module _ {W : Type 0} (scope : MachineScope W) where
  -- No instance is recorded, or the lookup of the recorded one says that it is not found; the world
  -- is the one behind that.
  pub data Vacant (s : MachineState W) : World W → Type 0 where
    unrecorded : is_empty s.machine.status.instance_id ≡ true → Vacant s s.world
    gone :
        (e : GoError)
        → is_empty s.machine.status.instance_id ≡ false
        → (get_instance scope.ovh_client s.machine.status.instance_id s.world).0 ≡ err e
        → is_not_found e ≡ true
        → Vacant s (get_instance scope.ovh_client s.machine.status.instance_id s.world).1

  -- The instance that the cloud shows for the machine: the recorded one, else the one to adopt, else
  -- one of the machine's name.
  pub data Found (s : MachineState W) (i : Instance) : Type 0 where
    by_id :
        is_empty s.machine.status.instance_id ≡ false
        → (get_instance scope.ovh_client s.machine.status.instance_id s.world).0 ≡ ok i
        → Found s i
    adopted :
        (w : World W)
        → Vacant s w
        → is_empty s.machine.spec.existing_instance_id ≡ false
        → (get_instance scope.ovh_client s.machine.spec.existing_instance_id w).0 ≡ ok i
        → Found s i
    named :
        (w : World W)
        → Vacant s w
        → is_empty s.machine.spec.existing_instance_id ≡ true
        → (find_instance_by_name scope.ovh_client (instance_name scope s.machine.meta.name) w).0
          ≡ ok (some i)
        → Found s i

  -- The cloud created the instance, and shows none of the three.
  pub record IsCreated (k : Kube W) (s : MachineState W) (i : Instance) : Type 0 where
    pub start : World W
    pub vacant : Vacant s start
    pub none_to_adopt : is_empty s.machine.spec.existing_instance_id ≡ true
    pub none_named :
        (find_instance_by_name scope.ovh_client (instance_name scope s.machine.meta.name) start).0
        ≡ ok none
    pub opts : CreateInstanceOpts
    pub later : World W
    pub gathered :
        creation_opts k scope s.machine.meta.name s.machine.spec
          (find_instance_by_name scope.ovh_client (instance_name scope s.machine.meta.name) start).1
        ≡ (ok opts, later)
    pub answered : (Instances.create_instance scope.ovh_client opts later).0 ≡ ok i

  -- The machine or its cluster is paused, or the object neither carries the finalizer yet nor is being
  -- deleted.
  abbrev pub IsHeldBack : Kube W → OvhMachine → Type 0
  IsHeldBack k m =
      (scope.paused ≡ true)
      ⊎ ((k.contains_finalizer m.meta.finalizers machine_finalizer ≡ false)
          × (m.meta.deleting ≡ false))

  -- What one reconciliation from this state may make of the machine.
  pub data Turn (k : Kube W) (s : MachineState W) : Phase → Type 0 where
    same : Turn k s (phase_of s.machine)
    unready : IsHeldBack k s.machine → Turn k s (record (phase_of s.machine) { ready = false })
    forgotten :
        (w : World W) → Vacant s w → Turn k s (record (phase_of s.machine) { instance_id = [] })
    reported :
        (i : Instance)
        → Found s i
        → Turn k s (reported_of scope.ovh_cluster.spec.region i (phase_of s.machine))
    created :
        (i : Instance)
        → IsCreated k s i
        → Turn k s (record (phase_of s.machine) { instance_id = i.id })
