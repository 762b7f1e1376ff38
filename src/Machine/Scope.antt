-- ===== src/Machine/Scope.antt =====
-- What a reconciliation of an OVHMachine reads (MachineScope) and the state that it changes: the
-- OVHMachine object, which is written back whatever the reconciliation returns, and the world.
-- The answers of Cluster API's predicates on the owner objects are fields of the scope.
use cluster_api_provider_ovh.Prelude.{ℕ, Bool, Option, Text, ok, Exec, modify}
use cluster_api_provider_ovh.Cloud.{World}
use cluster_api_provider_ovh.Client.Retry.{Client}
use cluster_api_provider_ovh.Resources.{
  ConditionStatus, OvhMachine, OvhMachineStatus, OvhCluster, Kube,
}

-- requeueDelay and requeueDelayLong, in seconds
abbrev pub requeue_delay : ℕ
requeue_delay = 10

abbrev pub requeue_delay_long : ℕ
requeue_delay_long = 30

pub record MachineScope (W : Type 0) : Type 0 where
  pub cluster_namespace : Text
  pub cluster_name : Text
  pub paused : Bool  -- annotations.IsPaused(cluster, ovhMachine)
  pub infrastructure_provisioned : Bool  -- nil counts as false
  pub machine_namespace : Text
  pub machine_name : Text
  pub data_secret_name : Option Text
  pub is_control_plane : Bool  -- util.IsControlPlaneMachine(machine)
  pub ovh_cluster : OvhCluster
  pub ovh_client : Client W

pub record MachineState (W : Type 0) : Type 0 where
  pub machine : OvhMachine
  pub world : World W

module _ {W : Type 0} where
  -- A call of the client, or of Kubernetes, inside a reconciliation.
  abbrev pub on_world : {A : Type 0} → Exec (World W) A → Exec (MachineState W) A
  on_world m s = let (r, w) = m s.world in (r, record s { world = w })

  abbrev pub with_status : (OvhMachineStatus → OvhMachineStatus) → MachineState W → MachineState W
  with_status f s = record s { machine = record s.machine { status = f s.machine.status } }

  abbrev pub set_status : (OvhMachineStatus → OvhMachineStatus) → Exec (MachineState W) (Unit {0})
  set_status f = modify (with_status f)

  -- `conditions.Set(scope.OVHMachine, …)`
  abbrev pub set_condition :
      Kube W → Text → ConditionStatus → Text → Text → Exec (MachineState W) (Unit {0})
  set_condition k kind status reason message = set_status λ st. record st {
    conditions =
        k.set_condition
          (record { kind = kind; status = status; reason = reason; message = message })
          st.conditions;
  }

  -- What fails is logged and passed over; what was written stays.
  abbrev pub best_effort : {A : Type 0} → Exec (MachineState W) A → Exec (MachineState W) (Unit {0})
  best_effort m s = (ok tt, (m s).1)
