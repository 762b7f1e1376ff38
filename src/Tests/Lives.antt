-- ===== src/Tests/Lives.antt =====
-- The life of the machine "cp-0" through a few reconciliations.
use cluster_api_provider_ovh.Prelude.{
  ℕ, ◌≡◌, refl, inl, true, false, codes, ◌==◌, is_empty, [], Outcome, ok,
}
use cluster_api_provider_ovh.Errors.{as_api, is_retryable}
use cluster_api_provider_ovh.Cloud.{World}
use cluster_api_provider_ovh.Client.Retry.{retry_with_backoff, request}
use cluster_api_provider_ovh.Client.Instances.{get_instance}
use cluster_api_provider_ovh.Machine.Scope.{MachineScope, MachineState}
use cluster_api_provider_ovh.Machine.Existing.{handle_existing_instance, initialize_node}
use cluster_api_provider_ovh.Machine.Members.{ensure_lb_pool_member}
use cluster_api_provider_ovh.Resources.{Result}
use cluster_api_provider_ovh.Machine.Normal.{
  reconcile_normal, reconcile_instance, by_recorded_id, by_adoption, by_name, handle_or_create,
}
use cluster_api_provider_ovh.Machine.Delete.{reconcile_delete}
use cluster_api_provider_ovh.Machine.Gates.{MayProvision}
use cluster_api_provider_ovh.Machine.Lifecycle.{phase_of, Turn}
use cluster_api_provider_ovh.Machine.Refinement.{reconcile_normal-refines}
use cluster_api_provider_ovh.Machine.Runs.{Run, start, normal, delete, Identified, Run-Identified}
use cluster_api_provider_ovh.Machine.Liveness.{IsUp, becomes_ready}
use cluster_api_provider_ovh.Tests.Clouds.{flaky, instance_with}
use cluster_api_provider_ovh.Tests.Fixtures.{kube, scope_of, state_of}

abbrev scope : MachineScope ℕ
scope = record (scope_of flaky) { is_control_plane = false }

abbrev state : MachineState ℕ
state = state_of (codes "i-1")

reconcile_normal-refines_example :
    Turn scope kube state (phase_of (reconcile_normal kube scope state).1.machine)
reconcile_normal-refines_example = reconcile_normal-refines kube scope state

-- One reconciliation, and the deletion behind it.
abbrev after : MachineState ℕ
after = (reconcile_delete kube scope (reconcile_normal kube scope state).1).1

short_run : Run kube (codes "GRA7") state after
short_run = delete (normal start scope refl) scope

Run-Identified_example : Identified kube (codes "GRA7") state short_run (phase_of after.machine)
Run-Identified_example = Run-Identified kube (codes "GRA7") state after short_run refl refl

state-MayProvision : MayProvision kube scope state.machine
unfolding ◌==◌ codes
state-MayProvision = record {
  running = refl;
  finalized = inl refl;
  infrastructure = refl;
  bootstrap = λ e. cc;
}

-- The world in which both answers of the cloud's first two calls are past.
abbrev later : World ℕ
later = record { cloud = 5; events = [] }

still_named : is_empty (reconcile_normal kube scope state).1.machine.status.instance_id ≡ false
unfolding reconcile_normal ◌==◌ codes reconcile_instance by_recorded_id get_instance
    retry_with_backoff request is_retryable as_api by_adoption by_name handle_or_create
    handle_existing_instance initialize_node ensure_lb_pool_member
still_named = refl

answered :
    (get_instance scope.ovh_client
      (reconcile_normal kube scope state).1.machine.status.instance_id
      later).0
    ≡ ok (instance_with (codes "ACTIVE"))
unfolding get_instance retry_with_backoff request
answered = refl

is_active : ((instance_with (codes "ACTIVE")).status == codes "ACTIVE") ≡ true
unfolding codes ◌==◌
is_active = refl

-- A second reconciliation, in the later world.
abbrev second : Outcome Result × MachineState ℕ
second =
    reconcile_normal kube scope (record (reconcile_normal kube scope state).1 { world = later })

becomes_ready_example : IsUp kube scope (instance_with (codes "ACTIVE")) second.0 second.1
becomes_ready_example =
    becomes_ready kube scope state later (instance_with (codes "ACTIVE")) state-MayProvision
      still_named answered is_active
