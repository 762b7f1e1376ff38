-- ===== src/Tests/Machines.antt =====
-- The controller's theorems at the machine "cp-0" of the cluster "demo".
use cluster_api_provider_ovh.Prelude.{Keeps, ℕ, ◌≡◌, ◌⊎◌, codes, [], ok}
use cluster_api_provider_ovh.Resources.{requeue}
use cluster_api_provider_ovh.Machine.Scope.{MachineScope, MachineState}
use cluster_api_provider_ovh.Machine.Existing.{handle_existing_instance}
use cluster_api_provider_ovh.Machine.Create.{create_instance}
use cluster_api_provider_ovh.Machine.Members.{ensure_lb_pool_member}
use cluster_api_provider_ovh.Machine.Normal.{reconcile_normal, reconcile_instance}
use cluster_api_provider_ovh.Machine.Delete.{reconcile_delete}
use cluster_api_provider_ovh.Machine.Readiness.{Reports, delay_of, handle-Reports}
use cluster_api_provider_ovh.Machine.Creation.{Created, Failed, but_creation, create_outcome}
use cluster_api_provider_ovh.Machine.Gates.{MayProvision, Stopped, gates}
use cluster_api_provider_ovh.Machine.Deletion.{detached, Released, Held, delete_outcome}
use cluster_api_provider_ovh.Machine.Frames.{but_members, ensure_lb_pool_member-Keeps}
use cluster_api_provider_ovh.Tests.Clouds.{flaky, instance_with}
use cluster_api_provider_ovh.Tests.Fixtures.{kube, scope_of, state_of}

abbrev scope : MachineScope ℕ
scope = scope_of flaky

abbrev state : MachineState ℕ
state = state_of (codes "i-1")

handle-Reports_example :
    Reports kube scope
      (instance_with (codes "ACTIVE"))
      state.machine
      (handle_existing_instance kube scope (instance_with (codes "ACTIVE")) state).1.machine
    × ((handle_existing_instance kube scope (instance_with (codes "ACTIVE")) state).0
        ≡ ok (requeue (delay_of (codes "ACTIVE"))))
handle-Reports_example = handle-Reports kube scope (instance_with (codes "ACTIVE")) state

gates_example :
    (MayProvision kube scope state.machine
      × (reconcile_normal kube scope state ≡ reconcile_instance kube scope state))
    ⊎ Stopped kube scope state
        (reconcile_normal kube scope state).0
        (reconcile_normal kube scope state).1
gates_example = gates kube scope state

delete_outcome_example :
    Released kube scope state.machine
      (detached kube scope state).world
      (reconcile_delete kube scope state)
    ⊎ Held kube scope state.machine (reconcile_delete kube scope state)
delete_outcome_example = delete_outcome kube scope state

create_outcome_example :
    (Created kube scope (state_of []) (create_instance kube scope (state_of []))
      ⊎ Failed kube scope (state_of []) (create_instance kube scope (state_of [])))
    × (but_creation (create_instance kube scope (state_of [])).1.machine
        ≡ but_creation (state_of []).machine)
create_outcome_example = create_outcome kube scope (state_of [])

ensure_lb_pool_member-Keeps_example :
    Keeps but_members (ensure_lb_pool_member scope (instance_with (codes "ACTIVE")))
ensure_lb_pool_member-Keeps_example =
    ensure_lb_pool_member-Keeps scope (instance_with (codes "ACTIVE"))
