-- ===== src/Machine/Frames.antt =====
-- What the helpers of a reconciliation leave alone in the OVHMachine object.
use cluster_api_provider_ovh.Prelude.{
  ℕ, refl, Option, none, some, [], Text, Exec, Keeps, Keeps-if, is_empty, not, Keeps-bind,
  Keeps-then, Keeps-pure, Keeps-fail, keeps_rules, arith,
}
use cluster_api_provider_ovh.Cloud.{Instance, Member, Pool, World}
use cluster_api_provider_ovh.Resources.{OvhMachine}
use cluster_api_provider_ovh.Machine.Scope.{MachineScope, MachineState, on_world, best_effort}
use cluster_api_provider_ovh.Machine.Members.{
  ensure_lb_pool_member, ensure_rke2_register_pool_member, remove_lb_pool_member,
  register_api_member, add_member, register_if_absent, in_register_pool, private_ip, pool_id,
}

-- The object without the two member identifiers of its status.
abbrev pub but_members : {W : Type 0} → MachineState W → OvhMachine
but_members s = record s.machine {
  status = record s.machine.status { lb_pool_member_id = []; register_pool_member_id = [] };
}

module _ {W : Type 0} where
  pub on_world-Keeps :
      {A B : Type 0} (f : OvhMachine → B) (m : Exec (World W) A)
      → Keeps (λ (s : MachineState W). f s.machine) (on_world m)
  on_world-Keeps f m = record { at = λ s. refl }

  pub best_effort-Keeps :
      {A B : Type 0} {f : MachineState W → B} {m : Exec (MachineState W) A}
      → Keeps f m
      → Keeps f (best_effort m)
  best_effort-Keeps h = record { at = λ s. h.at s }

module _ {W : Type 0} (scope : MachineScope W) where
  add_member-Keeps :
      (pool address : Text) (port : ℕ) → Keeps but_members (add_member scope pool address port)
  unfolding add_member
  add_member-Keeps pool address port = record { at = λ s. refl }

  register_api_member-Keeps :
      (address : Text) (found : Option Member)
      → Keeps but_members (register_api_member scope address found)
  unfolding register_api_member
  register_api_member-Keeps address (some m) = record { at = λ s. refl }
  register_api_member-Keeps address none = search (keeps_rules, add_member-Keeps)

  register_if_absent-Keeps :
      (pool address : Text) (found : Option Member)
      → Keeps but_members (register_if_absent scope pool address found)
  unfolding register_if_absent
  register_if_absent-Keeps pool address (some m) = record { at = λ s. refl }
  register_if_absent-Keeps pool address none = record { at = λ s. ground arith }

  in_register_pool-Keeps :
      (address : Text) (pool : Option Pool)
      → Keeps but_members (in_register_pool scope address pool)
  unfolding in_register_pool
  in_register_pool-Keeps address none = record { at = λ s. refl }
  in_register_pool-Keeps address (some p) = record {
    at = λ s. (register_if_absent-Keeps p.id address _).at _;
  }

  register_pool-Keeps :
      (address : Text) → Keeps but_members (ensure_rke2_register_pool_member scope address)
  unfolding ensure_rke2_register_pool_member
  register_pool-Keeps address = best_effort-Keeps (
      Keeps-if (is_empty scope.ovh_cluster.status.load_balancer_id) (Keeps-pure tt)
        (Keeps-bind (record { at = λ s. refl }) (in_register_pool-Keeps address)))

  -- Whatever the API answers, the registration of a machine in the load balancer pools changes
  -- nothing of its object but the two member identifiers.
  pub ensure_lb_pool_member-Keeps :
      (instance : Instance) → Keeps but_members (ensure_lb_pool_member scope instance)
  unfolding ensure_lb_pool_member pool_id
  ensure_lb_pool_member-Keeps instance = Keeps-if (not scope.is_control_plane) (Keeps-pure tt) (
      Keeps-if (is_empty scope.ovh_cluster.status.pool_id) (Keeps-fail _) (
        Keeps-if (is_empty (private_ip instance)) (Keeps-fail _) (record {
          at = λ s.
              (Keeps-then (register_api_member-Keeps (private_ip instance) _)
                  (register_pool-Keeps (private_ip instance))).at
                _;
        })))

  -- So does the removal of its member.
  pub remove_lb_pool_member-Keeps : Keeps but_members (remove_lb_pool_member scope)
  unfolding remove_lb_pool_member
  remove_lb_pool_member-Keeps = record { at = λ s. ground arith }
