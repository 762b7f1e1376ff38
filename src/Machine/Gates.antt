-- ===== src/Machine/Gates.antt =====
-- The early returns of ReconcileNormal.
use cluster_api_provider_ovh.Prelude.{
  Text, ◌>>◌, codes, ◌≡◌, ◌≢◌, refl, Bool-cases, ◌⊎◌, inl, inr, Bool, true, false, Option, none,
  some, Outcome, ok, not, ◌&&◌,
}
use cluster_api_provider_ovh.Resources.{
  Kube, Result, no_requeue, requeue, machine_finalizer, OvhMachine, condition_false,
  infrastructure_provisioning_in_progress_reason, instance_provisioning_ready_condition,
}
use cluster_api_provider_ovh.Machine.Scope.{
  MachineScope, MachineState, requeue_delay, set_condition,
}
use cluster_api_provider_ovh.Machine.Normal.{
  reconcile_normal, reconcile_instance, not_provisioned, add_finalizer, has_data_secret,
}

module _ {W : Type 0} (k : Kube W) (scope : MachineScope W) where
  -- The guards that stand before the instance is looked at.
  pub record MayProvision (m : OvhMachine) : Type 0 where
    pub running : scope.paused ≡ false
    pub finalized :
        (k.contains_finalizer m.meta.finalizers machine_finalizer ≡ true) ⊎ (m.meta.deleting ≡ true)
    pub infrastructure : scope.infrastructure_provisioned ≡ true
    pub bootstrap : scope.data_secret_name ≢ none

  -- A reconciliation that a guard stops.
  pub record Stopped (s : MachineState W) (r : Outcome Result) (s' : MachineState W) : Type 0 where
    pub world : s'.world ≡ s.world
    pub spec : s'.machine.spec ≡ s.machine.spec
    pub instance_id : s'.machine.status.instance_id ≡ s.machine.status.instance_id
    pub answer : (r ≡ ok no_requeue) ⊎ (r ≡ ok (requeue requeue_delay))
    pub readiness :
        (s'.machine.status.ready ≡ false) ⊎ (s'.machine.status.ready ≡ s.machine.status.ready)

  abbrev Gated : MachineState W → Outcome Result × MachineState W → Type 0
  Gated s result =
      (MayProvision s.machine × (result ≡ reconcile_instance k scope s))
      ⊎ Stopped s result.0 result.1

  Gated-unready :
      (s s' : MachineState W) (result : Outcome Result × MachineState W)
      → result ≡ (ok no_requeue, s')
      → s'.world ≡ s.world
      → s'.machine.spec ≡ s.machine.spec
      → s'.machine.status.instance_id ≡ s.machine.status.instance_id
      → s'.machine.status.ready ≡ false
      → Gated s result
  Gated-unready s s' result same world spec id unready = rw same (
      inr record {
        world = world;
        spec = spec;
        instance_id = id;
        answer = inl refl;
        readiness = inl unready;
      })

  Gated-waiting :
      (s s' : MachineState W) (result : Outcome Result × MachineState W)
      → result ≡ (ok (requeue requeue_delay), s')
      → s'.world ≡ s.world
      → s'.machine.spec ≡ s.machine.spec
      → s'.machine.status.instance_id ≡ s.machine.status.instance_id
      → s'.machine.status.ready ≡ s.machine.status.ready
      → Gated s result
  Gated-waiting s s' result answered world spec id same = rw answered (
      inr record {
        world = world;
        spec = spec;
        instance_id = id;
        answer = inr refl;
        readiness = inr same;
      })

  -- The state of a machine that waits for the cluster infrastructure.
  abbrev pub waiting : MachineState W → MachineState W
  waiting s =
      (set_condition k instance_provisioning_ready_condition condition_false
        infrastructure_provisioning_in_progress_reason (codes "Waiting for cluster infrastructure")
        s).1

  finalized_cases :
      (has deleting : Bool) → (not has && not deleting) ≡ false → (has ≡ true) ⊎ (deleting ≡ true)
  finalized_cases true deleting h = inl refl
  finalized_cases false true h = inr refl
  finalized_cases false false h = cc

  has_data_secret_lem : (o : Option Text) → has_data_secret o ≡ true → o ≢ none
  unfolding has_data_secret
  has_data_secret_lem none h = cc
  has_data_secret_lem (some x) h = cc

  -- Either all guards hold, that is: the object is not paused, carries the finalizer (or is being
  -- deleted), the cluster infrastructure is provisioned and the bootstrap secret is named, and the
  -- reconciliation goes on to the instance; or it ends without an error and without any call of an
  -- API, and leaves the spec and the recorded instance ID as they were.
  pub gates :
      (s : MachineState W)
      → (MayProvision s.machine × (reconcile_normal k scope s ≡ reconcile_instance k scope s))
        ⊎ Stopped s (reconcile_normal k scope s).0 (reconcile_normal k scope s).1
  unfolding reconcile_normal not_provisioned add_finalizer
  gates s =
      let has = k.contains_finalizer s.machine.meta.finalizers machine_finalizer in
      elim (Bool-cases scope.paused) [
        | inl paused ↦
            Gated-unready s (not_provisioned k scope s).1 _ (rw paused refl) refl refl refl refl
        | inr running ↦ elim (Bool-cases (not has && not s.machine.meta.deleting)) [
          | inl bare ↦
              Gated-unready s ((add_finalizer k scope >> not_provisioned k scope) s).1 _
                (rw (running, bare) refl) refl refl refl refl
          | inr final ↦ elim (Bool-cases scope.infrastructure_provisioned) [
            | inr waits ↦
                Gated-waiting s (waiting s) _ (rw (running, final, waits) refl) refl refl refl refl
            | inl infra ↦ elim (Bool-cases (has_data_secret scope.data_secret_name)) [
              | inr unnamed ↦
                  Gated-waiting s s _ (rw (running, final, infra, unnamed) refl) refl refl refl refl
              | inl named ↦ inl (
                record {
                  running = running;
                  finalized = finalized_cases has s.machine.meta.deleting final;
                  infrastructure = infra;
                  bootstrap = has_data_secret_lem scope.data_secret_name named;
                },
                rw (running, final, infra, named) refl,
              )
            ]
          ]
        ]
      ]
