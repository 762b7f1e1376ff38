-- ===== src/Machine/Refinement.antt =====
-- A reconciliation refines the machine's life: it is one turn of it.
use cluster_api_provider_ovh.Prelude.{
  not, ◌&&◌, ◌>>◌, pure, ◌≡◌, refl, sym, ap, subst, ◌∙◌, inl, inr, Bool, Bool-cases, false, true,
  true, Option, none, some, [], Text, codes, is_empty, ◌==◌, ◌++◌, Exec, Outcome, Outcome-cases, ok,
  or_wrap, bind-lift, is_empty-eq, ◌>>=◌, if◌then◌else◌,
}
use cluster_api_provider_ovh.Errors.{is_not_found}
use cluster_api_provider_ovh.Cloud.{Instance, World, instance_status_active}
use cluster_api_provider_ovh.Client.Instances.{get_instance, find_instance_by_name}
use cluster_api_provider_ovh.Names.ProviderId.{provider_id_from_instance}
use cluster_api_provider_ovh.Resources.{no_requeue, requeue, machine_finalizer, Kube, Result}
use cluster_api_provider_ovh.Machine.Scope.{requeue_delay, MachineScope, MachineState, on_world}
use cluster_api_provider_ovh.Machine.Existing.{handle_existing_instance}
use cluster_api_provider_ovh.Machine.Create.{instance_name, create_instance}
use cluster_api_provider_ovh.Machine.Creation.{create_outcome}
use cluster_api_provider_ovh.Machine.Readiness.{handle-Reports}
use cluster_api_provider_ovh.Machine.Gates.{waiting}
use cluster_api_provider_ovh.Machine.Normal.{
  not_provisioned, add_finalizer, has_data_secret, recorded, by_recorded_id, by_adoption, by_name,
  handle_or_create, reconcile_instance, reconcile_normal,
}
use cluster_api_provider_ovh.Machine.Lifecycle.{
  Phase, phase_of, reported_of, Vacant, unrecorded, gone, Found, by_id, adopted, named, Turn, same,
  unready, forgotten, reported, created,
}

abbrev phase : Text → Bool → Text → Phase
phase id ready provider_id = record { instance_id = id; ready = ready; provider_id = provider_id }

-- Phases with equal fields are equal.
phase-eq : {a b c d : Text} {p q : Bool} → a ≡ b → p ≡ q → c ≡ d → phase a p c ≡ phase b q d
phase-eq x y z = cc

module _ {W : Type 0} (k : Kube W) (scope : MachineScope W) where
  pub by_adoption-machine :
      (found : Option Instance) (s : MachineState W)
      → (by_adoption k scope found s).1.machine ≡ s.machine
  unfolding by_adoption
  by_adoption-machine (some i) s = refl
  by_adoption-machine none s = elim (Bool-cases (is_empty s.machine.spec.existing_instance_id)) [
    | inl empty ↦ rw empty
    | inr set ↦ rw set (
        ap (λ (t : MachineState W). t.machine)
          (bind-lift
            (or_wrap (codes "adopting instance " ++ s.machine.spec.existing_instance_id)
              (on_world (get_instance scope.ovh_client s.machine.spec.existing_instance_id)))
            (λ i. ok (some i)) s))
  ]

  pub by_name-machine :
      (found : Option Instance) (s : MachineState W)
      → (by_name k scope found s).1.machine ≡ s.machine
  unfolding by_name
  by_name-machine none s = refl
  by_name-machine (some i) s = refl

  -- The turn that a reconciliation makes is that of what it comes down to.
  comes_to :
      (s : MachineState W) (x y : Outcome Result × MachineState W)
      → x ≡ y
      → Turn scope k s (phase_of y.1.machine)
      → Turn scope k s (phase_of x.1.machine)
  comes_to s x y e turn = subst (λ r. Turn scope k s (phase_of r.1.machine)) (sym e) turn

  held_cases :
      (has deleting : Bool) → (not has && not deleting) ≡ true → (has ≡ false) × (deleting ≡ false)
  held_cases false false h = (refl, refl)
  held_cases false true h = cc
  held_cases true deleting h = cc

  -- The phase behind the handling of an instance, whatever was recorded before it.
  handle-phase :
      (i : Instance) (t : MachineState W) (p : Phase)
      → t.machine.spec.provider_id ≡ p.provider_id
      → phase_of (handle_existing_instance k scope i t).1.machine
        ≡ reported_of scope.ovh_cluster.spec.region i p
  handle-phase i t p before =
      let r = (handle-Reports k scope i t).0 in
      phase-eq r.recorded r.ready (
        r.provider_id
        ∙ ap
            (λ (v : Text).
              if i.status == instance_status_active
              then provider_id_from_instance scope.ovh_cluster.spec.region i.id
              else v)
            before)

  Found-Turn :
      (s : MachineState W) (i : Instance) (t : MachineState W)
      → Found scope s i
      → t.machine.spec.provider_id ≡ s.machine.spec.provider_id
      → Turn scope k s (phase_of (handle_existing_instance k scope i t).1.machine)
  Found-Turn s i t found before =
      subst (Turn scope k s) (sym (handle-phase i t (phase_of s.machine) before)) (reported i found)

  -- The state in which none is recorded, with this world.
  abbrev vacated : MachineState W → World W → MachineState W
  vacated s w = record {
    machine = record s.machine { status = record s.machine.status { instance_id = [] } };
    world = w;
  }

  abbrev behind_adoption : Option Instance → Exec (MachineState W) Result
  behind_adoption found = by_name k scope found >>= handle_or_create k scope

  create-Turn :
      (s : MachineState W) (w : World W)
      → Vacant scope s w
      → is_empty s.machine.spec.existing_instance_id ≡ true
      → (find_instance_by_name scope.ovh_client (instance_name scope s.machine.meta.name) w).0
        ≡ ok none
      → Turn scope k s (
          phase_of
            (create_instance k scope (
              vacated s
                (find_instance_by_name scope.ovh_client
                  (instance_name scope s.machine.meta.name)
                  w).1)).1.machine)
  create-Turn s w vacant unset none_named =
      let t =
        vacated s
          (find_instance_by_name scope.ovh_client (instance_name scope s.machine.meta.name) w).1 in
      let (outcome, frame) = create_outcome k scope t in
      let ready = ap (λ m. m.status.ready) frame in
      let provider_id = ap (λ m. m.spec.provider_id) frame in
      elim outcome [
        | inl (i, opts, later, gathered, answered, _, id) ↦
            subst (Turn scope k s) (sym (phase-eq id ready provider_id)) (
              created i (record {
                start = w;
                vacant = vacant;
                none_to_adopt = unset;
                none_named = none_named;
                opts = opts;
                later = later;
                gathered = gathered;
                answered = answered;
              }))
        | inr (e, _, id) ↦
            subst (Turn scope k s) (sym (phase-eq id ready provider_id)) (forgotten w vacant)
      ]

  by_name-Turn :
      (s : MachineState W) (w : World W)
      → Vacant scope s w
      → is_empty s.machine.spec.existing_instance_id ≡ true
      → Turn scope k s (phase_of (behind_adoption none (vacated s w)).1.machine)
  unfolding by_name handle_or_create
  by_name-Turn s w vacant unset =
      elim (Outcome-cases
        (find_instance_by_name scope.ovh_client (instance_name scope s.machine.meta.name) w).0) [
          | inr (e, failed) ↦ rw failed (forgotten w vacant)
          | inl (none, missing) ↦ rw missing (create-Turn s w vacant unset missing)
          | inl (some i, shown) ↦ rw shown (Found-Turn s i _ (named w vacant unset shown) refl)
        ]

  adoption-Turn :
      (s : MachineState W) (w : World W)
      → Vacant scope s w
      → Turn scope k s
          (phase_of ((by_adoption k scope none >>= behind_adoption) (vacated s w)).1.machine)
  unfolding by_adoption by_name handle_or_create
  adoption-Turn s w vacant = elim (Bool-cases (is_empty s.machine.spec.existing_instance_id)) [
    | inl unset ↦ rw unset (by_name-Turn s w vacant unset)
    | inr set ↦
        elim (Outcome-cases
          (get_instance scope.ovh_client s.machine.spec.existing_instance_id w).0) [
            | inl (i, shown) ↦ rw (set, shown) (Found-Turn s i _ (adopted w vacant set shown) refl)
            | inr (e, failed) ↦ rw (set, failed) (forgotten w vacant)
          ]
  ]

  reconcile_instance-Turn :
      (s : MachineState W) → Turn scope k s (phase_of (reconcile_instance k scope s).1.machine)
  unfolding reconcile_instance by_recorded_id recorded by_adoption by_name handle_or_create
  reconcile_instance-Turn s = elim (Bool-cases (is_empty s.machine.status.instance_id)) [
    | inl empty ↦
        let same_state : vacated s s.world ≡ s =
          ap
            (λ (id : Text). record s {
              machine = record s.machine { status = record s.machine.status { instance_id = id } };
            })
            (sym (is_empty-eq s.machine.status.instance_id empty)) in
        rw empty (
          subst
            (λ (t : MachineState W).
              Turn scope k s
                (phase_of ((by_adoption k scope none >>= behind_adoption) t).1.machine))
            same_state (adoption-Turn s s.world (unrecorded empty)))
    | inr set ↦
        let looked = get_instance scope.ovh_client s.machine.status.instance_id s.world in
        elim (Outcome-cases looked.0) [
          | inl (i, shown) ↦ rw (set, shown) (Found-Turn s i _ (by_id set shown) refl)
          | inr (e, failed) ↦ elim (Bool-cases (is_not_found e)) [
            | inl missing ↦
                rw (set, failed, missing) (adoption-Turn s looked.1 (gone e set failed missing))
            | inr other ↦ rw (set, failed, other) same
          ]
        ]
  ]

  -- ReconcileNormal is one turn of the machine's life, whatever the API answers and whether it fails
  -- or not. What the object records, whether it is ready and its provider ID stay as they were; or
  -- the readiness is cleared, if the machine or its cluster is paused or the object does not carry the
  -- finalizer yet and is not being deleted; or they are those of an instance that the cloud showed to
  -- this reconciliation, the recorded one, else the one to adopt, else the one of the machine's name,
  -- which is ready exactly if it is ACTIVE and then gives the provider ID; or the instance is one that
  -- the cloud created for this reconciliation, where it showed none of the three; or the recorded
  -- instance is forgotten, where none is recorded or the cloud said that it is not found.
  pub reconcile_normal-refines :
      (s : MachineState W) → Turn scope k s (phase_of (reconcile_normal k scope s).1.machine)
  unfolding reconcile_normal not_provisioned add_finalizer
  reconcile_normal-refines s =
      let has = k.contains_finalizer s.machine.meta.finalizers machine_finalizer in
      elim (Bool-cases scope.paused) [
        | inl paused ↦
            comes_to s (reconcile_normal k scope s) ((not_provisioned k scope >> pure no_requeue) s)
              (rw paused refl) (unready (inl paused))
        | inr running ↦ elim (Bool-cases (not has && not s.machine.meta.deleting)) [
          | inl bare ↦
              comes_to s (reconcile_normal k scope s)
                ((add_finalizer k scope >> not_provisioned k scope >> pure no_requeue) s)
                (rw (running, bare) refl)
                (unready (inr (held_cases has s.machine.meta.deleting bare)))
          | inr final ↦ elim (Bool-cases scope.infrastructure_provisioned) [
            | inr waits ↦
                comes_to s (reconcile_normal k scope s)
                  (ok (requeue requeue_delay), waiting k scope s) (rw (running, final, waits) refl)
                  same
            | inl infra ↦ elim (Bool-cases (has_data_secret scope.data_secret_name)) [
              | inr unnamed ↦
                  comes_to s (reconcile_normal k scope s) (ok (requeue requeue_delay), s)
                    (rw (running, final, infra, unnamed) refl) same
              | inl present ↦
                  comes_to s (reconcile_normal k scope s) (reconcile_instance k scope s)
                    (rw (running, final, infra, present) refl) (reconcile_instance-Turn s)
            ]
          ]
        ]
      ]
