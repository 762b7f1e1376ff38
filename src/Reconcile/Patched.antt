-- ===== src/Reconcile/Patched.antt =====
-- What Reconcile of the OVHMachine controller hands to the API server.
use cluster_api_provider_ovh.Prelude.{
  ◌≡◌, refl, sym, ap, ◌∙◌, subst, ◌⊎◌, inl, inr, Bool, true, false, Bool-cases, none, some, ◌∷◌,
  Text, GoError, Outcome, Outcome-cases, ok, err, if◌then◌else◌,
}
use cluster_api_provider_ovh.Cloud.{World}
use cluster_api_provider_ovh.Client.Retry.{Client}
use cluster_api_provider_ovh.Resources.{OvhMachine, OvhCluster, Result}
use cluster_api_provider_ovh.Machine.Scope.{MachineState}
use cluster_api_provider_ovh.NodeInit.{outside}
use cluster_api_provider_ovh.Machine.Normal.{reconcile_normal}
use cluster_api_provider_ovh.Machine.Delete.{reconcile_delete}
use cluster_api_provider_ovh.Machine.Lifecycle.{phase_of, Turn}
use cluster_api_provider_ovh.Machine.Refinement.{reconcile_normal-refines}
use cluster_api_provider_ovh.Machine.Runs.{delete-phase}
use cluster_api_provider_ovh.Reconcile.Server.{Manager, OwnerMachine, OwnerCluster}
use cluster_api_provider_ovh.Reconcile.Clients.{get_ovh_client_from_cluster}
use cluster_api_provider_ovh.Reconcile.Deferred.{Session, with_patch}
use cluster_api_provider_ovh.Reconcile.Machines.{
  machine_scope, dispatch, with_machine_client, in_owner_cluster, with_owner_machine,
  reconcile_owned, owned_machine, fetched_machine, reconcile_machine,
}

chosen :
    {A : Type 0} (b : Bool) (x y : A)
    → ((b ≡ true) × ((if b then x else y) ≡ x)) ⊎ ((b ≡ false) × ((if b then x else y) ≡ y))
chosen true x y = inl (refl, refl)
chosen false x y = inr (refl, refl)

module _ {W : Type 0} (m : Manager W) (s : MachineState W) where
  -- The worlds behind the lookups that come before the work on the machine.
  abbrev pub after_owner : World W
  after_owner = (outside (m.owner_machine s.machine.meta) s.world).1

  abbrev pub after_cluster : OwnerMachine → World W
  after_cluster owner = (outside (m.cluster_of_machine owner) after_owner).1

  abbrev pub after_infrastructure : OwnerMachine → OwnerCluster → World W
  after_infrastructure owner cluster =
      (outside (m.get_cluster cluster.namespace cluster.infrastructure_ref.name)
        (after_cluster owner)).1

  -- The state in which the machine is worked on, and the scope of that.
  abbrev pub prepared_state : OwnerMachine → OwnerCluster → OvhCluster → MachineState W
  prepared_state owner cluster ovh_cluster = record s {
    world = (get_ovh_client_from_cluster m ovh_cluster (after_infrastructure owner cluster)).1;
  }

  -- The lookups answered with these two owners, this OVHCluster and this client, and the machine is
  -- what ReconcileDelete of a machine that is being deleted, or else ReconcileNormal, leaves of it
  -- in the scope of these answers.
  pub record IsReconciled (after : OvhMachine) : Type 0 where
    pub owner : OwnerMachine
    pub cluster : OwnerCluster
    pub ovh_cluster : OvhCluster
    pub client : Client W
    pub owned : (outside (m.owner_machine s.machine.meta) s.world).0 ≡ ok (some owner)
    pub in_cluster : (outside (m.cluster_of_machine owner) after_owner).0 ≡ ok (some cluster)
    pub on_infrastructure :
        (outside
          (m.get_cluster cluster.namespace cluster.infrastructure_ref.name)
          (after_cluster owner)).0
        ≡ ok ovh_cluster
    pub with_client :
        (get_ovh_client_from_cluster m ovh_cluster (after_infrastructure owner cluster)).0
        ≡ ok client
    pub worked_on :
        ((s.machine.meta.deleting ≡ true)
          × (after
              ≡ (reconcile_delete m.kube
                  (machine_scope m owner cluster ovh_cluster client s.machine)
                  (prepared_state owner cluster ovh_cluster)).1.machine)
          × (phase_of after ≡ phase_of s.machine))
        ⊎ ((s.machine.meta.deleting ≡ false)
            × (after
                ≡ (reconcile_normal m.kube
                    (machine_scope m owner cluster ovh_cluster client s.machine)
                    (prepared_state owner cluster ovh_cluster)).1.machine)
            × Turn
                (machine_scope m owner cluster ovh_cluster client s.machine)
                m.kube
                (prepared_state owner cluster ovh_cluster)
                (phase_of after))

  -- The machine is as it was fetched, or was reconciled.
  abbrev pub IsOutcome : OvhMachine → Type 0
  IsOutcome after = (after ≡ s.machine) ⊎ IsReconciled after

module _ {W : Type 0} (m : Manager W) where
  dispatch-IsReconciled :
      (s : MachineState W) (owner : OwnerMachine) (cluster : OwnerCluster)
      (ovh_cluster : OvhCluster) (client : Client W)
      → (outside (m.owner_machine s.machine.meta) s.world).0 ≡ ok (some owner)
      → (outside (m.cluster_of_machine owner) (after_owner m s)).0 ≡ ok (some cluster)
      → (outside
          (m.get_cluster cluster.namespace cluster.infrastructure_ref.name)
          (after_cluster m s owner)).0
        ≡ ok ovh_cluster
      → (get_ovh_client_from_cluster m ovh_cluster (after_infrastructure m s owner cluster)).0
        ≡ ok client
      → IsReconciled m s
          (dispatch m
            (machine_scope m owner cluster ovh_cluster client s.machine)
            (prepared_state m s owner cluster ovh_cluster)).1.machine
  unfolding dispatch
  dispatch-IsReconciled s owner cluster ovh_cluster client e1 e2 e3 e4 =
      let scope = machine_scope m owner cluster ovh_cluster client s.machine in
      let t = prepared_state m s owner cluster ovh_cluster in
      record {
        owner = owner;
        cluster = cluster;
        ovh_cluster = ovh_cluster;
        client = client;
        owned = e1;
        in_cluster = e2;
        on_infrastructure = e3;
        with_client = e4;
        worked_on =
            elim (chosen s.machine.meta.deleting (reconcile_delete m.kube scope t)
              (reconcile_normal m.kube scope t)) [
                | inl (going, e) ↦ inl (
                  going,
                  ap (λ (r : Outcome Result × MachineState W). r.1.machine) e,
                  ap (λ (r : Outcome Result × MachineState W). phase_of r.1.machine) e
                      ∙ delete-phase m.kube scope t,
                )
                | inr (staying, e) ↦ inr (
                  staying,
                  ap (λ (r : Outcome Result × MachineState W). r.1.machine) e,
                  subst
                      (λ (r : Outcome Result × MachineState W).
                        Turn scope m.kube t (phase_of r.1.machine))
                      (sym e) (reconcile_normal-refines m.kube scope t),
                )
              ];
      }

  reconcile_owned-IsOutcome : (s : MachineState W) → IsOutcome m s (reconcile_owned m s).1.machine
  unfolding reconcile_owned with_owner_machine in_owner_cluster with_machine_client
  reconcile_owned-IsOutcome s =
      elim (Outcome-cases (outside (m.owner_machine s.machine.meta) s.world).0) [
        | inr (e, failed) ↦ rw failed (inl refl)
        | inl (none, e1) ↦ rw e1 (inl refl)
        | inl (some owner, e1) ↦
            elim (Outcome-cases (outside (m.cluster_of_machine owner) (after_owner m s)).0) [
              | inr (e, failed) ↦ rw (e1, failed) (inl refl)
              | inl (none, e2) ↦ rw (e1, e2) (inl refl)
              | inl (some cluster, e2) ↦
                  elim (Outcome-cases
                    (outside (m.get_cluster cluster.namespace cluster.infrastructure_ref.name)
                      (after_cluster m s owner)).0) [
                        | inr (e, failed) ↦ rw (e1, e2, failed) (inl refl)
                        | inl (ovh_cluster, e3) ↦
                            elim (Outcome-cases
                              (get_ovh_client_from_cluster m ovh_cluster
                                (after_infrastructure m s owner cluster)).0) [
                                  | inr (e, failed) ↦ rw (e1, e2, e3, failed) (inl refl)
                                  | inl (client, e4) ↦
                                      rw (e1, e2, e3, e4)
                                        (inr (
                                          dispatch-IsReconciled s owner cluster ovh_cluster client
                                            e1 e2 e3 e4))
                                ]
                      ]
            ]
      ]

  -- Nothing was written, since the object could not be fetched, or no helper made for the object
  -- that was.
  abbrev pub Unwritten : Text → Text → Session W OvhMachine → Session W OvhMachine → Type 0
  Unwritten namespace name s after =
      (after.patched ≡ s.patched)
      × (((e : GoError) × ((m.get_machine namespace name s.world.cloud).0 ≡ err e))
          ⊎ ((machine : OvhMachine) × (e : GoError) × ((m.get_machine namespace name
                  s.world.cloud).0
                ≡ ok machine)
              × (m.machine_helper machine ≡ err e)))

  -- The state that a reconciliation starts in behind the fetch of the object.
  abbrev pub fetched_state : Text → Text → Session W OvhMachine → OvhMachine → MachineState W
  fetched_state namespace name s machine = record {
    machine = machine;
    world = (outside (m.get_machine namespace name) s.world).1;
  }

  -- The fetched object was written once, as its reconciliation left it.
  abbrev pub Written : Text → Text → Session W OvhMachine → Session W OvhMachine → Type 0
  Written namespace name s after =
      (machine : OvhMachine) × (written : OvhMachine) × ((m.get_machine namespace name
          s.world.cloud).0
        ≡ ok machine)
      × (after.patched ≡ written ∷ s.patched)
      × IsOutcome m (fetched_state namespace name s machine) written

  -- Once Reconcile of a machine has fetched the object and made the patch helper, it hands the object
  -- to the API server exactly once, whatever fails behind that: as it was fetched, or, where the
  -- lookups of its owners, of the OVHCluster and of the client all answer, as ReconcileDelete or
  -- ReconcileNormal leaves it in the scope of these answers. ReconcileDelete, for an object that is
  -- being deleted, leaves the recorded instance, the readiness and the provider ID; ReconcileNormal,
  -- for any other, makes one turn of the machine's life. Where the object cannot be fetched, or no
  -- helper be made for it, nothing is written.
  pub reconcile_machine_writes :
      (namespace name : Text) (s : Session W OvhMachine)
      → Unwritten namespace name s (reconcile_machine m namespace name s).1
        ⊎ Written namespace name s (reconcile_machine m namespace name s).1
  unfolding reconcile_machine fetched_machine with_patch owned_machine
  reconcile_machine_writes namespace name s =
      elim (Outcome-cases (m.get_machine namespace name s.world.cloud).0) [
        | inr (e, failed) ↦ elim (Bool-cases (m.kube.is_missing e)) [
          | inl missing ↦ rw (failed, missing) (inl (refl, inl (e, refl)))
          | inr other ↦ rw (failed, other) (inl (refl, inl (e, refl)))
        ]
        | inl (machine, fetched) ↦ elim (Outcome-cases (m.machine_helper machine)) [
          | inr (e, refused) ↦ rw (fetched, refused) (inl (refl, inr (machine, e, refl, refused)))
          | inl (u, made) ↦
              rw (fetched, made)
                (inr (
                  machine,
                  _,
                  refl,
                  refl,
                  reconcile_owned-IsOutcome (fetched_state namespace name s machine),
                ))
        ]
      ]
