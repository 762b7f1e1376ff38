-- ===== src/Machine/Liveness.antt =====
-- Progress: once the cloud shows the recorded instance ACTIVE, the next reconciliation makes the
-- machine ready.
use cluster_api_provider_ovh.Prelude.{
  ◌≡◌, refl, sym, ap, subst, ◌∙◌, ◌⊎◌, ◌≢◌, not, ◌&&◌, inl, inr, Bool, Bool-cases, true, false,
  Option, none, some, Text, is_empty, ◌==◌, Outcome, ok, err, Keeps, Keeps-if, Keeps-bind,
}
use cluster_api_provider_ovh.Errors.{is_not_found}
use cluster_api_provider_ovh.Cloud.{Instance, World, instance_status_active}
use cluster_api_provider_ovh.Client.Instances.{get_instance}
use cluster_api_provider_ovh.Names.ProviderId.{provider_id_from_instance}
use cluster_api_provider_ovh.Resources.{ObjectMeta, Kube, Result, no_requeue, machine_finalizer}
use cluster_api_provider_ovh.Machine.Refinement.{by_adoption-machine, by_name-machine}
use cluster_api_provider_ovh.Machine.Scope.{MachineScope, MachineState}
use cluster_api_provider_ovh.Machine.Existing.{handle_existing_instance}
use cluster_api_provider_ovh.Machine.Creation.{create_outcome}
use cluster_api_provider_ovh.Machine.Readiness.{handle-Reports, delay_of}
use cluster_api_provider_ovh.Machine.Gates.{MayProvision}
use cluster_api_provider_ovh.Machine.Normal.{
  recorded, by_recorded_id, by_adoption, by_name, handle_or_create, reconcile_instance,
  reconcile_normal, has_data_secret,
}

finalizer_kept :
    (has deleting : Bool) → (has ≡ true) ⊎ (deleting ≡ true) → (not has && not deleting) ≡ false
finalizer_kept true deleting h = refl
finalizer_kept false true h = refl
finalizer_kept false false (inl h) = cc
finalizer_kept false false (inr h) = cc

secret_named : (o : Option Text) → o ≢ none → has_data_secret o ≡ true
unfolding has_data_secret
secret_named none h = absurd (h refl)
secret_named (some name) h = refl

module _ {W : Type 0} (k : Kube W) (scope : MachineScope W) where
  abbrev meta_of : MachineState W → ObjectMeta
  meta_of s = s.machine.meta

  recorded-meta : (id : Text) (found : Outcome Instance) → Keeps meta_of (recorded k scope id found)
  unfolding recorded
  recorded-meta id (ok i) = record { at = λ s. refl }
  recorded-meta id (err e) =
      Keeps-if (is_not_found e) (record { at = λ s. refl }) (record { at = λ s. refl })

  by_recorded_id-meta : Keeps meta_of (by_recorded_id k scope)
  unfolding by_recorded_id
  by_recorded_id-meta = record {
    at = λ s. elim (Bool-cases (is_empty s.machine.status.instance_id)) [
      | inl empty ↦ rw empty
      | inr named ↦ rw named ((recorded-meta s.machine.status.instance_id _).at _)
    ];
  }

  by_adoption-meta : (found : Option Instance) → Keeps meta_of (by_adoption k scope found)
  by_adoption-meta found = record {
    at = λ s. ap (λ m. m.meta) (by_adoption-machine k scope found s);
  }

  by_name-meta : (found : Option Instance) → Keeps meta_of (by_name k scope found)
  by_name-meta found = record { at = λ s. ap (λ m. m.meta) (by_name-machine k scope found s) }

  handle_or_create-meta : (found : Option Instance) → Keeps meta_of (handle_or_create k scope found)
  unfolding handle_or_create
  handle_or_create-meta (some i) = record { at = λ s. (handle-Reports k scope i s).0.metadata }
  handle_or_create-meta none = record { at = λ s. ap (λ m. m.meta) (create_outcome k scope s).1 }

  reconcile_instance-meta : Keeps meta_of (reconcile_instance k scope)
  unfolding reconcile_instance
  reconcile_instance-meta =
      search
        (Keeps-bind, by_recorded_id-meta, by_adoption-meta, by_name-meta, handle_or_create-meta)

  -- Behind the gates nothing of the reconciliation but the gates is left.
  opened :
      (s : MachineState W)
      → MayProvision k scope s.machine
      → reconcile_normal k scope s ≡ reconcile_instance k scope s
  unfolding reconcile_normal
  opened s may =
      rw
        (
          may.running,
          finalizer_kept (k.contains_finalizer s.machine.meta.finalizers machine_finalizer)
              s.machine.meta.deleting may.finalized,
          may.infrastructure,
          secret_named scope.data_secret_name may.bootstrap,
        )
        refl

  found-active :
      (s : MachineState W) (i : Instance)
      → is_empty s.machine.status.instance_id ≡ false
      → (get_instance scope.ovh_client s.machine.status.instance_id s.world).0 ≡ ok i
      → (w : World W) × (reconcile_instance k scope s
          ≡ handle_existing_instance k scope i (record s { world = w }))
  unfolding reconcile_instance by_recorded_id recorded by_adoption by_name handle_or_create
  found-active s i named answered = (
    (get_instance scope.ovh_client s.machine.status.instance_id s.world).1,
    rw (named, answered) refl,
  )

  -- The object that the handling of an ACTIVE instance leaves.
  pub record IsUp (i : Instance) (r : Outcome Result) (s : MachineState W) : Type 0 where
    pub answer : r ≡ ok no_requeue
    pub ready : s.machine.status.ready ≡ true
    pub instance_id : s.machine.status.instance_id ≡ i.id
    pub provider_id :
        s.machine.spec.provider_id ≡ provider_id_from_instance scope.ovh_cluster.spec.region i.id

  handled-IsUp :
      (i : Instance) (s : MachineState W)
      → (i.status == instance_status_active) ≡ true
      → IsUp i (handle_existing_instance k scope i s).0 (handle_existing_instance k scope i s).1
  unfolding delay_of
  handled-IsUp i s up =
      let (reports, answer) = handle-Reports k scope i s in
      record {
        answer = rw up at answer;
        ready = reports.ready ∙ up;
        instance_id = reports.recorded;
        provider_id = rw up at reports.provider_id;
      }

  shown-IsUp :
      (s : MachineState W) (i : Instance)
      → MayProvision k scope s.machine
      → is_empty s.machine.status.instance_id ≡ false
      → (get_instance scope.ovh_client s.machine.status.instance_id s.world).0 ≡ ok i
      → (i.status == instance_status_active) ≡ true
      → IsUp i (reconcile_normal k scope s).0 (reconcile_normal k scope s).1
  shown-IsUp s i may named answered up =
      let (w, same) = found-active s i named answered in
      subst (λ x. IsUp i x.0 x.1) (sym (opened s may ∙ same))
        (handled-IsUp i (record s { world = w }) up)

  still-MayProvision :
      (s : MachineState W)
      → MayProvision k scope s.machine
      → MayProvision k scope (reconcile_normal k scope s).1.machine
  still-MayProvision s may =
      let same = ap (λ x. x.1.machine.meta) (opened s may) ∙ reconcile_instance-meta.at s in
      record {
        running = may.running;
        finalized =
            subst
              (λ m.
                (k.contains_finalizer m.finalizers machine_finalizer ≡ true) ⊎ (m.deleting ≡ true))
              (sym same) may.finalized;
        infrastructure = may.infrastructure;
        bootstrap = may.bootstrap;
      }

  -- Whatever the first reconciliation of a machine that passes the gates did, whether it created an
  -- instance, found one or failed behind that: if it leaves an instance recorded and the cloud then
  -- answers for that one with an ACTIVE instance, the next reconciliation succeeds, asks for no
  -- requeue and makes the machine ready, with that instance and its provider ID.
  pub becomes_ready :
      (s : MachineState W) (later : World W) (i : Instance)
      → MayProvision k scope s.machine
      → is_empty (reconcile_normal k scope s).1.machine.status.instance_id ≡ false
      → (get_instance scope.ovh_client
          (reconcile_normal k scope s).1.machine.status.instance_id
          later).0
        ≡ ok i
      → (i.status == instance_status_active) ≡ true
      → IsUp i
          (reconcile_normal k scope (record (reconcile_normal k scope s).1 { world = later })).0
          (reconcile_normal k scope (record (reconcile_normal k scope s).1 { world = later })).1
  becomes_ready s later i may named answered up =
      shown-IsUp (record (reconcile_normal k scope s).1 { world = later }) i
        (still-MayProvision s may) named answered up
