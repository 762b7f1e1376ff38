-- ===== src/Machine/Deletion.antt =====
-- When ReconcileDelete lets go of the object: the finalizer that it removes, or keeps.
use cluster_api_provider_ovh.Prelude.{
  ◌≡◌, refl, sym, ◌∙◌, ap, ◌⊎◌, inl, inr, true, false, List, [], ◌∷◌, Text, is_empty, Bool-cases,
  GoError, Outcome, ok, err, Outcome-cases, Exec, continue, ◌>>◌, if◌then◌else◌, arith,
}
use cluster_api_provider_ovh.Cloud.{World}
use cluster_api_provider_ovh.Client.Instances.{get_instance, delete_instance}
use cluster_api_provider_ovh.Resources.{
  OvhMachine, Result, no_requeue, requeue, Kube, machine_finalizer,
}
use cluster_api_provider_ovh.Machine.Scope.{MachineScope, MachineState, requeue_delay}
use cluster_api_provider_ovh.Machine.Members.{remove_lb_pool_member}
use cluster_api_provider_ovh.Machine.Delete.{
  keeps_instance, still_there, detach, delete_volumes, remove_finalizer, finish, delete_recorded,
  reconcile_delete,
}

-- The object without its pool member.
abbrev pub but_pool_member : OvhMachine → OvhMachine
but_pool_member m = record m { status = record m.status { lb_pool_member_id = [] } }

module _ {W : Type 0} (k : Kube W) (scope : MachineScope W) where
  -- The object with the finalizer removed.
  abbrev pub released : OvhMachine → OvhMachine
  released m = record m {
    meta = record m.meta { finalizers = k.remove_finalizer machine_finalizer m.meta.finalizers };
  }

  -- In that world the instance was deleted, and the lookup behind the deletion does not show it.
  pub record Confirmed (id : Text) (world : World W) : Type 0 where
    pub deleted : (delete_instance scope.ovh_client id world).0 ≡ ok tt
    pub gone :
        still_there
          (get_instance scope.ovh_client id (delete_instance scope.ovh_client id world).1).0
        ≡ false

  -- Nothing is left that the object should hold on to.
  abbrev pub MayRelease : OvhMachine → World W → Type 0
  MayRelease m w =
      (keeps_instance m ≡ true)
      ⊎ ((is_empty m.status.instance_id ≡ true) ⊎ Confirmed m.status.instance_id w)

  abbrev pub Released : OvhMachine → World W → Outcome Result × MachineState W → Type 0
  Released m w (r, s') =
      MayRelease m w
      × (r ≡ ok no_requeue)
      × (but_pool_member s'.machine ≡ but_pool_member (released m))

  abbrev pub Held : OvhMachine → Outcome Result × MachineState W → Type 0
  Held m (r, s') =
      ((r ≡ ok (requeue requeue_delay)) ⊎ ((e : GoError) × (r ≡ err e)))
      × (but_pool_member s'.machine ≡ but_pool_member m)

  -- A step of the deletion that cannot fail and keeps all but the pool member.
  abbrev Passes : Exec (MachineState W) (Unit {0}) → Type 0
  Passes m =
      (s : MachineState W)
      → (s' : MachineState W) × (m s ≡ (ok tt, s'))
        × (but_pool_member s'.machine ≡ but_pool_member s.machine)

  Passes-then : {m n : Exec (MachineState W) (Unit {0})} → Passes m → Passes n → Passes (m >> n)
  Passes-then h g s =
      let (s1, done1, same1) = h s in
      let (s2, done2, same2) = g s1 in (s2, rw done1 done2, same2 ∙ same1)

  detach-Passes : (volume_id instance_id : Text) → Passes (detach k scope volume_id instance_id)
  unfolding detach
  detach-Passes volume_id [] s = (s, refl, refl)
  detach-Passes volume_id (c ∷ cs) s = (_, refl, refl)

  delete_volumes-Passes :
      (instance_id : Text) (volume_ids : List Text)
      → Passes (delete_volumes k scope instance_id volume_ids)
  unfolding delete_volumes
  delete_volumes-Passes instance_id [] = λ s. (s, refl, refl)
  delete_volumes-Passes instance_id (volume_id ∷ volume_ids) =
      Passes-then (Passes-then (detach-Passes volume_id instance_id) (λ s. (_, refl, refl)))
        (delete_volumes-Passes instance_id volume_ids)

  remove_lb_pool_member-Passes : Passes (remove_lb_pool_member scope)
  unfolding remove_lb_pool_member
  remove_lb_pool_member-Passes s = ((remove_lb_pool_member scope s).1, ground arith, ground arith)

  delete_recorded_outcome :
      (s : MachineState W) (id : Text)
      → (Confirmed id s.world
          × (delete_recorded k scope id s).0 ≡ ok no_requeue
          × ((delete_recorded k scope id s).1.machine ≡ released s.machine))
        ⊎ Held s.machine (delete_recorded k scope id s)
  unfolding delete_recorded finish remove_finalizer
  delete_recorded_outcome s id =
      let gone = delete_instance scope.ovh_client id s.world in
      elim (Outcome-cases gone.0) [
        | inr (e, failed) ↦ rw failed (inr (inr (_, refl), refl))
        | inl (tt, deleted) ↦
            elim (Bool-cases (still_there (get_instance scope.ovh_client id gone.1).0)) [
              | inl left ↦ rw (deleted, left) (inr (inl refl, refl))
              | inr absent ↦
                  rw (deleted, absent)
                    (inl (record { deleted = deleted; gone = absent }, refl, refl))
            ]
      ]

  go_on :
      (m n : Exec (MachineState W) (Unit {0})) (rest : Exec (MachineState W) Result)
      → Passes m
      → Passes n
      → (s : MachineState W)
      → ((m >> n >> rest) s ≡ rest ((m >> n) s).1)
        × (but_pool_member ((m >> n) s).1.machine ≡ but_pool_member s.machine)
  go_on m n rest h g s =
      let (s', done, same) = Passes-then h g s in
      (
        ap (λ x. continue x.0 (λ _. rest) x.1) done ∙ ap (λ x. rest x.1) (sym done),
        ap (λ x. but_pool_member x.1.machine) done ∙ same,
      )

  -- The part of ReconcileDelete behind the volumes and the pool member, in whatever world it runs.
  ending : (m : OvhMachine) → Exec (MachineState W) Result
  ending m =
      if is_empty m.status.instance_id
      then finish k scope
      else delete_recorded k scope m.status.instance_id

  ending_outcome :
      (m : OvhMachine) (s : MachineState W)
      → but_pool_member s.machine ≡ but_pool_member m
      → Released m s.world (ending m s) ⊎ Held m (ending m s)
  unfolding ending finish remove_finalizer
  ending_outcome m s same = elim (Bool-cases (is_empty m.status.instance_id)) [
    | inl unset ↦ rw unset (inl (inr (inl refl), refl, ap (λ x. released x) same))
    | inr set ↦ elim (delete_recorded_outcome s m.status.instance_id) [
      | inl (confirmed, answer, machine) ↦ rw set (
          inl (inr (inr confirmed), answer, ap but_pool_member machine ∙ ap (λ x. released x) same))
      | inr (answer, machine) ↦ rw set (inr (answer, machine ∙ same))
    ]
  ]

  delete_kept :
      (s : MachineState W)
      → keeps_instance s.machine ≡ true
      → reconcile_delete k scope s ≡ finish k scope s
  unfolding reconcile_delete
  delete_kept s keeps = rw keeps refl

  -- The state behind the volumes and the pool member, in which the instance is looked at.
  abbrev pub detached : MachineState W → MachineState W
  detached s =
      ((delete_volumes k scope s.machine.status.instance_id s.machine.status.volume_ids
          >> remove_lb_pool_member scope)
        s).1

  delete_continues :
      (s : MachineState W)
      → keeps_instance s.machine ≡ false
      → (reconcile_delete k scope s ≡ ending s.machine (detached s))
        × (but_pool_member (detached s).machine ≡ but_pool_member s.machine)
  unfolding reconcile_delete ending
  delete_continues s deletes =
      let m = s.machine in
      let (same, kept) =
        go_on (delete_volumes k scope m.status.instance_id m.status.volume_ids)
          (remove_lb_pool_member scope) (ending m)
          (delete_volumes-Passes m.status.instance_id m.status.volume_ids)
          remove_lb_pool_member-Passes s in
      (rw deletes same, kept)

  -- ReconcileDelete removes the finalizer only if the object says that its instance is kept, or
  -- records no instance, or the instance was deleted and a lookup behind that does not show it;
  -- otherwise it fails or asks for a requeue in 10 seconds. Either way it changes nothing else of
  -- the object but the ID of its pool member.
  pub delete_outcome :
      (s : MachineState W)
      → Released s.machine (detached s).world (reconcile_delete k scope s)
        ⊎ Held s.machine (reconcile_delete k scope s)
  unfolding finish remove_finalizer
  delete_outcome s = elim (Bool-cases (keeps_instance s.machine)) [
    | inl keeps ↦ rw (delete_kept s keeps) (inl (inl keeps, refl, refl))
    | inr deletes ↦
        let (same, kept) = delete_continues s deletes in
        rw same (ending_outcome s.machine (detached s) kept)
  ]
