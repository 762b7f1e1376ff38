-- ===== src/Machine/Runs.antt =====
-- Repeated reconciliations of one machine: whichever of them run, in which order, and whatever
-- happens to the cloud, the clusters and the rest of the object in between.
use cluster_api_provider_ovh.Prelude.{
  ◌≡◌, refl, sym, ap, subst, ◌⊎◌, inl, inr, Bool-cases, true, false, [], Text, ◌==◌,
}
use cluster_api_provider_ovh.Cloud.{Instance, instance_status_active}
use cluster_api_provider_ovh.Names.ProviderId.{provider_id_from_instance}
use cluster_api_provider_ovh.Resources.{Kube}
use cluster_api_provider_ovh.Machine.Scope.{MachineScope, MachineState}
use cluster_api_provider_ovh.Machine.Normal.{reconcile_normal}
use cluster_api_provider_ovh.Machine.Delete.{reconcile_delete}
use cluster_api_provider_ovh.Machine.Deletion.{delete_outcome}
use cluster_api_provider_ovh.Machine.Lifecycle.{
  Phase, phase_of, Found, Turn, same, unready, forgotten, reported, created,
}
use cluster_api_provider_ovh.Machine.Refinement.{reconcile_normal-refines}

module _ {W : Type 0} (k : Kube W) (region : Text) (s : MachineState W) where
  -- The states that a machine comes to from `s`. Others may change all but the recorded instance,
  -- the readiness and the provider ID; each reconciliation has a scope of its own.
  pub data Run : MachineState W → Type 0 where
    start : Run s
    normal :
        {t : MachineState W}
        → Run t
        → (scope : MachineScope W) → scope.ovh_cluster.spec.region ≡ region
        → Run (reconcile_normal k scope t).1
    delete :
        {t : MachineState W} → Run t → (scope : MachineScope W) → Run (reconcile_delete k scope t).1
    others :
        {t : MachineState W}
        → Run t
        → (u : MachineState W) → phase_of u.machine ≡ phase_of t.machine
        → Run u

  -- A reconciliation of the run was shown this instance, ACTIVE, as the machine's.
  abbrev pub WasActive : {t : MachineState W} → Run t → Instance → Type 0
  WasActive start i = ⊥
  WasActive (normal {t} before scope there) i =
      (Found scope t i × ((i.status == instance_status_active) ≡ true)) ⊎ WasActive before i
  WasActive (delete before scope) i = WasActive before i
  WasActive (others before u unchanged) i = WasActive before i

  -- A machine that was never ready and has no provider ID, or one with the provider ID that the
  -- region and an instance give which the run was shown ACTIVE.
  abbrev pub Identified : {t : MachineState W} → Run t → Phase → Type 0
  Identified run p =
      ((p.ready ≡ false) × (p.provider_id ≡ []))
      ⊎ ((i : Instance) × WasActive run i × (p.provider_id ≡ provider_id_from_instance region i.id))

  Turn-Identified :
      (scope : MachineScope W) (t : MachineState W) (p : Phase) (run : Run t)
      (there : scope.ovh_cluster.spec.region ≡ region)
      → Turn scope k t p
      → Identified run (phase_of t.machine)
      → Identified (normal run scope there) p
  Turn-Identified scope t p run there same (inl h) = inl h
  Turn-Identified scope t p run there same (inr (i, shown, v)) = inr (i, inr shown, v)
  Turn-Identified scope t p run there (unready held) (inl (r, v)) = inl (refl, v)
  Turn-Identified scope t p run there (unready held) (inr (i, shown, v)) = inr (i, inr shown, v)
  Turn-Identified scope t p run there (forgotten w vacant) (inl h) = inl h
  Turn-Identified scope t p run there (forgotten w vacant) (inr (i, shown, v)) =
      inr (i, inr shown, v)
  Turn-Identified scope t p run there (created i made) (inl h) = inl h
  Turn-Identified scope t p run there (created i made) (inr (j, shown, v)) = inr (j, inr shown, v)
  Turn-Identified scope t p run there (reported i found) h =
      elim (Bool-cases (i.status == instance_status_active)) [
        | inl up ↦
            rw up
              (inr (i, inl (found, up), ap (λ (r : Text). provider_id_from_instance r i.id) there))
        | inr down ↦ elim h [
          | inl (r, v) ↦ rw down (inl (refl, v))
          | inr (j, shown, v) ↦ rw down (inr (j, inr shown, v))
        ]
      ]

module _ {W : Type 0} (k : Kube W) where
  pub delete-phase :
      (scope : MachineScope W) (t : MachineState W)
      → phase_of (reconcile_delete k scope t).1.machine ≡ phase_of t.machine
  delete-phase scope t = elim (delete_outcome k scope t) [
    | inl (may, answer, same_rest) ↦ ap phase_of same_rest
    | inr (answer, same_rest) ↦ ap phase_of same_rest
  ]

  reached-Identified :
      (region : Text) (s t : MachineState W) (run : Run k region s t)
      → Identified k region s start (phase_of s.machine)
      → Identified k region s run (phase_of t.machine)
  reached-Identified region s t start h = h
  reached-Identified region s _ (normal {t} before scope there) h =
      Turn-Identified k region s scope t _ before there (reconcile_normal-refines k scope t)
        (reached-Identified region s t before h)
  reached-Identified region s _ (delete {t} before scope) h =
      subst (Identified k region s (delete before scope)) (sym (delete-phase scope t))
        (reached-Identified region s t before h)
  reached-Identified region s _ (others {t} before u unchanged) h =
      subst (Identified k region s (others before u unchanged)) (sym unchanged)
        (reached-Identified region s t before h)

-- In every state that a new machine comes to by reconciliations in clusters of one region, in any
-- order and with anything else happening in between that leaves its recorded instance, its
-- readiness and its provider ID alone: the machine is not ready and has no provider ID, or its
-- provider ID is made of that region and the ID of an instance that the cloud showed ACTIVE to one
-- of these reconciliations, as the recorded one, the one to adopt or the one of the machine's name.
pub Run-Identified :
    {W : Type 0} (k : Kube W) (region : Text) (s t : MachineState W) (run : Run k region s t)
    → s.machine.status.ready ≡ false
    → s.machine.spec.provider_id ≡ []
    → Identified k region s run (phase_of t.machine)
Run-Identified k region s t run idle blank = reached-Identified k region s t run (inl (idle, blank))
