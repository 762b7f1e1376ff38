-- ===== src/Machine/Readiness.antt =====
-- What handleExistingInstance and createInstance report of an instance in the object's status.
use cluster_api_provider_ovh.Prelude.{
  ℕ, ◌≡◌, refl, ap, true, false, [], Text, Outcome, ok, ◌==◌, if◌then◌else◌, Bool-cases, inl, inr,
}
use cluster_api_provider_ovh.Cloud.{
  Instance, instance_status_active, instance_status_build, instance_status_error,
}
use cluster_api_provider_ovh.Resources.{
  OvhMachine, instance_created_condition, condition_true, Result, no_requeue, requeue, Kube,
}
use cluster_api_provider_ovh.Names.ProviderId.{provider_id_from_instance}
use cluster_api_provider_ovh.Machine.Scope.{
  MachineScope, MachineState, with_status, requeue_delay_long,
}
use cluster_api_provider_ovh.Machine.Existing.{
  handle_existing_instance, on_active, on_build, on_error, not_ready, mark_active, initialize_node,
  addresses_of,
}
use cluster_api_provider_ovh.Machine.Frames.{ensure_lb_pool_member-Keeps}

-- The requeue delay that each instance status is answered with.
unfoldable pub delay_of : Text → ℕ
delay_of status =
    if status == instance_status_active
    then 0
    else if status == instance_status_build
    then requeue_delay_long
    else if status == instance_status_error
    then 0
    else requeue_delay_long

module _ {W : Type 0} (k : Kube W) (scope : MachineScope W) where
  -- What the object says of an instance that answered.
  pub record Reports (i : Instance) (m m' : OvhMachine) : Type 0 where
    pub recorded : m'.status.instance_id ≡ i.id
    pub ready : m'.status.ready ≡ (i.status == instance_status_active)
    pub provider_id : m'.spec.provider_id ≡ (
        if i.status == instance_status_active
        then provider_id_from_instance scope.ovh_cluster.spec.region i.id
        else m.spec.provider_id)
    pub addresses :
        m'.status.addresses
        ≡ (if i.status == instance_status_active then addresses_of i else m.status.addresses)
    pub metadata : m'.meta ≡ m.meta

  on_active-Keeps :
      (i : Instance) (s : MachineState W)
      → ((on_active k scope i s).0 ≡ ok no_requeue)
        × ((on_active k scope i s).1.machine.status.instance_id ≡ s.machine.status.instance_id)
        × ((on_active k scope i s).1.machine.status.ready ≡ true)
        × ((on_active k scope i s).1.machine.spec.provider_id
            ≡ provider_id_from_instance scope.ovh_cluster.spec.region i.id)
        × ((on_active k scope i s).1.machine.status.addresses ≡ addresses_of i)
        × ((on_active k scope i s).1.machine.meta ≡ s.machine.meta)
  unfolding on_active mark_active initialize_node
  on_active-Keeps i s =
      let same = (ensure_lb_pool_member-Keeps scope i).at _ in
      (
        refl,
        ap (λ m. m.status.instance_id) same,
        ap (λ m. m.status.ready) same,
        ap (λ m. m.spec.provider_id) same,
        ap (λ m. m.status.addresses) same,
        ap (λ m. m.meta) same,
      )

  abbrev Handled : Instance → OvhMachine → Outcome Result × MachineState W → Type 0
  Handled i m (r, s') = Reports i m s'.machine × (r ≡ ok (requeue (delay_of i.status)))

  -- The state in which handleExistingInstance looks at the instance's status.
  abbrev created : Instance → MachineState W → MachineState W
  created i s =
      with_status
        (λ st. record st {
          conditions =
              k.set_condition
                (record {
                  kind = instance_created_condition;
                  status = condition_true;
                  reason = instance_created_condition;
                  message = [];
                })
                st.conditions;
        })
        (with_status (λ st. record st { instance_id = i.id }) s)

  inactive_Reports :
      (i : Instance) (m m' : OvhMachine)
      → (i.status == instance_status_active) ≡ false
      → m'.status.instance_id ≡ i.id
      → m'.status.ready ≡ false
      → m'.spec.provider_id ≡ m.spec.provider_id
      → m'.status.addresses ≡ m.status.addresses
      → m'.meta ≡ m.meta
      → Reports i m m'
  inactive_Reports i m m' other recorded ready provider_id addresses metadata = record {
    recorded = recorded;
    ready = rw other ready;
    provider_id = rw other provider_id;
    addresses = rw other addresses;
    metadata = metadata;
  }

  active-Handled :
      (i : Instance) (s : MachineState W)
      → (i.status == instance_status_active) ≡ true
      → Handled i s.machine (handle_existing_instance k scope i s)
  unfolding handle_existing_instance delay_of
  active-Handled i s active =
      let (answer, recorded, ready, provider_id, addresses, metadata) =
        on_active-Keeps i (created i s) in
      (
        record {
          recorded = rw active recorded;
          ready = rw active ready;
          provider_id = rw active provider_id;
          addresses = rw active addresses;
          metadata = rw active metadata;
        },
        rw active answer,
      )

  inactive-Handled :
      (i : Instance) (s : MachineState W)
      → (i.status == instance_status_active) ≡ false
      → Handled i s.machine (handle_existing_instance k scope i s)
  unfolding handle_existing_instance delay_of on_build on_error not_ready
  inactive-Handled i s other = rw other (elim (Bool-cases (i.status == instance_status_build)) [
    | inl build ↦ rw build (inactive_Reports i _ _ other refl refl refl refl refl, refl)
    | inr not_build ↦ rw not_build (elim (Bool-cases (i.status == instance_status_error)) [
      | inl error ↦ rw error (inactive_Reports i _ _ other refl refl refl refl refl, refl)
      | inr transitional ↦
          rw transitional (inactive_Reports i _ _ other refl refl refl refl refl, refl)
    ])
  ])

  -- After an existing instance was handled, the object records its ID, is ready exactly if the
  -- instance is ACTIVE, and only then has the provider ID and the addresses taken from it; metadata
  -- is kept, and the result never fails: no requeue at ACTIVE and at ERROR, 30 seconds otherwise.
  pub handle-Reports :
      (i : Instance) (s : MachineState W)
      → Reports i s.machine (handle_existing_instance k scope i s).1.machine
        × ((handle_existing_instance k scope i s).0 ≡ ok (requeue (delay_of i.status)))
  handle-Reports i s = elim (Bool-cases (i.status == instance_status_active)) [
    | inl active ↦ active-Handled i s active
    | inr other ↦ inactive-Handled i s other
  ]
