-- ===== src/Webhooks/Versions.antt =====
-- The validators of the two API versions judge alike what the conversion makes of an object.
use cluster_api_provider_ovh.Prelude.{
  Bool, ◌≡◌, refl, ◌∙◌, sym, inl, inr, List, [], map, Text, ok, Outcome-cases, ok_injective,
}
use cluster_api_provider_ovh.Resources.{OvhCluster, OvhMachine, OvhListener, OvhVolume}
use cluster_api_provider_ovh.Conversion.{
  OvhClusterV1alpha1, OvhMachineV1alpha1, zero_cluster, zero_machine, zero_cluster_v1alpha1,
  zero_machine_v1alpha1, cluster_to_hub, cluster_from_hub, machine_to_hub, machine_from_hub,
  write_hub_cluster, convert_each, convert_listener_to, convert_machine_spec_to,
  convert_machine_spec_from, convert_network_config-none, convert_volume, unless_empty,
  unless_empty-nil, map_same,
}
use cluster_api_provider_ovh.Webhooks.{validate_ovh_cluster, validate_ovh_machine}
use cluster_api_provider_ovh.Webhooks.Older.{
  validate_ovh_cluster_v1alpha1, validate_ovh_machine_v1alpha1,
}
use cluster_api_provider_ovh.Webhooks.Validators.{
  RuntimeObject, validate_create_cluster, validate_create_cluster_v1alpha1, validate_create_machine,
  validate_create_machine_v1alpha1,
}

module _ (parses_ip : Text → Bool) where
  written_judged :
      (c : OvhClusterV1alpha1) (listeners : List OvhListener)
      → validate_ovh_cluster parses_ip (write_hub_cluster c zero_cluster listeners)
        ≡ validate_ovh_cluster_v1alpha1 parses_ip c
  unfolding validate_ovh_cluster validate_ovh_cluster_v1alpha1 write_hub_cluster
  written_judged c listeners = rw (convert_network_config-none c.spec.network_config) refl

  to_hub_judged :
      (c : OvhClusterV1alpha1) (h : OvhCluster)
      → cluster_to_hub c zero_cluster ≡ ok h
      → validate_ovh_cluster parses_ip h ≡ validate_ovh_cluster_v1alpha1 parses_ip c
  unfolding cluster_to_hub
  to_hub_judged c h done =
      elim (Outcome-cases
        (convert_each convert_listener_to c.spec.load_balancer_config.listeners)) [
          | inl (ls, e) ↦ rw (sym (ok_injective (rw e at done))) (written_judged c ls)
          | inr (e, failed) ↦ absurd (let k = rw failed at done in cc)
        ]

  from_hub_judged :
      (h : OvhCluster)
      → validate_ovh_cluster_v1alpha1 parses_ip (cluster_from_hub zero_cluster_v1alpha1 h)
        ≡ validate_ovh_cluster parses_ip h
  unfolding validate_ovh_cluster validate_ovh_cluster_v1alpha1 cluster_from_hub
  from_hub_judged h = rw (convert_network_config-none h.spec.network_config) refl

volumes_kept : (vols : List OvhVolume) → unless_empty (map convert_volume vols) [] ≡ vols
volumes_kept vols = unless_empty-nil _ ∙ map_same vols

machine_to_judged :
    (m : OvhMachineV1alpha1)
    → validate_ovh_machine (machine_to_hub m zero_machine) ≡ validate_ovh_machine_v1alpha1 m
unfolding validate_ovh_machine validate_ovh_machine_v1alpha1 machine_to_hub convert_machine_spec_to
machine_to_judged m = rw (volumes_kept m.spec.additional_volumes) refl

machine_from_judged :
    (m : OvhMachine)
    → validate_ovh_machine_v1alpha1 (machine_from_hub zero_machine_v1alpha1 m)
      ≡ validate_ovh_machine m
unfolding validate_ovh_machine validate_ovh_machine_v1alpha1 machine_from_hub
    convert_machine_spec_from
machine_from_judged m = rw (volumes_kept m.spec.additional_volumes) refl

-- The webhooks of the two versions answer a creation alike, with the same message where they refuse
-- it: for an OVHCluster of v1alpha1 and what it converts to, where it converts, and for an
-- OVHCluster of v1alpha2, an OVHMachine of v1alpha1 and one of v1alpha2 and what each converts to.
pub versions_agree :
    (parses_ip : Text → Bool) (c : OvhClusterV1alpha1) (d h : OvhCluster) (n : OvhMachineV1alpha1)
    (m : OvhMachine)
    → cluster_to_hub c zero_cluster ≡ ok d
    → (validate_create_cluster parses_ip (RuntimeObject.cluster d)
        ≡ validate_create_cluster_v1alpha1 parses_ip (RuntimeObject.cluster_v1alpha1 c))
      × (validate_create_cluster_v1alpha1 parses_ip
            (RuntimeObject.cluster_v1alpha1 (cluster_from_hub zero_cluster_v1alpha1 h))
          ≡ validate_create_cluster parses_ip (RuntimeObject.cluster h))
      × (validate_create_machine (RuntimeObject.machine (machine_to_hub n zero_machine))
          ≡ validate_create_machine_v1alpha1 (RuntimeObject.machine_v1alpha1 n))
      × (validate_create_machine_v1alpha1
            (RuntimeObject.machine_v1alpha1 (machine_from_hub zero_machine_v1alpha1 m))
          ≡ validate_create_machine (RuntimeObject.machine m))
unfolding validate_create_cluster validate_create_cluster_v1alpha1 validate_create_machine
    validate_create_machine_v1alpha1
versions_agree parses_ip c d h n m converts = (
  to_hub_judged parses_ip c d converts,
  from_hub_judged parses_ip h,
  machine_to_judged n,
  machine_from_judged m,
)
