-- ===== src/Conversion/MachineTrips.antt =====
-- What the conversion of an OVHMachine and back keeps, in either direction.
use cluster_api_provider_ovh.Prelude.{◌≡◌, ap, ◌∙◌, false, some, List, [], map, ok, and_then}
use cluster_api_provider_ovh.Resources.{OvhMachine, OvhVolume}
use cluster_api_provider_ovh.Conversion.Older.{OvhMachineV1alpha1, zero_machine_v1alpha1}
use cluster_api_provider_ovh.Conversion.Hubs.{Hub, zero_machine}
use cluster_api_provider_ovh.Conversion.Clusters.{unless_empty}
use cluster_api_provider_ovh.Conversion.Machines.{
  convert_volume, deref_or, machine_to_hub, machine_from_hub, machine_convert_to,
  machine_convert_from,
}
use cluster_api_provider_ovh.Conversion.RoundTrip.{unless_empty-nil, map_same}

abbrev pub machine_without_failure : OvhMachineV1alpha1 → OvhMachineV1alpha1
machine_without_failure m = record m {
  status = record m.status { failure_reason = []; failure_message = [] };
}

abbrev pub common_machine : OvhMachine → OvhMachine
common_machine m = record m {
  spec = record m.spec {
    security_group_names = [];
    tags = [];
    bootstrap_format = [];
    existing_instance_id = [];
  };
  status = record m.status {
    initialization = record {
      provisioned = some (deref_or m.status.initialization.provisioned false);
    };
  };
}

volumes_twice :
    (vs : List OvhVolume)
    → unless_empty (map convert_volume (unless_empty (map convert_volume vs) [])) [] ≡ vs
volumes_twice vs =
    unless_empty-nil _
    ∙ ap (map convert_volume) (unless_empty-nil (map convert_volume vs))
    ∙ ap (map convert_volume) (map_same vs)
    ∙ map_same vs

pub machine_back :
    (m : OvhMachineV1alpha1)
    → machine_from_hub zero_machine_v1alpha1 (machine_to_hub m zero_machine)
      ≡ machine_without_failure m
unfolding machine_from_hub machine_to_hub
machine_back m =
    ap
      (λ (vs : List OvhVolume). record (machine_without_failure m) {
        spec = record m.spec { additional_volumes = vs };
      })
      (volumes_twice m.spec.additional_volumes)

machine_there :
    (h : OvhMachine)
    → machine_to_hub (machine_from_hub zero_machine_v1alpha1 h) zero_machine ≡ common_machine h
unfolding machine_from_hub machine_to_hub
machine_there h =
    ap
      (λ (vs : List OvhVolume). record (common_machine h) {
        spec = record (common_machine h).spec { additional_volumes = vs };
      })
      (volumes_twice h.spec.additional_volumes)

-- The conversion of an OVHMachine to v1alpha2 and back gives it back without the failure reason
-- and message of its status. One of v1alpha2 that goes to v1alpha1 and back loses its security
-- groups, tags, bootstrap format and existing instance, and an unset `provisioned` becomes false;
-- the rest is as it was. No conversion fails.
pub machine_round_trips :
    (m : OvhMachineV1alpha1) (h : OvhMachine)
    → (and_then
          (machine_convert_to m (Hub.machine zero_machine))
          (machine_convert_from zero_machine_v1alpha1)
        ≡ ok (machine_without_failure m))
      × (and_then
            (machine_convert_from zero_machine_v1alpha1 (Hub.machine h))
            (λ c. machine_convert_to c (Hub.machine zero_machine))
          ≡ ok (Hub.machine (common_machine h)))
unfolding machine_convert_to machine_convert_from
machine_round_trips m h = (ap ok (machine_back m), ap (λ x. ok (Hub.machine x)) (machine_there h))
