-- ===== src/Conversion/Machines.antt =====
-- OVHMachine.ConvertTo and ConvertFrom. A field that the code does not name keeps the
-- destination's value, and so do the volumes where the source has none.
use cluster_api_provider_ovh.Prelude.{Bool, false, Option, none, some, map, codes, Outcome, ok}
use cluster_api_provider_ovh.Resources.{OvhMachine, OvhMachineSpec, OvhMachineStatus, OvhVolume}
use cluster_api_provider_ovh.Conversion.Older.{
  OvhMachineV1alpha1, OvhMachineSpecV1alpha1, OvhMachineStatusV1alpha1,
}
use cluster_api_provider_ovh.Conversion.Hubs.{Hub}
use cluster_api_provider_ovh.Conversion.Clusters.{expected, unless_empty}

abbrev pub convert_volume : OvhVolume → OvhVolume
convert_volume v = record { name = v.name; size_gb = v.size_gb; kind = v.kind }

unfoldable pub convert_machine_spec_to : OvhMachineSpecV1alpha1 → OvhMachineSpec → OvhMachineSpec
convert_machine_spec_to src dst = record dst {
  provider_id = src.provider_id;
  flavor_name = src.flavor_name;
  image_name = src.image_name;
  ssh_key_name = src.ssh_key_name;
  root_disk_size = src.root_disk_size;
  failure_domain = src.failure_domain;
  additional_volumes =
      unless_empty (map convert_volume src.additional_volumes) dst.additional_volumes;
}

unfoldable pub convert_machine_spec_from :
    OvhMachineSpec → OvhMachineSpecV1alpha1 → OvhMachineSpecV1alpha1
convert_machine_spec_from src dst = record dst {
  provider_id = src.provider_id;
  flavor_name = src.flavor_name;
  image_name = src.image_name;
  ssh_key_name = src.ssh_key_name;
  root_disk_size = src.root_disk_size;
  failure_domain = src.failure_domain;
  additional_volumes =
      unless_empty (map convert_volume src.additional_volumes) dst.additional_volumes;
}

unfoldable pub convert_machine_status_to :
    OvhMachineStatusV1alpha1 → OvhMachineStatus → OvhMachineStatus
convert_machine_status_to src dst = record dst {
  ready = src.ready;
  conditions = src.conditions;
  addresses = src.addresses;
  initialization = record { provisioned = some src.initialization.provisioned };
  instance_id = src.instance_id;
  volume_ids = src.volume_ids;
  lb_pool_member_id = src.lb_pool_member_id;
  register_pool_member_id = src.register_pool_member_id;
}

-- `ptr.Deref(p, def)`
abbrev pub deref_or : Option Bool → Bool → Bool
deref_or none d = d
deref_or (some b) d = b

unfoldable pub convert_machine_status_from :
    OvhMachineStatus → OvhMachineStatusV1alpha1 → OvhMachineStatusV1alpha1
convert_machine_status_from src dst = record dst {
  ready = src.ready;
  conditions = src.conditions;
  addresses = src.addresses;
  initialization = record { provisioned = deref_or src.initialization.provisioned false };
  instance_id = src.instance_id;
  volume_ids = src.volume_ids;
  lb_pool_member_id = src.lb_pool_member_id;
  register_pool_member_id = src.register_pool_member_id;
}

-- The two conversions, behind the check of the hub's type.
unfoldable pub machine_to_hub : OvhMachineV1alpha1 → OvhMachine → OvhMachine
unfolding convert_machine_spec_to convert_machine_status_to
machine_to_hub src dst = record dst {
  meta = src.meta;
  spec = convert_machine_spec_to src.spec dst.spec;
  status = convert_machine_status_to src.status dst.status;
}

unfoldable pub machine_from_hub : OvhMachineV1alpha1 → OvhMachine → OvhMachineV1alpha1
unfolding convert_machine_spec_from convert_machine_status_from
machine_from_hub dst src = record dst {
  meta = src.meta;
  spec = convert_machine_spec_from src.spec dst.spec;
  status = convert_machine_status_from src.status dst.status;
}

unfoldable pub machine_convert_to : OvhMachineV1alpha1 → Hub → Outcome Hub
unfolding machine_to_hub
machine_convert_to src (Hub.machine dst) = ok (Hub.machine (machine_to_hub src dst))
machine_convert_to src other = expected (codes "*v1alpha2.OVHMachine") other

unfoldable pub machine_convert_from : OvhMachineV1alpha1 → Hub → Outcome OvhMachineV1alpha1
unfolding machine_from_hub
machine_convert_from dst (Hub.machine src) = ok (machine_from_hub dst src)
machine_convert_from dst other = expected (codes "*v1alpha2.OVHMachine") other
