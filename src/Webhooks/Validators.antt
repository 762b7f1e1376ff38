-- ===== src/Webhooks/Validators.antt =====
-- OVHClusterValidator and OVHMachineValidator of both API versions: the type assertion in front of
-- the validation. The warnings are always nil and left out.
use cluster_api_provider_ovh.Prelude.{◌++◌, Bool, Text, codes, plain, Outcome, ok, err}
use cluster_api_provider_ovh.Resources.{OvhCluster, OvhMachine}
use cluster_api_provider_ovh.Conversion.{OvhClusterV1alpha1, OvhMachineV1alpha1}
use cluster_api_provider_ovh.Webhooks.{validate_ovh_cluster, validate_ovh_machine}
use cluster_api_provider_ovh.Webhooks.Older.{
  validate_ovh_cluster_v1alpha1, validate_ovh_machine_v1alpha1,
}

-- The dynamic type of a runtime.Object; any other type is given by its name.
pub data RuntimeObject : Type 0 where
  cluster : OvhCluster → RuntimeObject
  machine : OvhMachine → RuntimeObject
  cluster_v1alpha1 : OvhClusterV1alpha1 → RuntimeObject
  machine_v1alpha1 : OvhMachineV1alpha1 → RuntimeObject
  other : Text → RuntimeObject

-- `%T`
unfoldable pub type_name : RuntimeObject → Text
type_name (RuntimeObject.cluster c) = codes "*v1alpha2.OVHCluster"
type_name (RuntimeObject.machine m) = codes "*v1alpha2.OVHMachine"
type_name (RuntimeObject.cluster_v1alpha1 c) = codes "*v1alpha1.OVHCluster"
type_name (RuntimeObject.machine_v1alpha1 m) = codes "*v1alpha1.OVHMachine"
type_name (RuntimeObject.other name) = name

-- `fmt.Errorf("expected OVHCluster, got %T", obj)`
abbrev pub unexpected : Text → RuntimeObject → Outcome (Unit {0})
unexpected kind obj = err (plain (codes "expected " ++ (kind ++ (codes ", got " ++ type_name obj))))

module _ (parses_ip : Text → Bool) where
  unfoldable pub validate_create_cluster : RuntimeObject → Outcome (Unit {0})
  validate_create_cluster (RuntimeObject.cluster c) = validate_ovh_cluster parses_ip c
  validate_create_cluster obj = unexpected (codes "OVHCluster") obj

  unfoldable pub validate_update_cluster : RuntimeObject → RuntimeObject → Outcome (Unit {0})
  validate_update_cluster old (RuntimeObject.cluster c) = validate_ovh_cluster parses_ip c
  validate_update_cluster old new_obj = unexpected (codes "OVHCluster") new_obj

  unfoldable pub validate_create_cluster_v1alpha1 : RuntimeObject → Outcome (Unit {0})
  validate_create_cluster_v1alpha1 (RuntimeObject.cluster_v1alpha1 c) =
      validate_ovh_cluster_v1alpha1 parses_ip c
  validate_create_cluster_v1alpha1 obj = unexpected (codes "OVHCluster") obj

  unfoldable pub validate_update_cluster_v1alpha1 :
      RuntimeObject → RuntimeObject → Outcome (Unit {0})
  validate_update_cluster_v1alpha1 old (RuntimeObject.cluster_v1alpha1 c) =
      validate_ovh_cluster_v1alpha1 parses_ip c
  validate_update_cluster_v1alpha1 old new_obj = unexpected (codes "OVHCluster") new_obj

unfoldable pub validate_create_machine : RuntimeObject → Outcome (Unit {0})
validate_create_machine (RuntimeObject.machine m) = validate_ovh_machine m
validate_create_machine obj = unexpected (codes "OVHMachine") obj

unfoldable pub validate_update_machine : RuntimeObject → RuntimeObject → Outcome (Unit {0})
validate_update_machine old (RuntimeObject.machine m) = validate_ovh_machine m
validate_update_machine old new_obj = unexpected (codes "OVHMachine") new_obj

unfoldable pub validate_create_machine_v1alpha1 : RuntimeObject → Outcome (Unit {0})
validate_create_machine_v1alpha1 (RuntimeObject.machine_v1alpha1 m) =
    validate_ovh_machine_v1alpha1 m
validate_create_machine_v1alpha1 obj = unexpected (codes "OVHMachine") obj

unfoldable pub validate_update_machine_v1alpha1 : RuntimeObject → RuntimeObject → Outcome (Unit {0})
validate_update_machine_v1alpha1 old (RuntimeObject.machine_v1alpha1 m) =
    validate_ovh_machine_v1alpha1 m
validate_update_machine_v1alpha1 old new_obj = unexpected (codes "OVHMachine") new_obj

-- ValidateDelete, alike in the four validators.
unfoldable pub validate_delete : RuntimeObject → Outcome (Unit {0})
validate_delete obj = ok tt
