-- ===== src/Resources/Machine.antt =====
-- OVHMachine (api/v1alpha2/ovhmachine_types.go). `RootDiskSize` and `SizeGB` are Go ints that the
-- webhook tests for negative values.
use cluster_api_provider_ovh.Prelude.{ℤ, Bool, Option, List, Text, codes}
use cluster_api_provider_ovh.Resources.Meta.{ObjectMeta, TextMap, Condition}

abbrev pub machine_finalizer : Text
machine_finalizer = codes "ovhmachine.infrastructure.cluster.x-k8s.io/finalizer"

abbrev pub instance_created_condition : Text
instance_created_condition = codes "InstanceCreated"

abbrev pub instance_provisioning_ready_condition : Text
instance_provisioning_ready_condition = codes "InstanceProvisioningReady"

abbrev pub instance_provisioning_in_progress_reason : Text
instance_provisioning_in_progress_reason = codes "InstanceProvisioningInProgress"

abbrev pub instance_provisioning_failed_reason : Text
instance_provisioning_failed_reason = codes "InstanceProvisioningFailed"

abbrev pub instance_running_condition : Text
instance_running_condition = codes "InstanceRunning"

abbrev pub instance_not_running_reason : Text
instance_not_running_reason = codes "InstanceNotRunning"

pub record OvhVolume : Type 0 where
  pub name : Text
  pub size_gb : ℤ
  pub kind : Text

pub record Initialization : Type 0 where
  pub provisioned : Option Bool

pub record OvhMachineSpec : Type 0 where
  pub provider_id : Text
  pub flavor_name : Text
  pub image_name : Text
  pub ssh_key_name : Text
  pub root_disk_size : ℤ
  pub additional_volumes : List OvhVolume
  pub failure_domain : Text
  pub security_group_names : List Text
  pub tags : TextMap
  pub bootstrap_format : Text
  pub existing_instance_id : Text

-- clusterv1.MachineAddress
pub data AddressType : Type 0 where
  internal_ip external_ip : AddressType

pub record MachineAddress : Type 0 where
  pub kind : AddressType
  pub address : Text

pub record OvhMachineStatus : Type 0 where
  pub ready : Bool
  pub conditions : List Condition
  pub addresses : List MachineAddress
  pub initialization : Initialization
  pub instance_id : Text
  pub volume_ids : List Text
  pub lb_pool_member_id : Text
  pub register_pool_member_id : Text

pub record OvhMachine : Type 0 where
  pub meta : ObjectMeta
  pub spec : OvhMachineSpec
  pub status : OvhMachineStatus
