-- ===== src/Cloud/Compute.antt =====
-- Instances, flavors, images, keys and volumes of pkg/ovh/types.go. Sizes are never negative in the
-- API, so Go's int is a native number; Image.Size (a float64 that nothing reads) is left out.
use cluster_api_provider_ovh.Prelude.{ℕ, Bool, List, Text, codes}

pub record IpAddress : Type 0 where
  pub ip : Text
  pub kind : Text  -- Type: "public" or "private"
  pub version : ℕ

pub record AttachedVolume : Type 0 where
  pub id : Text

pub record Instance : Type 0 where
  pub id : Text
  pub name : Text
  pub status : Text
  pub flavor_id : Text
  pub image_id : Text
  pub region : Text
  pub created : Text
  pub ip_addresses : List IpAddress
  pub attached_volumes : List AttachedVolume
  pub ssh_key_id : Text
  pub monthly_billing : Bool

abbrev pub instance_status_active : Text
instance_status_active = codes "ACTIVE"

abbrev pub instance_status_build : Text
instance_status_build = codes "BUILD"

abbrev pub instance_status_error : Text
instance_status_error = codes "ERROR"

abbrev pub instance_status_deleted : Text
instance_status_deleted = codes "DELETED"

pub record InstanceNetwork : Type 0 where
  pub network_id : Text

pub record CreateInstanceOpts : Type 0 where
  pub name : Text
  pub flavor_id : Text
  pub image_id : Text
  pub region : Text
  pub ssh_key_id : Text
  pub user_data : Text
  pub networks : List InstanceNetwork
  pub monthly_billing : Bool
  pub group_id : Text

pub record Flavor : Type 0 where
  pub id : Text
  pub name : Text
  pub vcpus : ℕ
  pub ram : ℕ
  pub disk : ℕ
  pub kind : Text
  pub region : Text
  pub bandwidth : ℕ
  pub plan_code : Text

pub record Image : Type 0 where
  pub id : Text
  pub name : Text
  pub status : Text
  pub region : Text
  pub creation_date : Text
  pub min_ram : ℕ
  pub min_disk : ℕ
  pub kind : Text
  pub user : Text
  pub visibility : Text
  pub plan_code : Text

pub record SshKey : Type 0 where
  pub id : Text
  pub name : Text
  pub public_key : Text
  pub fingerprint : Text
  pub regions : List Text

pub record CreateSshKeyOpts : Type 0 where
  pub name : Text
  pub public_key : Text
  pub region : Text

pub record Volume : Type 0 where
  pub id : Text
  pub name : Text
  pub description : Text
  pub size : ℕ
  pub kind : Text
  pub region : Text
  pub status : Text
  pub attached_to : List Text

pub record CreateVolumeOpts : Type 0 where
  pub name : Text
  pub description : Text
  pub size : ℕ
  pub kind : Text
  pub region : Text

pub record AttachVolumeOpts : Type 0 where
  pub instance_id : Text
