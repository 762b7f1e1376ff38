-- ===== src/Reconcile/Server.antt =====
-- The API server, the patch helper, the owner lookups of Cluster API and the constructor of the OVH
-- library, as a parameter.
use cluster_api_provider_ovh.Prelude.{Bool, Option, List, Text, Outcome}
use cluster_api_provider_ovh.Cloud.{Api}
use cluster_api_provider_ovh.Resources.{ObjectMeta, OvhMachine, OvhCluster, Kube}

-- `Spec.InfrastructureRef` of a Cluster.
pub record ObjectRef : Type 0 where
  pub kind : Text
  pub name : Text

-- Of clusterv1.Cluster, what the controllers read.
pub record OwnerCluster : Type 0 where
  pub namespace : Text
  pub name : Text
  pub infrastructure_ref : ObjectRef
  pub infrastructure_provisioned : Option Bool

-- Of clusterv1.Machine, what the controllers read.
pub record OwnerMachine : Type 0 where
  pub namespace : Text
  pub name : Text
  pub data_secret_name : Option Text

-- `W` is the state outside the controller.
pub record Manager (W : Type 0) : Type 0 where
  pub kube : Kube W
  pub get_machine : Text → Text → W → Outcome OvhMachine × W
  pub get_cluster : Text → Text → W → Outcome OvhCluster × W
  pub clusters_by_secret : Text → W → Outcome (List OvhCluster) × W  -- List, by the index
  pub machine_helper : OvhMachine → Outcome (Unit {0})  -- patch.NewHelper
  pub cluster_helper : OvhCluster → Outcome (Unit {0})
  pub patch_machine : OvhMachine → OvhMachine → W → Outcome (Unit {0}) × W  -- before, after
  pub patch_cluster : OvhCluster → OvhCluster → W → Outcome (Unit {0}) × W
  pub owner_machine : ObjectMeta → W → Outcome (Option OwnerMachine) × W
  pub cluster_of_machine : OwnerMachine → W → Outcome (Option OwnerCluster) × W
  pub owner_cluster : ObjectMeta → W → Outcome (Option OwnerCluster) × W
  pub is_control_plane_machine : OwnerMachine → Bool
  pub is_paused : OwnerCluster → OvhMachine → Bool
  pub is_defined : ObjectRef → Bool
  pub new_api : Text → Text → Text → Text → Outcome (Api W)  -- goovh.NewClient
