-- ===== src/NodeInit.antt =====
-- InitializeWorkloadNode (util/node_init.go). It is best-effort: whatever fails ends it, and only
-- what it did to the cluster is left.
pub mod Taints
use cluster_api_provider_ovh.Prelude.{
  Bool, not, ◌&&◌, List, Text, codes, is_empty, any, keep, length, nat_eq, ◌==◌, Exec, pure, lift,
  ◌>>=◌, ◌>>◌, Outcome, if◌then◌else◌,
}
use cluster_api_provider_ovh.Cloud.{World}
use cluster_api_provider_ovh.Resources.{Taint, Node, Kube}

abbrev pub uninitialized_taint_key : Text
uninitialized_taint_key = codes "node.cloudprovider.kubernetes.io/uninitialized"

abbrev pub is_uninitialized : Taint → Bool
is_uninitialized t = t.key == uninitialized_taint_key

-- `hasUninitializedTaint`
unfoldable pub has_uninitialized_taint : Node → Bool
has_uninitialized_taint node = any is_uninitialized node.taints

-- `removeTaint`
unfoldable pub remove_taint : List Taint → List Taint
remove_taint taints = keep (λ t. not (is_uninitialized t)) taints

-- A call that acts on the state outside the controller.
abbrev pub outside : {W A : Type 0} → (W → Outcome A × W) → Exec (World W) A
outside f w = let (r, cloud) = f w.cloud in (r, record w { cloud = cloud })

module _ {W : Type 0} (k : Kube W) (cfg : Text) (node_name : Text) where
  -- `if needsProviderID { … }`
  set_provider_id : Bool → Text → Exec (World W) (Unit {0})
  set_provider_id needed provider_id =
      if needed then outside (k.patch_provider_id cfg node_name provider_id) else pure tt

  patch_if_shorter : List Taint → Exec (World W) (Unit {0})
  patch_if_shorter taints =
      if nat_eq (length (remove_taint taints)) (length taints)
      then pure tt
      else outside (k.patch_taints cfg node_name (remove_taint taints))

  -- `if needsTaintRemoval { … }`: the node is fetched again.
  drop_taint : Bool → Exec (World W) (Unit {0})
  unfolding patch_if_shorter
  drop_taint needed =
      if needed
      then (do node ← outside (k.get_node cfg node_name); patch_if_shorter node.taints)
      else pure tt

  initialize : Text → Exec (World W) (Unit {0})
  unfolding set_provider_id drop_taint
  initialize provider_id = do
    lift (k.new_clientset cfg)
    node ← outside (k.get_node cfg node_name)
    if not (is_empty node.provider_id) && not (has_uninitialized_taint node)
        then pure tt
        else set_provider_id (is_empty node.provider_id) provider_id
          >> drop_taint (has_uninitialized_taint node)

  -- `InitializeWorkloadNode`
  unfoldable pub initialize_workload_node : Text → World W → World W
  unfolding initialize
  initialize_workload_node provider_id w =
      if is_empty provider_id then w else (initialize provider_id w).1
