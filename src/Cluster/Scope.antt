-- ===== src/Cluster/Scope.antt =====
-- What a reconciliation of an OVHCluster reads (ClusterScope) and the state that it changes: the
-- OVHCluster object, which is written back whatever the reconciliation returns, and the world.
use cluster_api_provider_ovh.Prelude.{Text, Exec, modify}
use cluster_api_provider_ovh.Cloud.{World}
use cluster_api_provider_ovh.Client.Retry.{Client}
use cluster_api_provider_ovh.Resources.{ConditionStatus, OvhCluster, OvhClusterStatus, Kube}

pub record ClusterScope (W : Type 0) : Type 0 where
  pub cluster_name : Text
  pub ovh_client : Client W

pub record ClusterState (W : Type 0) : Type 0 where
  pub cluster : OvhCluster
  pub world : World W

module _ {W : Type 0} where
  -- A call of the client inside a reconciliation.
  abbrev pub on_client : {A : Type 0} → Exec (World W) A → Exec (ClusterState W) A
  on_client m s = let (r, w) = m s.world in (r, record s { world = w })

  abbrev pub set_cluster_status :
      (OvhClusterStatus → OvhClusterStatus) → Exec (ClusterState W) (Unit {0})
  set_cluster_status f =
      modify λ s. record s { cluster = record s.cluster { status = f s.cluster.status } }

  -- `conditions.Set(scope.OVHCluster, …)`
  abbrev pub set_cluster_condition :
      Kube W → Text → ConditionStatus → Text → Text → Exec (ClusterState W) (Unit {0})
  set_cluster_condition k kind status reason message = set_cluster_status λ st. record st {
    conditions =
        k.set_condition
          (record { kind = kind; status = status; reason = reason; message = message })
          st.conditions;
  }
