-- ===== src/Etcd/Pods.antt =====
-- The choice of the pod in which etcdctl runs, and client-go as a parameter.
use cluster_api_provider_ovh.Prelude.{
  ℕ, ◌++◌, Bool, true, false, ◌&&◌, not, Option, none, some, List, [], ◌∷◌, Text, codes, ◌==◌,
  has_prefix, find?, any, keep, if◌then◌else◌, Exec, Outcome, ok, err, GoError, plain, pure,
  attempt, lift, or_wrap, ◌>>=◌,
}
use cluster_api_provider_ovh.Resources.{ConditionStatus, condition_true, condition_false}

abbrev pub etcd_namespace : Text
etcd_namespace = codes "kube-system"

abbrev pub etcd_container_name : Text
etcd_container_name = codes "etcd"

-- Of v1.PodCondition and v1.Pod, what the code reads.
pub record PodCondition : Type 0 where
  pub kind : Text
  pub status : ConditionStatus

pub record Pod : Type 0 where
  pub namespace : Text
  pub name : Text
  pub node_name : Text
  pub phase : Text
  pub conditions : List PodCondition

-- A request to run a command in a container of a pod.
pub record PodExec : Type 0 where
  pub namespace : Text
  pub pod : Text
  pub container : Text
  pub command : List Text

-- What an exec stream left in the two buffers, and its error.
pub record Streamed : Type 0 where
  pub stdout : Text
  pub stderr : Text
  pub error : Option GoError

-- EtcdMember and EtcdMemberListResponse; the URLs are only parsed.
pub record EtcdMember : Type 0 where
  pub id : ℕ
  pub name : Text
  pub peer_urls : List Text
  pub client_urls : List Text

pub record EtcdMemberListResponse : Type 0 where
  pub members : List EtcdMember

-- client-go and encoding/json. `W` is the state outside; a REST configuration is an opaque text.
pub record PodApi (W : Type 0) : Type 0 where
  pub new_for_config : Text → Outcome (Unit {0})
  pub list_pods : Text → Text → Text → W → Outcome (List Pod) × W  -- config, namespace, selector
  pub new_executor : Text → PodExec → Outcome (Unit {0})
  pub stream : Text → PodExec → W → Streamed × W
  pub parse_members : Text → Outcome EtcdMemberListResponse

-- The state outside, and the commands that were streamed into pods, the latest first.
pub record Shell (W : Type 0) : Type 0 where
  pub outside : W
  pub streamed : List PodExec

abbrev pub is_true : ConditionStatus → Bool
is_true condition_true = true
is_true condition_false = false

-- `isPodReady`
unfoldable pub is_pod_ready : Pod → Bool
is_pod_ready pod =
    if not (pod.phase == codes "Running")
    then false
    else any (λ c. c.kind == codes "Ready" && is_true c.status) pod.conditions

-- The loop over the pods: the pods of the deleted node are passed over.
unfoldable pub is_candidate : Text → Pod → Bool
unfolding is_pod_ready
is_candidate deleted_node_name pod =
    if pod.node_name == deleted_node_name then false else is_pod_ready pod

unfoldable pub pod_or_none : Text → Option Pod → Outcome Pod
pod_or_none deleted_node_name (some pod) = ok pod
pod_or_none deleted_node_name none =
    err (
      plain
        (codes "no healthy etcd pod found (excluding node " ++ (deleted_node_name ++ codes ")")))

unfoldable pub first_candidate : Text → List Pod → Outcome Pod
unfolding is_candidate pod_or_none
first_candidate deleted_node_name pods = elim (find? (is_candidate deleted_node_name) pods) [
  | some pod ↦ ok pod
  | none ↦ err (
      plain
        (codes "no healthy etcd pod found (excluding node " ++ (deleted_node_name ++ codes ")")))
]

module _ {W : Type 0} (p : PodApi W) (config : Text) where
  abbrev pub list_pods : Text → Exec (Shell W) (List Pod)
  list_pods selector s =
      let (r, w) = p.list_pods config etcd_namespace selector s.outside in
      (r, record s { outside = w })

  -- All pods of the namespace whose name starts with "etcd-".
  unfoldable pub pods_by_name : Exec (Shell W) (List Pod)
  pods_by_name = do
    all_pods ← or_wrap (codes "failed to list pods in " ++ etcd_namespace) (list_pods [])
    pure (keep (λ pod. has_prefix pod.name (codes "etcd-")) all_pods)

  -- `if err != nil || len(pods.Items) == 0 { ... }`
  unfoldable pub or_by_name : Outcome (List Pod) → Exec (Shell W) (List Pod)
  unfolding pods_by_name
  or_by_name (err e) = pods_by_name
  or_by_name (ok []) = pods_by_name
  or_by_name (ok (pod ∷ pods)) = pure (pod ∷ pods)

  -- `findHealthyEtcdPod`
  unfoldable pub find_healthy_etcd_pod : Text → Exec (Shell W) Pod
  unfolding or_by_name first_candidate
  find_healthy_etcd_pod deleted_node_name = do
    labelled ← attempt (list_pods (codes "component=etcd,tier=control-plane"))
    pods ← or_by_name labelled
    lift (first_candidate deleted_node_name pods)
