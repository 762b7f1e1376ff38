-- ===== src/Etcd/Healthy.antt =====
-- The pod that findHealthyEtcdPod chooses, and that its search runs no command.
use cluster_api_provider_ovh.Prelude.{
  bind_ok, ◌≡◌, refl, subst, ◌≢◌, inl, inr, Bool-cases, true, ◌&&◌, Option, none, some, List, [],
  ◌∷◌, Text, codes, ◌==◌, ==_iff, find?, find?-test, find?-First, find?-keep, keep, ap, sym, ◌⊎◌,
  ◌++◌, has_prefix, or_wrap, any, attempt, Outcome, ok, ok_injective, err, Keeps, keeps_rules, lift,
  ◌>>=◌,
}
use cluster_api_provider_ovh.Etcd.Pods.{
  etcd_namespace, Pod, PodApi, Shell, is_true, is_pod_ready, is_candidate, first_candidate,
  pod_or_none, pods_by_name, or_by_name, find_healthy_etcd_pod, list_pods,
}

-- The pod runs elsewhere, and says that it is ready.
pub record IsHealthy (deleted_node_name : Text) (pod : Pod) : Type 0 where
  pub elsewhere : pod.node_name ≢ deleted_node_name
  pub running : pod.phase ≡ codes "Running"
  pub ready : any (λ c. c.kind == codes "Ready" && is_true c.status) pod.conditions ≡ true

candidate-IsHealthy : (node : Text) (pod : Pod) → is_candidate node pod ≡ true → IsHealthy node pod
unfolding is_candidate is_pod_ready
candidate-IsHealthy node pod h = elim (Bool-cases (pod.node_name == node)) [
  | inl same ↦ absurd (let k = rw same at h in cc)
  | inr other ↦ elim (Bool-cases (pod.phase == codes "Running")) [
    | inr stopped ↦ absurd (let k = rw (other, stopped) at h in cc)
    | inl running ↦ record {
      elsewhere = λ e. let t = (==_iff pod.node_name node).1 e in cc;
      running = (==_iff pod.phase (codes "Running")).0 running;
      ready = rw (other, running) at h;
    }
  ]
]

pod_or_none-IsHealthy :
    (node : Text) (found : Option Pod) (pod : Pod)
    → ((q : Pod) → found ≡ some q → IsHealthy node q)
    → pod_or_none node found ≡ ok pod
    → IsHealthy node pod
unfolding pod_or_none
pod_or_none-IsHealthy node none pod healthy h = cc
pod_or_none-IsHealthy node (some q) pod healthy h =
    subst (IsHealthy node) (ok_injective h) (healthy q refl)

first_candidate-IsHealthy :
    (node : Text) (pods : List Pod) (pod : Pod)
    → first_candidate node pods ≡ ok pod
    → IsHealthy node pod
unfolding first_candidate
first_candidate-IsHealthy node pods pod h =
    pod_or_none-IsHealthy node (find? (is_candidate node) pods) pod
      (λ q e. candidate-IsHealthy node q (find?-test (is_candidate node) pods q e)) h

pod_or_none-found :
    (node : Text) (found : Option Pod) (pod : Pod)
    → pod_or_none node found ≡ ok pod
    → found ≡ some pod
unfolding pod_or_none
pod_or_none-found node none pod h = cc
pod_or_none-found node (some q) pod h = ap some (ok_injective h)

chosen_found :
    (node : Text) (pods : List Pod) (pod : Pod)
    → first_candidate node pods ≡ ok pod
    → find? (is_candidate node) pods ≡ some pod
unfolding first_candidate
chosen_found node pods pod h = pod_or_none-found node (find? (is_candidate node) pods) pod h

module _ {W : Type 0} (p : PodApi W) (config : Text) where
  list_pods-Keeps :
      (selector : Text) → Keeps (λ (s : Shell W). s.streamed) (list_pods p config selector)
  list_pods-Keeps selector = record { at = λ s. refl }

  pods_by_name-Keeps : Keeps (λ (s : Shell W). s.streamed) (pods_by_name p config)
  unfolding pods_by_name
  pods_by_name-Keeps = search (keeps_rules, list_pods-Keeps)

  or_by_name-Keeps :
      (r : Outcome (List Pod)) → Keeps (λ (s : Shell W). s.streamed) (or_by_name p config r)
  unfolding or_by_name
  or_by_name-Keeps (err e) = pods_by_name-Keeps
  or_by_name-Keeps (ok []) = pods_by_name-Keeps
  or_by_name-Keeps (ok (x ∷ xs)) = record { at = λ s. refl }

  pub find-Keeps :
      (node : Text) → Keeps (λ (s : Shell W). s.streamed) (find_healthy_etcd_pod p config node)
  unfolding find_healthy_etcd_pod
  find-Keeps node = search (keeps_rules, list_pods-Keeps, or_by_name-Keeps)

  pub find-IsHealthy :
      (node : Text) (s : Shell W) (pod : Pod)
      → (find_healthy_etcd_pod p config node s).0 ≡ ok pod
      → IsHealthy node pod
  unfolding find_healthy_etcd_pod
  find-IsHealthy node s pod h =
      let (pods, listed, chosen) =
        bind_ok
          (attempt (list_pods p config (codes "component=etcd,tier=control-plane"))
            >>= or_by_name p config)
          (λ (pods : List Pod). lift (first_candidate node pods)) s pod (h) in
      first_candidate-IsHealthy node pods pod chosen

  -- The API server listed the pod under the labels of etcd, or its name begins like that of an etcd
  -- pod.
  abbrev pub IsEtcdPod : Shell W → Pod → Type 0
  IsEtcdPod s pod =
      ((pods : List Pod) × (before : List Pod) × (after : List Pod) × ((list_pods p config
            (codes "component=etcd,tier=control-plane") s).0
          ≡ ok pods)
        × (pods ≡ before ++ (pod ∷ after)))
      ⊎ (has_prefix pod.name (codes "etcd-") ≡ true)

  -- The list that the loop runs over is the labelled one, or was filtered by name.
  by_name-filtered :
      (s : Shell W) (pods : List Pod)
      → (pods_by_name p config s).0 ≡ ok pods
      → (all_pods : List Pod) × (pods ≡ keep (λ pod. has_prefix pod.name (codes "etcd-")) all_pods)
  unfolding pods_by_name
  by_name-filtered s pods h =
      let (all_pods, _, last) =
        bind_ok
          (or_wrap (codes "failed to list pods in " ++ etcd_namespace) (list_pods p config [])) _ s
          pods (h) in
      (all_pods, sym (ok_injective last))

  or_by_name-source :
      (r : Outcome (List Pod)) (s : Shell W) (pods : List Pod)
      → (or_by_name p config r s).0 ≡ ok pods
      → (r ≡ ok pods)
        ⊎ ((all_pods : List Pod) × (pods
              ≡ keep (λ pod. has_prefix pod.name (codes "etcd-")) all_pods))
  unfolding or_by_name
  or_by_name-source (err e) s pods h = inr (by_name-filtered s pods h)
  or_by_name-source (ok []) s pods h = inr (by_name-filtered s pods h)
  or_by_name-source (ok (x ∷ xs)) s pods h = inl h

  pub find-IsEtcdPod :
      (node : Text) (s : Shell W) (pod : Pod)
      → (find_healthy_etcd_pod p config node s).0 ≡ ok pod
      → IsEtcdPod s pod
  unfolding find_healthy_etcd_pod
  find-IsEtcdPod node s pod h =
      let (pods, listed, chosen) =
        bind_ok
          (attempt (list_pods p config (codes "component=etcd,tier=control-plane"))
            >>= or_by_name p config)
          (λ (pods : List Pod). lift (first_candidate node pods)) s pod (h) in
      let found = chosen_found node pods pod chosen in
      elim (or_by_name-source _ _ pods listed) [
        | inl same ↦
            let (before, after, split, _, _) = find?-First (is_candidate node) pods pod found in
            inl (pods, before, after, same, split)
        | inr (all_pods, kept) ↦
            inr (find?-keep (is_candidate node) _ all_pods pod (rw kept at found))
      ]
