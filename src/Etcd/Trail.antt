-- ===== src/Etcd/Trail.antt =====
-- What RemoveEtcdMember runs in the workload cluster: every command it streams, in every outcome.
use cluster_api_provider_ovh.Prelude.{
  bind-lift, ◌≡◌, refl, ap, ◌∙◌, ◌⊎◌, inl, inr, ◌++◌, Bool-cases, true, Option, none, some, List,
  ◌∷◌, Text, codes, ==_iff, has_prefix-rest, has_prefix, find?, First, find?-First, First-test,
  Outcome, Outcome-cases, ok, err, GoError,
}
use cluster_api_provider_ovh.Etcd.Pods.{
  Pod, PodApi, PodExec, Shell, EtcdMember, etcd_container_name, find_healthy_etcd_pod,
}
use cluster_api_provider_ovh.Etcd.Commands.{
  list_command, remove_command, remove_failed, is_member_of, run_in_pod, exec_in_pod, output_of,
  unless_failed, etcd_exec, parsed, list_etcd_members, remove_etcd_member_by_id, remove_target,
  remove_in, remove_etcd_member,
}
use cluster_api_provider_ovh.Etcd.Healthy.{
  IsHealthy, IsEtcdPod, find-Keeps, find-IsHealthy, find-IsEtcdPod,
}

abbrev pub in_etcd : Pod → List Text → PodExec
in_etcd pod cmd = record {
  namespace = pod.namespace;
  pod = pod.name;
  container = etcd_container_name;
  command = cmd;
}

-- The member bears the name of the node, or goes on behind it with a dash.
abbrev pub NamedAfter : Text → EtcdMember → Type 0
NamedAfter node m = (m.name ≡ node) ⊎ ((rest : Text) × (m.name ≡ (node ++ codes "-") ++ rest))

member-NamedAfter : (node : Text) (m : EtcdMember) → is_member_of node m ≡ true → NamedAfter node m
unfolding is_member_of
member-NamedAfter node m h = elim (Bool-cases (has_prefix m.name (node ++ codes "-"))) [
  | inl starts ↦ inr (has_prefix-rest m.name (node ++ codes "-") starts)
  | inr not_so ↦ inl ((==_iff m.name node).0 (rw not_so at h))
]

module _ {W : Type 0} (p : PodApi W) (config : Text) where
  run_in_pod-cases :
      (what : Text) (request : PodExec) (started : Outcome (Unit {0})) (s : Shell W)
      → (((run_in_pod p config request started s).1.streamed ≡ s.streamed)
          × ((e : GoError) × (output_of what (run_in_pod p config request started s).0 ≡ err e)))
        ⊎ ((run_in_pod p config request started s).1.streamed ≡ request ∷ s.streamed)
  unfolding run_in_pod output_of unless_failed
  run_in_pod-cases what request (ok u) s = inr refl
  run_in_pod-cases what request (err e) s = inl (refl, (_, refl))

  -- A command is streamed, or nothing is and the error is returned.
  etcd_exec-cases :
      (what : Text) (pod : Pod) (cmd : List Text) (s : Shell W)
      → (((etcd_exec p config what pod cmd s).1.streamed ≡ s.streamed)
          × ((e : GoError) × ((etcd_exec p config what pod cmd s).0 ≡ err e)))
        ⊎ ((etcd_exec p config what pod cmd s).1.streamed ≡ in_etcd pod cmd ∷ s.streamed)
  unfolding etcd_exec exec_in_pod
  etcd_exec-cases what pod cmd s =
      run_in_pod-cases what (in_etcd pod cmd) (p.new_executor config (in_etcd pod cmd)) s

  list_etcd_members-cases :
      (pod : Pod) (s : Shell W)
      → (((list_etcd_members p config pod s).1.streamed ≡ s.streamed)
          × ((e : GoError) × ((list_etcd_members p config pod s).0 ≡ err e)))
        ⊎ ((list_etcd_members p config pod s).1.streamed ≡ in_etcd pod list_command ∷ s.streamed)
  unfolding list_etcd_members
  list_etcd_members-cases pod s =
      elim (etcd_exec-cases (codes "etcdctl member list failed") pod list_command s) [
        | inl (same, (e, failed)) ↦ inl (rw failed same, (e, rw failed))
        | inr ran ↦ inr (
            ap (λ (t : Shell W). t.streamed)
              (bind-lift (etcd_exec p config (codes "etcdctl member list failed") pod list_command)
                (λ out. parsed p config out (p.parse_members out)) s)
            ∙ ran)
      ]

  -- What follows the list of members: nothing, or one removal.
  remove_target-cases :
      (pod : Pod) (target : Option EtcdMember) (s : Shell W)
      → ((remove_target p config pod target s).1.streamed ≡ s.streamed)
        ⊎ ((m : EtcdMember) × (target ≡ some m)
            × ((remove_target p config pod target s).1.streamed
                ≡ in_etcd pod (remove_command m.id) ∷ s.streamed))
  unfolding remove_target remove_etcd_member_by_id
  remove_target-cases pod none s = inl refl
  remove_target-cases pod (some m) s =
      let judged =
        ap (λ (t : Shell W). t.streamed)
          (bind-lift (etcd_exec p config (remove_failed m.id) pod (remove_command m.id))
            (λ out. ok tt) s) in
      elim (etcd_exec-cases (remove_failed m.id) pod (remove_command m.id) s) [
        | inl (same, failed) ↦ inl (judged ∙ same)
        | inr ran ↦ inr (m, refl, judged ∙ ran)
      ]

  remove_in-cases :
      (node : Text) (pod : Pod) (s : Shell W)
      → ((remove_in p config node pod s).1.streamed ≡ s.streamed)
        ⊎ ((remove_in p config node pod s).1.streamed ≡ in_etcd pod list_command ∷ s.streamed)
        ⊎ ((ms : List EtcdMember) × (m : EtcdMember) × ((list_etcd_members p config pod s).0
              ≡ ok ms)
            × First (is_member_of node) ms m
            × ((remove_in p config node pod s).1.streamed
                ≡ in_etcd pod (remove_command m.id) ∷ in_etcd pod list_command ∷ s.streamed))
  unfolding remove_in
  remove_in-cases node pod s = elim (Outcome-cases (list_etcd_members p config pod s).0) [
    | inr (e, failed) ↦ elim (list_etcd_members-cases pod s) [
      | inl (same, _) ↦ inl (rw failed same)
      | inr ran ↦ inr (inl (rw failed ran))
    ]
    | inl (ms, listed) ↦ elim (list_etcd_members-cases pod s) [
      | inl (same, (e, failed)) ↦ absurd (cc)
      | inr ran ↦
          elim (remove_target-cases pod (find? (is_member_of node) ms)
            (list_etcd_members p config pod s).1) [
              | inl same ↦ inr (inl (rw listed (same ∙ ran)))
              | inr (m, target, removed) ↦ inr (
                  inr (
                    ms,
                    m,
                    listed,
                    find?-First (is_member_of node) ms m target,
                    rw listed (removed ∙ ap (λ l. in_etcd pod (remove_command m.id) ∷ l) ran),
                  ))
            ]
    ]
  ]

  -- The pod that the search, in this state, comes to.
  abbrev pub Chosen : Text → Shell W → Pod → Type 0
  Chosen node s pod =
      ((find_healthy_etcd_pod p config node s).0 ≡ ok pod)
      × IsHealthy node pod
      × IsEtcdPod p config s pod

  -- The first member that the listing in this pod shows under the name of the node.
  abbrev pub Targeted : Text → Shell W → Pod → EtcdMember → Type 0
  Targeted node s pod m =
      (ms : List EtcdMember) × ((list_etcd_members p config pod
          (find_healthy_etcd_pod p config node s).1).0
        ≡ ok ms)
      × First (is_member_of node) ms m
      × NamedAfter node m

  -- RemoveEtcdMember runs nothing, or all that it runs goes to the etcd container of the pod that its
  -- search came to. That pod is ready, stands on another node than the deleted one, and was listed
  -- under the labels of etcd or has a name that begins with "etcd-". What runs is the listing of the
  -- members, and then at most one removal: of the first member of that listing that bears the name
  -- of the deleted node or goes on behind it with a dash.
  pub remove_trail :
      (node : Text) (s : Shell W)
      → ((remove_etcd_member p config node s).streamed ≡ s.streamed)
        ⊎ ((pod : Pod) × Chosen node s pod
            × (((remove_etcd_member p config node s).streamed
                  ≡ in_etcd pod list_command ∷ s.streamed)
                ⊎ ((m : EtcdMember) × Targeted node s pod m
                    × ((remove_etcd_member p config node s).streamed
                        ≡ in_etcd pod (remove_command m.id)
                          ∷ in_etcd pod list_command
                          ∷ s.streamed))))
  unfolding remove_etcd_member
  remove_trail node s = elim (Outcome-cases (p.new_for_config config)) [
    | inr (e, failed) ↦ inl (rw failed)
    | inl (u, made) ↦ elim (Outcome-cases (find_healthy_etcd_pod p config node s).0) [
      | inr (e, failed) ↦ inl (rw (made, failed) ((find-Keeps p config node).at s))
      | inl (pod, found) ↦
          let s1 = (find_healthy_etcd_pod p config node s).1 in
          let same = (find-Keeps p config node).at s in
          let chosen : Chosen node s pod = (
            found,
            find-IsHealthy p config node s pod found,
            find-IsEtcdPod p config node s pod found,
          ) in
          elim (remove_in-cases node pod s1) [
            | inl none_ran ↦ inl (rw (made, found) (none_ran ∙ same))
            | inr (inl ran) ↦ inr (
              pod,
              chosen,
              inl (rw (made, found) (ran ∙ ap (λ l. in_etcd pod list_command ∷ l) same)),
            )
            | inr (inr (ms, m, listed, first, ran)) ↦ inr (
              pod,
              chosen,
              inr (
                m,
                (
                  ms,
                  listed,
                  first,
                  member-NamedAfter node m (First-test (is_member_of node) ms m first),
                ),
                rw (made, found)
                    (ran
                      ∙ ap (λ l. in_etcd pod (remove_command m.id) ∷ in_etcd pod list_command ∷ l)
                          same),
              ),
            )
          ]
    ]
  ]
