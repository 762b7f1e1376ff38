-- ===== src/Etcd/Extension.antt =====
-- A removal that hits the member of another node: the code matches names by a prefix.
use cluster_api_provider_ovh.Prelude.{
  ℕ, bind-lift, ◌≡◌, ap, ◌∙◌, ◌++◌, true, List, ◌∷◌, Text, codes, has_prefix-append, has_prefix, ok,
}
use cluster_api_provider_ovh.Etcd.Pods.{Pod, PodApi, PodExec, Shell, EtcdMember}
use cluster_api_provider_ovh.Etcd.Commands.{
  list_command, remove_command, remove_failed, is_member_of, run_in_pod, exec_in_pod, etcd_exec,
  parsed, list_etcd_members, remove_etcd_member_by_id, remove_target, remove_in,
}
use cluster_api_provider_ovh.Etcd.Trail.{in_etcd}

extension-is_member :
    (node rest : Text) (m : EtcdMember)
    → m.name ≡ (node ++ codes "-") ++ rest
    → is_member_of node m ≡ true
unfolding is_member_of
extension-is_member node rest m named =
    let starts : has_prefix m.name (node ++ codes "-") ≡ true =
      rw named (has_prefix-append (node ++ codes "-") rest) in
    rw starts

module _ {W : Type 0} (p : PodApi W) (config : Text) where
  etcd_exec-started :
      (what : Text) (pod : Pod) (cmd : List Text) (s : Shell W)
      → p.new_executor config (in_etcd pod cmd) ≡ ok tt
      → (etcd_exec p config what pod cmd s).1.streamed ≡ in_etcd pod cmd ∷ s.streamed
  unfolding etcd_exec exec_in_pod run_in_pod
  etcd_exec-started what pod cmd s started = rw started

  list_etcd_members-started :
      (pod : Pod) (s : Shell W)
      → p.new_executor config (in_etcd pod list_command) ≡ ok tt
      → (list_etcd_members p config pod s).1.streamed ≡ in_etcd pod list_command ∷ s.streamed
  unfolding list_etcd_members
  list_etcd_members-started pod s started =
      ap (λ (t : Shell W). t.streamed)
        (bind-lift (etcd_exec p config (codes "etcdctl member list failed") pod list_command)
          (λ out. parsed p config out (p.parse_members out)) s)
      ∙ etcd_exec-started (codes "etcdctl member list failed") pod list_command s started

  remove_etcd_member_by_id-started :
      (pod : Pod) (id : ℕ) (s : Shell W)
      → p.new_executor config (in_etcd pod (remove_command id)) ≡ ok tt
      → (remove_etcd_member_by_id p config pod id s).1.streamed
        ≡ in_etcd pod (remove_command id) ∷ s.streamed
  unfolding remove_etcd_member_by_id
  remove_etcd_member_by_id-started pod id s started =
      ap (λ (t : Shell W). t.streamed)
        (bind-lift (etcd_exec p config (remove_failed id) pod (remove_command id)) (λ out. ok tt) s)
      ∙ etcd_exec-started (remove_failed id) pod (remove_command id) s started

  -- When the first member of the listing bears a name that goes on behind the name of the deleted
  -- node with a dash, it is removed, whatever members follow: also when it is the member of another
  -- node, whose name goes on so, and the deleted node's own member follows. Every command is taken
  -- to start, and the listing to succeed.
  pub first_extension_removed :
      (node rest : Text) (pod : Pod) (m : EtcdMember) (ms : List EtcdMember) (s : Shell W)
      → m.name ≡ (node ++ codes "-") ++ rest
      → ((request : PodExec) → p.new_executor config request ≡ ok tt)
      → (list_etcd_members p config pod s).0 ≡ ok (m ∷ ms)
      → (remove_in p config node pod s).1.streamed
        ≡ in_etcd pod (remove_command m.id) ∷ in_etcd pod list_command ∷ s.streamed
  unfolding remove_in remove_target
  first_extension_removed node rest pod m ms s named starts listed =
      rw (listed, extension-is_member node rest m named)
        (remove_etcd_member_by_id-started pod m.id _ (starts _)
          ∙ ap (λ l. in_etcd pod (remove_command m.id) ∷ l)
              (list_etcd_members-started pod s (starts _)))
