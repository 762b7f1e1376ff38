-- ===== src/Tests/Etcds.antt =====
-- A workload cluster with one etcd pod, on the node "cp-1", from which the member of "cp-0" goes.
use cluster_api_provider_ovh.Prelude.{
  ℕ, ◌≡◌, refl, ◌⊎◌, none, [], ◌∷◌, ◌++◌, ◌+◌, Text, codes, ◌==◌, has_prefix, ok,
}
use cluster_api_provider_ovh.Resources.{condition_true}
use cluster_api_provider_ovh.Etcd.{
  Pod, PodApi, Shell, EtcdMember, Chosen, Targeted, in_etcd, list_command, remove_command,
  list_etcd_members, remove_in, remove_etcd_member, remove_trail, first_extension_removed,
}

abbrev pod : Pod
pod = record {
  namespace = codes "kube-system";
  name = codes "etcd-cp-1";
  node_name = codes "cp-1";
  phase = codes "Running";
  conditions = record { kind = codes "Ready"; status = condition_true } ∷ [];
}

abbrev member_of : Text → ℕ → EtcdMember
member_of name id = record { id = id; name = name; peer_urls = []; client_urls = [] }

abbrev pods : PodApi ℕ
pods = record {
  new_for_config = λ config. ok tt;
  list_pods = λ config namespace selector n. (ok (pod ∷ []), n);
  new_executor = λ config request. ok tt;
  stream = λ config request n. (record { stdout = []; stderr = []; error = none }, n + 1);
  parse_members = λ stdout. ok (record {
    members = member_of (codes "cp-0-b-91") 1234567 ∷ member_of (codes "cp-0-17") 255 ∷ [];
  });
}

abbrev idle : Shell ℕ
idle = record { outside = 0; streamed = [] }

remove_trail_example :
    ((remove_etcd_member pods [] (codes "cp-0") idle).streamed ≡ [])
    ⊎ ((q : Pod) × Chosen pods [] (codes "cp-0") idle q
        × (((remove_etcd_member pods [] (codes "cp-0") idle).streamed ≡ in_etcd q list_command ∷ [])
            ⊎ ((m : EtcdMember) × Targeted pods [] (codes "cp-0") idle q m
                × ((remove_etcd_member pods [] (codes "cp-0") idle).streamed
                    ≡ in_etcd q (remove_command m.id) ∷ in_etcd q list_command ∷ []))))
remove_trail_example = remove_trail pods [] (codes "cp-0") idle

-- The member of the node "cp-0-b" goes, and that of "cp-0" stays.
listed :
    (list_etcd_members pods [] pod idle).0
    ≡ ok (member_of (codes "cp-0-b-91") 1234567 ∷ member_of (codes "cp-0-17") 255 ∷ [])
unfolding list_etcd_members
listed = refl

named : (member_of (codes "cp-0-b-91") 1234567).name ≡ (codes "cp-0" ++ codes "-") ++ codes "b-91"
unfolding codes
named = refl

first_extension_removed_example :
    (remove_in pods [] (codes "cp-0") pod idle).1.streamed
    ≡ in_etcd pod (remove_command 1234567) ∷ in_etcd pod list_command ∷ []
first_extension_removed_example =
    first_extension_removed pods [] (codes "cp-0") (codes "b-91") pod
      (member_of (codes "cp-0-b-91") 1234567) (member_of (codes "cp-0-17") 255 ∷ []) idle named
      (λ request. refl) listed

-- The whole function on this cluster.
removed :
    (remove_etcd_member pods [] (codes "cp-0") idle).streamed
    ≡ in_etcd pod (remove_command 1234567) ∷ in_etcd pod list_command ∷ []
unfolding remove_etcd_member codes ◌==◌ has_prefix
removed = refl
