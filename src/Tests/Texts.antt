-- ===== src/Tests/Texts.antt =====
-- The theorems on errors, names, node taints and images at concrete inputs.
use cluster_api_provider_ovh.Prelude.{
  to_lower, First, ◌||◌, Outcome, err, ℕ, ◌≡◌, ◌⊎◌, refl, Bool, true, false, not, ◌&&◌, none, some,
  List, [], ◌∷◌, ◌++◌, codes, ◌==◌, is_empty, any, GoError, api, wrap, ok, arith,
}
use cluster_api_provider_ovh.Errors.{
  is_already_deleting, says, as_api, is_not_found, is_conflict, is_retryable, is_forbidden,
  is_unauthorized,
}
use cluster_api_provider_ovh.Errors.Classes.{wrap_api_classes}
use cluster_api_provider_ovh.Cloud.{Kind, Reply, Image}
use cluster_api_provider_ovh.Client.Catalog.{find_image_by_name, image_of_id}
use cluster_api_provider_ovh.Client.Images.{exact, holds, find_image_outcome}
use cluster_api_provider_ovh.Resources.{Taint, Node}
use cluster_api_provider_ovh.Client.Balancers.{one_lb_path, list_load_balancers}
use cluster_api_provider_ovh.Client.Retry.{retry_with_backoff, request}
use cluster_api_provider_ovh.Cluster.Scope.{ClusterScope, ClusterState}
use cluster_api_provider_ovh.Cluster.Delete.{delete_orphans}
use cluster_api_provider_ovh.Cluster.Orphans.{is_balancer, deletes, orphans_of_others}
use cluster_api_provider_ovh.Tests.Clouds.{client_of, start, balancer_named}
use cluster_api_provider_ovh.Tests.Fixtures.{kube, cluster}
use cluster_api_provider_ovh.Names.{
  cut_name, trim_right, trim_left, name_byte, join, generate_rfc1035_name,
}
use cluster_api_provider_ovh.Names.Labels.{IsLabel, generate-IsLabel, generate_fixes}
use cluster_api_provider_ovh.Names.Collisions.{lb_name}
use cluster_api_provider_ovh.Names.ProviderId.{
  provider_id_from_instance, parse_provider_id, is_slash, parse-provider_id, provider_id-parse,
}
use cluster_api_provider_ovh.Names.Subnets.{subnet_range, subnet_range_24}

abbrev deleting : GoError
deleting = wrap (codes "deleting") (api 409 (codes "PENDING_DELETE"))

wrap_api_classes_example :
    (is_not_found (wrap (codes "getting") deleting) ≡ is_not_found deleting)
    × (is_conflict (wrap (codes "getting") deleting) ≡ is_conflict deleting)
    × (is_retryable (wrap (codes "getting") deleting) ≡ is_retryable deleting)
    × (is_forbidden (wrap (codes "getting") deleting) ≡ is_forbidden deleting)
    × (is_unauthorized (wrap (codes "getting") deleting) ≡ is_unauthorized deleting)
    × ((not (is_already_deleting deleting) || is_already_deleting (wrap (codes "getting") deleting))
        ≡ true)
    × (is_already_deleting (wrap (codes "getting") deleting) ≡ (
        is_conflict deleting
        && (says (wrap (codes "getting") deleting) (codes "PENDING_DELETE")
            || says (wrap (codes "getting") deleting) (codes "PENDING_UPDATE"))))
unfolding as_api
wrap_api_classes_example = wrap_api_classes (codes "getting") deleting 409 refl

abbrev images : List Image
images = image_of_id (codes "Ubuntu 22.04 UEFI") [] ∷ image_of_id (codes "ubuntu 22.04") [] ∷ []

find_image_outcome_example :
    ((i : Image) × (find_image_by_name images (codes "Ubuntu 22.04") ≡ some i)
      × First (exact (codes "Ubuntu 22.04")) images i)
    ⊎ ((i : Image) × (find_image_by_name images (codes "Ubuntu 22.04") ≡ some i)
        × (any (exact (codes "Ubuntu 22.04")) images ≡ false)
        × First (holds (codes "Ubuntu 22.04")) images i)
    ⊎ ((find_image_by_name images (codes "Ubuntu 22.04") ≡ none)
        × (any (exact (codes "Ubuntu 22.04")) images ≡ false)
        × (any (holds (codes "Ubuntu 22.04")) images ≡ false))
find_image_outcome_example = find_image_outcome images (codes "Ubuntu 22.04")

abbrev node : Node
node = record {
  provider_id = [];
  taints =
      record {
        key = codes "node.cloudprovider.kubernetes.io/uninitialized";
        value = codes "true";
        effect = codes "NoSchedule";
      }
      ∷ record { key = codes "gpu"; value = []; effect = codes "NoSchedule" }
      ∷ [];
}

abbrev is_gpu : Taint → Bool
is_gpu t = t.key == codes "gpu"

generate-IsLabel_example : IsLabel (generate_rfc1035_name (codes "-Demo_1" ∷ codes "CP.0-" ∷ []))
generate-IsLabel_example = generate-IsLabel (codes "-Demo_1" ∷ codes "CP.0-" ∷ [])

demo_IsLabel : IsLabel (join (codes "-") (codes "capi" ∷ codes "a" ∷ codes "lb" ∷ []))
unfolding join codes
demo_IsLabel = record {
  bytes = (refl, (refl, (refl, (refl, (refl, (refl, (refl, (refl, (refl, tt)))))))));
  no_dash_first = refl;
  no_dash_last = refl;
  short = omega arith;
}

generate_fixes_example :
    generate_rfc1035_name (codes "capi" ∷ codes "a" ∷ codes "lb" ∷ [])
    ≡ join (codes "-") (codes "capi" ∷ codes "a" ∷ codes "lb" ∷ [])
generate_fixes_example = generate_fixes (codes "capi" ∷ codes "a" ∷ codes "lb" ∷ []) demo_IsLabel

other_IsLabel :
    IsLabel (
      join (codes "-") (codes "capi" ∷ (codes "a" ++ (codes "-lb" ++ codes "x")) ∷ codes "lb" ∷ []))
unfolding join codes
other_IsLabel = record {
  bytes = (
    refl,
    (
      refl,
      (refl, (refl, (refl, (refl, (refl, (refl, (refl, (refl, (refl, (refl, (refl, tt))))))))))),
    ),
  );
  no_dash_first = refl;
  no_dash_last = refl;
  short = omega arith;
}

-- The cloud lists the balancer of the cluster "a-lbx".
abbrev lists_other : (k : Kind) → Outcome (Reply k)
lists_other Kind.load_balancers = ok (balancer_named (lb_name (codes "a-lbx")) ∷ [])
lists_other Kind.nothing = ok tt
lists_other k = err (api 404 (codes "no such resource"))

abbrev scope_a : ClusterScope ℕ
scope_a = record {
  cluster_name = codes "a";
  ovh_client = client_of (record { call = λ k m p b n. (lists_other k, n) });
}

abbrev state_a : ClusterState ℕ
state_a = record { cluster = cluster; world = start }

listed_other :
    (list_load_balancers scope_a.ovh_client start).0
    ≡ ok (balancer_named (lb_name (codes "a-lbx")) ∷ [])
unfolding list_load_balancers retry_with_backoff request
listed_other = refl

shown_other :
    any
      (is_balancer (lb_name (codes "a" ++ (codes "-lb" ++ codes "x"))) (codes "lb-1"))
      (balancer_named (lb_name (codes "a-lbx")) ∷ [])
    ≡ true
unfolding codes ◌==◌ lb_name generate_rfc1035_name cut_name trim_right trim_left to_lower join
    name_byte
shown_other = refl

orphans_of_others_example :
    any
      (deletes (one_lb_path scope_a.ovh_client (codes "lb-1")))
      (delete_orphans kube scope_a state_a).1.world.events
    ≡ true
orphans_of_others_example =
    orphans_of_others kube scope_a (codes "x") (codes "lb-1")
      (balancer_named (lb_name (codes "a-lbx")) ∷ []) state_a demo_IsLabel other_IsLabel
      listed_other shown_other

parse-provider_id_example :
    parse_provider_id (provider_id_from_instance (codes "GRA7") (codes "i/1"))
    ≡ ok (codes "GRA7", codes "i/1")
unfolding codes
parse-provider_id_example = parse-provider_id (codes "GRA7") (codes "i/1") refl refl refl

parses :
    parse_provider_id (provider_id_from_instance (codes "GRA7") (codes "i-1"))
    ≡ ok (codes "GRA7", codes "i-1")
unfolding codes
parses = parse-provider_id (codes "GRA7") (codes "i-1") refl refl refl

provider_id-parse_example :
    (provider_id_from_instance (codes "GRA7") (codes "i-1")
      ≡ provider_id_from_instance (codes "GRA7") (codes "i-1"))
    × (is_empty (codes "GRA7") ≡ false)
    × (is_empty (codes "i-1") ≡ false)
    × (any is_slash (codes "GRA7") ≡ false)
provider_id-parse_example =
    provider_id-parse (provider_id_from_instance (codes "GRA7") (codes "i-1")) (codes "GRA7")
      (codes "i-1") parses

subnet_range_24_example :
    subnet_range ((codes "10.0.0" ++ (codes "." ++ codes "0")) ++ codes "/24")
    ≡ ((codes "10.0.0" ++ codes ".") ++ codes "2", (codes "10.0.0" ++ codes ".") ++ codes "254")
unfolding codes
subnet_range_24_example = subnet_range_24 (codes "10.0.0") (codes "0") refl refl
