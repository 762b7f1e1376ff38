-- ===== src/Tests/Managers.antt =====
-- The entry points of the controllers, with a small API server that holds the machine "cp-0" and
-- its cluster.
use cluster_api_provider_ovh.Prelude.{
  ℕ, ◌≡◌, refl, ◌⊎◌, true, false, some, [], ◌∷◌, codes, ◌==◌, ok,
}
use cluster_api_provider_ovh.Resources.{TextMap, OvhMachine, lookup_text}
use cluster_api_provider_ovh.Reconcile.{
  Manager, OwnerCluster, OwnerMachine, Session, get_ovh_client_from_cluster, reconcile_machine,
  secret_to_ovh_cluster, cluster_to_ovh_cluster, HasCredentials, client-HasCredentials, Unwritten,
  Written, reconcile_machine_writes,
}
use cluster_api_provider_ovh.Tests.Clouds.{flaky, client_of, start}
use cluster_api_provider_ovh.Tests.Fixtures.{kube, cluster, machine_with_id}

abbrev secret : TextMap
secret =
    (codes "endpoint", codes "ovh-eu")
    ∷ (codes "applicationKey", codes "ak")
    ∷ (codes "applicationSecret", codes "as")
    ∷ (codes "consumerKey", codes "ck")
    ∷ []

abbrev owner : OwnerCluster
owner = record {
  namespace = codes "default";
  name = codes "demo";
  infrastructure_ref = record { kind = codes "OVHCluster"; name = codes "demo" };
  infrastructure_provisioned = some true;
}

abbrev machine_owner : OwnerMachine
machine_owner = record {
  namespace = codes "default";
  name = codes "cp-0";
  data_secret_name = some (codes "cp-0-bootstrap");
}

abbrev manager : Manager ℕ
manager = record {
  kube = record kube { get_secret = λ namespace name n. (ok secret, n) };
  get_machine = λ namespace name n. (ok (machine_with_id (codes "i-1")), n);
  get_cluster = λ namespace name n. (ok cluster, n);
  clusters_by_secret = λ name n. (ok (cluster ∷ []), n);
  machine_helper = λ machine. ok tt;
  cluster_helper = λ c. ok tt;
  patch_machine = λ before after n. (ok tt, n);
  patch_cluster = λ before after n. (ok tt, n);
  owner_machine = λ meta n. (ok (some machine_owner), n);
  cluster_of_machine = λ m n. (ok (some owner), n);
  owner_cluster = λ meta n. (ok (some owner), n);
  is_control_plane_machine = λ m. false;
  is_paused = λ c machine. false;
  is_defined = λ ref. true;
  new_api = λ endpoint app_key app_secret consumer_key. ok flaky;
}

abbrev session : Session ℕ OvhMachine
session = record { world = start; patched = [] }

reconcile_machine_writes_example :
    Unwritten manager
      (codes "default")
      (codes "cp-0")
      session
      (reconcile_machine manager (codes "default") (codes "cp-0") session).1
    ⊎ Written manager
        (codes "default")
        (codes "cp-0")
        session
        (reconcile_machine manager (codes "default") (codes "cp-0") session).1
reconcile_machine_writes_example =
    reconcile_machine_writes manager (codes "default") (codes "cp-0") session

made : (get_ovh_client_from_cluster manager cluster start).0 ≡ ok (client_of flaky)
unfolding get_ovh_client_from_cluster codes ◌==◌
made = refl

client-HasCredentials_example :
    (values : TextMap) × ((manager.kube.get_secret (codes "default") (codes "ovh") 0).0 ≡ ok values)
    × HasCredentials values
    × (manager.new_api
          (lookup_text (codes "endpoint") values)
          (lookup_text (codes "applicationKey") values)
          (lookup_text (codes "applicationSecret") values)
          (lookup_text (codes "consumerKey") values)
        ≡ ok flaky)
    × (codes "p1" ≡ codes "p1")
    × (codes "GRA7" ≡ codes "GRA7")
client-HasCredentials_example = client-HasCredentials manager cluster start (client_of flaky) made

-- The watches: the cluster is reconciled when its secret or its owner changes.
by_secret :
    secret_to_ovh_cluster manager (record { namespace = codes "default"; name = codes "ovh" }) 0
    ≡ record { namespace = codes "default"; name = codes "demo" } ∷ []
unfolding secret_to_ovh_cluster codes ◌==◌
by_secret = refl

by_owner :
    cluster_to_ovh_cluster manager owner
    ≡ record { namespace = codes "default"; name = codes "demo" } ∷ []
unfolding cluster_to_ovh_cluster codes ◌==◌
by_owner = refl
