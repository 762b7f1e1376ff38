-- ===== src/Reconcile/Credentialed.antt =====
-- Which identity secrets make a client.
use cluster_api_provider_ovh.Prelude.{
  ◌≡◌, sym, ap, ◌∙◌, inl, inr, Bool, Bool-cases, false, ◌||◌, Text, codes, is_empty, Outcome-cases,
  ok, ok_injective, arith,
}
use cluster_api_provider_ovh.Cloud.{World}
use cluster_api_provider_ovh.Client.Retry.{Client}
use cluster_api_provider_ovh.Resources.{OvhCluster, SecretKey, TextMap, lookup_text}
use cluster_api_provider_ovh.Reconcile.Server.{Manager}
use cluster_api_provider_ovh.Reconcile.Clients.{
  new_client, new_client_from_secret, get_ovh_client_from_cluster,
}

-- The four keys of the secret, each with a value.
pub record HasCredentials (values : TextMap) : Type 0 where
  pub endpoint : is_empty (lookup_text (codes "endpoint") values) ≡ false
  pub app_key : is_empty (lookup_text (codes "applicationKey") values) ≡ false
  pub app_secret : is_empty (lookup_text (codes "applicationSecret") values) ≡ false
  pub consumer_key : is_empty (lookup_text (codes "consumerKey") values) ≡ false

all_false :
    (a b c d : Bool)
    → (a || (b || (c || d))) ≡ false
    → (a ≡ false) × (b ≡ false) × (c ≡ false) × (d ≡ false)
all_false a b c d h = ground arith

module _ {W : Type 0} (m : Manager W) where
  new_client-api :
      (endpoint app_key app_secret consumer_key service_name region : Text) (c : Client W)
      → new_client m endpoint app_key app_secret consumer_key service_name region ≡ ok c
      → (m.new_api endpoint app_key app_secret consumer_key ≡ ok c.api)
        × (c.service_name ≡ service_name)
        × (c.region ≡ region)
  unfolding new_client
  new_client-api endpoint app_key app_secret consumer_key service_name region c made =
      elim (Outcome-cases (m.new_api endpoint app_key app_secret consumer_key)) [
        | inr (e, failed) ↦ absurd (let h = rw failed at made in cc)
        | inl (api, answered) ↦
            let same = ok_injective (rw answered at made) in
            (
              answered ∙ ap (λ (x : Client W). ok x.api) same,
              sym (ap (λ (x : Client W). x.service_name) same),
              sym (ap (λ (x : Client W). x.region) same),
            )
      ]

  from_secret-credentials :
      (ref : SecretKey) (values : TextMap) (service_name region : Text) (c : Client W)
      → new_client_from_secret m ref values service_name region ≡ ok c
      → HasCredentials values
        × (m.new_api
              (lookup_text (codes "endpoint") values)
              (lookup_text (codes "applicationKey") values)
              (lookup_text (codes "applicationSecret") values)
              (lookup_text (codes "consumerKey") values)
            ≡ ok c.api)
        × (c.service_name ≡ service_name)
        × (c.region ≡ region)
  unfolding new_client_from_secret
  from_secret-credentials ref values service_name region c made =
      let blank =
        is_empty (lookup_text (codes "endpoint") values)
        || (is_empty (lookup_text (codes "applicationKey") values)
            || (is_empty (lookup_text (codes "applicationSecret") values)
                || is_empty (lookup_text (codes "consumerKey") values))) in
      elim (Bool-cases blank) [
        | inl missing ↦ absurd (let h = rw missing at made in cc)
        | inr complete ↦
            let (endpoint, app_key, app_secret, consumer_key) = all_false _ _ _ _ complete in
            let (api, service, place) =
              new_client-api _ _ _ _ service_name region c (rw complete at made) in
            (
              record {
                endpoint = endpoint;
                app_key = app_key;
                app_secret = app_secret;
                consumer_key = consumer_key;
              },
              api,
              service,
              place,
            )
      ]

  -- GetOVHClientFromCluster makes a client only from a secret that was read under the namespace and
  -- name of the cluster's identity secret and has a value for all four keys; the client's calls go
  -- to the API that the library made from exactly these values, for the service and the region of
  -- the cluster.
  pub client-HasCredentials :
      (cluster : OvhCluster) (w : World W) (c : Client W)
      → (get_ovh_client_from_cluster m cluster w).0 ≡ ok c
      → (values : TextMap) × ((m.kube.get_secret cluster.spec.identity_secret.namespace
            cluster.spec.identity_secret.name w.cloud).0
          ≡ ok values)
        × HasCredentials values
        × (m.new_api
              (lookup_text (codes "endpoint") values)
              (lookup_text (codes "applicationKey") values)
              (lookup_text (codes "applicationSecret") values)
              (lookup_text (codes "consumerKey") values)
            ≡ ok c.api)
        × (c.service_name ≡ cluster.spec.service_name)
        × (c.region ≡ cluster.spec.region)
  unfolding get_ovh_client_from_cluster
  client-HasCredentials cluster w c made =
      let ref = cluster.spec.identity_secret in
      elim (Outcome-cases (m.kube.get_secret ref.namespace ref.name w.cloud).0) [
        | inr (e, failed) ↦ absurd (let h = rw failed at made in cc)
        | inl (values, read) ↦
            let (has, api, service, region) =
              from_secret-credentials ref values cluster.spec.service_name cluster.spec.region c
                (rw read at made) in
            (values, read, has, api, service, region)
      ]
