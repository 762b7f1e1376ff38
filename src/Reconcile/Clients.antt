-- ===== src/Reconcile/Clients.antt =====
-- NewClient and NewClientFromSecret (pkg/ovh/client.go), and GetOVHClientFromCluster (util/util.go).
use cluster_api_provider_ovh.Prelude.{
  ◌++◌, ◌||◌, Text, codes, is_empty, plain, Outcome, ok, err, wrap_outcome, and_then, Exec, lift,
  or_wrap, ◌>>=◌, if◌then◌else◌,
}
use cluster_api_provider_ovh.Cloud.{World}
use cluster_api_provider_ovh.Client.Retry.{Client}
use cluster_api_provider_ovh.NodeInit.{outside}
use cluster_api_provider_ovh.Resources.{OvhCluster, SecretKey, TextMap, lookup_text}
use cluster_api_provider_ovh.Reconcile.Server.{Manager}

module _ {W : Type 0} (m : Manager W) where
  -- `NewClient`
  unfoldable pub new_client : Text → Text → Text → Text → Text → Text → Outcome (Client W)
  new_client endpoint app_key app_secret consumer_key service_name region =
      and_then
        (wrap_outcome (codes "creating OVH client")
          (m.new_api endpoint app_key app_secret consumer_key))
        λ api. ok (record { api = api; service_name = service_name; region = region })

  -- `NewClientFromSecret`
  unfoldable pub new_client_from_secret : SecretKey → TextMap → Text → Text → Outcome (Client W)
  unfolding new_client lookup_text
  new_client_from_secret secret values service_name region =
      let endpoint = lookup_text (codes "endpoint") values in
      let app_key = lookup_text (codes "applicationKey") values in
      let app_secret = lookup_text (codes "applicationSecret") values in
      let consumer_key = lookup_text (codes "consumerKey") values in
      if is_empty endpoint || (is_empty app_key || (is_empty app_secret || is_empty consumer_key))
      then err (
          plain (
            codes "secret "
            ++ (secret.namespace
                ++ (codes "/"
                    ++ (secret.name
                        ++ codes
                            " missing required keys (endpoint, applicationKey, applicationSecret, consumerKey)")))))
      else new_client endpoint app_key app_secret consumer_key service_name region

  -- `GetOVHClientFromCluster`
  unfoldable pub get_ovh_client_from_cluster : OvhCluster → Exec (World W) (Client W)
  unfolding new_client_from_secret
  get_ovh_client_from_cluster cluster = do
    let ref = cluster.spec.identity_secret
    values ←
        or_wrap (codes "getting OVH identity secret " ++ (ref.namespace ++ (codes "/" ++ ref.name)))
          (outside (m.kube.get_secret ref.namespace ref.name))
    lift (new_client_from_secret ref values cluster.spec.service_name cluster.spec.region)
