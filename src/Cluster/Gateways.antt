-- ===== src/Cluster/Gateways.antt =====
-- ensureGatewayExposed.
use cluster_api_provider_ovh.Prelude.{
  ◌++◌, Option, none, some, Text, codes, is_empty, find?, ◌==◌, plain, Exec, ok, pure, fail,
  or_wrap, ◌>>=◌, ◌>>◌, if◌then◌else◌, true,
}
use cluster_api_provider_ovh.Cloud.{Gateway}
use cluster_api_provider_ovh.Client.Balancers.{list_gateways, expose_gateway}
use cluster_api_provider_ovh.Cluster.Scope.{
  ClusterScope, ClusterState, on_client, set_cluster_status,
}

module _ {W : Type 0} (scope : ClusterScope W) where
  -- `"capi-" + scope.Cluster.Name + "-gw"`
  abbrev pub gateway_name : Text
  gateway_name = codes "capi-" ++ (scope.cluster_name ++ codes "-gw")

  unfoldable pub record_gateway : Option Gateway → Exec (ClusterState W) (Unit {0})
  record_gateway none = pure tt
  record_gateway (some gw) = set_cluster_status λ st. record st { gateway_id = gw.id }

  -- A gateway with an empty ID counts as none, as the code tests the status again.
  unfoldable pub named_gateway : Exec (ClusterState W) (Unit {0})
  named_gateway s =
      if is_empty s.cluster.status.gateway_id
      then fail (plain (codes "no gateway named " ++ (gateway_name ++ codes " found in region"))) s
      else (ok tt, s)

  unfoldable pub discover_gateway : Exec (ClusterState W) (Unit {0})
  unfolding record_gateway named_gateway
  discover_gateway s =
      if is_empty s.cluster.status.gateway_id
      then (do
        gws ← or_wrap (codes "listing gateways") (on_client (list_gateways scope.ovh_client))
        record_gateway (find? (λ gw. gw.name == gateway_name) gws)
        named_gateway)
          s
      else (ok tt, s)

  unfoldable pub expose_known : Exec (ClusterState W) (Unit {0})
  expose_known s =
      (or_wrap (codes "exposing gateway")
            (on_client (expose_gateway scope.ovh_client s.cluster.status.gateway_id))
          >> set_cluster_status (λ st. record st { gateway_exposed = true }))
        s

  -- `ensureGatewayExposed`
  unfoldable pub ensure_gateway_exposed : Exec (ClusterState W) (Unit {0})
  unfolding discover_gateway expose_known
  ensure_gateway_exposed s =
      if s.cluster.status.gateway_exposed then (ok tt, s) else (discover_gateway >> expose_known) s
