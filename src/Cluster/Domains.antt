-- ===== src/Cluster/Domains.antt =====
-- reconcileFailureDomains and reconcileDNS.
use cluster_api_provider_ovh.Prelude.{
  ℕ, true, ◌&&◌, Option, none, some, List, [], ◌∷◌, map, Text, codes, is_empty, ◌==◌, nat_eq, Exec,
  Outcome, ok, err, pure, attempt, or_wrap, ◌>>=◌, ◌>>◌, if◌then◌else◌,
}
use cluster_api_provider_ovh.Cloud.{RegionService, RegionInfo}
use cluster_api_provider_ovh.Client.Regions.{get_region_info, create_dns_record, refresh_dns_zone}
use cluster_api_provider_ovh.Resources.{FailureDomain, OvhDnsConfig}
use cluster_api_provider_ovh.Cluster.Scope.{
  ClusterScope, ClusterState, on_client, set_cluster_status,
}

abbrev pub control_plane_domain : Text → FailureDomain
control_plane_domain name = record { name = name; control_plane = some true }

-- One domain for each instance service that is up.
unfoldable pub service_domains : Text → List RegionService → List FailureDomain
service_domains region [] = []
service_domains region (svc ∷ svcs) =
    let rest = service_domains region svcs in
    if svc.name == codes "instance" && svc.status == codes "UP"
    then control_plane_domain region ∷ rest
    else rest

unfoldable pub domains_of : List Text → Text → RegionInfo → List FailureDomain
domains_of [] region info = service_domains region info.services
domains_of (fd ∷ fds) region info = map control_plane_domain (fd ∷ fds)

-- `if record.Name == "" { … }` and `if ttl == 0 { … }`
abbrev pub or_cluster_name : Text → Text → Text
or_cluster_name name cluster_name = if is_empty name then cluster_name else name

abbrev pub or_default_ttl : ℕ → ℕ
or_default_ttl ttl = if nat_eq ttl 0 then 300 else ttl

module _ {W : Type 0} (scope : ClusterScope W) where
  unfoldable pub record_domains : List FailureDomain → Exec (ClusterState W) (Unit {0})
  record_domains [] = pure tt
  record_domains (fd ∷ fds) = set_cluster_status λ st. record st { failure_domains = fd ∷ fds }

  unfoldable pub discovered : Outcome RegionInfo → Exec (ClusterState W) (Unit {0})
  unfolding record_domains
  discovered (err e) s = (ok tt, s)
  discovered (ok info) s =
      record_domains (domains_of s.cluster.spec.failure_domains s.cluster.spec.region info) s

  unfoldable pub discover : List FailureDomain → Exec (ClusterState W) (Unit {0})
  unfolding discovered
  discover (fd ∷ fds) = pure tt
  discover [] = do info ← attempt (on_client (get_region_info scope.ovh_client)); discovered info

  -- `reconcileFailureDomains`
  unfoldable pub reconcile_failure_domains : Exec (ClusterState W) (Unit {0})
  unfolding discover
  reconcile_failure_domains s = discover s.cluster.status.failure_domains s

  unfoldable pub create_record : OvhDnsConfig → Text → Exec (ClusterState W) (Unit {0})
  create_record dns host = do
    created ← or_wrap (codes "creating DNS record") (
        on_client (
          create_dns_record scope.ovh_client dns.zone_name (record {
            field_type = codes "A";
            sub_domain = or_cluster_name dns.record_name scope.cluster_name;
            target = host;
            ttl = or_default_ttl dns.ttl;
          })))
    set_cluster_status (λ st. record st { dns_record_id = created.id })
    attempt (on_client (refresh_dns_zone scope.ovh_client dns.zone_name))
    pure tt

  unfoldable pub dns_of : Option OvhDnsConfig → Exec (ClusterState W) (Unit {0})
  unfolding create_record
  dns_of none s = (ok tt, s)
  dns_of (some dns) s =
      if nat_eq s.cluster.status.dns_record_id 0
      then (if is_empty s.cluster.spec.control_plane_endpoint.host
            then pure tt
            else create_record dns s.cluster.spec.control_plane_endpoint.host)
          s
      else (ok tt, s)

  -- `reconcileDNS`
  unfoldable pub reconcile_dns : Exec (ClusterState W) (Unit {0})
  unfolding dns_of
  reconcile_dns s = dns_of s.cluster.spec.dns_config s
