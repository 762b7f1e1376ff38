-- ===== src/Cluster/Ports.antt =====
-- The same for the ports, the gateway and the floating IP of the balancer, and for its
-- creation: the specification and the readiness stay.
use cluster_api_provider_ovh.Prelude.{
  ℕ, Bool-cases, inl, inr, ◌≡◌, refl, Option, none, some, List, [], Text, codes, ◌++◌, is_empty,
  Outcome, ok, err, ◌>>◌, Keeps-pure, Keeps-if, Keeps-bind, Keeps-then, arith,
}
use cluster_api_provider_ovh.Errors.{is_not_found}
use cluster_api_provider_ovh.Cloud.{LoadBalancer, Listener, Pool, FloatingIp, FloatingIpRef}
use cluster_api_provider_ovh.Resources.{OvhClusterStatus, Kube}
use cluster_api_provider_ovh.Cluster.Scope.{ClusterScope, set_cluster_status}
use cluster_api_provider_ovh.Cluster.Frames.{KeepsCore, call-Keeps, attempt-Keeps}
use cluster_api_provider_ovh.Client.Listeners.{
  find_listener_by_name, create_listener, find_pool_by_name, create_pool,
}
use cluster_api_provider_ovh.Client.Balancers.{get_load_balancer, create_load_balancer_floating_ip}
use cluster_api_provider_ovh.Client.Storage.{list_floating_ips, get_floating_ip}
use cluster_api_provider_ovh.Cluster.Port.{
  StatusField, write_field, listener_or_new, ensure_listener, pool_or_new, ensure_pool,
  monitor_or_new, ensure_pool_health_monitor, attach_monitor, reconcile_lb_port,
}
use cluster_api_provider_ovh.Cluster.Gateways.{
  record_gateway, named_gateway, discover_gateway, expose_known, ensure_gateway_exposed,
}
use cluster_api_provider_ovh.Cluster.FloatingIps.{
  record_fip, try_expose, settle_listed, settle_by_list, settle_by_ref, settle, allocate,
  adopt_listed, adopt_by_list, rediscover, judge_fip, by_recorded_fip, by_ref,
  reconcile_floating_ip,
}
use cluster_api_provider_ovh.Cluster.Balancer.{
  create_new_lb, flavor_or_condition, create_with, create_on, record_lb,
}

-- A field of the status other than the readiness.
pub record IsQuiet (field : StatusField) : Type 0 where
  pub ready : (id : Text) (st : OvhClusterStatus) → (field.write id st).ready ≡ st.ready
  pub initialization :
      (id : Text) (st : OvhClusterStatus) → (field.write id st).initialization ≡ st.initialization

module _ {W : Type 0} (k : Kube W) (scope : ClusterScope W) where
  write-Keeps :
      (field : StatusField) (id : Text)
      → IsQuiet field
      → KeepsCore {W = W} (set_cluster_status (field.write id))
  write-Keeps field id quiet = record {
    at = λ s.
        ground (arith, quiet.ready id s.cluster.status, quiet.initialization id s.cluster.status);
  }

  listener_or_new-Keeps :
      (name : Text) (port : ℕ) (field : StatusField) (lb_id : Text) (found : Option Listener)
      → IsQuiet field
      → KeepsCore (listener_or_new scope name port field lb_id found)
  unfolding listener_or_new
  listener_or_new-Keeps name port field lb_id (some l) quiet = write-Keeps field l.id quiet
  listener_or_new-Keeps name port field lb_id none quiet =
      call-Keeps _ (create_listener scope.ovh_client _) (λ l. write_field scope field l.id)
        (λ l. write-Keeps field l.id quiet)

  listener-Keeps :
      (name : Text) (port : ℕ) (field : StatusField)
      → IsQuiet field
      → KeepsCore (ensure_listener scope name port field)
  unfolding ensure_listener
  listener-Keeps name port field quiet = record {
    at = λ s. elim (Bool-cases (is_empty (field.read s.cluster.status))) [
      | inr set ↦ rw set
      | inl unset ↦ rw unset (
          (call-Keeps _
              (find_listener_by_name scope.ovh_client s.cluster.status.load_balancer_id name)
              (listener_or_new scope name port field s.cluster.status.load_balancer_id)
              (λ found.
                listener_or_new-Keeps name port field s.cluster.status.load_balancer_id found
                  quiet)).at
            s)
    ];
  }

  pool_or_new-Keeps :
      (name : Text) (listener field : StatusField) (found : Option Pool)
      → IsQuiet field
      → KeepsCore (pool_or_new scope name listener field found)
  unfolding pool_or_new
  pool_or_new-Keeps name listener field (some p) quiet = record {
    at = λ s. (write-Keeps field p.id quiet).at s;
  }
  pool_or_new-Keeps name listener field none quiet = record {
    at = λ s.
        (call-Keeps _ (create_pool scope.ovh_client _) (λ p. write_field scope field p.id)
            (λ p. write-Keeps field p.id quiet)).at
          s;
  }

  pool-Keeps :
      (name : Text) (listener field : StatusField)
      → IsQuiet field
      → KeepsCore (ensure_pool scope name listener field)
  unfolding ensure_pool
  pool-Keeps name listener field quiet = record {
    at = λ s. elim (Bool-cases (is_empty (field.read s.cluster.status))) [
      | inr set ↦ rw set
      | inl unset ↦ rw unset (
          (call-Keeps _ (find_pool_by_name scope.ovh_client s.cluster.status.load_balancer_id name)
              (pool_or_new scope name listener field)
              (λ found. pool_or_new-Keeps name listener field found quiet)).at
            s)
    ];
  }

  monitor-Keeps : (pool_id name : Text) → KeepsCore (ensure_pool_health_monitor scope pool_id name)
  unfolding ensure_pool_health_monitor monitor_or_new
  monitor-Keeps pool_id name = record { at = λ s. ground arith }

  pub port-Keeps :
      (name : Text) (port : ℕ) (listener pool : StatusField)
      → IsQuiet listener
      → IsQuiet pool
      → KeepsCore (reconcile_lb_port scope name port listener pool)
  unfolding reconcile_lb_port attach_monitor
  port-Keeps name port listener pool l p =
      Keeps-then {n = attach_monitor scope (name ++ codes "-pool") pool}
        (Keeps-then (listener-Keeps name port listener l)
          (pool-Keeps (name ++ codes "-pool") listener pool p))
        (record {
          at = λ s. (monitor-Keeps (pool.read s.cluster.status) (name ++ codes "-pool")).at s;
        })

  gateway-Keeps : KeepsCore (ensure_gateway_exposed scope)
  unfolding ensure_gateway_exposed discover_gateway expose_known record_gateway named_gateway
  gateway-Keeps = record { at = λ s. ground arith }

  pub create_new_lb-Keeps : KeepsCore (create_new_lb k scope)
  unfolding create_new_lb flavor_or_condition create_with create_on record_lb
  create_new_lb-Keeps = record { at = λ s. ground arith }

  settle-Keeps : (id : Text) (lb : Outcome LoadBalancer) → KeepsCore (settle scope id lb)
  unfolding settle settle_by_ref settle_by_list settle_listed
  settle-Keeps id lb = record { at = λ s. ground arith }

  expose-Keeps : KeepsCore (try_expose scope)
  unfolding try_expose
  expose-Keeps = record { at = λ s. gateway-Keeps.at s }

  allocate-Keeps : (lb : LoadBalancer) → KeepsCore (allocate scope lb)
  unfolding allocate
  allocate-Keeps lb = Keeps-if (is_empty lb.vip_address) (Keeps-pure _) (
      call-Keeps _ (create_load_balancer_floating_ip scope.ovh_client _ _ _) _ (λ u.
        Keeps-bind {m = try_expose scope} expose-Keeps (λ v.
          attempt-Keeps (get_load_balancer scope.ovh_client lb.id) (settle scope lb.id)
            (λ r. settle-Keeps lb.id r))))

  adopt_listed-Keeps :
      (lb : LoadBalancer) (found : Option FloatingIp) → KeepsCore (adopt_listed scope lb found)
  unfolding adopt_listed
  adopt_listed-Keeps lb none = allocate-Keeps lb
  adopt_listed-Keeps lb (some fip) =
      Keeps-then {m = record_fip scope fip.id} (record { at = λ s. refl })
        (Keeps-if (is_empty fip.ip) (Keeps-pure _)
          (Keeps-then {m = try_expose scope} expose-Keeps (Keeps-pure _)))

  adopt_by_list-Keeps :
      (lb : LoadBalancer) (found : Outcome (List FloatingIp))
      → KeepsCore (adopt_by_list scope lb found)
  unfolding adopt_by_list
  adopt_by_list-Keeps lb (err e) = allocate-Keeps lb
  adopt_by_list-Keeps lb (ok fips) = adopt_listed-Keeps lb _

  rediscover-Keeps : (lb : LoadBalancer) → KeepsCore (rediscover scope lb)
  unfolding rediscover
  rediscover-Keeps lb =
      attempt-Keeps (list_floating_ips scope.ovh_client) (adopt_by_list scope lb)
        (λ r. adopt_by_list-Keeps lb r)

  judge_fip-Keeps :
      (lb : LoadBalancer) (found : Outcome FloatingIp) → KeepsCore (judge_fip scope lb found)
  unfolding judge_fip
  judge_fip-Keeps lb (ok fip) = Keeps-pure _
  judge_fip-Keeps lb (err e) =
      Keeps-if (is_not_found e)
        (Keeps-then {m = record_fip scope []} (record { at = λ s. refl }) (rediscover-Keeps lb))
        (Keeps-pure _)

  by_recorded_fip-Keeps : (lb : LoadBalancer) → KeepsCore (by_recorded_fip scope lb)
  unfolding by_recorded_fip
  by_recorded_fip-Keeps lb = record {
    at = λ s. ground (
      arith,
      (rediscover-Keeps lb).at s,
      (Keeps-then {m = try_expose scope} expose-Keeps (
            attempt-Keeps (get_floating_ip scope.ovh_client s.cluster.status.floating_ip_id)
              (judge_fip scope lb) (λ r. judge_fip-Keeps lb r))).at
          s,
    );
  }

  by_ref-Keeps : (lb : LoadBalancer) (ref : Option FloatingIpRef) → KeepsCore (by_ref scope lb ref)
  unfolding by_ref
  by_ref-Keeps lb none = by_recorded_fip-Keeps lb
  by_ref-Keeps lb (some ref) = Keeps-if (is_empty ref.ip) (by_recorded_fip-Keeps lb) (
      Keeps-then {m = record_fip scope ref.id >> try_expose scope}
        (Keeps-then {m = record_fip scope ref.id} {n = try_expose scope} (record { at = λ s. refl })
          expose-Keeps)
        (Keeps-pure ref.ip))

  pub floating_ip-Keeps : (lb : LoadBalancer) → KeepsCore (reconcile_floating_ip scope lb)
  unfolding reconcile_floating_ip
  floating_ip-Keeps lb = by_ref-Keeps lb lb.floating_ip
