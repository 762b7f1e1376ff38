-- ===== src/Cluster/Port.antt =====
-- reconcileLBPort and ensurePoolHealthMonitor: listener, pool and health monitor of one port.
use cluster_api_provider_ovh.Prelude.{
  ℕ, ◌++◌, Option, none, some, [], Text, codes, is_empty, Exec, ok, pure, or_wrap, ◌>>=◌, ◌>>◌,
  if◌then◌else◌,
}
use cluster_api_provider_ovh.Cloud.{Listener, Pool, HealthMonitor}
use cluster_api_provider_ovh.Client.Calls.{quoted}
use cluster_api_provider_ovh.Client.Listeners.{
  find_listener_by_name, create_listener, find_pool_by_name, create_pool,
  find_health_monitor_by_name, create_health_monitor,
}
use cluster_api_provider_ovh.Resources.{OvhClusterStatus}
use cluster_api_provider_ovh.Cluster.Scope.{
  ClusterScope, ClusterState, on_client, set_cluster_status,
}

abbrev pub hm_delay : ℕ
hm_delay = 5

abbrev pub hm_timeout : ℕ
hm_timeout = 3

abbrev pub hm_max_retries : ℕ
hm_max_retries = 2

-- What a `*string` into the status is used for: reading it and writing it.
pub record StatusField : Type 0 where
  pub read : OvhClusterStatus → Text
  pub write : Text → OvhClusterStatus → OvhClusterStatus

module _ {W : Type 0} (scope : ClusterScope W) where
  abbrev pub write_field : StatusField → Text → Exec (ClusterState W) (Unit {0})
  write_field field id = set_cluster_status (field.write id)

  unfoldable pub listener_or_new :
      Text → ℕ → StatusField → Text → Option Listener → Exec (ClusterState W) (Unit {0})
  listener_or_new name port field lb_id (some l) = write_field field l.id
  listener_or_new name port field lb_id none = do
    l ← or_wrap (codes "creating " ++ (name ++ codes " listener")) (
        on_client (
          create_listener scope.ovh_client (record {
            name = name;
            protocol = codes "tcp";
            port = port;
            load_balancer_id = lb_id;
            default_pool_id = [];
          })))
    write_field field l.id

  unfoldable pub ensure_listener : Text → ℕ → StatusField → Exec (ClusterState W) (Unit {0})
  unfolding listener_or_new
  ensure_listener name port field s =
      if is_empty (field.read s.cluster.status)
      then (do
        existing ← or_wrap (codes "looking up " ++ (name ++ codes " listener")) (
            on_client
              (find_listener_by_name scope.ovh_client s.cluster.status.load_balancer_id name))
        listener_or_new name port field s.cluster.status.load_balancer_id existing)
          s
      else (ok tt, s)

  unfoldable pub pool_or_new :
      Text → StatusField → StatusField → Option Pool → Exec (ClusterState W) (Unit {0})
  pool_or_new pool_name listener field (some p) s = write_field field p.id s
  pool_or_new pool_name listener field none s =
      (do
        p ← or_wrap (codes "creating " ++ (pool_name ++ codes " pool")) (
            on_client (
              create_pool scope.ovh_client (record {
                name = pool_name;
                protocol = codes "tcp";
                algorithm = codes "roundRobin";
                listener_id = listener.read s.cluster.status;
                load_balancer_id = s.cluster.status.load_balancer_id;
              })))
        write_field field p.id)
        s

  unfoldable pub ensure_pool : Text → StatusField → StatusField → Exec (ClusterState W) (Unit {0})
  unfolding pool_or_new
  ensure_pool pool_name listener field s =
      if is_empty (field.read s.cluster.status)
      then (do
        existing ← or_wrap (codes "looking up " ++ (pool_name ++ codes " pool")) (
            on_client
              (find_pool_by_name scope.ovh_client s.cluster.status.load_balancer_id pool_name))
        pool_or_new pool_name listener field existing)
          s
      else (ok tt, s)

  unfoldable pub monitor_or_new :
      Text → Text → Option HealthMonitor → Exec (ClusterState W) (Unit {0})
  monitor_or_new pool_id hm_name (some hm) = pure tt
  monitor_or_new pool_id hm_name none = do
    or_wrap (codes "creating health monitor " ++ quoted hm_name) (
        on_client (
          create_health_monitor scope.ovh_client (record {
            name = hm_name;
            monitor_type = codes "tcp";
            delay = hm_delay;
            timeout = hm_timeout;
            max_retries = hm_max_retries;
            pool_id = pool_id;
          })))
    pure tt

  -- `ensurePoolHealthMonitor`
  unfoldable pub ensure_pool_health_monitor : Text → Text → Exec (ClusterState W) (Unit {0})
  unfolding monitor_or_new
  ensure_pool_health_monitor pool_id pool_name = do
    existing ←
        or_wrap (codes "looking up health monitor " ++ quoted (pool_name ++ codes "-hm"))
          (on_client (find_health_monitor_by_name scope.ovh_client (pool_name ++ codes "-hm")))
    monitor_or_new pool_id (pool_name ++ codes "-hm") existing

  -- The monitor is best effort: it is tried again at the next reconciliation.
  unfoldable pub attach_monitor : Text → StatusField → Exec (ClusterState W) (Unit {0})
  attach_monitor pool_name pool s =
      (ok tt, (ensure_pool_health_monitor (pool.read s.cluster.status) pool_name s).1)

  -- `reconcileLBPort`
  unfoldable pub reconcile_lb_port :
      Text → ℕ → StatusField → StatusField → Exec (ClusterState W) (Unit {0})
  unfolding attach_monitor
  reconcile_lb_port name port listener pool =
      ensure_listener name port listener
      >> ensure_pool (name ++ codes "-pool") listener pool
      >> attach_monitor (name ++ codes "-pool") pool
