-- ===== src/Client/Listeners.antt =====
-- Listeners, pools, members and health monitors (pkg/ovh/client.go).
use cluster_api_provider_ovh.Prelude.{
  ◌++◌, ◌&&◌, Option, List, [], ◌∷◌, Text, codes, find?, any, ◌==◌, plain, Exec, pure, fail, ◌>>=◌,
}
use cluster_api_provider_ovh.Errors.{is_not_found}
use cluster_api_provider_ovh.Cloud.{
  get, post, delete, Kind, no_body, new_listener, new_pool, new_members, new_health_monitor,
  Listener, CreateListenerOpts, Pool, CreatePoolOpts, Member, CreateMemberOpts, HealthMonitor,
  CreateHealthMonitorOpts, World,
}
use cluster_api_provider_ovh.Client.Retry.{Client, region_path}
use cluster_api_provider_ovh.Client.Calls.{quoted, fetch, drop}
use cluster_api_provider_ovh.Client.Balancers.{gone_or_deleting}

module _ {W : Type 0} (c : Client W) where
  -- `ListListeners`
  unfoldable pub list_listeners : Exec (World W) (List Listener)
  list_listeners =
      fetch c (codes "ListListeners") Kind.listeners get
        (region_path c (codes "/loadbalancing/listener")) no_body (codes "listing listeners")

  -- `FindListenerByName`
  unfoldable pub find_listener_by_name : Text → Text → Exec (World W) (Option Listener)
  find_listener_by_name lb_id name = do
    listeners ← list_listeners
    pure (find? (λ l. l.name == name && any (λ i. i == lb_id) l.load_balancer_ids) listeners)

  -- `FindPoolByName`
  unfoldable pub find_pool_by_name : Text → Text → Exec (World W) (Option Pool)
  find_pool_by_name lb_id name = do
    pools ←
        fetch c (codes "ListPools") Kind.pools get (region_path c (codes "/loadbalancing/pool"))
          no_body (codes "listing pools")
    pure (find? (λ p. p.name == name && p.load_balancer_id == lb_id) pools)

  -- `CreateListener`
  unfoldable pub create_listener : CreateListenerOpts → Exec (World W) Listener
  create_listener opts =
      fetch c (codes "CreateListener") Kind.one_listener post
        (region_path c (codes "/loadbalancing/listener")) (new_listener opts)
        (codes "creating listener " ++ quoted opts.name)

  -- `DeleteListener`
  unfoldable pub delete_listener : Text → Exec (World W) (Unit {0})
  delete_listener listener_id =
      drop c (codes "DeleteListener") delete
        (region_path c (codes "/loadbalancing/listener/" ++ listener_id)) no_body is_not_found
        (codes "deleting listener " ++ listener_id)

  -- `CreatePool`
  unfoldable pub create_pool : CreatePoolOpts → Exec (World W) Pool
  create_pool opts =
      fetch c (codes "CreatePool") Kind.one_pool post (region_path c (codes "/loadbalancing/pool"))
        (new_pool opts) (codes "creating pool " ++ quoted opts.name)

  -- `DeletePool`
  unfoldable pub delete_pool : Text → Exec (World W) (Unit {0})
  delete_pool pool_id =
      drop c (codes "DeletePool") delete (region_path c (codes "/loadbalancing/pool/" ++ pool_id))
        no_body is_not_found (codes "deleting pool " ++ pool_id)

  unfoldable pub member_path : Text → Text → Text
  member_path pool_id suffix =
      region_path c (codes "/loadbalancing/pool/" ++ (pool_id ++ (codes "/member" ++ suffix)))

  -- `AddPoolMembers`
  unfoldable pub add_pool_members : Text → List CreateMemberOpts → Exec (World W) (List Member)
  add_pool_members pool_id opts =
      fetch c (codes "AddPoolMembers") Kind.members post (member_path pool_id [])
        (new_members (record { members = opts })) (codes "adding members to pool " ++ pool_id)

  first_member : Text → List Member → Exec (World W) Member
  first_member pool_id [] =
      fail (plain (codes "OVH returned no members after add to pool " ++ pool_id))
  first_member pool_id (m ∷ ms) = pure m

  -- `AddPoolMember`
  unfoldable pub add_pool_member : Text → CreateMemberOpts → Exec (World W) Member
  unfolding first_member
  add_pool_member pool_id opts = do
    members ← add_pool_members pool_id (opts ∷ [])
    first_member pool_id members

  -- `RemovePoolMember`
  unfoldable pub remove_pool_member : Text → Text → Exec (World W) (Unit {0})
  remove_pool_member pool_id member_id =
      drop c (codes "RemovePoolMember") delete (member_path pool_id (codes "/" ++ member_id))
        no_body is_not_found
        (codes "removing member " ++ (member_id ++ (codes " from pool " ++ pool_id)))

  -- `ListPoolMembers`
  unfoldable pub list_pool_members : Text → Exec (World W) (List Member)
  list_pool_members pool_id =
      fetch c (codes "ListPoolMembers") Kind.members get (member_path pool_id []) no_body
        (codes "listing members for pool " ++ pool_id)

  -- `CreateHealthMonitor`
  unfoldable pub create_health_monitor : CreateHealthMonitorOpts → Exec (World W) HealthMonitor
  create_health_monitor opts =
      fetch c (codes "CreateHealthMonitor") Kind.one_health_monitor post
        (region_path c (codes "/loadbalancing/healthMonitor")) (new_health_monitor opts)
        (codes "creating health monitor " ++ quoted opts.name)

  -- `GetHealthMonitor`
  unfoldable pub get_health_monitor : Text → Exec (World W) HealthMonitor
  get_health_monitor hm_id =
      fetch c (codes "GetHealthMonitor") Kind.one_health_monitor get
        (region_path c (codes "/loadbalancing/healthMonitor/" ++ hm_id)) no_body
        (codes "getting health monitor " ++ hm_id)

  -- `ListHealthMonitors`
  unfoldable pub list_health_monitors : Exec (World W) (List HealthMonitor)
  list_health_monitors =
      fetch c (codes "ListHealthMonitors") Kind.health_monitors get
        (region_path c (codes "/loadbalancing/healthMonitor")) no_body
        (codes "listing health monitors")

  -- `FindHealthMonitorByName`
  unfoldable pub find_health_monitor_by_name : Text → Exec (World W) (Option HealthMonitor)
  find_health_monitor_by_name name = do
    monitors ← list_health_monitors
    pure (find? (λ m. m.name == name) monitors)

  -- `DeleteHealthMonitor`
  unfoldable pub delete_health_monitor : Text → Exec (World W) (Unit {0})
  delete_health_monitor hm_id =
      drop c (codes "DeleteHealthMonitor") delete
        (region_path c (codes "/loadbalancing/healthMonitor/" ++ hm_id)) no_body gone_or_deleting
        (codes "deleting health monitor " ++ hm_id)
