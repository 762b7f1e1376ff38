-- ===== src/Cluster/Balancer.antt =====
-- reconcileLoadBalancer and handleExistingLB. A delay beside an error is left out: controller-runtime
-- ignores it.
use cluster_api_provider_ovh.Prelude.{
  ℕ, ◌++◌, not, ◌&&◌, ◌||◌, [], Text, codes, is_empty, ◌==◌, plain, wrap, Outcome, ok, err, Exec,
  pure, fail, attempt, modify, or_wrap, ◌>>=◌, ◌>>◌, if◌then◌else◌,
}
use cluster_api_provider_ovh.Errors.{error_text, is_not_found}
use cluster_api_provider_ovh.Cloud.{
  LbFlavor, LoadBalancer, PrivateNetwork, openstack_id_for_region, lb_provisioning_status_active,
}
use cluster_api_provider_ovh.Client.Calls.{quoted}
use cluster_api_provider_ovh.Client.Balancers.{
  get_load_balancer, get_lb_flavor_by_name, create_load_balancer,
}
use cluster_api_provider_ovh.Client.Networks.{get_private_network}
use cluster_api_provider_ovh.Names.Collisions.{lb_name}
use cluster_api_provider_ovh.Resources.{
  condition_true, condition_false, Kube, OvhCluster, Result, no_requeue, requeue,
  load_balancer_ready_condition, load_balancer_not_ready_reason,
  load_balancer_creation_failed_reason,
}
use cluster_api_provider_ovh.Cluster.Scope.{
  ClusterScope, ClusterState, on_client, set_cluster_status, set_cluster_condition,
}
use cluster_api_provider_ovh.Cluster.Port.{StatusField, reconcile_lb_port}
use cluster_api_provider_ovh.Cluster.FloatingIps.{reconcile_floating_ip}

abbrev pub requeue_time_short : ℕ
requeue_time_short = 30

abbrev pub api_server_lb_port : ℕ
api_server_lb_port = 6443

abbrev pub rke2_register_lb_port : ℕ
rke2_register_lb_port = 9345

-- `&scope.OVHCluster.Status.ListenerID` and its three kin
abbrev pub listener_field : StatusField
listener_field = record {
  read = λ st. st.listener_id;
  write = λ id st. record st { listener_id = id };
}

abbrev pub pool_field : StatusField
pool_field = record { read = λ st. st.pool_id; write = λ id st. record st { pool_id = id } }

abbrev pub register_listener_field : StatusField
register_listener_field = record {
  read = λ st. st.register_listener_id;
  write = λ id st. record st { register_listener_id = id };
}

abbrev pub register_pool_field : StatusField
register_pool_field = record {
  read = λ st. st.register_pool_id;
  write = λ id st. record st { register_pool_id = id };
}

-- The first text unless it is empty.
abbrev pub or_text : Text → Text → Text
or_text first second = if is_empty first then second else first

-- The two adoptions at the head of reconcileLoadBalancer.
unfoldable pub adopt_existing : OvhCluster → OvhCluster
adopt_existing c = record c {
  status = record c.status {
    load_balancer_id =
        or_text c.status.load_balancer_id c.spec.load_balancer_config.existing_load_balancer_id;
    floating_ip_id =
        or_text c.status.floating_ip_id c.spec.load_balancer_config.existing_floating_ip_id;
  };
}

-- The endpoint is set once.
unfoldable pub with_endpoint : Text → OvhCluster → OvhCluster
with_endpoint host c =
    if not (is_empty host) && is_empty c.spec.control_plane_endpoint.host
    then record c {
      spec = record c.spec {
        control_plane_endpoint = record { host = host; port = api_server_lb_port };
      };
    }
    else c

module _ {W : Type 0} (k : Kube W) (scope : ClusterScope W) where
  unfoldable pub set_endpoint : Text → Exec (ClusterState W) Result
  set_endpoint host =
      modify (λ s. record s { cluster = with_endpoint host s.cluster })
      >> set_cluster_condition k load_balancer_ready_condition condition_true
          load_balancer_ready_condition []
      >> pure no_requeue

  unfoldable pub await_floating_ip : Text → Exec (ClusterState W) Result
  unfolding set_endpoint
  await_floating_ip ip = if is_empty ip then pure (requeue requeue_time_short) else set_endpoint ip

  unfoldable pub publish_endpoint : LoadBalancer → Exec (ClusterState W) Result
  unfolding await_floating_ip set_endpoint
  publish_endpoint lb s =
      if is_empty s.cluster.spec.load_balancer_config.floating_network_id
      then set_endpoint lb.vip_address s
      else (reconcile_floating_ip scope lb >>= await_floating_ip) s

  -- `handleExistingLB`
  unfoldable pub handle_existing_lb : LoadBalancer → Exec (ClusterState W) Result
  unfolding publish_endpoint
  handle_existing_lb lb =
      if lb.provisioning_status == lb_provisioning_status_active
      then reconcile_lb_port scope (codes "api-server") api_server_lb_port listener_field pool_field
        >> reconcile_lb_port scope (codes "rke2-register") rke2_register_lb_port
            register_listener_field register_pool_field
        >> publish_endpoint lb
      else set_cluster_condition k load_balancer_ready_condition condition_false
          load_balancer_not_ready_reason
          (codes "Load balancer provisioning: " ++ lb.provisioning_status)
        >> pure (requeue requeue_time_short)

  unfoldable pub flavor_or_condition : Text → Outcome LbFlavor → Exec (ClusterState W) LbFlavor
  flavor_or_condition name (ok f) = pure f
  flavor_or_condition name (err e) =
      set_cluster_condition k load_balancer_ready_condition condition_false
        load_balancer_creation_failed_reason
        (codes "LB flavor " ++ (quoted name ++ (codes " not found: " ++ error_text e)))
      >> fail (wrap (codes "resolving LB flavor " ++ quoted name) e)

  unfoldable pub record_lb : Outcome LoadBalancer → Exec (ClusterState W) Result
  record_lb (ok lb) =
      set_cluster_status (λ st. record st { load_balancer_id = lb.id })
      >> pure (requeue requeue_time_short)
  record_lb (err e) =
      set_cluster_condition k load_balancer_ready_condition condition_false
        load_balancer_creation_failed_reason
        (codes "Failed to create load balancer: " ++ error_text e)
      >> fail (wrap (codes "creating load balancer") e)

  unfoldable pub create_on :
      LbFlavor → Text → Text → Text → PrivateNetwork → Exec (ClusterState W) Result
  unfolding record_lb
  create_on flavor region network_id subnet_id net =
      if is_empty (openstack_id_for_region net region)
      then fail (
          plain (
            codes "no OpenStack ID for network "
            ++ (network_id ++ (codes " in region " ++ region))))
      else do
        created ← attempt (
            on_client (
              create_load_balancer scope.ovh_client (record {
                name = lb_name scope.cluster_name;
                flavor_id = flavor.id;
                network = record {
                  private = record {
                    network = record {
                      id = openstack_id_for_region net region;
                      subnet_id = subnet_id;
                    };
                  };
                };
              })))
        record_lb created

  unfoldable pub create_with : LbFlavor → Text → Text → Text → Exec (ClusterState W) Result
  unfolding create_on
  create_with flavor region network_id subnet_id =
      if is_empty subnet_id || is_empty network_id
      then fail (
          plain (
            codes "LB requires both networkID and subnetID, got network="
            ++ (quoted network_id ++ (codes " subnet=" ++ quoted subnet_id))))
      else do
        net ←
            or_wrap (codes "resolving network for LB")
              (on_client (get_private_network scope.ovh_client network_id))
        create_on flavor region network_id subnet_id net

  -- The part of the function that creates a balancer.
  unfoldable pub create_new_lb : Exec (ClusterState W) Result
  unfolding flavor_or_condition create_with
  create_new_lb s =
      let name = or_text s.cluster.spec.load_balancer_config.flavor_name (codes "small") in
      (do
        answered ← attempt (on_client (get_lb_flavor_by_name scope.ovh_client name))
        flavor ← flavor_or_condition name answered
        create_with flavor s.cluster.spec.region s.cluster.status.network_id
            (or_text s.cluster.spec.load_balancer_config.subnet_id s.cluster.status.subnet_id))
        s

  -- A balancer that vanished is forgotten with its API listener and pool, and created again.
  unfoldable pub known_lb : Text → Outcome LoadBalancer → Exec (ClusterState W) Result
  unfolding handle_existing_lb create_new_lb
  known_lb id (ok lb) = handle_existing_lb lb
  known_lb id (err e) =
      if is_not_found e
      then set_cluster_status
          (λ st. record st { load_balancer_id = []; listener_id = []; pool_id = [] })
        >> create_new_lb
      else fail (wrap (codes "getting LB " ++ id) e)

  unfoldable pub load_balancer_step : Exec (ClusterState W) Result
  unfolding known_lb create_new_lb
  load_balancer_step s =
      if is_empty s.cluster.status.load_balancer_id
      then create_new_lb s
      else (do
        found ←
            attempt
              (on_client (get_load_balancer scope.ovh_client s.cluster.status.load_balancer_id))
        known_lb s.cluster.status.load_balancer_id found)
          s

  -- `reconcileLoadBalancer`
  unfoldable pub reconcile_load_balancer : Exec (ClusterState W) Result
  unfolding load_balancer_step
  reconcile_load_balancer =
      modify (λ s. record s { cluster = adopt_existing s.cluster }) >> load_balancer_step
