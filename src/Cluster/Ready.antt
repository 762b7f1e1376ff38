-- ===== src/Cluster/Ready.antt =====
-- reconcileLoadBalancer of the OVHCluster controller: when it has nothing left to wait for.
use cluster_api_provider_ovh.Prelude.{
  Bool, false, true, Bool-cases, inl, inr, GoError, ◌≡◌, ◌∙◌, ap, Text, codes, is_empty, ◌==◌,
  Outcome, ok, err, Exec, attempt, modify, fail, ◌>>=◌, ◌>>◌, continue, arith, if◌then◌else◌,
  nat_eq,
}
use cluster_api_provider_ovh.Errors.{is_not_found}
use cluster_api_provider_ovh.Cloud.{LoadBalancer, lb_provisioning_status_active}
use cluster_api_provider_ovh.Resources.{Kube, Result, OvhClusterSpec}
use cluster_api_provider_ovh.Client.Balancers.{get_load_balancer}
use cluster_api_provider_ovh.Cluster.Scope.{
  ClusterScope, ClusterState, on_client, set_cluster_status,
}
use cluster_api_provider_ovh.Cluster.FloatingIps.{reconcile_floating_ip}
use cluster_api_provider_ovh.Cluster.Port.{reconcile_lb_port}
use cluster_api_provider_ovh.Cluster.Balancer.{
  listener_field, pool_field, register_listener_field, register_pool_field, api_server_lb_port,
  rke2_register_lb_port, with_endpoint, set_endpoint, await_floating_ip, publish_endpoint,
  handle_existing_lb, known_lb, load_balancer_step, reconcile_load_balancer, create_new_lb,
  flavor_or_condition, create_with, create_on, record_lb, adopt_existing,
}

-- The endpoint has a host, or the balancer is one without a floating IP.
pub data IsPublished (spec : OvhClusterSpec) : Type 0 where
  reachable : is_empty spec.control_plane_endpoint.host ≡ false → IsPublished spec
  internal : is_empty spec.load_balancer_config.floating_network_id ≡ true → IsPublished spec

-- A step that asks for no further attempt leaves a published endpoint.
pub record Publishes {W : Type 0} (m : Exec (ClusterState W) Result) : Type 0 where
  pub at :
      (s : ClusterState W) (r : Result)
      → (m s).0 ≡ ok r
      → nat_eq r.requeue_after 0 ≡ true
      → IsPublished (m s).1.cluster.spec

module _ {W : Type 0} where
  if-Publishes :
      (b : Bool) {m n : Exec (ClusterState W) Result}
      → Publishes m
      → Publishes n
      → Publishes (if b then m else n)
  if-Publishes true h k = h
  if-Publishes false h k = k

  fail-Publishes : (e : GoError) → Publishes {W = W} (fail e)
  fail-Publishes e = record { at = λ s r answered. ground arith }

  continue-Publishes :
      {A : Type 0} (r : Outcome A) (g : A → Exec (ClusterState W) Result)
      → ((a : A) → Publishes (g a))
      → Publishes (continue r g)
  continue-Publishes (ok a) g h = record { at = λ s. (h a).at s }
  continue-Publishes (err e) g h = record { at = λ s r answered. ground arith }

  bind-Publishes :
      {A : Type 0} (m : Exec (ClusterState W) A) (g : A → Exec (ClusterState W) Result)
      → ((a : A) → Publishes (g a))
      → Publishes (m >>= g)
  bind-Publishes m g h = record { at = λ s. (continue-Publishes (m s).0 g h).at (m s).1 }

module _ {W : Type 0} (k : Kube W) (scope : ClusterScope W) where
  set_endpoint-host :
      (host : Text) (s : ClusterState W)
      → is_empty host ≡ false
      → is_empty (set_endpoint k scope host s).1.cluster.spec.control_plane_endpoint.host ≡ false
  unfolding set_endpoint with_endpoint
  set_endpoint-host host s h = ground arith

  set_endpoint-config :
      (host : Text) (s : ClusterState W)
      → (set_endpoint k scope host s).1.cluster.spec.load_balancer_config
        ≡ s.cluster.spec.load_balancer_config
  unfolding set_endpoint with_endpoint
  set_endpoint-config host s = ground arith

  await-Publishes : (ip : Text) → Publishes (await_floating_ip k scope ip)
  unfolding await_floating_ip
  await-Publishes ip = record {
    at = λ s r. elim (Bool-cases (is_empty ip)) [
      | inl pending ↦ rw pending (λ answered at_once. ground arith)
      | inr there ↦ rw there (λ answered at_once. reachable (set_endpoint-host ip s there))
    ];
  }

  publish-Publishes : (lb : LoadBalancer) → Publishes (publish_endpoint k scope lb)
  unfolding publish_endpoint
  publish-Publishes lb = record {
    at = λ s r.
        elim (Bool-cases (is_empty s.cluster.spec.load_balancer_config.floating_network_id)) [
          | inl unset ↦ rw unset (λ answered at_once. internal (
              ap (λ c. is_empty c.floating_network_id) (set_endpoint-config lb.vip_address s)
              ∙ unset))
          | inr set ↦ rw set (
              (bind-Publishes (reconcile_floating_ip scope lb) (await_floating_ip k scope)
                  await-Publishes).at
                s r)
        ];
  }

  handle-Publishes : (lb : LoadBalancer) → Publishes (handle_existing_lb k scope lb)
  unfolding handle_existing_lb
  handle-Publishes lb = record {
    at = λ s r. elim (Bool-cases (lb.provisioning_status == lb_provisioning_status_active)) [
      | inl active ↦ rw active (
          (bind-Publishes
              (reconcile_lb_port scope (codes "api-server") api_server_lb_port listener_field
                  pool_field
                >> reconcile_lb_port scope (codes "rke2-register") rke2_register_lb_port
                    register_listener_field register_pool_field)
              (λ u. publish_endpoint k scope lb) (λ u. publish-Publishes lb)).at
            s r)
      | inr building ↦ rw building (λ answered at_once. ground arith)
    ];
  }

  create-Publishes : Publishes (create_new_lb k scope)
  unfolding create_new_lb flavor_or_condition create_with create_on record_lb
  create-Publishes = record { at = λ s r answered at_once. ground arith }

  known-Publishes :
      (id : Text) (found : Outcome LoadBalancer) → Publishes (known_lb k scope id found)
  unfolding known_lb
  known-Publishes id (ok lb) = handle-Publishes lb
  known-Publishes id (err e) =
      if-Publishes (is_not_found e)
        (bind-Publishes (set_cluster_status _) (λ u. create_new_lb k scope) (λ u. create-Publishes))
        (fail-Publishes _)

  step-Publishes : Publishes (load_balancer_step k scope)
  unfolding load_balancer_step
  step-Publishes = record {
    at = λ s r. elim (Bool-cases (is_empty s.cluster.status.load_balancer_id)) [
      | inl unset ↦ rw unset (create-Publishes.at s r)
      | inr set ↦ rw set (
          (bind-Publishes
              (attempt
                (on_client (get_load_balancer scope.ovh_client s.cluster.status.load_balancer_id)))
              (known_lb k scope s.cluster.status.load_balancer_id)
              (known-Publishes s.cluster.status.load_balancer_id)).at
            s r)
    ];
  }

  pub balancer-Publishes : Publishes (reconcile_load_balancer k scope)
  unfolding reconcile_load_balancer
  balancer-Publishes =
      bind-Publishes (modify (λ s. record s { cluster = adopt_existing s.cluster }))
        (λ u. load_balancer_step k scope) (λ u. step-Publishes)
