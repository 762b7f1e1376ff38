-- ===== src/Cluster/Endpoint.antt =====
-- reconcileLoadBalancer and ReconcileNormal of the OVHCluster controller: the endpoint is set once.
use cluster_api_provider_ovh.Prelude.{
  Bool, false, true, Bool-cases, inl, inr, ◌≡◌, refl, ◌∙◌, ap, Text, codes, is_empty, ◌==◌, Outcome,
  ok, err, Exec, attempt, modify, ◌>>=◌, ◌>>◌, continue, Keeps-pure, Keeps-fail, Keeps-then, arith,
  if◌then◌else◌,
}
use cluster_api_provider_ovh.Errors.{is_not_found}
use cluster_api_provider_ovh.Cloud.{LoadBalancer, lb_provisioning_status_active}
use cluster_api_provider_ovh.Resources.{Kube, ApiEndpoint, requeue}
use cluster_api_provider_ovh.Client.Balancers.{get_load_balancer}
use cluster_api_provider_ovh.Cluster.Scope.{
  ClusterScope, ClusterState, on_client, set_cluster_status,
}
use cluster_api_provider_ovh.Cluster.Frames.{KeepsCore}
use cluster_api_provider_ovh.Cluster.Ports.{port-Keeps, create_new_lb-Keeps, floating_ip-Keeps}
use cluster_api_provider_ovh.Cluster.FloatingIps.{reconcile_floating_ip}
use cluster_api_provider_ovh.Cluster.Port.{reconcile_lb_port}
use cluster_api_provider_ovh.Cluster.Balancer.{
  requeue_time_short, listener_field, pool_field, register_listener_field, register_pool_field,
  api_server_lb_port, rke2_register_lb_port, with_endpoint, set_endpoint, await_floating_ip,
  publish_endpoint, handle_existing_lb, known_lb, load_balancer_step, reconcile_load_balancer,
  create_new_lb, adopt_existing,
}

-- One state leads to the other: the readiness is the same, an endpoint with a host as well.
pub record Advance {W : Type 0} (s t : ClusterState W) : Type 0 where
  pub ready : t.cluster.status.ready ≡ s.cluster.status.ready
  pub endpoint :
      is_empty s.cluster.spec.control_plane_endpoint.host ≡ false
      → t.cluster.spec.control_plane_endpoint ≡ s.cluster.spec.control_plane_endpoint

-- Every run of the step advances.
pub record Advances {W A : Type 0} (m : Exec (ClusterState W) A) : Type 0 where
  pub at : (s : ClusterState W) → Advance s (m s).1

module _ {W : Type 0} where
  pub Advance-refl : {s : ClusterState W} → Advance s s
  Advance-refl = record { ready = refl; endpoint = λ h. refl }

  pub Advance-trans : {s t u : ClusterState W} → Advance s t → Advance t u → Advance s u
  Advance-trans {s} {t} {u} a b = record {
    ready = b.ready ∙ a.ready;
    endpoint =
        λ h. b.endpoint (ap (λ e. is_empty (ApiEndpoint.host e)) (a.endpoint h) ∙ h) ∙ a.endpoint h;
  }

  pub Keeps-Advances : {A : Type 0} {m : Exec (ClusterState W) A} → KeepsCore m → Advances m
  Keeps-Advances kept = record {
    at = λ s. record {
      ready = ap (λ c. c.ready) (kept.at s);
      endpoint = λ h. ap (λ c. c.spec.control_plane_endpoint) (kept.at s);
    };
  }

  continue-Advances :
      {A B : Type 0} (r : Outcome A) (g : A → Exec (ClusterState W) B)
      → ((a : A) → Advances (g a))
      → Advances (continue r g)
  continue-Advances (ok a) g h = record { at = λ s. (h a).at s }
  continue-Advances (err e) g h = record { at = λ s. Advance-refl }

  pub bind-Advances :
      {A B : Type 0} (m : Exec (ClusterState W) A) (g : A → Exec (ClusterState W) B)
      → Advances m
      → ((a : A) → Advances (g a))
      → Advances (m >>= g)
  bind-Advances m g h k = record {
    at = λ s. Advance-trans (h.at s) ((continue-Advances (m s).0 g k).at (m s).1);
  }

  if-Advances :
      {A : Type 0} (b : Bool) {m n : Exec (ClusterState W) A}
      → Advances m
      → Advances n
      → Advances (if b then m else n)
  if-Advances true h k = h
  if-Advances false h k = k

module _ {W : Type 0} (k : Kube W) (scope : ClusterScope W) where
  set_endpoint-Advances : (host : Text) → Advances (set_endpoint k scope host)
  unfolding set_endpoint with_endpoint
  set_endpoint-Advances host = record {
    at = λ s. record { ready = ground arith; endpoint = λ h. ground arith };
  }

  await-Advances : (ip : Text) → Advances (await_floating_ip k scope ip)
  unfolding await_floating_ip
  await-Advances ip =
      if-Advances (is_empty ip) (Keeps-Advances (Keeps-pure (requeue requeue_time_short)))
        (set_endpoint-Advances ip)

  publish-Advances : (lb : LoadBalancer) → Advances (publish_endpoint k scope lb)
  unfolding publish_endpoint
  publish-Advances lb = record {
    at = λ s. elim (Bool-cases (is_empty s.cluster.spec.load_balancer_config.floating_network_id)) [
      | inl unset ↦ rw unset ((set_endpoint-Advances lb.vip_address).at s)
      | inr set ↦ rw set (
          (bind-Advances (reconcile_floating_ip scope lb) (await_floating_ip k scope)
              (Keeps-Advances (floating_ip-Keeps k scope lb)) await-Advances).at
            s)
    ];
  }

  ports-Keeps : KeepsCore (
      reconcile_lb_port scope (codes "api-server") api_server_lb_port listener_field pool_field
      >> reconcile_lb_port scope
          (codes "rke2-register")
          rke2_register_lb_port
          register_listener_field
          register_pool_field)
  ports-Keeps =
      Keeps-then
        (port-Keeps k scope (codes "api-server") api_server_lb_port listener_field pool_field
          (record { ready = λ id st. refl; initialization = λ id st. refl })
          (record { ready = λ id st. refl; initialization = λ id st. refl }))
        (port-Keeps k scope (codes "rke2-register") rke2_register_lb_port register_listener_field
          register_pool_field (record { ready = λ id st. refl; initialization = λ id st. refl })
          (record { ready = λ id st. refl; initialization = λ id st. refl }))

  handle-Advances : (lb : LoadBalancer) → Advances (handle_existing_lb k scope lb)
  unfolding handle_existing_lb
  handle-Advances lb = record {
    at = λ s. elim (Bool-cases (lb.provisioning_status == lb_provisioning_status_active)) [
      | inl active ↦ rw active (
          (bind-Advances
              (reconcile_lb_port scope (codes "api-server") api_server_lb_port listener_field
                  pool_field
                >> reconcile_lb_port scope (codes "rke2-register") rke2_register_lb_port
                    register_listener_field register_pool_field)
              (λ u. publish_endpoint k scope lb) (Keeps-Advances ports-Keeps)
              (λ u. publish-Advances lb)).at
            s)
      | inr building ↦ rw building (record { ready = refl; endpoint = λ h. refl })
    ];
  }

  known-Advances : (id : Text) (found : Outcome LoadBalancer) → Advances (known_lb k scope id found)
  unfolding known_lb
  known-Advances id (ok lb) = handle-Advances lb
  known-Advances id (err e) =
      if-Advances (is_not_found e)
        (bind-Advances (set_cluster_status _) (λ u. create_new_lb k scope)
          (record { at = λ s. record { ready = refl; endpoint = λ h. refl } })
          (λ u. Keeps-Advances (create_new_lb-Keeps k scope)))
        (Keeps-Advances (Keeps-fail _))

  step-Advances : Advances (load_balancer_step k scope)
  unfolding load_balancer_step
  step-Advances = record {
    at = λ s. elim (Bool-cases (is_empty s.cluster.status.load_balancer_id)) [
      | inl unset ↦ rw unset ((Keeps-Advances (create_new_lb-Keeps k scope)).at s)
      | inr set ↦ rw set (
          (bind-Advances
              (attempt
                (on_client (get_load_balancer scope.ovh_client s.cluster.status.load_balancer_id)))
              (known_lb k scope s.cluster.status.load_balancer_id)
              (Keeps-Advances (record { at = λ t. refl }))
              (known-Advances s.cluster.status.load_balancer_id)).at
            s)
    ];
  }

  pub balancer-Advances : Advances (reconcile_load_balancer k scope)
  unfolding reconcile_load_balancer adopt_existing
  balancer-Advances =
      bind-Advances (modify (λ s. record s { cluster = adopt_existing s.cluster }))
        (λ u. load_balancer_step k scope)
        (record { at = λ s. record { ready = refl; endpoint = λ h. refl } }) (λ u. step-Advances)
