-- ===== src/Cluster/Settled.antt =====
-- ReconcileNormal of the OVHCluster controller: the endpoint and the readiness it leaves.
use cluster_api_provider_ovh.Prelude.{
  false, true, Bool-cases, inl, inr, ◌≡◌, refl, ◌∙◌, sym, ap, not, ◌&&◌, is_empty, Outcome, ok, err,
  Exec, attempt, ◌>>=◌, ◌>>◌, continue, arith, nat_eq, subst, Keeps-attempt,
}
use cluster_api_provider_ovh.Resources.{Kube, Result, cluster_finalizer}
use cluster_api_provider_ovh.Cluster.Scope.{ClusterScope, ClusterState}
use cluster_api_provider_ovh.Cluster.Frames.{
  credentials-Keeps, network-Keeps, domains-Keeps, groups-Keeps, dns-Keeps,
}
use cluster_api_provider_ovh.Cluster.Endpoint.{
  Advance, Advances, Advance-refl, Keeps-Advances, balancer-Advances,
}
use cluster_api_provider_ovh.Cluster.Ready.{IsPublished, balancer-Publishes}
use cluster_api_provider_ovh.Cluster.Credentials.{reconcile_credentials}
use cluster_api_provider_ovh.Cluster.Groups.{reconcile_security_groups}
use cluster_api_provider_ovh.Cluster.Domains.{reconcile_failure_domains, reconcile_dns}
use cluster_api_provider_ovh.Cluster.Network.{
  NetworkProgress, in_place, not_active, reconcile_network,
}
use cluster_api_provider_ovh.Cluster.Balancer.{reconcile_load_balancer}
use cluster_api_provider_ovh.Cluster.Normal.{
  add_cluster_finalizer, declare_ready, after_balancer, after_network, reconcile_cluster_normal,
}

-- What one state may become: an endpoint with a host stays, and a cluster that turns ready is
-- published.
record Finish {W : Type 0} (s t : ClusterState W) : Type 0 where
  endpoint :
      is_empty s.cluster.spec.control_plane_endpoint.host ≡ false
      → t.cluster.spec.control_plane_endpoint ≡ s.cluster.spec.control_plane_endpoint
  ready :
      s.cluster.status.ready ≡ false → t.cluster.status.ready ≡ true → IsPublished t.cluster.spec

record Finishes {W A : Type 0} (m : Exec (ClusterState W) A) : Type 0 where
  at : (s : ClusterState W) → Finish s (m s).1

module _ {W : Type 0} where
  Advance-Finish : {s t : ClusterState W} → Advance s t → Finish s t
  Advance-Finish a = record {
    endpoint = a.endpoint;
    ready = λ before after. ground (arith, a.ready, before, after);
  }

  after-Finish : {s t u : ClusterState W} → Advance s t → Finish t u → Finish s u
  after-Finish a b = record {
    endpoint = λ h. b.endpoint (ap (λ e. is_empty e.host) (a.endpoint h) ∙ h) ∙ a.endpoint h;
    ready = λ before. b.ready (a.ready ∙ before);
  }

  continue-Finishes :
      {A B : Type 0} (r : Outcome A) (g : A → Exec (ClusterState W) B)
      → ((a : A) → Finishes (g a))
      → Finishes (continue r g)
  continue-Finishes (ok a) g h = record { at = λ s. (h a).at s }
  continue-Finishes (err e) g h = record { at = λ s. Advance-Finish Advance-refl }

  bind-Finishes :
      {A B : Type 0} (m : Exec (ClusterState W) A) (g : A → Exec (ClusterState W) B)
      → Advances m
      → ((a : A) → Finishes (g a))
      → Finishes (m >>= g)
  bind-Finishes m g h k = record {
    at = λ s. after-Finish (h.at s) ((continue-Finishes (m s).0 g k).at (m s).1);
  }

module _ {W : Type 0} (k : Kube W) (scope : ClusterScope W) where
  declared-spec :
      (t : ClusterState W)
      → ((attempt (reconcile_dns scope) >> declare_ready k scope) t).1.cluster.spec ≡ t.cluster.spec
  unfolding declare_ready
  declared-spec t = ap (λ c. c.spec) ((dns-Keeps k scope).at t)

  answered-Finish :
      (o : Outcome Result) (t : ClusterState W)
      → ((r : Result) → o ≡ ok r → nat_eq r.requeue_after 0 ≡ true → IsPublished t.cluster.spec)
      → Finish t (continue o (after_balancer k scope) t).1
  unfolding after_balancer
  answered-Finish (err e) t published = Advance-Finish Advance-refl
  answered-Finish (ok r) t published = elim (Bool-cases (nat_eq r.requeue_after 0)) [
    | inl at_once ↦ rw at_once (record {
      endpoint = λ h. ap (λ c. c.control_plane_endpoint) (declared-spec t);
      ready = λ before after.
          subst (λ c. IsPublished c) (sym (declared-spec t)) (published r refl at_once);
    })
    | inr later ↦ rw later (Advance-Finish Advance-refl)
  ]

  balancer-Finishes : Finishes (reconcile_load_balancer k scope >>= after_balancer k scope)
  balancer-Finishes = record {
    at = λ s. after-Finish ((balancer-Advances k scope).at s) (
        answered-Finish (reconcile_load_balancer k scope s).0 (reconcile_load_balancer k scope s).1
          ((balancer-Publishes k scope).at s));
  }

  network-Finishes : (progress : NetworkProgress) → Finishes (after_network k scope progress)
  unfolding after_network
  network-Finishes not_active = record { at = λ s. Advance-Finish Advance-refl }
  network-Finishes in_place =
      bind-Finishes (reconcile_failure_domains scope) _ (Keeps-Advances (domains-Keeps k scope))
        (λ u.
          bind-Finishes (attempt (reconcile_security_groups scope)) _
            (Keeps-Advances (Keeps-attempt (groups-Keeps k scope))) (λ v. balancer-Finishes))

  normal-Finishes : Finishes (reconcile_cluster_normal k scope)
  unfolding reconcile_cluster_normal add_cluster_finalizer
  normal-Finishes = record {
    at = λ s.
        elim (Bool-cases (
          not (k.contains_finalizer s.cluster.meta.finalizers cluster_finalizer)
          && not s.cluster.meta.deleting)) [
            | inl fresh ↦ rw fresh (Advance-Finish (record { ready = refl; endpoint = λ h. refl }))
            | inr claimed ↦ rw claimed (
                (bind-Finishes (reconcile_credentials k scope) _
                    (Keeps-Advances (credentials-Keeps k scope))
                    (λ u.
                      bind-Finishes (reconcile_network k scope) (after_network k scope)
                        (Keeps-Advances (network-Keeps k scope)) network-Finishes)).at
                  s)
          ];
  }

  -- A reconciliation of a cluster whose endpoint has a host leaves the endpoint, host and port, as
  -- it is, whatever the cloud answers and whichever step fails.
  pub endpoint_set_once :
      (s : ClusterState W)
      → is_empty s.cluster.spec.control_plane_endpoint.host ≡ false
      → (reconcile_cluster_normal k scope s).1.cluster.spec.control_plane_endpoint
        ≡ s.cluster.spec.control_plane_endpoint
  endpoint_set_once s = (normal-Finishes.at s).endpoint

  -- A cluster that a reconciliation turns from not ready to ready has an endpoint with a host
  -- afterwards, or its balancer is configured without a floating IP.
  pub reconcile_cluster_normal-IsPublished :
      (s : ClusterState W)
      → s.cluster.status.ready ≡ false
      → (reconcile_cluster_normal k scope s).1.cluster.status.ready ≡ true
      → IsPublished (reconcile_cluster_normal k scope s).1.cluster.spec
  reconcile_cluster_normal-IsPublished s = (normal-Finishes.at s).ready
