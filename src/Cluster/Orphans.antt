-- ===== src/Cluster/Orphans.antt =====
-- The orphans that ReconcileDelete of the OVHCluster controller deletes by the prefix of their name.
use cluster_api_provider_ovh.Prelude.{
  ℕ, zero, suc, ◌+◌, ◌≡◌, refl, sym, ap, ◌∙◌, inl, inr, Bool, true, false, ◌&&◌, Bool-cases, List,
  [], ◌∷◌, ◌++◌, any, keep, Text, codes, ◌==◌, ==_iff, has_prefix, ok, arith,
}
use cluster_api_provider_ovh.Cloud.{
  Method, get, post, delete, Kind, no_body, Body, Event, sent, slept, World, LoadBalancer,
}
use cluster_api_provider_ovh.Client.Retry.{Client, backoff}
use cluster_api_provider_ovh.Client.Retry.Bounds.{trail, retry_trail}
use cluster_api_provider_ovh.Client.Balancers.{
  one_lb_path, delete_load_balancer, list_load_balancers, list_load_balancers_by_prefix,
}
use cluster_api_provider_ovh.Names.{join}
use cluster_api_provider_ovh.Names.Labels.{IsLabel}
use cluster_api_provider_ovh.Names.Collisions.{lb_name, lb_name_prefix}
use cluster_api_provider_ovh.Resources.{Kube}
use cluster_api_provider_ovh.Cluster.Scope.{ClusterScope, ClusterState}
use cluster_api_provider_ovh.Cluster.Delete.{delete_all, delete_listed, delete_orphans}

-- The event is a DELETE of the path.
abbrev pub deletes : Text → Event → Bool
deletes path (sent delete p b) = p == path
deletes path (sent get p b) = false
deletes path (sent post p b) = false
deletes path (slept s) = false

-- The balancer has this name and this ID.
abbrev pub is_balancer : Text → Text → LoadBalancer → Bool
is_balancer name id lb = lb.name == name && lb.id == id

any-later :
    (test : Event → Bool) (m : Method) (p : Text) (b : Body) (k attempt : ℕ) (es : List Event)
    → any test es ≡ true
    → any test (trail m p b k attempt es) ≡ true
any-later test m p b zero attempt es h = ground arith
any-later test m p b (suc k) attempt es h =
    any-later test m p b k (attempt + 1) (slept (backoff attempt) ∷ sent m p b ∷ es) (ground arith)

any-sent :
    (test : Event → Bool) (m : Method) (p : Text) (b : Body) (k attempt : ℕ) (es : List Event)
    → test (sent m p b) ≡ true
    → any test (trail m p b k attempt es) ≡ true
any-sent test m p b zero attempt es h = ground arith
any-sent test m p b (suc k) attempt es h =
    any-sent test m p b k (attempt + 1) (slept (backoff attempt) ∷ sent m p b ∷ es) h

any-keep :
    {A : Type 0} (q p : A → Bool) (xs : List A)
    → ((x : A) → q x ≡ true → p x ≡ true)
    → any q xs ≡ true
    → any q (keep p xs) ≡ true
any-keep q p [] into h = h
any-keep q p (x ∷ xs) into h = elim (Bool-cases (q x)) [
  | inl hit ↦ rw (into x hit) (rw hit refl)
  | inr miss ↦
      let later = any-keep q p xs into (rw miss at h) in
      elim (Bool-cases (p x)) [
        | inl held ↦ rw held (rw miss later)
        | inr dropped ↦ rw dropped later
      ]
]

module _ {W : Type 0} (c : Client W) where
  deletion-later :
      (path id : Text) (w : World W)
      → any (deletes path) w.events ≡ true
      → any (deletes path) (delete_load_balancer c id w).1.events ≡ true
  unfolding delete_load_balancer
  deletion-later path id w h =
      let (k, _, trailed, _, _, _) =
        retry_trail c Kind.nothing delete (one_lb_path c id) no_body (codes "DeleteLoadBalancer")
          w in
      ap (any (deletes path)) trailed ∙ any-later (deletes path) delete _ no_body k 0 w.events h

  deletion-sent :
      (id : Text) (w : World W)
      → any (deletes (one_lb_path c id)) (delete_load_balancer c id w).1.events ≡ true
  unfolding delete_load_balancer
  deletion-sent id w =
      let (k, _, trailed, _, _, _) =
        retry_trail c Kind.nothing delete (one_lb_path c id) no_body (codes "DeleteLoadBalancer")
          w in
      ap (any (deletes (one_lb_path c id))) trailed
      ∙ any-sent (deletes (one_lb_path c id)) delete _ no_body k 0 w.events
          ((==_iff (one_lb_path c id) (one_lb_path c id)).1 refl)

module _ {W : Type 0} (k : Kube W) (scope : ClusterScope W) where
  delete_all-later :
      (path : Text) (lbs : List LoadBalancer) (s : ClusterState W)
      → any (deletes path) s.world.events ≡ true
      → any (deletes path) (delete_all k scope lbs s).1.world.events ≡ true
  unfolding delete_all
  delete_all-later path [] s h = h
  delete_all-later path (lb ∷ lbs) s h =
      delete_all-later path lbs _ (deletion-later scope.ovh_client path lb.id s.world h)

  delete_all-sends :
      (name id : Text) (lbs : List LoadBalancer) (s : ClusterState W)
      → any (is_balancer name id) lbs ≡ true
      → any (deletes (one_lb_path scope.ovh_client id)) (delete_all k scope lbs s).1.world.events
        ≡ true
  unfolding delete_all
  delete_all-sends name id [] s h = cc
  delete_all-sends name id (lb ∷ lbs) s h = elim (Bool-cases (is_balancer name id lb)) [
    | inr other ↦ delete_all-sends name id lbs _ (rw other at h)
    | inl it ↦
        let same : lb.id ≡ id = (==_iff lb.id id).0 (ground arith) in
        delete_all-later (one_lb_path scope.ovh_client id) lbs _ (
          ap
            (λ (x : Text).
              any (deletes (one_lb_path scope.ovh_client x))
                (delete_load_balancer scope.ovh_client lb.id s.world).1.events)
            (sym same)
          ∙ deletion-sent scope.ovh_client lb.id s.world)
  ]

  -- If the deletion of a cluster finds in the listing of the balancers one that bears the balancer
  -- name of another cluster, named like the first with "-lb" and any text behind it, both names
  -- being labels unchanged, then it sends a DELETE of that balancer of the other cluster.
  pub orphans_of_others :
      (more id : Text) (lbs : List LoadBalancer) (s : ClusterState W)
      → IsLabel (join (codes "-") (codes "capi" ∷ scope.cluster_name ∷ codes "lb" ∷ []))
      → IsLabel (
          join
            (codes "-")
            (codes "capi" ∷ (scope.cluster_name ++ (codes "-lb" ++ more)) ∷ codes "lb" ∷ []))
      → (list_load_balancers scope.ovh_client s.world).0 ≡ ok lbs
      → any (is_balancer (lb_name (scope.cluster_name ++ (codes "-lb" ++ more))) id) lbs ≡ true
      → any (deletes (one_lb_path scope.ovh_client id)) (delete_orphans k scope s).1.world.events
        ≡ true
  unfolding delete_orphans delete_listed list_load_balancers_by_prefix
  orphans_of_others more id lbs s first second listed shown =
      let other = lb_name (scope.cluster_name ++ (codes "-lb" ++ more)) in
      let starts = lb_name_prefix scope.cluster_name more first second in
      rw listed (
        delete_all-sends other id
          (keep (λ (lb : LoadBalancer). has_prefix lb.name (lb_name scope.cluster_name)) lbs)
          (record s { world = (list_load_balancers scope.ovh_client s.world).1 })
          (any-keep (is_balancer other id) _ lbs
            (λ lb it.
              let named : lb.name ≡ other = (==_iff lb.name other).0 (ground arith) in
              rw named starts)
            shown))
