-- ===== src/Client/Polling.antt =====
-- What CreateLoadBalancer returns, and when it sends its POST.
use cluster_api_provider_ovh.Prelude.{
  ℕ, zero, suc, ◌+◌, ◌*◌, ◌<◌, ◌≡◌, refl, sym, ◌∙◌, ap, ◌⊎◌, inl, inr, Option, none, some,
  Option-cases, List, [], ◌∷◌, Text, codes, ◌++◌, ◌==◌, ==_iff, find?-test, GoError, wrap, bind_ok,
  Outcome, ok, err, Outcome-cases, arith,
}
use cluster_api_provider_ovh.Cloud.{
  get, post, delete, sent, slept, Event, Kind, no_body, LoadBalancer, CreateLoadBalancerOpts, World,
}
use cluster_api_provider_ovh.Client.Retry.{Client, sleep, backoff, region_path}
use cluster_api_provider_ovh.Client.Retry.Bounds.{retry_trail, trail}
use cluster_api_provider_ovh.Client.Calls.{quoted}
use cluster_api_provider_ovh.Client.Balancers.{
  list_load_balancers, find_load_balancer_by_name, poll_load_balancer, post_load_balancer,
  unless_found, never_appeared, send_post, max_lookup_attempts, create_load_balancer,
}

-- How many POST requests were sent.
abbrev pub posts : List Event → ℕ
posts [] = 0
posts (sent post p b ∷ es) = suc (posts es)
posts (sent get p b ∷ es) = posts es
posts (sent delete p b ∷ es) = posts es
posts (slept s ∷ es) = posts es

module _ {W : Type 0} (c : Client W) (name : Text) where
  -- The world in which lookup `attempt + k` starts, the earlier ones having found nothing.
  abbrev pub looks : ℕ → ℕ → World W → World W
  looks zero attempt w = w
  looks (suc k) attempt w =
      looks k (attempt + 1) (sleep (2 * (attempt + 1)) (find_load_balancer_by_name c name w).1)

  -- The `k` lookups from `attempt` on succeed and find no balancer of that name.
  abbrev pub AllMissing : ℕ → ℕ → World W → Type 0
  AllMissing zero attempt w = Unit
  AllMissing (suc k) attempt w =
      ((find_load_balancer_by_name c name w).0 ≡ ok none)
      × AllMissing k (attempt + 1)
          (sleep (2 * (attempt + 1)) (find_load_balancer_by_name c name w).1)

  -- Lookup `attempt + k` decides the result.
  abbrev pub Decides : World W → Outcome LoadBalancer × World W → Type 0
  Decides w (r, w') =
      (((lb : LoadBalancer) × ((find_load_balancer_by_name c name w).0 ≡ ok (some lb))
          × (r ≡ ok lb))
        ⊎ ((e : GoError) × ((find_load_balancer_by_name c name w).0 ≡ err e)
            × (r
                ≡ err
                    (wrap (codes "LB " ++ (quoted name ++ codes " created but lookup failed")) e))))
      × (w' ≡ (find_load_balancer_by_name c name w).1)

  abbrev pub DecidedWithin : ℕ → ℕ → World W → Outcome LoadBalancer × World W → Type 0
  DecidedWithin left attempt w result =
      (k : ℕ) × (k < left) × AllMissing k attempt w × Decides (looks k attempt w) result

  abbrev pub NeverAppears : ℕ → ℕ → World W → Outcome LoadBalancer × World W → Type 0
  NeverAppears left attempt w result =
      AllMissing left attempt w × (result ≡ (err (never_appeared c name), looks left attempt w))

  polls :
      (left attempt : ℕ) (w : World W)
      → DecidedWithin left attempt w (poll_load_balancer c name left attempt w)
        ⊎ NeverAppears left attempt w (poll_load_balancer c name left attempt w)
  unfolding poll_load_balancer
  polls zero attempt w = inr (tt, refl)
  polls (suc left) attempt w =
      let look = find_load_balancer_by_name c name w in
      elim (Outcome-cases look.0) [
        | inr (e, failed) ↦ inl (zero, omega arith, tt, rw failed (inr (e, refl, refl), refl))
        | inl (found, answered) ↦ elim (Option-cases found) [
          | inr (lb, some_lb) ↦
              inl (zero, omega arith, tt, rw (answered, some_lb) (inl (lb, refl, refl), refl))
          | inl nothing ↦ elim (polls left (attempt + 1) (sleep (2 * (attempt + 1)) look.1)) [
            | inl (k, within, missing, decides) ↦ inl (
              suc k,
              omega arith,
              (rw (answered, nothing) refl, missing),
              rw (answered, nothing) decides,
            )
            | inr (missing, result) ↦
                inr ((rw (answered, nothing) refl, missing), rw (answered, nothing) result)
          ]
        ]
      ]

  -- Whichever lookup of the polling decides, it is behind `k` lookups that found nothing, and it
  -- returns what it found; after ten lookups that found nothing, the polling fails with the error
  -- that says so.
  pub poll_decides :
      (w : World W)
      → DecidedWithin 10 0 w (poll_load_balancer c name 10 0 w)
        ⊎ NeverAppears 10 0 w (poll_load_balancer c name 10 0 w)
  poll_decides w = polls 10 0 w

  found_named :
      (w : World W) (lb : LoadBalancer)
      → (find_load_balancer_by_name c name w).0 ≡ ok (some lb)
      → lb.name ≡ name
  unfolding find_load_balancer_by_name
  found_named w lb found = elim (Outcome-cases (list_load_balancers c w).0) [
    | inl (lbs, listed) ↦
        (==_iff lb.name name).0
          (find?-test (λ x. x.name == name) lbs lb (let h = rw listed at found in cc))
    | inr (e, failed) ↦ absurd (let h = rw failed at found in cc)
  ]

  posts-trail :
      (p : Text) (k attempt : ℕ) (es : List Event)
      → posts (trail get p no_body k attempt es) ≡ posts es
  posts-trail p zero attempt es = refl
  posts-trail p (suc k) attempt es =
      posts-trail p k (attempt + 1) (slept (backoff attempt) ∷ sent get p no_body ∷ es)

  list-posts : (w : World W) → posts (list_load_balancers c w).1.events ≡ posts w.events
  unfolding list_load_balancers
  list-posts w =
      let (k, _, trailed, _, _, _) =
        retry_trail c Kind.load_balancers get (region_path c (codes "/loadbalancing/loadbalancer"))
          no_body (codes "ListLoadBalancers") w in
      ap posts trailed ∙ posts-trail _ k 0 w.events

  find-posts : (w : World W) → posts (find_load_balancer_by_name c name w).1.events ≡ posts w.events
  unfolding find_load_balancer_by_name
  find-posts w = elim (Outcome-cases (list_load_balancers c w).0) [
    | inl (lbs, listed) ↦ rw listed (list-posts w)
    | inr (e, failed) ↦ rw failed (list-posts w)
  ]

  poll_named :
      (left attempt : ℕ) (w : World W) (lb : LoadBalancer)
      → (poll_load_balancer c name left attempt w).0 ≡ ok lb
      → lb.name ≡ name
  poll_named left attempt w lb done = elim (polls left attempt w) [
    | inl (k, _, _, (inl (lb', found, result), _)) ↦
        found_named (looks k attempt w) lb
          (found ∙ ap (λ x. ok (some x)) (let h = sym result ∙ done in cc))
    | inl (k, _, _, (inr (e, _, result), _)) ↦ absurd (let h = sym result ∙ done in cc)
    | inr (_, result) ↦ absurd (let h = sym (ap (λ r. r.0) result) ∙ done in cc)
  ]

module _ {W : Type 0} (c : Client W) (opts : CreateLoadBalancerOpts) where
  abbrev lookup : World W → Outcome (Option LoadBalancer) × World W
  lookup w = find_load_balancer_by_name c opts.name w

  -- A balancer of that name was listed: it is returned, and no POST is sent.
  abbrev pub Reused : World W → Outcome LoadBalancer × World W → Type 0
  Reused w (r, w') =
      (lb : LoadBalancer) × ((lookup w).0 ≡ ok (some lb))
      × (r ≡ ok lb)
      × (posts w'.events ≡ posts w.events)

  -- The lookup failed or found nothing, and the POST and the polling are what happens.
  abbrev pub Posted : World W → Outcome LoadBalancer × World W → Type 0
  Posted w result =
      (((lookup w).0 ≡ ok none) ⊎ ((e : GoError) × ((lookup w).0 ≡ err e)))
      × (result ≡ post_load_balancer c opts (lookup w).1)

  post_named :
      (w : World W) (lb : LoadBalancer)
      → (post_load_balancer c opts w).0 ≡ ok lb
      → lb.name ≡ opts.name
  unfolding post_load_balancer
  post_named w lb done =
      let (_, _, polled) =
        bind_ok (send_post c opts) (λ _. poll_load_balancer c opts.name max_lookup_attempts 0) w lb
          done in
      poll_named c opts.name 10 0 _ lb polled

  -- CreateLoadBalancer returns the listed balancer of the requested name and sends no POST; or the
  -- lookup found none or failed, and it goes through the POST and the polling.
  pub reuses_or_posts :
      (w : World W)
      → Reused w (create_load_balancer c opts w) ⊎ Posted w (create_load_balancer c opts w)
  unfolding create_load_balancer unless_found
  reuses_or_posts w = elim (Outcome-cases (lookup w).0) [
    | inr (e, failed) ↦ rw failed (inr (inr (e, refl), refl))
    | inl (found, answered) ↦ elim (Option-cases found) [
      | inl nothing ↦ rw (answered, nothing) (inr (inl refl, refl))
      | inr (lb, some_lb) ↦ rw (answered, some_lb) (inl (lb, refl, refl, find-posts c opts.name w))
    ]
  ]

  -- Whatever balancer CreateLoadBalancer returns, listed before or found by the polling, carries
  -- the requested name.
  pub created_named :
      (w : World W) (lb : LoadBalancer)
      → (create_load_balancer c opts w).0 ≡ ok lb
      → lb.name ≡ opts.name
  created_named w lb done = elim (reuses_or_posts w) [
    | inl (lb', found, result, _) ↦
        found_named c opts.name w lb
          (found ∙ ap (λ x. ok (some x)) (let h = sym result ∙ done in cc))
    | inr (_, result) ↦ post_named (lookup w).1 lb (sym (ap (λ r. r.0) result) ∙ done)
  ]
