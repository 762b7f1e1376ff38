-- ===== src/Client/Balancers.antt =====
-- Load balancers, gateways and their floating IPs (pkg/ovh/client.go).
use cluster_api_provider_ovh.Prelude.{
  ℕ, zero, suc, ◌+◌, ◌*◌, ◌++◌, Bool, ◌||◌, Option, none, some, List, Text, codes, find?, keep,
  ◌==◌, equal_fold, has_prefix, plain, GoError, Outcome, ok, err, Exec, pure, fail, attempt, modify,
  or_wrap, ◌>>=◌, ◌>>◌,
}
use cluster_api_provider_ovh.Errors.{is_not_found, is_conflict, is_already_deleting}
use cluster_api_provider_ovh.Cloud.{
  get, post, delete, Kind, no_body, new_load_balancer, floating_ip_id, lb_floating_ip, LbFlavor,
  LoadBalancer, CreateLoadBalancerOpts, Gateway, FloatingIp, World,
}
use cluster_api_provider_ovh.Client.Retry.{Client, region_path, sleep}
use cluster_api_provider_ovh.Client.Calls.{quoted, retried, fetch, drop}

abbrev pub max_lookup_attempts : ℕ
max_lookup_attempts = 10

abbrev pub gone_or_deleting : GoError → Bool
gone_or_deleting e = is_not_found e || is_already_deleting e

module _ {W : Type 0} (c : Client W) where
  -- `ListLBFlavors`
  unfoldable pub list_lb_flavors : Exec (World W) (List LbFlavor)
  list_lb_flavors =
      fetch c (codes "ListLBFlavors") Kind.lb_flavors get
        (region_path c (codes "/loadbalancing/flavor")) no_body (codes "listing LB flavors")

  lb_flavor_or_fail : Text → Option LbFlavor → Exec (World W) LbFlavor
  lb_flavor_or_fail name none =
      fail
        (plain (codes "LB flavor " ++ (quoted name ++ (codes " not found in region " ++ c.region))))
  lb_flavor_or_fail name (some f) = pure f

  -- `GetLBFlavorByName`
  unfoldable pub get_lb_flavor_by_name : Text → Exec (World W) LbFlavor
  unfolding lb_flavor_or_fail
  get_lb_flavor_by_name name = do
    flavors ← list_lb_flavors
    lb_flavor_or_fail name (find? (λ f. equal_fold f.name name) flavors)

  abbrev pub lb_path : Text
  lb_path = region_path c (codes "/loadbalancing/loadbalancer")

  abbrev pub one_lb_path : Text → Text
  one_lb_path suffix = region_path c (codes "/loadbalancing/loadbalancer/" ++ suffix)

  -- The list that `findLoadBalancerByName` and `ListLoadBalancersByPrefix` read, its error bare.
  unfoldable pub list_load_balancers : Exec (World W) (List LoadBalancer)
  list_load_balancers =
      retried c (codes "ListLoadBalancers") Kind.load_balancers get lb_path no_body

  -- `findLoadBalancerByName`
  unfoldable pub find_load_balancer_by_name : Text → Exec (World W) (Option LoadBalancer)
  find_load_balancer_by_name name = do
    lbs ← list_load_balancers
    pure (find? (λ lb. lb.name == name) lbs)

  unfoldable pub never_appeared : Text → GoError
  never_appeared name = plain (
      codes "LB "
      ++ (quoted name ++ codes " was created but did not appear in list within 10 attempts"))

  -- The lookups of `CreateLoadBalancer` from attempt `attempt` on, `left` of them.
  unfoldable pub poll_load_balancer : Text → ℕ → ℕ → Exec (World W) LoadBalancer
  unfolding never_appeared
  poll_load_balancer name zero attempt = fail (never_appeared name)
  poll_load_balancer name (suc left) attempt = do
    found ←
        or_wrap (codes "LB " ++ (quoted name ++ codes " created but lookup failed"))
          (find_load_balancer_by_name name)
    elim found [
      | some lb ↦ pure lb
      | none ↦ modify (sleep (2 * (attempt + 1))) >> poll_load_balancer name left (attempt + 1)
    ]

  -- The POST of `CreateLoadBalancer`, whose reply is not read.
  unfoldable pub send_post : CreateLoadBalancerOpts → Exec (World W) (Unit {0})
  send_post opts =
      fetch c (codes "CreateLoadBalancer") Kind.ignored post lb_path (new_load_balancer opts)
        (codes "creating load balancer " ++ quoted opts.name)

  -- That POST and the polling behind it.
  unfoldable pub post_load_balancer : CreateLoadBalancerOpts → Exec (World W) LoadBalancer
  post_load_balancer opts = send_post opts >> poll_load_balancer opts.name max_lookup_attempts 0

  -- An error of the first lookup is passed over: only a balancer that was found stops the POST.
  unfoldable pub unless_found :
      Outcome (Option LoadBalancer) → CreateLoadBalancerOpts → Exec (World W) LoadBalancer
  unless_found (ok (some lb)) opts = pure lb
  unless_found (ok none) opts = post_load_balancer opts
  unless_found (err e) opts = post_load_balancer opts

  -- `CreateLoadBalancer`
  unfoldable pub create_load_balancer : CreateLoadBalancerOpts → Exec (World W) LoadBalancer
  unfolding unless_found
  create_load_balancer opts = do
    existing ← attempt (find_load_balancer_by_name opts.name)
    unless_found existing opts

  -- `ListLoadBalancersByPrefix`
  unfoldable pub list_load_balancers_by_prefix : Text → Exec (World W) (List LoadBalancer)
  list_load_balancers_by_prefix prefix = do
    lbs ← list_load_balancers
    pure (keep (λ lb. has_prefix lb.name prefix) lbs)

  -- `AssociateFloatingIPToLB`
  unfoldable pub associate_floating_ip_to_lb : Text → Text → Exec (World W) (Unit {0})
  associate_floating_ip_to_lb lb_id fip_id =
      fetch c (codes "AssociateFloatingIPToLB") Kind.nothing post
        (one_lb_path (lb_id ++ codes "/associateFloatingIp")) (floating_ip_id fip_id)
        (codes "associating floating IP " ++ (fip_id ++ (codes " to LB " ++ lb_id)))

  -- `ListGateways`
  unfoldable pub list_gateways : Exec (World W) (List Gateway)
  list_gateways =
      fetch c (codes "ListGateways") Kind.gateways get (region_path c (codes "/gateway")) no_body
        (codes "listing gateways")

  -- `DeleteGateway`
  unfoldable pub delete_gateway : Text → Exec (World W) (Unit {0})
  delete_gateway gateway_id =
      drop c (codes "DeleteGateway") delete (region_path c (codes "/gateway/" ++ gateway_id))
        no_body is_not_found (codes "deleting gateway " ++ gateway_id)

  -- `ExposeGateway`: a conflict counts as success.
  unfoldable pub expose_gateway : Text → Exec (World W) (Unit {0})
  expose_gateway gateway_id =
      drop c (codes "ExposeGateway") post
        (region_path c (codes "/gateway/" ++ (gateway_id ++ codes "/expose"))) no_body is_conflict
        (codes "exposing gateway " ++ gateway_id)

  -- `CreateLoadBalancerFloatingIP`
  unfoldable pub create_load_balancer_floating_ip : Text → Text → Text → Exec (World W) FloatingIp
  create_load_balancer_floating_ip lb_id private_ip gateway_name =
      fetch c (codes "CreateLoadBalancerFloatingIP") Kind.one_floating_ip post
        (one_lb_path (lb_id ++ codes "/floatingIp"))
        (lb_floating_ip private_ip (codes "s") gateway_name)
        (codes "creating floating IP for LB " ++ lb_id)

  -- `GetLoadBalancer`
  unfoldable pub get_load_balancer : Text → Exec (World W) LoadBalancer
  get_load_balancer lb_id =
      fetch c (codes "GetLoadBalancer") Kind.one_load_balancer get (one_lb_path lb_id) no_body
        (codes "getting load balancer " ++ lb_id)

  -- `DeleteLoadBalancer`
  unfoldable pub delete_load_balancer : Text → Exec (World W) (Unit {0})
  delete_load_balancer lb_id =
      drop c (codes "DeleteLoadBalancer") delete (one_lb_path lb_id) no_body gone_or_deleting
        (codes "deleting load balancer " ++ lb_id)
