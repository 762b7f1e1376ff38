-- ===== src/Tests/Retries.antt =====
-- The client's theorems at concrete inputs.
use cluster_api_provider_ovh.Prelude.{
  ◌==◌, ℕ, ◌≡◌, refl, ◌⊎◌, none, true, codes, Exec, contains, ok, [],
}
use cluster_api_provider_ovh.Errors.{is_retryable, as_api, says, error_text}
use cluster_api_provider_ovh.Cloud.{Kind, get, no_body, Instance, World, CreateLoadBalancerOpts}
use cluster_api_provider_ovh.Client.Retry.{Client, request, retry_with_backoff, retry_from}
use cluster_api_provider_ovh.Client.Retry.Settled.{SettlesWithin, GivesUp, retry_settles}
use cluster_api_provider_ovh.Client.Retry.Bounds.{Trailed, retry_trail}
use cluster_api_provider_ovh.Client.Balancers.{
  find_load_balancer_by_name, list_load_balancers, unless_found, poll_load_balancer,
  create_load_balancer,
}
use cluster_api_provider_ovh.Client.Polling.{
  DecidedWithin, NeverAppears, poll_decides, Reused, Posted, reuses_or_posts, created_named,
}
use cluster_api_provider_ovh.Client.Masking.{delete_masks}
use cluster_api_provider_ovh.Client.Instances.{delete_instance}
use cluster_api_provider_ovh.Tests.Clouds.{
  balancer_named, flaky, unreachable, lost, client_of, start,
}

abbrev client : Client ℕ
client = client_of flaky

abbrev fetch_instance : Exec (World ℕ) Instance
fetch_instance =
    request client Kind.one_instance get (codes "/cloud/project/p1/instance/i-1") no_body

retry_settles_example :
    SettlesWithin
      (codes "GetInstance")
      fetch_instance
      5
      0
      start
      (retry_with_backoff (codes "GetInstance") fetch_instance start)
    ⊎ GivesUp
        (codes "GetInstance")
        fetch_instance
        5
        0
        start
        (retry_with_backoff (codes "GetInstance") fetch_instance start)
retry_settles_example = retry_settles (codes "GetInstance") fetch_instance start

retry_trail_example :
    Trailed client Kind.one_instance get
      (codes "/cloud/project/p1/instance/i-1")
      no_body
      []
      (retry_with_backoff (codes "GetInstance") fetch_instance start).1.events
retry_trail_example =
    retry_trail client Kind.one_instance get (codes "/cloud/project/p1/instance/i-1") no_body
      (codes "GetInstance") start

poll_decides_example :
    DecidedWithin client
      (codes "capi-demo-lb")
      10
      0
      start
      (poll_load_balancer client (codes "capi-demo-lb") 10 0 start)
    ⊎ NeverAppears client
        (codes "capi-demo-lb")
        10
        0
        start
        (poll_load_balancer client (codes "capi-demo-lb") 10 0 start)
poll_decides_example = poll_decides client (codes "capi-demo-lb") start

abbrev opts : CreateLoadBalancerOpts
opts = record {
  name = codes "capi-demo-lb";
  flavor_id = codes "small";
  network = record {
    private = record { network = record { id = codes "n-1"; subnet_id = codes "s-1" } };
  };
}

reuses_or_posts_example :
    Reused client opts start (create_load_balancer client opts start)
    ⊎ Posted client opts start (create_load_balancer client opts start)
reuses_or_posts_example = reuses_or_posts client opts start

creates : (create_load_balancer client opts start).0 ≡ ok (balancer_named (codes "capi-demo-lb"))
unfolding create_load_balancer unless_found find_load_balancer_by_name list_load_balancers
    retry_with_backoff retry_from request is_retryable as_api codes ◌==◌
creates = refl

created_named_example : (balancer_named (codes "capi-demo-lb")).name ≡ codes "capi-demo-lb"
created_named_example =
    created_named client opts start (balancer_named (codes "capi-demo-lb")) creates

lost_is_network : as_api lost ≡ none
unfolding as_api
lost_is_network = refl

lost-says : says lost (codes "404") ≡ true
unfolding codes contains error_text
lost-says = refl

delete_masks_example : (delete_instance (client_of unreachable) (codes "4040") start).0 ≡ ok tt
delete_masks_example =
    delete_masks (client_of unreachable) lost (λ k m p b cloud. refl) lost_is_network lost-says
      (codes "4040") start
