-- ===== src/Tests/Clouds.antt =====
-- Small clouds to run the client against.
use cluster_api_provider_ovh.Prelude.{
  ℕ, suc, [], ◌∷◌, Text, codes, ltb, if◌then◌else◌, api, plain, GoError, Outcome, ok, err, false,
  none,
}
use cluster_api_provider_ovh.Cloud.{Kind, Reply, Api, World, Instance, LoadBalancer}
use cluster_api_provider_ovh.Client.Retry.{Client}

abbrev pub instance_with : Text → Instance
instance_with status = record {
  id = codes "i-1";
  name = codes "demo-cp-0";
  status = status;
  flavor_id = codes "f-1";
  image_id = codes "img-1";
  region = codes "GRA7";
  created = codes "2024-01-01";
  ip_addresses =
      record { ip = codes "10.0.0.4"; kind = codes "private"; version = 4 }
      ∷ record { ip = codes "51.0.0.9"; kind = codes "public"; version = 4 }
      ∷ [];
  attached_volumes = [];
  ssh_key_id = [];
  monthly_billing = false;
}

abbrev pub balancer_named : Text → LoadBalancer
balancer_named name = record {
  id = codes "lb-1";
  name = name;
  created_at = [];
  updated_at = [];
  region = codes "GRA7";
  flavor_id = [];
  operating_status = [];
  provisioning_status = codes "active";
  vip_address = codes "10.0.0.2";
  vip_network_id = [];
  vip_subnet_id = [];
  floating_ip = none;
  listeners = [];
}

-- What the cloud answers once it is up.
abbrev pub answer : (k : Kind) → Outcome (Reply k)
answer Kind.one_instance = ok (instance_with (codes "ACTIVE"))
answer Kind.load_balancers = ok (balancer_named (codes "capi-demo-lb") ∷ [])
answer Kind.nothing = ok tt
answer k = err (api 404 (codes "no such resource"))

-- The first two calls are answered with 503.
abbrev pub flaky : Api ℕ
flaky = record {
  call = λ k m p b n. (if ltb n 2 then err (api 503 (codes "busy")) else answer k, suc n);
}

abbrev pub lost : GoError
lost = plain (codes "dial tcp: lookup /instance/4040: timeout")

-- No call reaches the cloud.
abbrev pub unreachable : Api ℕ
unreachable = record { call = λ k m p b n. (err lost, n) }

abbrev pub client_of : Api ℕ → Client ℕ
client_of cloud = record { api = cloud; service_name = codes "p1"; region = codes "GRA7" }

abbrev pub start : World ℕ
start = record { cloud = 0; events = [] }
