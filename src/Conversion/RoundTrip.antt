-- ===== src/Conversion/RoundTrip.antt =====
-- What the conversion of an OVHCluster and back keeps, in either direction.
use cluster_api_provider_ovh.Prelude.{
  ◌≡◌, refl, sym, ap, ◌∙◌, Bool-cases, Option, none, some, inl, inr, List, [], ◌∷◌, map, Text,
  codes, ◌==◌, ==_iff, Outcome, Outcome-cases, ok, ok_injective, and_then, arith,
}
use cluster_api_provider_ovh.Resources.{
  OvhCluster, OvhListener, OvhNetworkConfig, Protocol, tcp, udp, sctp,
}
use cluster_api_provider_ovh.Conversion.Older.{
  OvhClusterV1alpha1, OvhListenerV1alpha1, zero_cluster_v1alpha1,
}
use cluster_api_provider_ovh.Conversion.Hubs.{Hub, zero_cluster}
use cluster_api_provider_ovh.Conversion.Clusters.{
  convert_each, convert_protocol_to_v1alpha2, protocol_text, convert_listener_to,
  convert_listener_from, convert_network_config, unless_empty, write_hub_cluster, cluster_to_hub,
  cluster_from_hub, cluster_convert_to, cluster_convert_from,
}

-- Objects without what the other version has no place for.
abbrev pub without_failure : OvhClusterV1alpha1 → OvhClusterV1alpha1
without_failure c = record c {
  status = record c.status { failure_reason = []; failure_message = [] };
}

abbrev pub common_cluster : OvhCluster → OvhCluster
common_cluster c = record c {
  spec = record c.spec {
    load_balancer_config = record c.spec.load_balancer_config {
      existing_load_balancer_id = [];
      existing_floating_ip_id = [];
    };
    failure_domains = [];
    security_groups = [];
    default_tags = [];
    dns_config = none;
  };
  status = record c.status {
    initialization = record { provisioned = none };
    failure_domains = [];
    security_group_ids = [];
    dns_record_id = 0;
  };
}

protocol_back :
    (p : Text) (q : Protocol) → convert_protocol_to_v1alpha2 p ≡ ok q → protocol_text q ≡ p
unfolding convert_protocol_to_v1alpha2 protocol_text
protocol_back p q done = elim (Bool-cases (p == codes "TCP")) [
  | inl e ↦ ground (arith, ==_iff p (codes "TCP"))
  | inr a ↦ elim (Bool-cases (p == codes "UDP")) [
    | inl e ↦ ground (arith, ==_iff p (codes "UDP"))
    | inr b ↦ elim (Bool-cases (p == codes "SCTP")) [
      | inl e ↦ ground (arith, ==_iff p (codes "SCTP"))
      | inr c ↦ ground arith
    ]
  ]
]

pub listener_back :
    (l : OvhListenerV1alpha1) (l' : OvhListener)
    → convert_listener_to l ≡ ok l'
    → convert_listener_from l' ≡ l
unfolding convert_listener_to convert_listener_from
listener_back l l' done = elim (Outcome-cases (convert_protocol_to_v1alpha2 l.protocol)) [
  | inl (q, e) ↦ ground (arith, protocol_back l.protocol q e)
  | inr (e, failed) ↦ absurd (let h = rw failed at done in cc)
]

pub protocol_there : (q : Protocol) → convert_protocol_to_v1alpha2 (protocol_text q) ≡ ok q
unfolding convert_protocol_to_v1alpha2 protocol_text codes ◌==◌
protocol_there tcp = refl
protocol_there udp = refl
protocol_there sctp = refl

pub listener_there : (l : OvhListener) → convert_listener_to (convert_listener_from l) ≡ ok l
unfolding convert_listener_to convert_listener_from
listener_there l = rw (protocol_there l.protocol)

-- Whatever brings back the results of single conversions brings back the list of them.
pub convert_each-back :
    {A B : Type 0} (f : A → Outcome B) (g : B → A) (h : A → A) (xs : List A) (ys : List B)
    → ((a : A) (b : B) → f a ≡ ok b → g b ≡ h a)
    → convert_each f xs ≡ ok ys
    → map g ys ≡ map h xs
unfolding convert_each
convert_each-back f g h [] ys back done = ground arith
convert_each-back f g h (x ∷ xs) ys back done = elim (Outcome-cases (f x)) [
  | inl (b, e) ↦ elim (Outcome-cases (convert_each f xs)) [
    | inl (bs, es) ↦ ground (arith, back x b e, convert_each-back f g h xs bs back es)
    | inr (e', failed) ↦ absurd (let k = rw (e, failed) at done in cc)
  ]
  | inr (e', failed) ↦ absurd (let k = rw failed at done in cc)
]

pub convert_each-there :
    {A B : Type 0} (f : A → Outcome B) (g : B → A) (ys : List B)
    → ((b : B) → f (g b) ≡ ok b)
    → convert_each f (map g ys) ≡ ok ys
unfolding convert_each
convert_each-there f g [] there = refl
convert_each-there f g (y ∷ ys) there = rw (there y, convert_each-there f g ys there)

pub unless_empty-nil : {A : Type 0} (xs : List A) → unless_empty xs [] ≡ xs
unless_empty-nil [] = refl
unless_empty-nil (x ∷ xs) = refl

pub convert_network_config-none :
    (nc : Option OvhNetworkConfig) → convert_network_config nc none ≡ nc
unfolding convert_network_config
convert_network_config-none none = refl
convert_network_config-none (some nc) = refl

pub map_same : {A : Type 0} (xs : List A) → map (λ x. x) xs ≡ xs
map_same [] = refl
map_same (x ∷ xs) = ap (λ ys. x ∷ ys) (map_same xs)

-- The listeners of an object, put into it.
abbrev with_parts :
    OvhClusterV1alpha1 → List OvhListenerV1alpha1 → Option OvhNetworkConfig → OvhClusterV1alpha1
with_parts c listeners nc = record (without_failure c) {
  spec = record c.spec {
    load_balancer_config = record c.spec.load_balancer_config { listeners = listeners };
    network_config = nc;
  };
}

written_back :
    (c : OvhClusterV1alpha1) (listeners : List OvhListener)
    → map convert_listener_from listeners ≡ c.spec.load_balancer_config.listeners
    → cluster_from_hub zero_cluster_v1alpha1 (write_hub_cluster c zero_cluster listeners)
      ≡ without_failure c
unfolding cluster_from_hub write_hub_cluster
written_back c listeners back =
    ap
      (λ (nc : Option OvhNetworkConfig).
        with_parts c (unless_empty (map convert_listener_from (unless_empty listeners [])) [])
          (convert_network_config nc none))
      (convert_network_config-none c.spec.network_config)
    ∙ ap
        (λ (nc : Option OvhNetworkConfig).
          with_parts c (unless_empty (map convert_listener_from (unless_empty listeners [])) []) nc)
        (convert_network_config-none c.spec.network_config)
    ∙ ap (λ (ls : List OvhListenerV1alpha1). with_parts c ls c.spec.network_config)
        (unless_empty-nil _ ∙ ap (map convert_listener_from) (unless_empty-nil listeners) ∙ back)

pub cluster_back :
    (c : OvhClusterV1alpha1) (h : OvhCluster)
    → cluster_to_hub c zero_cluster ≡ ok h
    → cluster_from_hub zero_cluster_v1alpha1 h ≡ without_failure c
unfolding cluster_to_hub
cluster_back c h done =
    elim (Outcome-cases (convert_each convert_listener_to c.spec.load_balancer_config.listeners)) [
      | inl (ls, e) ↦ rw (sym (ok_injective (rw e at done))) (
          written_back c ls (
            convert_each-back convert_listener_to convert_listener_from (λ l. l) _ ls listener_back
              e
            ∙ map_same _))
      | inr (e, failed) ↦ absurd (let k = rw failed at done in cc)
    ]

-- The same for an object of v1alpha2.
abbrev with_hub_parts : OvhCluster → List OvhListener → Option OvhNetworkConfig → OvhCluster
with_hub_parts h listeners nc = record (common_cluster h) {
  spec = record (common_cluster h).spec {
    load_balancer_config = record (common_cluster h).spec.load_balancer_config {
      listeners = listeners;
    };
    network_config = nc;
  };
}

written_there :
    (h : OvhCluster)
    → write_hub_cluster
        (cluster_from_hub zero_cluster_v1alpha1 h)
        zero_cluster
        h.spec.load_balancer_config.listeners
      ≡ common_cluster h
unfolding cluster_from_hub write_hub_cluster
written_there h =
    ap
      (λ (nc : Option OvhNetworkConfig).
        with_hub_parts h (unless_empty h.spec.load_balancer_config.listeners [])
          (convert_network_config nc none))
      (convert_network_config-none h.spec.network_config)
    ∙ ap
        (λ (nc : Option OvhNetworkConfig).
          with_hub_parts h (unless_empty h.spec.load_balancer_config.listeners []) nc)
        (convert_network_config-none h.spec.network_config)
    ∙ ap (λ (ls : List OvhListener). with_hub_parts h ls h.spec.network_config)
        (unless_empty-nil h.spec.load_balancer_config.listeners)

converted_listeners :
    (h : OvhCluster)
    → convert_each convert_listener_to
        (cluster_from_hub zero_cluster_v1alpha1 h).spec.load_balancer_config.listeners
      ≡ ok h.spec.load_balancer_config.listeners
unfolding cluster_from_hub
converted_listeners h =
    ap (convert_each convert_listener_to)
      (unless_empty-nil (map convert_listener_from h.spec.load_balancer_config.listeners))
    ∙ convert_each-there convert_listener_to convert_listener_from _ listener_there

pub cluster_there :
    (h : OvhCluster)
    → cluster_to_hub (cluster_from_hub zero_cluster_v1alpha1 h) zero_cluster ≡ ok (common_cluster h)
unfolding cluster_to_hub
cluster_there h = rw (converted_listeners h) (ap ok (written_there h))

-- An OVHCluster of v1alpha1 that converts to v1alpha2 comes back as it was, but for the failure
-- reason and message of its status, which are lost.
pub cluster_round_trip :
    (c : OvhClusterV1alpha1) (h : Hub)
    → cluster_convert_to c (Hub.cluster zero_cluster) ≡ ok h
    → cluster_convert_from zero_cluster_v1alpha1 h ≡ ok (without_failure c)
unfolding cluster_convert_to cluster_convert_from
cluster_round_trip c h done = elim (Outcome-cases (cluster_to_hub c zero_cluster)) [
  | inl (d, e) ↦ rw (sym (ok_injective (rw e at done))) (ap ok (cluster_back c d e))
  | inr (e, failed) ↦ absurd (let k = rw failed at done in cc)
]

-- An OVHCluster of v1alpha2 always converts to v1alpha1, and the result converts back to what the
-- two versions share: initialization, failure domains, security groups, tags, DNS and the
-- identifiers of existing resources are lost, and the rest is as it was.
pub hub_cluster_round_trip :
    (h : OvhCluster)
    → and_then
        (cluster_convert_from zero_cluster_v1alpha1 (Hub.cluster h))
        (λ c. cluster_convert_to c (Hub.cluster zero_cluster))
      ≡ ok (Hub.cluster (common_cluster h))
unfolding cluster_convert_to cluster_convert_from
hub_cluster_round_trip h = rw (cluster_there h)
