-- ===== src/Conversion/Rejections.antt =====
-- Which objects of v1alpha1 the conversion to v1alpha2 rejects, and with which error.
use cluster_api_provider_ovh.Prelude.{
  ◌≡◌, refl, ◌⊎◌, Bool, Bool-cases, true, false, not, ◌||◌, Option-cases, none, some, inl, inr,
  List, [], ◌∷◌, ◌++◌, Text, codes, ◌==◌, find?, ok, err, wrap, arith,
}
use cluster_api_provider_ovh.Client.Calls.{quoted}
use cluster_api_provider_ovh.Resources.{OvhCluster, OvhListener, Protocol, tcp, udp, sctp}
use cluster_api_provider_ovh.Conversion.Older.{OvhClusterV1alpha1, OvhListenerV1alpha1}
use cluster_api_provider_ovh.Conversion.Hubs.{Hub}
use cluster_api_provider_ovh.Conversion.Clusters.{
  convert_each, convert_protocol_to_v1alpha2, protocol_error, convert_listener_to,
  write_hub_cluster, cluster_to_hub, cluster_convert_to,
}

-- The protocols of corev1.Protocol, in its spelling.
abbrev pub is_protocol : Text → Bool
is_protocol p = p == codes "TCP" || (p == codes "UDP" || p == codes "SCTP")

abbrev pub odd_protocol : OvhListenerV1alpha1 → Bool
odd_protocol l = not (is_protocol l.protocol)

protocol_accepted :
    (p : Text)
    → not (is_protocol p) ≡ false
    → (q : Protocol) × (convert_protocol_to_v1alpha2 p ≡ ok q)
unfolding convert_protocol_to_v1alpha2
protocol_accepted p even = elim (Bool-cases (p == codes "TCP")) [
  | inl a ↦ (tcp, rw a)
  | inr a ↦ elim (Bool-cases (p == codes "UDP")) [
    | inl b ↦ (udp, rw (a, b))
    | inr b ↦ (sctp, ground arith)
  ]
]

listener_accepted :
    (l : OvhListenerV1alpha1)
    → odd_protocol l ≡ false
    → (l' : OvhListener) × (convert_listener_to l ≡ ok l')
unfolding convert_listener_to
listener_accepted l even =
    let (q, e) = protocol_accepted l.protocol even in
    (record { name = l.name; port = l.port; protocol = q; backend_port = l.backend_port }, rw e)

listener_rejected :
    (l : OvhListenerV1alpha1)
    → odd_protocol l ≡ true
    → convert_listener_to l
      ≡ err (wrap (codes "listener " ++ quoted l.name) (protocol_error l.protocol))
unfolding convert_listener_to convert_protocol_to_v1alpha2
listener_rejected l odd = ground arith

listeners_accepted :
    (ls : List OvhListenerV1alpha1)
    → find? odd_protocol ls ≡ none
    → (ls' : List OvhListener) × (convert_each convert_listener_to ls ≡ ok ls')
unfolding convert_each
listeners_accepted [] all = ([], refl)
listeners_accepted (l ∷ ls) all = elim (Bool-cases (odd_protocol l)) [
  | inl odd ↦ absurd (let k = rw odd at all in cc)
  | inr even ↦
      let (l', e) = listener_accepted l even in
      let (ls', es) = listeners_accepted ls (rw even at all) in (l' ∷ ls', rw (e, es))
]

listeners_rejected :
    (ls : List OvhListenerV1alpha1) (l : OvhListenerV1alpha1)
    → find? odd_protocol ls ≡ some l
    → convert_each convert_listener_to ls
      ≡ err (wrap (codes "listener " ++ quoted l.name) (protocol_error l.protocol))
unfolding convert_each
listeners_rejected [] l first = cc
listeners_rejected (x ∷ ls) l first = elim (Bool-cases (odd_protocol x)) [
  | inl odd ↦ ground (arith, listener_rejected x odd)
  | inr even ↦
      let (x', e) = listener_accepted x even in
      ground (arith, e, listeners_rejected ls l (rw even at first))
]

-- The conversion of an OVHCluster to v1alpha2 succeeds when every listener of its balancer has the
-- protocol TCP, UDP or SCTP. Otherwise it fails with the error on the protocol of the first listener
-- that has not, which names that listener. The other fields are never a reason to fail.
pub cluster_conversion_outcome :
    (c : OvhClusterV1alpha1) (dst : OvhCluster)
    → ((find? odd_protocol c.spec.load_balancer_config.listeners ≡ none)
        × ((h : OvhCluster) × (cluster_convert_to c (Hub.cluster dst) ≡ ok (Hub.cluster h))))
      ⊎ ((l : OvhListenerV1alpha1) × (find? odd_protocol c.spec.load_balancer_config.listeners
            ≡ some l)
          × (cluster_convert_to c (Hub.cluster dst)
              ≡ err (wrap (codes "listener " ++ quoted l.name) (protocol_error l.protocol))))
unfolding cluster_convert_to cluster_to_hub
cluster_conversion_outcome c dst =
    elim (Option-cases (find? odd_protocol c.spec.load_balancer_config.listeners)) [
      | inl all ↦
          let (ls, e) = listeners_accepted _ all in inl (all, (write_hub_cluster c dst ls, rw e))
      | inr (l, first) ↦ inr (l, first, rw (listeners_rejected _ l first))
    ]
