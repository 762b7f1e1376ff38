-- ===== src/Webhooks/Accepted.antt =====
-- What an object that the webhooks accept is like.
use cluster_api_provider_ovh.Prelude.{
  ℕ, ◌+◌, ◌≡◌, refl, ◌++◌, Bool, true, false, not, ◌&&◌, ◌||◌, Option, none, some, List, [], ◌∷◌,
  Text, is_empty, below, Outcome, ok, err, arith,
}
use cluster_api_provider_ovh.Resources.{
  ObjectMeta, OvhCluster, OvhNetworkConfig, OvhMachine, OvhVolume,
}
use cluster_api_provider_ovh.Webhooks.{
  complaint, report, is_none, network_complaints, validate_ovh_cluster, volume_complaints,
  validate_ovh_machine,
}

abbrev pub accepted : Outcome (Unit {0}) → Bool
accepted (ok u) = true
accepted (err e) = false

abbrev no_complaints : List Text → Bool
no_complaints [] = true
no_complaints (e ∷ es) = false

accepted-report :
    (kind : Text) (meta : ObjectMeta) (es : List Text)
    → accepted (report kind meta es) ≡ no_complaints es
unfolding report
accepted-report kind meta [] = refl
accepted-report kind meta (e ∷ es) = refl

no_complaints-append :
    (bad : Bool) (message : Text) (es : List Text)
    → no_complaints (complaint bad message ++ es) ≡ (not bad && no_complaints es)
no_complaints-append true message es = refl
no_complaints-append false message es = refl

not_and : (a b : Bool) → not (a && b) ≡ (not a || not b)
not_and true b = refl
not_and false b = refl

-- What a network configuration must hold.
unfoldable pub valid_network : (Text → Bool) → Option OvhNetworkConfig → Bool
valid_network parses_ip none = true
valid_network parses_ip (some nc) =
    (not (is_empty nc.private_network_id) || not (is_empty nc.subnet_cidr))
    && (is_empty nc.gateway || parses_ip nc.gateway)

-- What each additional volume must hold.
unfoldable pub valid_volumes : List OvhVolume → Bool
valid_volumes [] = true
valid_volumes (vol ∷ vols) =
    not (is_empty vol.name) && (not (below vol.size_gb 1) && valid_volumes vols)

network_judged :
    (parses_ip : Text → Bool) (o : Option OvhNetworkConfig)
    → no_complaints (network_complaints parses_ip o) ≡ valid_network parses_ip o
unfolding network_complaints valid_network
network_judged parses_ip none = refl
network_judged parses_ip (some nc) = ground arith

volumes_judged :
    (i : ℕ) (vols : List OvhVolume) → no_complaints (volume_complaints i vols) ≡ valid_volumes vols
unfolding volume_complaints valid_volumes
volumes_judged i [] = refl
volumes_judged i (vol ∷ vols) =
    rw (no_complaints-append, no_complaints-append, volumes_judged (i + 1) vols) refl

-- validateOVHCluster accepts exactly the clusters that name a service, a region and an identity
-- secret with its namespace, that give a subnet for the balancer or a network configuration, and
-- whose network configuration names a network or a CIDR and no gateway that is no IP address.
pub cluster_accepted :
    (parses_ip : Text → Bool) (c : OvhCluster)
    → accepted (validate_ovh_cluster parses_ip c) ≡ (
        not (is_empty c.spec.service_name)
        && (not (is_empty c.spec.region)
            && (not (is_empty c.spec.identity_secret.name)
                && (not (is_empty c.spec.identity_secret.namespace)
                    && ((not (is_empty c.spec.load_balancer_config.subnet_id)
                          || not (is_none c.spec.network_config))
                        && valid_network parses_ip c.spec.network_config)))))
unfolding validate_ovh_cluster
cluster_accepted parses_ip c =
    rw
      (
        accepted-report,
        no_complaints-append,
        no_complaints-append,
        no_complaints-append,
        no_complaints-append,
        no_complaints-append,
        network_judged parses_ip c.spec.network_config,
        not_and,
      )
      refl

-- validateOVHMachine accepts exactly the machines that name a flavor and an image, whose root disk
-- size is not negative, and each of whose additional volumes has a name and a size of at least 1.
pub machine_accepted :
    (m : OvhMachine)
    → accepted (validate_ovh_machine m) ≡ (
        not (is_empty m.spec.flavor_name)
        && (not (is_empty m.spec.image_name)
            && (not (below m.spec.root_disk_size 0) && valid_volumes m.spec.additional_volumes)))
unfolding validate_ovh_machine
machine_accepted m =
    rw
      (
        accepted-report,
        no_complaints-append,
        no_complaints-append,
        no_complaints-append,
        volumes_judged 0 m.spec.additional_volumes,
      )
      refl
