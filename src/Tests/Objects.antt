-- ===== src/Tests/Objects.antt =====
-- The validation of the machine "cp-0" and of its cluster.
use cluster_api_provider_ovh.Prelude.{
  ◌≡◌, refl, ok, Bool, Text, codes, not, ◌&&◌, ◌||◌, is_empty, below, contains,
}
use cluster_api_provider_ovh.Webhooks.{is_none, validate_ovh_cluster, validate_ovh_machine}
use cluster_api_provider_ovh.Conversion.{
  zero_cluster, zero_machine, zero_cluster_v1alpha1, zero_machine_v1alpha1, cluster_to_hub,
  cluster_from_hub, machine_to_hub, machine_from_hub, write_hub_cluster, convert_network_config,
  convert_each,
}
use cluster_api_provider_ovh.Webhooks.Validators.{
  RuntimeObject, validate_create_cluster, validate_create_cluster_v1alpha1, validate_create_machine,
  validate_create_machine_v1alpha1,
}
use cluster_api_provider_ovh.Webhooks.Versions.{versions_agree}
use cluster_api_provider_ovh.Webhooks.Accepted.{
  accepted, valid_network, valid_volumes, cluster_accepted, machine_accepted,
}
use cluster_api_provider_ovh.Tests.Fixtures.{cluster, machine_with_id}

-- A stand-in for net.ParseIP: an address holds a dot.
abbrev has_dot : Text → Bool
has_dot s = contains s (codes ".")

cluster_accepted_example : accepted (validate_ovh_cluster has_dot cluster) ≡ (
    not (is_empty cluster.spec.service_name)
    && (not (is_empty cluster.spec.region)
        && (not (is_empty cluster.spec.identity_secret.name)
            && (not (is_empty cluster.spec.identity_secret.namespace)
                && ((not (is_empty cluster.spec.load_balancer_config.subnet_id)
                      || not (is_none cluster.spec.network_config))
                    && valid_network has_dot cluster.spec.network_config)))))
cluster_accepted_example = cluster_accepted has_dot cluster

machine_accepted_example : accepted (validate_ovh_machine (machine_with_id (codes "i-1"))) ≡ (
    not (is_empty (machine_with_id (codes "i-1")).spec.flavor_name)
    && (not (is_empty (machine_with_id (codes "i-1")).spec.image_name)
        && (not (below (machine_with_id (codes "i-1")).spec.root_disk_size 0)
            && valid_volumes (machine_with_id (codes "i-1")).spec.additional_volumes)))
machine_accepted_example = machine_accepted (machine_with_id (codes "i-1"))

unset_converts : cluster_to_hub zero_cluster_v1alpha1 zero_cluster ≡ ok zero_cluster
unfolding cluster_to_hub write_hub_cluster convert_network_config convert_each
unset_converts = refl

-- A v1alpha1 cluster and machine that nobody has filled in: both versions refuse them.
versions_agree_example :
    (validate_create_cluster has_dot (RuntimeObject.cluster zero_cluster)
      ≡ validate_create_cluster_v1alpha1 has_dot
          (RuntimeObject.cluster_v1alpha1 zero_cluster_v1alpha1))
    × (validate_create_cluster_v1alpha1 has_dot
          (RuntimeObject.cluster_v1alpha1 (cluster_from_hub zero_cluster_v1alpha1 cluster))
        ≡ validate_create_cluster has_dot (RuntimeObject.cluster cluster))
    × (validate_create_machine
          (RuntimeObject.machine (machine_to_hub zero_machine_v1alpha1 zero_machine))
        ≡ validate_create_machine_v1alpha1 (RuntimeObject.machine_v1alpha1 zero_machine_v1alpha1))
    × (validate_create_machine_v1alpha1 (
          RuntimeObject.machine_v1alpha1
            (machine_from_hub zero_machine_v1alpha1 (machine_with_id (codes "i-1"))))
        ≡ validate_create_machine (RuntimeObject.machine (machine_with_id (codes "i-1"))))
versions_agree_example =
    versions_agree has_dot zero_cluster_v1alpha1 zero_cluster cluster zero_machine_v1alpha1
      (machine_with_id (codes "i-1")) unset_converts
