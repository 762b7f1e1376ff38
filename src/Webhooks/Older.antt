-- ===== src/Webhooks/Older.antt =====
-- validateOVHCluster and validateOVHMachine of api/v1alpha1.
use cluster_api_provider_ovh.Prelude.{◌++◌, Bool, ◌&&◌, Text, codes, is_empty, below, Outcome}
use cluster_api_provider_ovh.Conversion.{OvhClusterV1alpha1, OvhMachineV1alpha1}
use cluster_api_provider_ovh.Webhooks.{
  complaint, report, is_none, network_complaints, volume_complaints,
}

unfoldable pub validate_ovh_cluster_v1alpha1 :
    (Text → Bool) → OvhClusterV1alpha1 → Outcome (Unit {0})
unfolding network_complaints report
validate_ovh_cluster_v1alpha1 parses_ip c = report (codes "OVHCluster") c.meta (
    complaint (is_empty c.spec.service_name) (codes "spec.serviceName is required")
    ++ (complaint (is_empty c.spec.region) (codes "spec.region is required")
        ++ (complaint (is_empty c.spec.identity_secret.name)
              (codes "spec.identitySecret.name is required")
            ++ (complaint (is_empty c.spec.identity_secret.namespace)
                  (codes "spec.identitySecret.namespace is required")
                ++ (complaint
                      (is_empty c.spec.load_balancer_config.subnet_id
                        && is_none c.spec.network_config)
                      (codes
                        "either spec.loadBalancerConfig.subnetID or spec.networkConfig must be provided")
                    ++ network_complaints parses_ip c.spec.network_config)))))

unfoldable pub validate_ovh_machine_v1alpha1 : OvhMachineV1alpha1 → Outcome (Unit {0})
unfolding volume_complaints report
validate_ovh_machine_v1alpha1 m = report (codes "OVHMachine") m.meta (
    complaint (is_empty m.spec.flavor_name) (codes "spec.flavorName is required")
    ++ (complaint (is_empty m.spec.image_name) (codes "spec.imageName is required")
        ++ (complaint (below m.spec.root_disk_size 0) (codes "spec.rootDiskSize must be >= 0")
            ++ volume_complaints 0 m.spec.additional_volumes)))
