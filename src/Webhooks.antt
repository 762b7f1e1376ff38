-- ===== src/Webhooks.antt =====
-- The admission webhooks (ovhcluster_webhook.go and ovhmachine_webhook.go). Here are
-- validateOVHCluster and validateOVHMachine of api/v1alpha2, Older has those of api/v1alpha1, and
-- Validators the methods that the API server calls. net.ParseIP is a parameter.
pub mod Accepted
pub mod Older
pub mod Validators
pub mod Versions
use cluster_api_provider_ovh.Prelude.{
  true, false, ℕ, ◌+◌, ◌++◌, Bool, not, ◌&&◌, Option, none, some, List, [], ◌∷◌, Text, codes,
  decimal, is_empty, below, pos, plain, Outcome, ok, err, if◌then◌else◌,
}
use cluster_api_provider_ovh.Client.Calls.{quoted}
use cluster_api_provider_ovh.Names.{join}
use cluster_api_provider_ovh.Resources.{
  ObjectMeta, OvhCluster, OvhNetworkConfig, OvhMachine, OvhVolume,
}

-- `if bad { errs = append(errs, message) }`
abbrev pub complaint : Bool → Text → List Text
complaint bad message = if bad then message ∷ [] else []

-- `if len(errs) > 0 { … }`
unfoldable pub report : Text → ObjectMeta → List Text → Outcome (Unit {0})
report kind meta [] = ok tt
report kind meta (e ∷ es) = err (
    plain (
      codes "validation failed for "
      ++ (kind
          ++ (codes " "
              ++ (meta.namespace
                  ++ (codes "/" ++ (meta.name ++ (codes ": " ++ join (codes "; ") (e ∷ es)))))))))

abbrev pub is_none : Option OvhNetworkConfig → Bool
is_none none = true
is_none (some c) = false

module _ (parses_ip : Text → Bool) where
  unfoldable pub network_complaints : Option OvhNetworkConfig → List Text
  network_complaints none = []
  network_complaints (some nc) =
      complaint (is_empty nc.private_network_id && is_empty nc.subnet_cidr)
        (codes "spec.networkConfig requires either privateNetworkID or subnetCIDR")
      ++ complaint (not (is_empty nc.gateway) && not (parses_ip nc.gateway)) (
          codes "spec.networkConfig.gateway "
          ++ (quoted nc.gateway ++ codes " is not a valid IP address"))

  -- `validateOVHCluster`
  unfoldable pub validate_ovh_cluster : OvhCluster → Outcome (Unit {0})
  unfolding network_complaints report
  validate_ovh_cluster c = report (codes "OVHCluster") c.meta (
      complaint (is_empty c.spec.service_name) (codes "spec.serviceName is required")
      ++ (complaint (is_empty c.spec.region) (codes "spec.region is required")
          ++ (complaint (is_empty c.spec.identity_secret.name)
                (codes "spec.identitySecret.name is required")
              ++ (complaint (is_empty c.spec.identity_secret.namespace)
                    (codes "spec.identitySecret.namespace is required")
                  ++ (complaint
                        (is_empty c.spec.load_balancer_config.subnet_id
                          && is_none c.spec.network_config)
                        (codes
                          "either spec.loadBalancerConfig.subnetID or spec.networkConfig must be provided")
                      ++ network_complaints c.spec.network_config)))))

-- The loop over the additional volumes from index `i` on.
unfoldable pub volume_complaints : ℕ → List OvhVolume → List Text
volume_complaints i [] = []
volume_complaints i (vol ∷ vols) =
    complaint (is_empty vol.name)
      (codes "spec.additionalVolumes[" ++ (decimal i ++ codes "].name is required"))
    ++ (complaint (below vol.size_gb 1)
          (codes "spec.additionalVolumes[" ++ (decimal i ++ codes "].sizeGB must be >= 1"))
        ++ volume_complaints (i + 1) vols)

-- `validateOVHMachine`
unfoldable pub validate_ovh_machine : OvhMachine → Outcome (Unit {0})
unfolding volume_complaints report
validate_ovh_machine m = report (codes "OVHMachine") m.meta (
    complaint (is_empty m.spec.flavor_name) (codes "spec.flavorName is required")
    ++ (complaint (is_empty m.spec.image_name) (codes "spec.imageName is required")
        ++ (complaint (below m.spec.root_disk_size 0) (codes "spec.rootDiskSize must be >= 0")
            ++ volume_complaints 0 m.spec.additional_volumes)))
