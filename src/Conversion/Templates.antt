-- ===== src/Conversion/Templates.antt =====
-- The conversion of the templates. That of a cluster template converts its specification through a
-- temporary OVHCluster.
use cluster_api_provider_ovh.Prelude.{codes, Outcome, ok, and_then}
use cluster_api_provider_ovh.Conversion.Older.{
  OvhClusterTemplateV1alpha1, OvhMachineTemplateV1alpha1, zero_cluster_v1alpha1,
}
use cluster_api_provider_ovh.Conversion.Hubs.{
  OvhClusterTemplate, OvhMachineTemplate, Hub, zero_cluster,
}
use cluster_api_provider_ovh.Conversion.Clusters.{cluster_to_hub, cluster_from_hub, expected}
use cluster_api_provider_ovh.Conversion.Machines.{
  convert_machine_spec_to, convert_machine_spec_from,
}

unfoldable pub cluster_template_to_hub :
    OvhClusterTemplateV1alpha1 → OvhClusterTemplate → Outcome OvhClusterTemplate
unfolding cluster_to_hub
cluster_template_to_hub src dst =
    and_then
      (cluster_to_hub (record zero_cluster_v1alpha1 { spec = src.template_spec }) zero_cluster)
      λ tmp_dst. ok (record dst {
        meta = src.meta;
        template_meta = src.template_meta;
        template_spec = tmp_dst.spec;
      })

unfoldable pub cluster_template_from_hub :
    OvhClusterTemplateV1alpha1 → OvhClusterTemplate → OvhClusterTemplateV1alpha1
unfolding cluster_from_hub
cluster_template_from_hub dst src =
    let tmp_dst =
      cluster_from_hub zero_cluster_v1alpha1 (record zero_cluster { spec = src.template_spec }) in
    record dst { meta = src.meta; template_meta = src.template_meta; template_spec = tmp_dst.spec }

unfoldable pub cluster_template_convert_to : OvhClusterTemplateV1alpha1 → Hub → Outcome Hub
unfolding cluster_template_to_hub
cluster_template_convert_to src (Hub.cluster_template dst) =
    and_then (cluster_template_to_hub src dst) (λ d. ok (Hub.cluster_template d))
cluster_template_convert_to src other = expected (codes "*v1alpha2.OVHClusterTemplate") other

unfoldable pub cluster_template_convert_from :
    OvhClusterTemplateV1alpha1 → Hub → Outcome OvhClusterTemplateV1alpha1
unfolding cluster_template_from_hub
cluster_template_convert_from dst (Hub.cluster_template src) =
    ok (cluster_template_from_hub dst src)
cluster_template_convert_from dst other = expected (codes "*v1alpha2.OVHClusterTemplate") other

unfoldable pub machine_template_to_hub :
    OvhMachineTemplateV1alpha1 → OvhMachineTemplate → OvhMachineTemplate
unfolding convert_machine_spec_to
machine_template_to_hub src dst = record dst {
  meta = src.meta;
  template_meta = src.template_meta;
  template_spec = convert_machine_spec_to src.template_spec dst.template_spec;
}

unfoldable pub machine_template_from_hub :
    OvhMachineTemplateV1alpha1 → OvhMachineTemplate → OvhMachineTemplateV1alpha1
unfolding convert_machine_spec_from
machine_template_from_hub dst src = record dst {
  meta = src.meta;
  template_meta = src.template_meta;
  template_spec = convert_machine_spec_from src.template_spec dst.template_spec;
}

unfoldable pub machine_template_convert_to : OvhMachineTemplateV1alpha1 → Hub → Outcome Hub
unfolding machine_template_to_hub
machine_template_convert_to src (Hub.machine_template dst) =
    ok (Hub.machine_template (machine_template_to_hub src dst))
machine_template_convert_to src other = expected (codes "*v1alpha2.OVHMachineTemplate") other

unfoldable pub machine_template_convert_from :
    OvhMachineTemplateV1alpha1 → Hub → Outcome OvhMachineTemplateV1alpha1
unfolding machine_template_from_hub
machine_template_convert_from dst (Hub.machine_template src) =
    ok (machine_template_from_hub dst src)
machine_template_convert_from dst other = expected (codes "*v1alpha2.OVHMachineTemplate") other
