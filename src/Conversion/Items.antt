-- ===== src/Conversion/Items.antt =====
-- The conversion of the lists: each item into a new object, up to the first that fails. An item of
-- a list is of the right type, so its conversion runs without the check of the type.
use cluster_api_provider_ovh.Prelude.{map, codes, Outcome, ok, and_then}
use cluster_api_provider_ovh.Conversion.Older.{
  OvhClusterListV1alpha1, OvhMachineListV1alpha1, OvhClusterTemplateListV1alpha1,
  OvhMachineTemplateListV1alpha1, zero_cluster_v1alpha1, zero_machine_v1alpha1,
  zero_cluster_template_v1alpha1, zero_machine_template_v1alpha1,
}
use cluster_api_provider_ovh.Conversion.Hubs.{
  Hub, zero_cluster, zero_machine, zero_cluster_template, zero_machine_template,
}
use cluster_api_provider_ovh.Conversion.Clusters.{
  cluster_to_hub, cluster_from_hub, convert_each, expected,
}
use cluster_api_provider_ovh.Conversion.Machines.{machine_to_hub, machine_from_hub}
use cluster_api_provider_ovh.Conversion.Templates.{
  cluster_template_to_hub, cluster_template_from_hub, machine_template_to_hub,
  machine_template_from_hub,
}

unfoldable pub cluster_list_convert_to : OvhClusterListV1alpha1 → Hub → Outcome Hub
unfolding cluster_to_hub convert_each
cluster_list_convert_to src (Hub.cluster_list dst) =
    and_then (convert_each (λ item. cluster_to_hub item zero_cluster) src.items)
      λ items. ok (Hub.cluster_list (record dst { meta = src.meta; items = items }))
cluster_list_convert_to src other = expected (codes "*v1alpha2.OVHClusterList") other

unfoldable pub cluster_list_convert_from :
    OvhClusterListV1alpha1 → Hub → Outcome OvhClusterListV1alpha1
unfolding cluster_from_hub
cluster_list_convert_from dst (Hub.cluster_list src) = ok (record dst {
  meta = src.meta;
  items = map (λ item. cluster_from_hub zero_cluster_v1alpha1 item) src.items;
})
cluster_list_convert_from dst other = expected (codes "*v1alpha2.OVHClusterList") other

unfoldable pub machine_list_convert_to : OvhMachineListV1alpha1 → Hub → Outcome Hub
unfolding machine_to_hub
machine_list_convert_to src (Hub.machine_list dst) = ok (
    Hub.machine_list (record dst {
      meta = src.meta;
      items = map (λ item. machine_to_hub item zero_machine) src.items;
    }))
machine_list_convert_to src other = expected (codes "*v1alpha2.OVHMachineList") other

unfoldable pub machine_list_convert_from :
    OvhMachineListV1alpha1 → Hub → Outcome OvhMachineListV1alpha1
unfolding machine_from_hub
machine_list_convert_from dst (Hub.machine_list src) = ok (record dst {
  meta = src.meta;
  items = map (λ item. machine_from_hub zero_machine_v1alpha1 item) src.items;
})
machine_list_convert_from dst other = expected (codes "*v1alpha2.OVHMachineList") other

unfoldable pub cluster_template_list_convert_to : OvhClusterTemplateListV1alpha1 → Hub → Outcome Hub
unfolding cluster_template_to_hub convert_each
cluster_template_list_convert_to src (Hub.cluster_template_list dst) =
    and_then (convert_each (λ item. cluster_template_to_hub item zero_cluster_template) src.items)
      λ items. ok (Hub.cluster_template_list (record dst { meta = src.meta; items = items }))
cluster_template_list_convert_to src other =
    expected (codes "*v1alpha2.OVHClusterTemplateList") other

unfoldable pub cluster_template_list_convert_from :
    OvhClusterTemplateListV1alpha1 → Hub → Outcome OvhClusterTemplateListV1alpha1
unfolding cluster_template_from_hub
cluster_template_list_convert_from dst (Hub.cluster_template_list src) = ok (record dst {
  meta = src.meta;
  items = map (λ item. cluster_template_from_hub zero_cluster_template_v1alpha1 item) src.items;
})
cluster_template_list_convert_from dst other =
    expected (codes "*v1alpha2.OVHClusterTemplateList") other

unfoldable pub machine_template_list_convert_to : OvhMachineTemplateListV1alpha1 → Hub → Outcome Hub
unfolding machine_template_to_hub
machine_template_list_convert_to src (Hub.machine_template_list dst) = ok (
    Hub.machine_template_list (record dst {
      meta = src.meta;
      items = map (λ item. machine_template_to_hub item zero_machine_template) src.items;
    }))
machine_template_list_convert_to src other =
    expected (codes "*v1alpha2.OVHMachineTemplateList") other

unfoldable pub machine_template_list_convert_from :
    OvhMachineTemplateListV1alpha1 → Hub → Outcome OvhMachineTemplateListV1alpha1
unfolding machine_template_from_hub
machine_template_list_convert_from dst (Hub.machine_template_list src) = ok (record dst {
  meta = src.meta;
  items = map (λ item. machine_template_from_hub zero_machine_template_v1alpha1 item) src.items;
})
machine_template_list_convert_from dst other =
    expected (codes "*v1alpha2.OVHMachineTemplateList") other
