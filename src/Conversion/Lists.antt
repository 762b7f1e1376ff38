-- ===== src/Conversion/Lists.antt =====
-- Round trips of the lists of templates, item by item.
use cluster_api_provider_ovh.Prelude.{◌≡◌, sym, ◌∙◌, ap, inl, inr, Outcome-cases, ok, ok_injective}
use cluster_api_provider_ovh.Conversion.Older.{
  OvhClusterTemplateV1alpha1, OvhClusterTemplateListV1alpha1, OvhClusterV1alpha1,
  zero_cluster_v1alpha1, zero_cluster_template_v1alpha1,
}
use cluster_api_provider_ovh.Conversion.Hubs.{
  OvhClusterTemplate, OvhClusterTemplateList, Hub, zero_cluster, zero_cluster_template,
}
use cluster_api_provider_ovh.Conversion.Clusters.{convert_each, cluster_to_hub, cluster_from_hub}
use cluster_api_provider_ovh.Conversion.Templates.{
  cluster_template_to_hub, cluster_template_from_hub,
}
use cluster_api_provider_ovh.Conversion.Items.{
  cluster_template_list_convert_to, cluster_template_list_convert_from,
}
use cluster_api_provider_ovh.Conversion.RoundTrip.{cluster_back, convert_each-back, map_same}

template_back :
    (t : OvhClusterTemplateV1alpha1) (d : OvhClusterTemplate)
    → cluster_template_to_hub t zero_cluster_template ≡ ok d
    → cluster_template_from_hub zero_cluster_template_v1alpha1 d ≡ t
unfolding cluster_template_to_hub cluster_template_from_hub cluster_from_hub
template_back t d done =
    let around : OvhClusterV1alpha1 = record zero_cluster_v1alpha1 { spec = t.template_spec } in
    elim (Outcome-cases (cluster_to_hub around zero_cluster)) [
      | inl (c, e) ↦ rw (sym (ok_injective (rw e at done))) (
          ap (λ (x : OvhClusterV1alpha1). record t { template_spec = x.spec })
            (cluster_back around c e))
      | inr (e, failed) ↦ absurd (let k = rw failed at done in cc)
    ]

-- A list of cluster templates that converts to v1alpha2 comes back as it was, every template of
-- it, whatever the two destinations held before.
pub template_list_round_trip :
    (l dst : OvhClusterTemplateListV1alpha1) (dst_hub : OvhClusterTemplateList) (h : Hub)
    → cluster_template_list_convert_to l (Hub.cluster_template_list dst_hub) ≡ ok h
    → cluster_template_list_convert_from dst h ≡ ok l
unfolding cluster_template_list_convert_to cluster_template_list_convert_from
template_list_round_trip l dst dst_hub h done =
    elim (Outcome-cases
      (convert_each (λ item. cluster_template_to_hub item zero_cluster_template) l.items)) [
        | inl (ds, e) ↦ rw (sym (ok_injective (rw e at done))) (
            ap (λ items. ok (record l { items = items }))
              (convert_each-back _ (cluster_template_from_hub zero_cluster_template_v1alpha1)
                  (λ t. t) l.items ds template_back e
                ∙ map_same l.items))
        | inr (e, failed) ↦ absurd (let k = rw failed at done in cc)
      ]
