-- ===== src/Tests/Versions.antt =====
-- The conversion of the cluster "demo", of the machine "cp-0" and of a list with one template.
use cluster_api_provider_ovh.Prelude.{
  ◌≡◌, refl, ◌⊎◌, some, none, [], ◌∷◌, ◌++◌, codes, ◌==◌, find?, ok, err, wrap, and_then,
}
use cluster_api_provider_ovh.Client.Calls.{quoted}
use cluster_api_provider_ovh.Resources.{OvhCluster, tcp}
use cluster_api_provider_ovh.Conversion.{
  OvhListenerV1alpha1, OvhClusterV1alpha1, OvhMachineV1alpha1, OvhClusterTemplateV1alpha1,
  OvhClusterTemplateListV1alpha1, OvhClusterTemplateList, Hub, zero_cluster, zero_cluster_v1alpha1,
  zero_machine, zero_machine_v1alpha1, zero_cluster_template_v1alpha1, write_hub_cluster,
  cluster_convert_to, cluster_convert_from, machine_convert_to, machine_convert_from,
  protocol_error, cluster_template_list_convert_to, cluster_template_list_convert_from,
  without_failure, common_cluster, machine_without_failure, common_machine, odd_protocol,
  cluster_round_trip, hub_cluster_round_trip, machine_round_trips, template_list_round_trip,
  cluster_conversion_outcome,
}
use cluster_api_provider_ovh.Tests.Fixtures.{cluster, machine_with_id}

abbrev api_listener : OvhListenerV1alpha1
api_listener = record {
  name = codes "api";
  port = 443;
  protocol = codes "TCP";
  backend_port = 6443;
}

abbrev older : OvhClusterV1alpha1
older = record zero_cluster_v1alpha1 {
  spec = record zero_cluster_v1alpha1.spec {
    load_balancer_config = record zero_cluster_v1alpha1.spec.load_balancer_config {
      flavor_name = codes "small";
      listeners = api_listener ∷ [];
    };
  };
  status = record zero_cluster_v1alpha1.status { failure_reason = codes "CreateError" };
}

abbrev newer : Hub
newer = Hub.cluster (
    write_hub_cluster older zero_cluster
      (record { name = codes "api"; port = 443; protocol = tcp; backend_port = 6443 } ∷ []))

older_converts : cluster_convert_to older (Hub.cluster zero_cluster) ≡ ok newer
unfolding cluster_convert_to codes ◌==◌
older_converts = refl

cluster_round_trip_example :
    cluster_convert_from zero_cluster_v1alpha1 newer ≡ ok (without_failure older)
cluster_round_trip_example = cluster_round_trip older newer older_converts

hub_cluster_round_trip_example :
    and_then
      (cluster_convert_from zero_cluster_v1alpha1 (Hub.cluster cluster))
      (λ c. cluster_convert_to c (Hub.cluster zero_cluster))
    ≡ ok (Hub.cluster (common_cluster cluster))
hub_cluster_round_trip_example = hub_cluster_round_trip cluster

abbrev older_machine : OvhMachineV1alpha1
older_machine = record zero_machine_v1alpha1 {
  status = record zero_machine_v1alpha1.status { failure_reason = codes "CreateError" };
}

machine_round_trips_example :
    (and_then
        (machine_convert_to older_machine (Hub.machine zero_machine))
        (machine_convert_from zero_machine_v1alpha1)
      ≡ ok (machine_without_failure older_machine))
    × (and_then
          (machine_convert_from zero_machine_v1alpha1 (Hub.machine (machine_with_id (codes "i-1"))))
          (λ c. machine_convert_to c (Hub.machine zero_machine))
        ≡ ok (Hub.machine (common_machine (machine_with_id (codes "i-1")))))
machine_round_trips_example = machine_round_trips older_machine (machine_with_id (codes "i-1"))

abbrev template : OvhClusterTemplateV1alpha1
template = record zero_cluster_template_v1alpha1 { template_spec = older.spec }

abbrev templates : OvhClusterTemplateListV1alpha1
templates = record {
  meta = record { resource_version = codes "7"; continue_token = [] };
  items = template ∷ [];
}

abbrev no_templates : OvhClusterTemplateListV1alpha1
no_templates = record { meta = templates.meta; items = [] }

abbrev no_hub_templates : OvhClusterTemplateList
no_hub_templates = record { meta = templates.meta; items = [] }

abbrev hub_templates : Hub
hub_templates = Hub.cluster_template_list (record {
  meta = templates.meta;
  items =
      record {
        meta = template.meta;
        template_meta = template.template_meta;
        template_spec =
            (write_hub_cluster older zero_cluster (
              record { name = codes "api"; port = 443; protocol = tcp; backend_port = 6443 }
              ∷ [])).spec;
      }
      ∷ [];
})

templates_convert :
    cluster_template_list_convert_to templates (Hub.cluster_template_list no_hub_templates)
    ≡ ok hub_templates
unfolding cluster_template_list_convert_to codes ◌==◌
templates_convert = refl

template_list_round_trip_example :
    cluster_template_list_convert_from no_templates hub_templates ≡ ok templates
template_list_round_trip_example =
    template_list_round_trip templates no_templates no_hub_templates hub_templates templates_convert

cluster_conversion_outcome_example :
    ((find? odd_protocol older.spec.load_balancer_config.listeners ≡ none)
      × ((h : OvhCluster) × (cluster_convert_to older (Hub.cluster cluster) ≡ ok (Hub.cluster h))))
    ⊎ ((l : OvhListenerV1alpha1) × (find? odd_protocol older.spec.load_balancer_config.listeners
          ≡ some l)
        × (cluster_convert_to older (Hub.cluster cluster)
            ≡ err (wrap (codes "listener " ++ quoted l.name) (protocol_error l.protocol))))
cluster_conversion_outcome_example = cluster_conversion_outcome older cluster
