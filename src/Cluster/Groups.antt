-- ===== src/Cluster/Groups.antt =====
-- reconcileSecurityGroups. The maps are lists of pairs; of two groups with one name the later one
-- counts, as in the map that the code fills.
use cluster_api_provider_ovh.Prelude.{
  ◌++◌, Option, none, some, List, [], ◌∷◌, Text, codes, is_empty, ◌==◌, Exec, ok, pure, or_wrap,
  ◌>>=◌, ◌>>◌, if◌then◌else◌,
}
use cluster_api_provider_ovh.Cloud.{SecurityGroup}
use cluster_api_provider_ovh.Client.Calls.{quoted}
use cluster_api_provider_ovh.Client.Regions.{
  list_security_groups, create_security_group, create_security_group_rule,
}
use cluster_api_provider_ovh.Resources.{lookup_text, insert_text, OvhSecurityRule, OvhSecurityGroup}
use cluster_api_provider_ovh.Cluster.Scope.{
  ClusterScope, ClusterState, on_client, set_cluster_status,
}

-- `existingByName[name]`, with its second result: the ID of the last group of that name.
unfoldable pub last_named : List SecurityGroup → Text → Option Text
last_named [] name = none
last_named (sg ∷ sgs) name =
    let rest = last_named sgs name in
    elim rest [ some id ↦ some id | none ↦ if sg.name == name then some sg.id else none ]

module _ {W : Type 0} (scope : ClusterScope W) where
  -- `"capi-" + scope.Cluster.Name + "-" + sgSpec.Name`
  abbrev pub group_name : Text → Text
  group_name name = codes "capi-" ++ (scope.cluster_name ++ (codes "-" ++ name))

  unfoldable pub record_group : Text → Text → Exec (ClusterState W) (Unit {0})
  record_group name id =
      set_cluster_status
        λ st. record st { security_group_ids = insert_text name id st.security_group_ids }

  -- The rules of a new group; what fails is logged and passed over.
  unfoldable pub create_rules : Text → List OvhSecurityRule → Exec (ClusterState W) (Unit {0})
  create_rules id [] s = (ok tt, s)
  create_rules id (rule ∷ rules) s =
      create_rules id rules
        (on_client
          (create_security_group_rule scope.ovh_client id (record {
            direction = rule.direction;
            protocol = rule.protocol;
            port_range_min = rule.port_range_min;
            port_range_max = rule.port_range_max;
            remote_ip_prefix = rule.remote_ip_prefix;
            ether_type = rule.ether_type;
          }))
          s).1

  unfoldable pub new_group : OvhSecurityGroup → Exec (ClusterState W) SecurityGroup
  new_group spec = or_wrap (codes "creating security group " ++ quoted (group_name spec.name)) (
      on_client (
        create_security_group scope.ovh_client (record {
          name = group_name spec.name;
          description = codes "CAPIOVH managed for cluster " ++ scope.cluster_name;
        })))

  unfoldable pub fill_group : OvhSecurityGroup → SecurityGroup → Exec (ClusterState W) (Unit {0})
  unfolding record_group
  fill_group spec sg = record_group spec.name sg.id >> create_rules sg.id spec.rules

  unfoldable pub create_group : OvhSecurityGroup → Exec (ClusterState W) (Unit {0})
  unfolding new_group fill_group
  create_group spec = new_group spec >>= fill_group spec

  unfoldable pub adopt_or_create : OvhSecurityGroup → Option Text → Exec (ClusterState W) (Unit {0})
  unfolding record_group
  adopt_or_create spec (some id) = record_group spec.name id
  adopt_or_create spec none = create_group spec

  -- The body of the loop.
  unfoldable pub ensure_group :
      List SecurityGroup → OvhSecurityGroup → Exec (ClusterState W) (Unit {0})
  unfolding adopt_or_create
  ensure_group existing spec s =
      if is_empty (lookup_text spec.name s.cluster.status.security_group_ids)
      then adopt_or_create spec (last_named existing (group_name spec.name)) s
      else (ok tt, s)

  unfoldable pub ensure_groups :
      List SecurityGroup → List OvhSecurityGroup → Exec (ClusterState W) (Unit {0})
  ensure_groups existing [] = pure tt
  ensure_groups existing (spec ∷ specs) = ensure_group existing spec >> ensure_groups existing specs

  unfoldable pub list_groups : Exec (ClusterState W) (List SecurityGroup)
  list_groups =
      or_wrap (codes "listing security groups") (on_client (list_security_groups scope.ovh_client))

  unfoldable pub groups_of : List OvhSecurityGroup → Exec (ClusterState W) (Unit {0})
  unfolding list_groups
  groups_of [] = pure tt
  groups_of (spec ∷ specs) = do existing ← list_groups; ensure_groups existing (spec ∷ specs)

  -- `reconcileSecurityGroups`
  unfoldable pub reconcile_security_groups : Exec (ClusterState W) (Unit {0})
  unfolding groups_of
  reconcile_security_groups s = groups_of s.cluster.spec.security_groups s
