-- ===== src/Client/Regions.antt =====
-- Regions, security groups and DNS (pkg/ovh/client.go). DNS record numbers are positive.
use cluster_api_provider_ovh.Prelude.{ℕ, ◌++◌, List, Text, codes, decimal, Exec}
use cluster_api_provider_ovh.Errors.{is_not_found}
use cluster_api_provider_ovh.Cloud.{
  get, post, delete, Kind, no_body, new_security_group, new_security_group_rule, new_dns_record,
  RegionInfo, SecurityGroup, SecurityGroupRule, CreateSecurityGroupOpts,
  CreateSecurityGroupRuleOpts, DnsRecord, CreateDnsRecordOpts, World,
}
use cluster_api_provider_ovh.Client.Retry.{Client, project_path, region_path}
use cluster_api_provider_ovh.Client.Calls.{quoted, fetch, drop}

module _ {W : Type 0} (c : Client W) where
  -- `GetRegionInfo`
  unfoldable pub get_region_info : Exec (World W) RegionInfo
  get_region_info =
      fetch c (codes "GetRegionInfo") Kind.region_info get
        (project_path c (codes "/region/" ++ c.region)) no_body
        (codes "getting region info for " ++ c.region)

  abbrev group_path : Text → Text
  group_path suffix = region_path c (codes "/network/security/group" ++ suffix)

  -- `ListSecurityGroups`
  unfoldable pub list_security_groups : Exec (World W) (List SecurityGroup)
  list_security_groups =
      fetch c (codes "ListSecurityGroups") Kind.security_groups get
        (region_path c (codes "/network/security/group")) no_body (codes "listing security groups")

  -- `CreateSecurityGroup`
  unfoldable pub create_security_group : CreateSecurityGroupOpts → Exec (World W) SecurityGroup
  create_security_group opts =
      fetch c (codes "CreateSecurityGroup") Kind.one_security_group post
        (region_path c (codes "/network/security/group")) (new_security_group opts)
        (codes "creating security group " ++ quoted opts.name)

  -- `DeleteSecurityGroup`
  unfoldable pub delete_security_group : Text → Exec (World W) (Unit {0})
  delete_security_group sg_id =
      drop c (codes "DeleteSecurityGroup") delete (group_path (codes "/" ++ sg_id)) no_body
        is_not_found (codes "deleting security group " ++ sg_id)

  -- `CreateSecurityGroupRule`
  unfoldable pub create_security_group_rule :
      Text → CreateSecurityGroupRuleOpts → Exec (World W) SecurityGroupRule
  create_security_group_rule sg_id opts =
      fetch c (codes "CreateSecurityGroupRule") Kind.one_security_group_rule post
        (group_path (codes "/" ++ (sg_id ++ codes "/rule"))) (new_security_group_rule opts)
        (codes "creating security group rule in " ++ sg_id)

  -- `ListSecurityGroupRules`
  unfoldable pub list_security_group_rules : Text → Exec (World W) (List SecurityGroupRule)
  list_security_group_rules sg_id =
      fetch c (codes "ListSecurityGroupRules") Kind.security_group_rules get
        (group_path (codes "/" ++ (sg_id ++ codes "/rule"))) no_body
        (codes "listing security group rules for " ++ sg_id)

  -- `CreateDNSRecord`
  unfoldable pub create_dns_record : Text → CreateDnsRecordOpts → Exec (World W) DnsRecord
  create_dns_record zone opts =
      fetch c (codes "CreateDNSRecord") Kind.dns_record post
        (codes "/domain/zone/" ++ (zone ++ codes "/record")) (new_dns_record opts)
        (codes "creating DNS record " ++ (opts.sub_domain ++ (codes "." ++ zone)))

  -- `DeleteDNSRecord`
  unfoldable pub delete_dns_record : Text → ℕ → Exec (World W) (Unit {0})
  delete_dns_record zone record_id =
      drop c (codes "DeleteDNSRecord") delete
        (codes "/domain/zone/" ++ (zone ++ (codes "/record/" ++ decimal record_id))) no_body
        is_not_found
        (codes "deleting DNS record " ++ (decimal record_id ++ (codes " in zone " ++ zone)))

  -- `RefreshDNSZone`
  unfoldable pub refresh_dns_zone : Text → Exec (World W) (Unit {0})
  refresh_dns_zone zone =
      fetch c (codes "RefreshDNSZone") Kind.nothing post
        (codes "/domain/zone/" ++ (zone ++ codes "/refresh")) no_body
        (codes "refreshing DNS zone " ++ zone)
