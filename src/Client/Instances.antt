-- ===== src/Client/Instances.antt =====
-- Credential validation and instances (pkg/ovh/client.go).
use cluster_api_provider_ovh.Prelude.{
  ◌++◌, Option, List, [], ◌∷◌, Text, codes, is_empty, find?, ◌==◌, plain, Exec, pure, fail, ◌>>=◌,
  if◌then◌else◌,
}
use cluster_api_provider_ovh.Errors.{is_not_found}
use cluster_api_provider_ovh.Cloud.{
  get, post, delete, Kind, no_body, new_instance, Instance, CreateInstanceOpts, World,
}
use cluster_api_provider_ovh.Client.Retry.{Client, project_path}
use cluster_api_provider_ovh.Client.Calls.{quoted, fetch, drop}

module _ {W : Type 0} (c : Client W) where
  some_region : List Text → Exec (World W) (Unit {0})
  some_region [] = fail (plain (codes "validating OVH credentials: no regions returned by project"))
  some_region (r ∷ rs) = pure tt

  -- `ValidateCredentials`
  unfoldable pub validate_credentials : Exec (World W) (Unit {0})
  unfolding some_region
  validate_credentials =
      if is_empty c.service_name then fail (plain (codes "serviceName is empty")) else do
        regions ←
            fetch c (codes "ValidateCredentials") Kind.region_names get
              (project_path c (codes "/region")) no_body (codes "validating OVH credentials")
        some_region regions

  -- `CreateInstance`
  unfoldable pub create_instance : CreateInstanceOpts → Exec (World W) Instance
  create_instance opts =
      fetch c (codes "CreateInstance") Kind.one_instance post (project_path c (codes "/instance"))
        (new_instance opts) (codes "creating instance " ++ quoted opts.name)

  -- `GetInstance`
  unfoldable pub get_instance : Text → Exec (World W) Instance
  get_instance instance_id =
      fetch c (codes "GetInstance") Kind.one_instance get
        (project_path c (codes "/instance/" ++ instance_id)) no_body
        (codes "getting instance " ++ instance_id)

  -- `DeleteInstance`
  unfoldable pub delete_instance : Text → Exec (World W) (Unit {0})
  delete_instance instance_id =
      drop c (codes "DeleteInstance") delete (project_path c (codes "/instance/" ++ instance_id))
        no_body is_not_found (codes "deleting instance " ++ instance_id)

  -- `path += "?region=" + c.region`, if the client has a region.
  unfoldable pub region_query : Text → Text
  region_query path = if is_empty c.region then path else path ++ (codes "?region=" ++ c.region)

  -- `ListInstances`
  unfoldable pub list_instances : Exec (World W) (List Instance)
  list_instances =
      fetch c (codes "ListInstances") Kind.instances get
        (region_query (project_path c (codes "/instance"))) no_body (codes "listing instances")

  -- `FindInstanceByName`: a missing instance is no error.
  unfoldable pub find_instance_by_name : Text → Exec (World W) (Option Instance)
  find_instance_by_name name = do
    instances ← list_instances
    pure (find? (λ i. i.name == name) instances)
