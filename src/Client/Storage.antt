-- ===== src/Client/Storage.antt =====
-- Volumes and floating IPs (pkg/ovh/client.go). The floating IPs are listed and read under
-- `/floatingip`, and created and deleted under `/floatingIp`, as in the source.
use cluster_api_provider_ovh.Prelude.{◌++◌, List, Text, codes, Exec}
use cluster_api_provider_ovh.Errors.{is_not_found}
use cluster_api_provider_ovh.Cloud.{
  get, post, delete, Kind, no_body, new_volume, volume_target, new_floating_ip, Volume,
  CreateVolumeOpts, FloatingIp, CreateFloatingIpOpts, World,
}
use cluster_api_provider_ovh.Client.Retry.{Client, project_path, region_path}
use cluster_api_provider_ovh.Client.Calls.{quoted, fetch, drop}

module _ {W : Type 0} (c : Client W) where
  -- `CreateVolume`
  unfoldable pub create_volume : CreateVolumeOpts → Exec (World W) Volume
  create_volume opts =
      fetch c (codes "CreateVolume") Kind.one_volume post (project_path c (codes "/volume"))
        (new_volume opts) (codes "creating volume " ++ quoted opts.name)

  abbrev volume_path : Text → Text
  volume_path suffix = project_path c (codes "/volume/" ++ suffix)

  -- `GetVolume`
  unfoldable pub get_volume : Text → Exec (World W) Volume
  get_volume volume_id =
      fetch c (codes "GetVolume") Kind.one_volume get (volume_path volume_id) no_body
        (codes "getting volume " ++ volume_id)

  -- `AttachVolume`
  unfoldable pub attach_volume : Text → Text → Exec (World W) (Unit {0})
  attach_volume volume_id instance_id =
      fetch c (codes "AttachVolume") Kind.nothing post (volume_path (volume_id ++ codes "/attach"))
        (volume_target (record { instance_id = instance_id }))
        (codes "attaching volume " ++ (volume_id ++ (codes " to instance " ++ instance_id)))

  -- `DetachVolume`
  unfoldable pub detach_volume : Text → Text → Exec (World W) (Unit {0})
  detach_volume volume_id instance_id =
      drop c (codes "DetachVolume") post (volume_path (volume_id ++ codes "/detach"))
        (volume_target (record { instance_id = instance_id })) is_not_found
        (codes "detaching volume " ++ (volume_id ++ (codes " from instance " ++ instance_id)))

  -- `DeleteVolume`
  unfoldable pub delete_volume : Text → Exec (World W) (Unit {0})
  delete_volume volume_id =
      drop c (codes "DeleteVolume") delete (volume_path volume_id) no_body is_not_found
        (codes "deleting volume " ++ volume_id)

  -- `ListFloatingIPs`
  unfoldable pub list_floating_ips : Exec (World W) (List FloatingIp)
  list_floating_ips =
      fetch c (codes "ListFloatingIPs") Kind.floating_ips get (region_path c (codes "/floatingip"))
        no_body (codes "listing floating IPs")

  -- `GetFloatingIP`
  unfoldable pub get_floating_ip : Text → Exec (World W) FloatingIp
  get_floating_ip fip_id =
      fetch c (codes "GetFloatingIP") Kind.one_floating_ip get
        (region_path c (codes "/floatingip/" ++ fip_id)) no_body
        (codes "getting floating IP " ++ fip_id)

  -- `CreateFloatingIP`
  unfoldable pub create_floating_ip : CreateFloatingIpOpts → Exec (World W) FloatingIp
  create_floating_ip opts =
      fetch c (codes "CreateFloatingIP") Kind.one_floating_ip post
        (region_path c (codes "/floatingIp")) (new_floating_ip opts) (codes "creating floating IP")

  -- `DeleteFloatingIP`
  unfoldable pub delete_floating_ip : Text → Exec (World W) (Unit {0})
  delete_floating_ip fip_id =
      drop c (codes "DeleteFloatingIP") delete (region_path c (codes "/floatingIp/" ++ fip_id))
        no_body is_not_found (codes "deleting floating IP " ++ fip_id)
