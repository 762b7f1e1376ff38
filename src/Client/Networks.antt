-- ===== src/Client/Networks.antt =====
-- Private networks and subnets (pkg/ovh/client.go).
use cluster_api_provider_ovh.Prelude.{◌++◌, List, Text, codes, Exec}
use cluster_api_provider_ovh.Errors.{is_not_found}
use cluster_api_provider_ovh.Cloud.{
  get, post, delete, Kind, no_body, new_network, new_subnet, PrivateNetwork, CreateNetworkOpts,
  Subnet, CreateSubnetOpts, World,
}
use cluster_api_provider_ovh.Client.Retry.{Client, project_path}
use cluster_api_provider_ovh.Client.Calls.{quoted, fetch, drop}

module _ {W : Type 0} (c : Client W) where
  -- `ListPrivateNetworks`
  unfoldable pub list_private_networks : Exec (World W) (List PrivateNetwork)
  list_private_networks =
      fetch c (codes "ListPrivateNetworks") Kind.private_networks get
        (project_path c (codes "/network/private")) no_body (codes "listing private networks")

  -- `GetPrivateNetwork`
  unfoldable pub get_private_network : Text → Exec (World W) PrivateNetwork
  get_private_network network_id =
      fetch c (codes "GetPrivateNetwork") Kind.one_private_network get
        (project_path c (codes "/network/private/" ++ network_id)) no_body
        (codes "getting private network " ++ network_id)

  -- `CreatePrivateNetwork`
  unfoldable pub create_private_network : CreateNetworkOpts → Exec (World W) PrivateNetwork
  create_private_network opts =
      fetch c (codes "CreatePrivateNetwork") Kind.one_private_network post
        (project_path c (codes "/network/private")) (new_network opts)
        (codes "creating private network " ++ quoted opts.name)

  -- `DeletePrivateNetwork`
  unfoldable pub delete_private_network : Text → Exec (World W) (Unit {0})
  delete_private_network network_id =
      drop c (codes "DeletePrivateNetwork") delete
        (project_path c (codes "/network/private/" ++ network_id)) no_body is_not_found
        (codes "deleting private network " ++ network_id)

  subnet_path : Text → Text
  subnet_path network_id =
      project_path c (codes "/network/private/" ++ (network_id ++ codes "/subnet"))

  -- `ListSubnets`
  unfoldable pub list_subnets : Text → Exec (World W) (List Subnet)
  unfolding subnet_path
  list_subnets network_id =
      fetch c (codes "ListSubnets") Kind.subnets get (subnet_path network_id) no_body
        (codes "listing subnets for network " ++ network_id)

  -- `CreateSubnet`
  unfoldable pub create_subnet : Text → CreateSubnetOpts → Exec (World W) Subnet
  unfolding subnet_path
  create_subnet network_id opts =
      fetch c (codes "CreateSubnet") Kind.one_subnet post (subnet_path network_id) (new_subnet opts)
        (codes "creating subnet in network " ++ network_id)
