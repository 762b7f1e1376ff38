-- ===== src/Client/Catalog.antt =====
-- Flavors, images and SSH keys (pkg/ovh/client.go).
use cluster_api_provider_ovh.Prelude.{
  ℕ, ◌+◌, ◌++◌, Bool, true, ◌&&◌, ◌||◌, Option, none, some, List, [], ◌∷◌, Text, codes, is_empty,
  find?, ◌==◌, equal_fold, contains, to_lower, length, nat_eq, leb, plain, wrap, ok, err, Outcome,
  Exec, pure, fail, attempt, ◌>>=◌, if◌then◌else◌,
}
use cluster_api_provider_ovh.Errors.{is_not_found}
use cluster_api_provider_ovh.Cloud.{
  get, post, delete, Kind, no_body, new_ssh_key, Flavor, Image, SshKey, CreateSshKeyOpts, World,
}
use cluster_api_provider_ovh.Client.Retry.{Client, project_path}
use cluster_api_provider_ovh.Client.Calls.{quoted, fetch, drop}
use cluster_api_provider_ovh.Client.Instances.{region_query}

abbrev pub is_hex_digit : ℕ → Bool
is_hex_digit c =
    (leb b'0' c && leb c b'9') || (leb b'a' c && leb c b'f') || (leb b'A' c && leb c b'F')

abbrev pub is_dash_place : ℕ → Bool
is_dash_place i = nat_eq i 8 || nat_eq i 13 || nat_eq i 18 || nat_eq i 23

-- The loop of `isUUID` from index `i` on.
unfoldable pub uuid_from : ℕ → Text → Bool
uuid_from i [] = true
uuid_from i (c ∷ s) =
    (if is_dash_place i then nat_eq c b'-' else is_hex_digit c) && uuid_from (i + 1) s

-- `isUUID`
unfoldable pub is_uuid : Text → Bool
unfolding uuid_from
is_uuid s = nat_eq (length s) 36 && uuid_from 0 s

-- The first value, or the second if there is none.
abbrev pub or_else {ℓ} : {A : Type ℓ} → Option A → Option A → Option A
or_else (some a) other = some a
or_else none other = other

-- `findImageByName`: the name itself, or else a name that holds it.
unfoldable pub find_image_by_name : List Image → Text → Option Image
find_image_by_name images name =
    or_else (find? (λ i. equal_fold i.name name) images)
      (find? (λ i. contains (to_lower i.name) (to_lower name)) images)

-- `&Image{ID: name, Name: name, Region: region}`
abbrev pub image_of_id : Text → Text → Image
image_of_id name region = record {
  id = name;
  name = name;
  status = [];
  region = region;
  creation_date = [];
  min_ram = 0;
  min_disk = 0;
  kind = [];
  user = [];
  visibility = [];
  plan_code = [];
}

module _ {W : Type 0} (c : Client W) where
  abbrev found_or : {A : Type 0} → Text → Option A → Exec (World W) A
  found_or message none = fail (plain message)
  found_or message (some a) = pure a

  -- `ListFlavors`
  unfoldable pub list_flavors : Exec (World W) (List Flavor)
  list_flavors =
      fetch c (codes "ListFlavors") Kind.flavors get
        (region_query c (project_path c (codes "/flavor"))) no_body (codes "listing flavors")

  -- `GetFlavorByName`
  unfoldable pub get_flavor_by_name : Text → Exec (World W) Flavor
  get_flavor_by_name name = do
    flavors ← list_flavors
    found_or (codes "flavor " ++ (quoted name ++ (codes " not found in region " ++ c.region)))
        (find? (λ f. equal_fold f.name name) flavors)

  -- `ListImages`
  unfoldable pub list_images : Exec (World W) (List Image)
  list_images =
      fetch c (codes "ListImages") Kind.images get
        (region_query c (project_path c (codes "/image"))) no_body (codes "listing images")

  -- `ListSnapshots`
  unfoldable pub list_snapshots : Exec (World W) (List Image)
  list_snapshots =
      fetch c (codes "ListSnapshots") Kind.images get
        (region_query c (project_path c (codes "/snapshot"))) no_body (codes "listing snapshots")

  snapshot_failed : Text → Text
  snapshot_failed name =
      codes "image "
      ++ (quoted name ++ codes " not found in public images and snapshot lookup failed")

  image_missing : Text → Text
  image_missing name =
      codes "image "
      ++ (quoted name
          ++ (codes " not found in region "
              ++ (c.region ++ codes " (searched public images and BYOI snapshots)")))

  in_snapshots : Text → Outcome (List Image) → Exec (World W) Image
  in_snapshots name (err e) = fail (wrap (snapshot_failed name) e)
  in_snapshots name (ok snapshots) =
      found_or (image_missing name) (find_image_by_name snapshots name)

  -- Nothing among the public images: the private ones.
  in_images : Text → Option Image → Exec (World W) Image
  unfolding in_snapshots snapshot_failed image_missing
  in_images name (some image) = pure image
  in_images name none = do snapshots ← attempt list_snapshots; in_snapshots name snapshots

  -- `GetImageByName`
  unfoldable pub get_image_by_name : Text → Exec (World W) Image
  unfolding in_images
  get_image_by_name name =
      if is_empty name
      then fail (plain (codes "image name is empty"))
      else if is_uuid name
      then pure (image_of_id name c.region)
      else do images ← list_images; in_images name (find_image_by_name images name)

  -- `ListSSHKeys`
  unfoldable pub list_ssh_keys : Exec (World W) (List SshKey)
  list_ssh_keys =
      fetch c (codes "ListSSHKeys") Kind.ssh_keys get
        (region_query c (project_path c (codes "/sshkey"))) no_body (codes "listing SSH keys")

  -- `GetSSHKeyByName`
  unfoldable pub get_ssh_key_by_name : Text → Exec (World W) SshKey
  get_ssh_key_by_name name = do
    keys ← list_ssh_keys
    found_or (codes "SSH key " ++ (quoted name ++ codes " not found"))
        (find? (λ k. k.name == name) keys)

  -- `CreateSSHKey`
  unfoldable pub create_ssh_key : CreateSshKeyOpts → Exec (World W) SshKey
  create_ssh_key opts =
      fetch c (codes "CreateSSHKey") Kind.one_ssh_key post (project_path c (codes "/sshkey"))
        (new_ssh_key opts) (codes "creating SSH key " ++ quoted opts.name)

  -- `DeleteSSHKey`
  unfoldable pub delete_ssh_key : Text → Exec (World W) (Unit {0})
  delete_ssh_key key_id =
      drop c (codes "DeleteSSHKey") delete (project_path c (codes "/sshkey/" ++ key_id)) no_body
        is_not_found (codes "deleting SSH key " ++ key_id)
