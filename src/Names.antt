-- ===== src/Names.antt =====
-- The names and identifiers that the controllers build (util/util.go, util/cloudinit.go, and
-- subnetRange of internal/controller/ovhcluster_controller.go).
pub mod Labels
pub mod Collisions
pub mod ProviderId
pub mod Subnets
use cluster_api_provider_ovh.Prelude.{
  ℕ, ◌++◌, Bool, ◌&&◌, ◌||◌, List, [], ◌∷◌, map, Text, codes, is_empty, to_lower, length, take, leb,
  ltb, nat_eq, plain, Outcome, ok, err, if◌then◌else◌,
}

-- `strings.Join(parts, sep)`
unfoldable pub join : Text → List Text → Text
join sep [] = []
join sep (part ∷ []) = part
join sep (part ∷ next ∷ parts) = part ++ (sep ++ join sep (next ∷ parts))

abbrev pub is_name_byte : ℕ → Bool
is_name_byte c = (leb b'a' c && leb c b'z') || (leb b'0' c && leb c b'9') || nat_eq c b'-'

-- One byte under `rfc1035Regex.ReplaceAllString(name, "-")`.
unfoldable pub name_byte : ℕ → ℕ
name_byte c = if is_name_byte c then c else b'-'

-- `strings.TrimLeft(s, "-")`
unfoldable pub trim_left : Text → Text
trim_left [] = []
trim_left (c ∷ s) = if nat_eq c b'-' then trim_left s else c ∷ s

-- `strings.TrimRight(s, "-")`
unfoldable pub trim_right : Text → Text
trim_right [] = []
trim_right (c ∷ s) =
    let rest = trim_right s in if is_empty rest && nat_eq c b'-' then [] else c ∷ rest

abbrev pub max_name : ℕ
max_name = 63

-- `if len(name) > 63 { name = strings.TrimRight(name[:63], "-") }`
unfoldable pub cut_name : Text → Text
cut_name name = if ltb max_name (length name) then trim_right (take max_name name) else name

-- `GenerateRFC1035Name`
unfoldable pub generate_rfc1035_name : List Text → Text
generate_rfc1035_name parts =
    cut_name (trim_right (trim_left (map name_byte (to_lower (join (codes "-") parts)))))

-- `GetSSHKeyName`
unfoldable pub get_ssh_key_name : Text → Text → Text
get_ssh_key_name machine_ssh_key cluster_ssh_key =
    if is_empty machine_ssh_key then cluster_ssh_key else machine_ssh_key

-- `PrepareUserData`
unfoldable pub prepare_user_data : Text → Outcome Text
prepare_user_data [] = err (plain (codes "bootstrap data is empty"))
prepare_user_data (c ∷ s) = ok (c ∷ s)
