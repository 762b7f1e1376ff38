-- ===== src/Names/Subnets.antt =====
-- subnetRange of internal/controller/ovhcluster_controller.go.
use cluster_api_provider_ovh.Prelude.{
  ℕ, ◌≡◌, refl, Bool, false, Option, none, some, [], ◌∷◌, ◌++◌, Text, codes, ◌==◌, ==_refl, nat_eq,
  any, arith, if◌then◌else◌,
}

abbrev pub with_head : ℕ → Option (Text × Text) → Option (Text × Text)
with_head c none = none
with_head c (some (a, b)) = some (c ∷ a, b)

-- The text before the first `/`, and the text from it on.
unfoldable pub split_mask : Text → Option (Text × Text)
split_mask [] = none
split_mask (c ∷ s) =
    let more = with_head c (split_mask s) in if nat_eq c b'/' then some ([], c ∷ s) else more

-- The text up to the last `.`, that dot included.
unfoldable pub up_to_last_dot : Text → Option Text
up_to_last_dot [] = none
up_to_last_dot (c ∷ s) =
    let rest = up_to_last_dot s in
    elim rest [ some base ↦ some (c ∷ base) | none ↦ if nat_eq c b'.' then some (c ∷ []) else none ]

range_of : Option Text → Text × Text
range_of none = ([], [])
range_of (some base) = (base ++ codes "2", base ++ codes "254")

masked : Option (Text × Text) → Text × Text
unfolding range_of
masked none = ([], [])
masked (some (prefix, mask)) =
    if mask == codes "/24" then range_of (up_to_last_dot prefix) else ([], [])

-- `subnetRange`
unfoldable pub subnet_range : Text → Text × Text
unfolding masked
subnet_range cidr = masked (split_mask cidr)

abbrev pub is_mask_byte : ℕ → Bool
is_mask_byte c = nat_eq c b'/'

abbrev pub is_dot : ℕ → Bool
is_dot c = nat_eq c b'.'

split_mask-append :
    (a m : Text)
    → any is_mask_byte a ≡ false
    → split_mask (a ++ (codes "/" ++ m)) ≡ some (a, codes "/" ++ m)
unfolding split_mask codes
split_mask-append [] m h = refl
split_mask-append (c ∷ a) m h = ground (arith, split_mask-append a m)

no_dot : (o : Text) → any is_dot o ≡ false → up_to_last_dot o ≡ none
unfolding up_to_last_dot
no_dot [] h = refl
no_dot (c ∷ o) h = ground (arith, no_dot o)

up_to_last_dot-append :
    (net octet : Text)
    → any is_dot octet ≡ false
    → up_to_last_dot (net ++ (codes "." ++ octet)) ≡ some (net ++ codes ".")
unfolding up_to_last_dot codes
up_to_last_dot-append [] octet h = ground (arith, no_dot octet)
up_to_last_dot-append (c ∷ net) octet h = ground (arith, up_to_last_dot-append net octet h)

-- A CIDR of the form <net>.<octet>/24, whose last octet holds no dot and in which no other slash
-- stands, gets the addresses 2 to 254 of <net>.
pub subnet_range_24 :
    (net octet : Text)
    → any is_mask_byte (net ++ (codes "." ++ octet)) ≡ false
    → any is_dot octet ≡ false
    → subnet_range ((net ++ (codes "." ++ octet)) ++ codes "/24")
      ≡ ((net ++ codes ".") ++ codes "2", (net ++ codes ".") ++ codes "254")
unfolding subnet_range codes
subnet_range_24 net octet no_slash no_dots =
    rw (split_mask-append (net ++ (codes "." ++ octet)) (codes "24") no_slash, masked)
      (rw (==_refl (codes "/24")) (rw (up_to_last_dot-append net octet no_dots, range_of)))

split_mask-none : (s : Text) → any is_mask_byte s ≡ false → split_mask s ≡ none
unfolding split_mask
split_mask-none [] h = refl
split_mask-none (c ∷ s) h = ground (arith, split_mask-none s)

-- Behind a mask other than 24, or with no mask at all, the range is empty.
pub subnet_range_other :
    (prefix mask : Text)
    → any is_mask_byte prefix ≡ false
    → (mask == codes "24") ≡ false
    → (subnet_range prefix ≡ ([], [])) × (subnet_range (prefix ++ (codes "/" ++ mask)) ≡ ([], []))
unfolding subnet_range codes ◌==◌
subnet_range_other prefix mask h other =
    (rw (split_mask-none prefix h, masked), rw (split_mask-append prefix mask h, masked) (rw other))
