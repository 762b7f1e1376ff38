-- ===== src/Names/ProviderId.antt =====
-- Provider identifiers (ProviderIDFromInstance and ParseProviderID of util/util.go).
use cluster_api_provider_ovh.Prelude.{
  ℕ, ◌≡◌, refl, Bool, true, false, ◌||◌, Option, none, some, [], ◌∷◌, ◌++◌, Text, codes, is_empty,
  length, drop, has_prefix, has_prefix-append, nat_eq, any, plain, Outcome, ok, err, Option-cases,
  inl, inr, arith, if◌then◌else◌,
}

abbrev pub scheme : Text
scheme = codes "ovhcloud://"

-- `ProviderIDFromInstance`
unfoldable pub provider_id_from_instance : Text → Text → Text
provider_id_from_instance region instance_id = scheme ++ (region ++ (codes "/" ++ instance_id))

abbrev pub is_slash : ℕ → Bool
is_slash c = nat_eq c b'/'

abbrev pub before_more : ℕ → Option (Text × Text) → Option (Text × Text)
before_more c none = none
before_more c (some (a, b)) = some (c ∷ a, b)

-- `strings.SplitN(s, "/", 2)`: the text before and after the first slash, if there is one.
unfoldable pub split_slash : Text → Option (Text × Text)
split_slash [] = none
split_slash (c ∷ s) =
    let more = before_more c (split_slash s) in if is_slash c then some ([], s) else more

-- `strings.TrimPrefix(s, prefix)`
unfoldable pub trim_prefix : Text → Text → Text
trim_prefix s prefix = if has_prefix s prefix then drop (length prefix) s else s

-- The message of the first check ends in a hint, that of the second does not.
invalid : Text → Text → Outcome (Text × Text)
invalid provider_id hint =
    err (plain (codes "invalid providerID format: \"" ++ (provider_id ++ (codes "\"" ++ hint))))

from_parts : Text → Option (Text × Text) → Outcome (Text × Text)
unfolding invalid
from_parts provider_id none = invalid provider_id []
from_parts provider_id (some (region, instance_id)) =
    if is_empty region || is_empty instance_id
    then invalid provider_id []
    else ok (region, instance_id)

-- `ParseProviderID`
unfoldable pub parse_provider_id : Text → Outcome (Text × Text)
unfolding from_parts
parse_provider_id provider_id =
    if has_prefix provider_id scheme
    then from_parts provider_id (split_slash (trim_prefix provider_id scheme))
    else invalid provider_id (codes " (expected ovhcloud://<region>/<instanceID>)")

drop-append : (a s : Text) → drop (length a) (a ++ s) ≡ s
drop-append [] s = refl
drop-append (c ∷ a) s = drop-append a s

trim_prefix-append : (a s : Text) → trim_prefix (a ++ s) a ≡ s
unfolding trim_prefix
trim_prefix-append a s = rw (has_prefix-append a s) (drop-append a s)

split_slash-append :
    (region rest : Text)
    → any is_slash region ≡ false
    → split_slash (region ++ (codes "/" ++ rest)) ≡ some (region, rest)
unfolding split_slash codes
split_slash-append [] rest h = refl
split_slash-append (c ∷ region) rest h = ground (arith, split_slash-append region rest)

-- A provider ID built from a region without a slash and an instance ID, neither empty, is parsed
-- back into exactly these two.
pub parse-provider_id :
    (region instance_id : Text)
    → any is_slash region ≡ false
    → is_empty region ≡ false
    → is_empty instance_id ≡ false
    → parse_provider_id (provider_id_from_instance region instance_id) ≡ ok (region, instance_id)
unfolding parse_provider_id provider_id_from_instance
parse-provider_id region instance_id no_slash some_region some_id =
    rw (has_prefix-append scheme (region ++ (codes "/" ++ instance_id))) (
      rw (trim_prefix-append scheme (region ++ (codes "/" ++ instance_id))) (
        rw (split_slash-append region instance_id no_slash, from_parts)
          (rw (some_region, some_id))))

split_slash-joins :
    (s a b : Text)
    → split_slash s ≡ some (a, b)
    → (s ≡ a ++ (codes "/" ++ b)) × (any is_slash a ≡ false)
unfolding split_slash codes
split_slash-joins [] a b h = cc
split_slash-joins (c ∷ s) a b h = elim (Option-cases (split_slash s)) [
  | inl e ↦ ground arith
  | inr (p, e) ↦ ground (arith, split_slash-joins s p.0 p.1)
]

has_prefix-splits : (s p : Text) → has_prefix s p ≡ true → s ≡ p ++ trim_prefix s p
unfolding has_prefix trim_prefix
has_prefix-splits s [] h = refl
has_prefix-splits [] (c ∷ p) h = cc
has_prefix-splits (d ∷ s) (c ∷ p) h = ground (arith, has_prefix-splits s p)

-- A text that parses is the provider ID of exactly the region and instance ID that it parses to,
-- neither is empty, and the region holds no slash.
pub provider_id-parse :
    (provider_id region instance_id : Text)
    → parse_provider_id provider_id ≡ ok (region, instance_id)
    → (provider_id ≡ provider_id_from_instance region instance_id)
      × (is_empty region ≡ false)
      × (is_empty instance_id ≡ false)
      × (any is_slash region ≡ false)
unfolding parse_provider_id provider_id_from_instance
provider_id-parse p region instance_id h =
    elim (Option-cases (split_slash (trim_prefix p scheme))) [
      | inl e ↦ ground arith
      | inr (q, e) ↦
          ground
            (arith, has_prefix-splits p scheme, split_slash-joins (trim_prefix p scheme) q.0 q.1)
    ]
