-- ===== src/Cluster/GroupsRecorded.antt =====
-- What reconcileSecurityGroups has recorded when it succeeds.
use cluster_api_provider_ovh.Prelude.{
  ◌≡◌, refl, inl, inr, Bool, true, false, Bool-cases, Option, none, some, List, [], ◌∷◌, any, Text,
  is_empty, ◌==◌, ==_refl, ==_iff, Outcome-cases, ok, Exec, bind_ok, Keeps,
}
use cluster_api_provider_ovh.Cloud.{SecurityGroup}
use cluster_api_provider_ovh.Resources.{
  TextMap, lookup_text, insert_text, OvhSecurityRule, OvhSecurityGroup,
}
use cluster_api_provider_ovh.Cluster.Scope.{ClusterScope, ClusterState}
use cluster_api_provider_ovh.Cluster.Groups.{
  list_groups, record_group, create_rules, new_group, fill_group, create_group, adopt_or_create,
  ensure_group, ensure_groups, groups_of, reconcile_security_groups,
}

-- `_, ok := m[key]`
abbrev pub has_key : Text → TextMap → Bool
has_key key m = any (λ entry. entry.0 == key) m

has_key-insert : (key value : Text) (m : TextMap) → has_key key (insert_text key value m) ≡ true
unfolding insert_text
has_key-insert key value [] = rw (==_refl key) refl
has_key-insert key value ((k, v) ∷ m) = elim (Bool-cases (k == key)) [
  | inl same ↦ rw same (rw (==_refl key) refl)
  | inr other ↦ rw other (rw other (has_key-insert key value m))
]

insert_keeps_key :
    (key other value : Text) (m : TextMap)
    → has_key key m ≡ true
    → has_key key (insert_text other value m) ≡ true
unfolding insert_text
insert_keeps_key key other value [] h = cc
insert_keeps_key key other value ((k, v) ∷ m) h = elim (Bool-cases (k == other)) [
  | inl same ↦ rw same (let is_other = (==_iff k other).0 same in rw is_other at h)
  | inr differs ↦ elim (Bool-cases (k == key)) [
    | inl this ↦ rw (differs, this) refl
    | inr that ↦ rw (differs, that) (insert_keeps_key key other value m (rw that at h))
  ]
]

lookup_has_key :
    (key : Text) (m : TextMap) → is_empty (lookup_text key m) ≡ false → has_key key m ≡ true
unfolding lookup_text
lookup_has_key key [] h = cc
lookup_has_key key ((k, v) ∷ m) h = elim (Bool-cases (k == key)) [
  | inl this ↦ rw this refl
  | inr that ↦ rw that (lookup_has_key key m (rw that at h))
]

abbrev ids_of : {W : Type 0} → ClusterState W → TextMap
ids_of s = s.cluster.status.security_group_ids

module _ {W : Type 0} (scope : ClusterScope W) where
  create_rules-Keeps :
      (id : Text) (rules : List OvhSecurityRule) → Keeps ids_of (create_rules scope id rules)
  unfolding create_rules
  create_rules-Keeps id [] = record { at = λ s. refl }
  create_rules-Keeps id (rule ∷ rules) = record { at = λ s. (create_rules-Keeps id rules).at _ }

  -- What is recorded stays recorded.
  abbrev Grows : Exec (ClusterState W) (Unit {0}) → Type 0
  Grows m =
      (key : Text) (s : ClusterState W)
      → has_key key (ids_of s) ≡ true
      → has_key key (ids_of (m s).1) ≡ true

  filled :
      (spec : OvhSecurityGroup) (sg : SecurityGroup) (s : ClusterState W)
      → ids_of (fill_group scope spec sg s).1 ≡ insert_text spec.name sg.id (ids_of s)
  unfolding fill_group record_group
  filled spec sg s = (create_rules-Keeps sg.id spec.rules).at _

  create_group-Grows : (spec : OvhSecurityGroup) → Grows (create_group scope spec)
  unfolding create_group new_group
  create_group-Grows spec key s h = elim (Outcome-cases (new_group scope spec s).0) [
    | inl (sg, made) ↦
        rw (made, filled spec sg (new_group scope spec s).1)
          (insert_keeps_key key spec.name sg.id (ids_of s) h)
    | inr (e, failed) ↦ rw failed h
  ]

  create_group_records :
      (spec : OvhSecurityGroup) (s : ClusterState W)
      → (create_group scope spec s).0 ≡ ok tt
      → has_key spec.name (ids_of (create_group scope spec s).1) ≡ true
  unfolding create_group new_group
  create_group_records spec s h = elim (Outcome-cases (new_group scope spec s).0) [
    | inl (sg, made) ↦
        rw (made, filled spec sg (new_group scope spec s).1)
          (has_key-insert spec.name sg.id (ids_of s))
    | inr (e, failed) ↦ absurd (let h' = rw failed at h in cc)
  ]

  adopt-Grows : (spec : OvhSecurityGroup) (o : Option Text) → Grows (adopt_or_create scope spec o)
  unfolding adopt_or_create record_group
  adopt-Grows spec none = create_group-Grows spec
  adopt-Grows spec (some id) = λ key s h. insert_keeps_key key spec.name id (ids_of s) h

  adopt_records :
      (spec : OvhSecurityGroup) (o : Option Text) (s : ClusterState W)
      → (adopt_or_create scope spec o s).0 ≡ ok tt
      → has_key spec.name (ids_of (adopt_or_create scope spec o s).1) ≡ true
  unfolding adopt_or_create record_group
  adopt_records spec none s h = create_group_records spec s h
  adopt_records spec (some id) s h = has_key-insert spec.name id (ids_of s)

  ensure_group-Grows :
      (existing : List SecurityGroup) (spec : OvhSecurityGroup)
      → Grows (ensure_group scope existing spec)
  unfolding ensure_group
  ensure_group-Grows existing spec key s h =
      elim (Bool-cases (is_empty (lookup_text spec.name (ids_of s)))) [
        | inl unset ↦ rw unset (adopt-Grows spec _ key s h)
        | inr set ↦ rw set h
      ]

  ensure_group_records :
      (existing : List SecurityGroup) (spec : OvhSecurityGroup) (s : ClusterState W)
      → (ensure_group scope existing spec s).0 ≡ ok tt
      → has_key spec.name (ids_of (ensure_group scope existing spec s).1) ≡ true
  unfolding ensure_group
  ensure_group_records existing spec s h =
      elim (Bool-cases (is_empty (lookup_text spec.name (ids_of s)))) [
        | inl unset ↦ rw unset (adopt_records spec _ s (rw unset at h))
        | inr set ↦ rw set (lookup_has_key spec.name (ids_of s) set)
      ]

  ensure_groups-Grows :
      (existing : List SecurityGroup) (specs : List OvhSecurityGroup)
      → Grows (ensure_groups scope existing specs)
  unfolding ensure_groups
  ensure_groups-Grows existing [] = λ key s h. h
  ensure_groups-Grows existing (spec ∷ specs) = λ key s h.
      let grown = ensure_group-Grows existing spec key s h in
      elim (Outcome-cases (ensure_group scope existing spec s).0) [
        | inl (u, done) ↦ rw done (ensure_groups-Grows existing specs key _ grown)
        | inr (e, failed) ↦ rw failed grown
      ]

  -- Every group of the list has an entry.
  abbrev pub AllRecorded : List OvhSecurityGroup → TextMap → Type 0
  AllRecorded [] m = Unit
  AllRecorded (spec ∷ specs) m = (has_key spec.name m ≡ true) × AllRecorded specs m

  ensure_groups_record :
      (existing : List SecurityGroup) (specs : List OvhSecurityGroup) (s : ClusterState W)
      → (ensure_groups scope existing specs s).0 ≡ ok tt
      → AllRecorded specs (ids_of (ensure_groups scope existing specs s).1)
  unfolding ensure_groups
  ensure_groups_record existing [] s h = tt
  ensure_groups_record existing (spec ∷ specs) s h =
      let (u, done, rest) =
        bind_ok (ensure_group scope existing spec) (λ _. ensure_groups scope existing specs) s tt
          h in
      let s1 = (ensure_group scope existing spec s).1 in
      let first = ensure_group_records existing spec s done in
      rw done (
        ensure_groups-Grows existing specs spec.name s1 first,
        ensure_groups_record existing specs s1 rest,
      )

  groups_of_record :
      (specs : List OvhSecurityGroup) (s : ClusterState W)
      → (groups_of scope specs s).0 ≡ ok tt
      → AllRecorded specs (ids_of (groups_of scope specs s).1)
  unfolding groups_of list_groups
  groups_of_record [] s h = tt
  groups_of_record (spec ∷ specs) s h =
      let (existing, listed, rest) =
        bind_ok (list_groups scope) (λ sgs. ensure_groups scope sgs (spec ∷ specs)) s tt h in
      rw listed (ensure_groups_record existing (spec ∷ specs) _ rest)

  -- When reconcileSecurityGroups succeeds, the status has an entry for every security group of the
  -- spec.
  pub groups_recorded :
      (s : ClusterState W)
      → (reconcile_security_groups scope s).0 ≡ ok tt
      → AllRecorded s.cluster.spec.security_groups (ids_of (reconcile_security_groups scope s).1)
  unfolding reconcile_security_groups
  groups_recorded s h = groups_of_record s.cluster.spec.security_groups s h
