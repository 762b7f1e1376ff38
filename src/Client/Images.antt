-- ===== src/Client/Images.antt =====
-- What findImageByName picks.
use cluster_api_provider_ovh.Prelude.{
  ◌≡◌, refl, ◌⊎◌, inl, inr, false, Bool-cases, none, some, List, Text, any, First, find?-First,
  find?-any, find?-none, Bool, equal_fold, contains, to_lower,
}
use cluster_api_provider_ovh.Cloud.{Image}
use cluster_api_provider_ovh.Client.Catalog.{find_image_by_name}

-- The name itself, up to the case of its letters.
abbrev pub exact : Text → Image → Bool
exact name i = equal_fold i.name name

-- The image's name holds it, up to the case of its letters.
abbrev pub holds : Text → Image → Bool
holds name i = contains (to_lower i.name) (to_lower name)

-- findImageByName finds the first image that has the name asked for, whatever the case of the
-- letters; where none has it, the first image whose name holds it; and nothing where no image's name
-- holds it.
pub find_image_outcome :
    (images : List Image) (name : Text)
    → ((i : Image) × (find_image_by_name images name ≡ some i) × First (exact name) images i)
      ⊎ ((i : Image) × (find_image_by_name images name ≡ some i)
          × (any (exact name) images ≡ false)
          × First (holds name) images i)
      ⊎ ((find_image_by_name images name ≡ none)
          × (any (exact name) images ≡ false)
          × (any (holds name) images ≡ false))
unfolding find_image_by_name
find_image_outcome images name = elim (Bool-cases (any (exact name) images)) [
  | inl present ↦
      let (i, found) = find?-any (exact name) images present in
      inl (i, rw found refl, find?-First (exact name) images i found)
  | inr absent ↦ elim (Bool-cases (any (holds name) images)) [
    | inl held ↦
        let (i, found) = find?-any (holds name) images held in
        inr (
          inl (
            i,
            rw (find?-none (exact name) images absent, found) refl,
            absent,
            find?-First (holds name) images i found,
          ))
    | inr none_held ↦ inr (
        inr (
          rw (find?-none (exact name) images absent, find?-none (holds name) images none_held) refl,
          absent,
          none_held,
        ))
  ]
]
