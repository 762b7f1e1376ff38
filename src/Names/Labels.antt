-- ===== src/Names/Labels.antt =====
-- What GenerateRFC1035Name produces: DNS labels of at most 63 bytes, and a label from itself.
use cluster_api_provider_ovh.Prelude.{
  ℕ, zero, suc, ◌≤◌, ◌≡◌, refl, inl, inr, Bool, true, false, List, [], ◌∷◌, map, Text, codes,
  is_empty, lower_byte, to_lower, length, take, ltb, nat_eq, Bool-cases, arith, if◌then◌else◌,
}
use cluster_api_provider_ovh.Names.{
  is_name_byte, name_byte, trim_left, trim_right, max_name, cut_name, generate_rfc1035_name, join,
}

abbrev pub AllNameBytes : Text → Type 0
AllNameBytes [] = Unit
AllNameBytes (c ∷ s) = (is_name_byte c ≡ true) × AllNameBytes s

abbrev pub starts_with_dash : Text → Bool
starts_with_dash [] = false
starts_with_dash (c ∷ s) = nat_eq c b'-'

abbrev pub ends_with_dash : Text → Bool
ends_with_dash [] = false
ends_with_dash (c ∷ s) = if is_empty s then nat_eq c b'-' else ends_with_dash s

-- Lower-case letters, digits and inner dashes, 63 bytes at most; the empty text is admitted.
pub record IsLabel (s : Text) : Type 0 where
  pub bytes : AllNameBytes s
  pub no_dash_first : starts_with_dash s ≡ false
  pub no_dash_last : ends_with_dash s ≡ false
  pub short : length s ≤ 63

name_byte-IsName : (c : ℕ) → is_name_byte (name_byte c) ≡ true
unfolding name_byte
name_byte-IsName c = ground arith

map-AllNameBytes : (s : Text) → AllNameBytes (map name_byte s)
map-AllNameBytes [] = tt
map-AllNameBytes (c ∷ s) = (name_byte-IsName c, map-AllNameBytes s)

trim_left-AllNameBytes : (s : Text) → AllNameBytes s → AllNameBytes (trim_left s)
unfolding trim_left
trim_left-AllNameBytes [] h = tt
trim_left-AllNameBytes (c ∷ s) h = ground (arith, trim_left-AllNameBytes s h.1)

trim_left_no_dash : (s : Text) → starts_with_dash (trim_left s) ≡ false
unfolding trim_left
trim_left_no_dash [] = refl
trim_left_no_dash (c ∷ s) = ground (arith, trim_left_no_dash s)

trim_right-AllNameBytes : (s : Text) → AllNameBytes s → AllNameBytes (trim_right s)
unfolding trim_right
trim_right-AllNameBytes [] h = tt
trim_right-AllNameBytes (c ∷ s) h = ground (arith, trim_right-AllNameBytes s h.1)

trim_right_no_dash : (s : Text) → ends_with_dash (trim_right s) ≡ false
unfolding trim_right
trim_right_no_dash [] = refl
trim_right_no_dash (c ∷ s) = ground (arith, trim_right_no_dash s)

trim_right_keeps_start :
    (s : Text) → starts_with_dash s ≡ false → starts_with_dash (trim_right s) ≡ false
unfolding trim_right
trim_right_keeps_start [] h = refl
trim_right_keeps_start (c ∷ s) h = ground arith

length-trim_right : (s : Text) → length (trim_right s) ≤ length s
unfolding trim_right
length-trim_right [] = omega arith
length-trim_right (c ∷ s) = ground (arith, length-trim_right s)

take-AllNameBytes : (n : ℕ) (s : Text) → AllNameBytes s → AllNameBytes (take n s)
take-AllNameBytes zero s h = tt
take-AllNameBytes (suc n) [] h = tt
take-AllNameBytes (suc n) (c ∷ s) h = (h.0, take-AllNameBytes n s h.1)

take_keeps_start :
    (n : ℕ) (s : Text) → starts_with_dash s ≡ false → starts_with_dash (take n s) ≡ false
take_keeps_start zero s h = refl
take_keeps_start (suc n) [] h = refl
take_keeps_start (suc n) (c ∷ s) h = h

length-take-le : (n : ℕ) (s : Text) → length (take n s) ≤ n
length-take-le zero s = omega arith
length-take-le (suc n) [] = omega arith
length-take-le (suc n) (c ∷ s) = omega (arith, length-take-le n s)

module _ (s : Text) (bytes : AllNameBytes s) (start : starts_with_dash s ≡ false) where
  cut_name-IsLabel : ends_with_dash s ≡ false → IsLabel (cut_name s)
  unfolding cut_name
  cut_name-IsLabel end = elim (Bool-cases (ltb max_name (length s))) [
    | inl long ↦ rw long (record {
      bytes = trim_right-AllNameBytes _ (take-AllNameBytes 63 s bytes);
      no_dash_first = trim_right_keeps_start _ (take_keeps_start 63 s start);
      no_dash_last = trim_right_no_dash (take 63 s);
      short = omega (arith, length-trim_right (take 63 s), length-take-le 63 s);
    })
    | inr fits ↦
        rw fits (record {
          bytes = bytes;
          no_dash_first = start;
          no_dash_last = end;
          short = ground arith;
        })
  ]

-- Whatever the parts, the generated name has lower-case letters, digits and dashes only, at most 63
-- of them, and neither starts nor ends with a dash.
pub generate-IsLabel : (parts : List Text) → IsLabel (generate_rfc1035_name parts)
unfolding generate_rfc1035_name
generate-IsLabel parts =
    cut_name-IsLabel _ (trim_right-AllNameBytes _ (trim_left-AllNameBytes _ (map-AllNameBytes _)))
      (trim_right_keeps_start _ (trim_left_no_dash _)) (trim_right_no_dash _)

name_byte_fixes : (c : ℕ) → is_name_byte c ≡ true → name_byte (lower_byte c) ≡ c
unfolding name_byte lower_byte
name_byte_fixes c h = ground arith

map_fixes : (s : Text) → AllNameBytes s → map name_byte (to_lower s) ≡ s
unfolding to_lower
map_fixes [] h = refl
map_fixes (c ∷ s) h = cc (name_byte_fixes c h.0, map_fixes s h.1)

trim_left_fixes : (s : Text) → starts_with_dash s ≡ false → trim_left s ≡ s
unfolding trim_left
trim_left_fixes [] h = refl
trim_left_fixes (c ∷ s) h = ground arith

trim_right_fixes : (s : Text) → ends_with_dash s ≡ false → trim_right s ≡ s
unfolding trim_right
trim_right_fixes [] h = refl
trim_right_fixes (c ∷ []) h = ground arith
trim_right_fixes (c ∷ d ∷ s) h = rw (trim_right_fixes (d ∷ s) h)

cut_name_fixes : (s : Text) → length s ≤ 63 → cut_name s ≡ s
unfolding cut_name
cut_name_fixes s h = ground arith

-- Parts whose join is already a label are generated unchanged: their name is the join itself.
pub generate_fixes :
    (parts : List Text)
    → IsLabel (join (codes "-") parts)
    → generate_rfc1035_name parts ≡ join (codes "-") parts
unfolding generate_rfc1035_name
generate_fixes parts label = rw (map_fixes _ label.bytes) (
    rw (trim_left_fixes _ label.no_dash_first)
      (rw (trim_right_fixes _ label.no_dash_last) (cut_name_fixes _ label.short)))

-- A generated name is generated from itself unchanged.
pub generate_idem :
    (parts : List Text)
    → generate_rfc1035_name (generate_rfc1035_name parts ∷ []) ≡ generate_rfc1035_name parts
unfolding join
generate_idem parts = generate_fixes (generate_rfc1035_name parts ∷ []) (generate-IsLabel parts)
