-- ===== src/Etcd/Numbers.antt =====
-- A member is named on the command line by its number to the base 16.
use cluster_api_provider_ovh.Prelude.{
  ℕ, zero, suc, ◌+◌, ◌-◌, ◌*◌, ◌<◌, ◌≡◌, refl, sym, ap, ◌∙◌, inl, inr, Bool-cases, [], ◌∷◌, Text,
  ltb, if◌then◌else◌, arith,
}
use Prim.Native.Nat.{◌/◌, ◌%◌}
use cluster_api_provider_ovh.Etcd.Commands.{hex_digit, hex_from, format_hex, remove_command}

digit_value : ℕ → ℕ
digit_value c = if ltb c b'a' then c - b'0' else c - b'a' + 10

-- The number that a text reads as, behind the digits of `acc`.
read_hex : ℕ → Text → ℕ
read_hex acc [] = acc
read_hex acc (c ∷ s) = read_hex (acc * 16 + digit_value c) s

digit_value-hex_digit : (d : ℕ) → d < 16 → digit_value (hex_digit d) ≡ d
unfolding digit_value hex_digit
digit_value-hex_digit d small = ground arith

read-hex_from :
    (fuel n : ℕ) (rest : Text) → n < fuel → read_hex 0 (hex_from fuel n rest) ≡ read_hex n rest
unfolding read_hex hex_from
read-hex_from zero n rest h = absurd (omega arith)
read-hex_from (suc fuel) n rest h = elim (Bool-cases (ltb n 16)) [
  | inl small ↦
      rw small (ap (λ a. read_hex a rest) (omega (arith, digit_value-hex_digit n (ground arith))))
  | inr large ↦ rw large (
      read-hex_from fuel (n / 16) (hex_digit (n % 16) ∷ rest) (ground arith)
      ∙ ap (λ a. read_hex a rest) (omega (arith, digit_value-hex_digit (n % 16) (omega arith))))
]

read-format_hex : (n : ℕ) → read_hex 0 (format_hex n) ≡ n
unfolding format_hex read_hex
read-format_hex n = read-hex_from (suc n) n [] (omega arith) ∙ refl

-- Two members with the same removal command have the same number, so a removal removes no other
-- member than the one that was chosen.
pub remove_command-injective : (a b : ℕ) → remove_command a ≡ remove_command b → a ≡ b
unfolding remove_command
remove_command-injective a b same =
    let digits : format_hex a ≡ format_hex b = cc in
    sym (read-format_hex a) ∙ ap (read_hex 0) digits ∙ read-format_hex b
