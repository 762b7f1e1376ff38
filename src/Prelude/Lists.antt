-- ===== src/Prelude/Lists.antt =====
-- Lists measured by native numbers, under the library's names, and the loops over a slice that
-- return at the first match.
use Prim.Native.Nat.{ℕ, zero, suc, ◌+◌}
use mathlib.Core.Path.{◌≡◌, refl, ap}
use mathlib.Core.Logic.{inl, inr}
use mathlib.Core.Bool.{Bool, true, false, ◌||◌}
use mathlib.Core.List.{List, [], ◌∷◌, ◌++◌}
use mathlib.Core.Option.{Option, none, some}
use native.Mathlib.Omega.{arith}
use cluster_api_provider_ovh.Prelude.Tests.{if◌then◌else◌, Bool-cases}

module _ {ℓ} {A : Type ℓ} where
  abbrev pub length : List A → ℕ
  length [] = 0
  length (x ∷ xs) = suc (length xs)

  abbrev pub take : ℕ → List A → List A
  take zero xs = []
  take (suc n) [] = []
  take (suc n) (x ∷ xs) = x ∷ take n xs

  abbrev pub drop : ℕ → List A → List A
  drop zero xs = xs
  drop (suc n) [] = []
  drop (suc n) (x ∷ xs) = drop n xs

  -- `for i := range xs { if test(xs[i]) { return &xs[i] } }; return nil`
  abbrev pub find? : (A → Bool) → List A → Option A
  find? test [] = none
  find? test (x ∷ xs) = if test x then some x else find? test xs

  -- Some element passes the test.
  abbrev pub any : (A → Bool) → List A → Bool
  any test [] = false
  any test (x ∷ xs) = test x || any test xs

  -- The elements that pass the test, in order.
  abbrev pub keep : (A → Bool) → List A → List A
  keep test [] = []
  keep test (x ∷ xs) = let rest = keep test xs in if test x then x ∷ rest else rest

  pub length-append : (xs ys : List A) → length (xs ++ ys) ≡ length xs + length ys
  length-append [] ys = omega arith
  length-append (x ∷ xs) ys = omega (arith, length-append xs ys)

  -- What the loop returns passes the test.
  pub find?-test : (test : A → Bool) (xs : List A) (a : A) → find? test xs ≡ some a → test a ≡ true
  find?-test test [] a h = cc
  find?-test test (x ∷ xs) a h = ground (arith, find?-test test xs a)

  pub find?-any :
      (test : A → Bool) (xs : List A) → any test xs ≡ true → (a : A) × (find? test xs ≡ some a)
  find?-any test [] h = cc
  find?-any test (x ∷ xs) h = elim (Bool-cases (test x)) [
    | inl hit ↦ (x, rw hit)
    | inr miss ↦ let (a, e) = find?-any test xs (rw miss at h) in (a, rw miss e)
  ]

  pub find?-none : (test : A → Bool) (xs : List A) → any test xs ≡ false → find? test xs ≡ none
  find?-none test [] h = refl
  find?-none test (x ∷ xs) h = ground (arith, find?-none test xs)

-- `x` is the first element of the list that passes the test.
abbrev pub First : {A : Type 0} → (A → Bool) → List A → A → Type 0
First {A} test xs x =
    (before : List A) × (after : List A) × (xs ≡ before ++ (x ∷ after))
    × (test x ≡ true)
    × (any test before ≡ false)

pub find?-First :
    {A : Type 0} (test : A → Bool) (xs : List A) (a : A) → find? test xs ≡ some a → First test xs a
find?-First test [] a h = cc
find?-First test (x ∷ xs) a h = elim (Bool-cases (test x)) [
  | inl hit ↦
      let same : x ≡ a = (let h' = rw hit at h in cc) in
      ([], xs, ap (λ y. y ∷ xs) same, rw⁻¹ same hit, refl)
  | inr miss ↦
      let (before, after, split, hit, none_before) = find?-First test xs a (rw miss at h) in
      (x ∷ before, after, ap (λ ys. x ∷ ys) split, hit, rw miss none_before)
]

-- What is found in what was kept was not dropped.
pub find?-keep :
    {A : Type 0} (test kept : A → Bool) (xs : List A) (a : A)
    → find? test (keep kept xs) ≡ some a
    → kept a ≡ true
find?-keep test kept [] a h = cc
find?-keep test kept (x ∷ xs) a h = elim (Bool-cases (kept x)) [
  | inr dropped ↦ find?-keep test kept xs a (rw dropped at h)
  | inl in_it ↦ elim (Bool-cases (test x)) [
    | inl hit ↦ let same : x ≡ a = (let h' = rw (in_it, hit) at h in cc) in rw⁻¹ same in_it
    | inr miss ↦ find?-keep test kept xs a (rw (in_it, miss) at h)
  ]
]

pub First-test :
    {A : Type 0} (test : A → Bool) (xs : List A) (x : A) → First test xs x → test x ≡ true
First-test test xs x (before, after, split, hit, none_before) = hit
