-- ===== src/Prelude/Effects.antt =====
-- Go functions that mutate what they point at and may return an error. What was written before an
-- error stays written, so the state comes back beside the error too.
use Prim.Native.Nat.{ℕ}
use mathlib.Core.Path.{◌≡◌, refl}
use mathlib.Core.Logic.{◌⊎◌, inl, inr}
use cluster_api_provider_ovh.Prelude.Strings.{Text}

-- An `error`: an `*APIError` of the OVH library with its status code and the text that its `Error`
-- method returns, an error of another kind with its text, and `fmt.Errorf("<prefix>: %w", inner)`.
pub data GoError : Type 0 where
  api : ℕ → Text → GoError
  plain : Text → GoError
  wrap : Text → GoError → GoError

pub data Outcome (A : Type 0) : Type 0 where
  ok : A → Outcome A
  err : GoError → Outcome A

abbrev pub Exec : Type 0 → Type 0 → Type 0
Exec S A = S → Outcome A × S

-- `if err != nil { return fmt.Errorf("<prefix>: %w", err) }`
abbrev pub wrap_outcome : {A : Type 0} → Text → Outcome A → Outcome A
wrap_outcome prefix (ok a) = ok a
wrap_outcome prefix (err e) = err (wrap prefix e)

-- `a, err := ...; if err != nil { return err }`, where nothing is mutated.
abbrev pub and_then : {A B : Type 0} → Outcome A → (A → Outcome B) → Outcome B
and_then (ok a) f = f a
and_then (err e) f = err e

module _ {S A : Type 0} where
  abbrev pub pure : A → Exec S A
  pure a s = (ok a, s)

  abbrev pub fail : GoError → Exec S A
  fail e s = (err e, s)

  abbrev pub lift : Outcome A → Exec S A
  lift r s = (r, s)

  abbrev pub gets : (S → A) → Exec S A
  gets f s = (ok (f s), s)

  -- The caller looks at the error itself.
  abbrev pub attempt : Exec S A → Exec S (Outcome A)
  attempt m s = let (r, s') = m s in (ok r, s')

  abbrev pub or_wrap : Text → Exec S A → Exec S A
  or_wrap prefix m s = let (r, s') = m s in (wrap_outcome prefix r, s')

abbrev pub modify : {S : Type 0} → (S → S) → Exec S (Unit {0})
modify f s = (ok tt, f s)

abbrev pub continue : {S A B : Type 0} → Outcome A → (A → Exec S B) → Exec S B
continue (ok a) f s = f a s
continue (err e) f s = (err e, s)

infixl 5 ◌>>=◌ ◌>>◌
abbrev pub ◌>>=◌ : {S A B : Type 0} → Exec S A → (A → Exec S B) → Exec S B
◌>>=◌ m f s = let (r, s') = m s in continue r f s'

abbrev pub ◌>>◌ : {S A B : Type 0} → Exec S A → Exec S B → Exec S B
m >> k = m >>= λ _. k

pub Outcome-cases :
    {A : Type 0} (r : Outcome A) → ((a : A) × (r ≡ ok a)) ⊎ ((e : GoError) × (r ≡ err e))
Outcome-cases (ok a) = inl (a, refl)
Outcome-cases (err e) = inr (e, refl)

-- A computation that succeeds went through each of its two parts.
pub bind_ok :
    {S A B : Type 0} (m : Exec S A) (g : A → Exec S B) (s : S) (b : B)
    → ((m >>= g) s).0 ≡ ok b
    → (a : A) × ((m s).0 ≡ ok a) × ((g a (m s).1).0 ≡ ok b)
bind_ok m g s b done = elim (Outcome-cases (m s).0) [
  | inl (a, first) ↦ (a, first, rw first at done)
  | inr (e, failed) ↦ absurd (let h = rw failed at done in cc)
]

pub ok_injective : {A : Type 0} {a b : A} → ok a ≡ ok b → a ≡ b
ok_injective e = cc

-- What only judges a result leaves the state as it is.
pub bind-lift :
    {S A B : Type 0} (m : Exec S A) (f : A → Outcome B) (s : S)
    → ((m >>= λ a. lift (f a)) s).1 ≡ (m s).1
bind-lift m f s = elim (Outcome-cases (m s).0) [ inl (a, e) ↦ rw e | inr (x, e) ↦ rw e ]
