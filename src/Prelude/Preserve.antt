-- ===== src/Prelude/Preserve.antt =====
-- What a computation leaves alone: one rule for each way to build a computation.
use mathlib.Core.Path.{◌≡◌, refl, ◌∙◌}
use mathlib.Core.Bool.{Bool, true, false}
use cluster_api_provider_ovh.Prelude.Tests.{if◌then◌else◌}
use cluster_api_provider_ovh.Prelude.Strings.{Text}
use cluster_api_provider_ovh.Prelude.Effects.{
  GoError, Outcome, ok, err, Exec, pure, fail, lift, attempt, or_wrap, ◌>>=◌, ◌>>◌, continue,
}

-- The view `f` of the state is the same afterwards, whether the computation fails or not.
pub record Keeps {S A B : Type 0} (f : S → B) (m : Exec S A) : Type 0 where
  pub at : (s : S) → f (m s).1 ≡ f s

module _ {S A B : Type 0} {f : S → B} where
  pub Keeps-pure : (a : A) → Keeps f (pure a)
  Keeps-pure a = record { at = λ s. refl }

  pub Keeps-fail : (e : GoError) → Keeps f (fail {A = A} e)
  Keeps-fail e = record { at = λ s. refl }

  pub Keeps-lift : (r : Outcome A) → Keeps f (lift r)
  Keeps-lift r = record { at = λ s. refl }

  pub Keeps-attempt : {m : Exec S A} → Keeps f m → Keeps f (attempt m)
  Keeps-attempt h = record { at = λ s. h.at s }

  pub Keeps-or_wrap : (prefix : Text) {m : Exec S A} → Keeps f m → Keeps f (or_wrap prefix m)
  Keeps-or_wrap prefix h = record { at = λ s. h.at s }

  pub Keeps-if : (b : Bool) {m n : Exec S A} → Keeps f m → Keeps f n → Keeps f (if b then m else n)
  Keeps-if true h k = h
  Keeps-if false h k = k

module _ {S A B C : Type 0} {f : S → C} where
  Keeps-continue :
      (r : Outcome A) (g : A → Exec S B) → ((a : A) → Keeps f (g a)) → Keeps f (continue r g)
  Keeps-continue (ok a) g h = record { at = λ s. (h a).at s }
  Keeps-continue (err e) g h = record { at = λ s. refl }

  pub Keeps-bind :
      {m : Exec S A} {g : A → Exec S B} → Keeps f m → ((a : A) → Keeps f (g a)) → Keeps f (m >>= g)
  Keeps-bind {m} {g} h k = record { at = λ s. (Keeps-continue (m s).0 g k).at (m s).1 ∙ h.at s }

  pub Keeps-then : {m : Exec S A} {n : Exec S B} → Keeps f m → Keeps f n → Keeps f (m >> n)
  Keeps-then h k = Keeps-bind h (λ a. k)

pub ruleset keeps_rules =
    (Keeps-pure, Keeps-fail, Keeps-lift, Keeps-attempt, Keeps-or_wrap, Keeps-bind, Keeps-then)
