-- ===== src/Base/Effects/Returns.antt =====
-- Rules for code that never raises.
use mathlib.Core.Path.{◌≡◌, refl, sym}
use mathlib.Core.List.{List, [], ◌∷◌}
use mathlib.Core.Bool.{Bool, true, false, true≢false}
use mathlib.Core.Option.{Option, none, some}
use foreman_dispatch_bridge.Base.Tests.{if◌then◌else◌, given}
use foreman_dispatch_bridge.Base.Effects.{
  Result, ok, raise, returned, M, pure, perform, attempt, continue, ◌>>=◌, ◌>>◌, for_each,
}
use foreman_dispatch_bridge.Base.Effects.Rules.{Outcome}

pub record Returns {ℓ} {C : Type 0} {A : Type ℓ} (m : M C A) : Type 0 where
  pub at : (log : List C) → returned (m log).0 ≡ true

module _ {C : Type 0} where
  pub Returns-pure {ℓ} : {A : Type ℓ} (a : A) → Returns {C = C} (pure a)
  Returns-pure a = record { at = λ log. refl }

  pub Returns-perform {ℓ} :
      {A : Type ℓ} (entry : Result A → C) (answer : List C → Result A)
      → ((log : List C) → returned (answer log) ≡ true)
      → Returns (perform entry answer)
  unfolding perform
  Returns-perform entry answer k = record { at = k }

  -- Whatever `m` does.
  pub Returns-attempt {ℓ} : {A : Type ℓ} (m : M C A) → Returns (attempt m)
  unfolding attempt
  Returns-attempt m = record { at = λ log. refl }

  Returns-continue {ℓ κ} :
      {A : Type ℓ} {B : Type κ} (r : Result A) (f : A → M C B) (log : List C)
      → returned r ≡ true
      → ((a : A) → Returns (f a))
      → returned (continue r f log).0 ≡ true
  Returns-continue (ok a) f log h k = (k a).at log
  Returns-continue (raise e) f log h k = h

  pub Returns-bind {ℓ κ} :
      {A : Type ℓ} {B : Type κ} (m : M C A) (f : A → M C B)
      → Returns m
      → ((a : A) → Returns (f a))
      → Returns (m >>= f)
  unfolding ◌>>=◌
  Returns-bind m f km kf = record {
    at = λ log. Returns-continue (m log).0 f (m log).1 (km.at log) kf;
  }

  pub Returns-then {ℓ κ} :
      {A : Type ℓ} {B : Type κ} (m : M C A) (n : M C B) → Returns m → Returns n → Returns (m >> n)
  unfolding ◌>>◌
  Returns-then m n km kn = Returns-bind m (λ _. n) km (λ _. kn)

  pub Returns-if {ℓ} :
      {A : Type ℓ} (b : Bool) (m n : M C A) → Returns m → Returns n → Returns (if b then m else n)
  Returns-if true m n km kn = km
  Returns-if false m n km kn = kn

  pub Returns-given {ℓ κ} :
      {F : Type κ} {A : Type ℓ} (o : Option F) (m : M C A) (f : F → M C A)
      → Returns m
      → ((h : F) → Returns (f h))
      → Returns (given o m f)
  unfolding given
  Returns-given none m f km kf = km
  Returns-given (some h) m f km kf = kf h

-- What is known of an optional callable, where it is there.
abbrev pub OnSome {ℓ} : {F : Type ℓ} → (F → Type 0) → Option F → Type 0
OnSome P none = Unit
OnSome P (some h) = P h

module _ {C : Type 0} where
  pub Returns-given_if {ℓ κ} :
      {F : Type κ} {A : Type ℓ} (P : F → Type 0) (o : Option F) (m : M C A) (f : F → M C A)
      → OnSome P o
      → Returns m
      → ((h : F) → P h → Returns (f h))
      → Returns (given o m f)
  unfolding given
  Returns-given_if P none m f p km kf = km
  Returns-given_if P (some h) m f p km kf = kf h p

  pub Returns-for_each {ℓ κ} :
      {S : Type ℓ} {A : Type κ} (step : S → A → M C S)
      → ((s : S) (a : A) → Returns (step s a))
      → (s : S) (xs : List A) → Returns (for_each step s xs)
  unfolding for_each
  Returns-for_each step k s [] = Returns-pure s
  Returns-for_each step k s (x ∷ xs) =
      Returns-bind (step s x) (λ s'. for_each step s' xs) (k s x)
        λ s'. Returns-for_each step k s' xs

-- A result that is not an exception is in its normal outcome.
pub Result-Outcome {ℓ} :
    {C : Type 0} {A : Type ℓ} (I : A → List C → Type 0) (E : List C → Type 0)
    (r : Result A × List C)
    → returned r.0 ≡ true
    → Outcome I E r
    → (a : A) × (r.0 ≡ ok a) × I a r.1
Result-Outcome I E (ok a, l) e i = (a, refl, i)
Result-Outcome I E (raise t, l) e i = elim (true≢false (sym e)) [ ]

-- A result with no outcome for an exception is a value.
pub Outcome-value {ℓ} :
    {C : Type 0} {A : Type ℓ} (I : A → List C → Type 0) (r : Result A × List C)
    → Outcome I (λ log. ⊥) r
    → (a : A) × (r.0 ≡ ok a) × I a r.1
Outcome-value I (ok a, l) i = (a, refl, i)
Outcome-value I (raise t, l) i = elim i [ ]

pub Outcome-given {ℓ κ} :
    {C : Type 0} {F : Type κ} {A : Type ℓ} (I : A → List C → Type 0) (E : List C → Type 0)
    (o : Option F) (m : M C A) (f : F → M C A) (log : List C)
    → Outcome I E (m log)
    → ((h : F) → Outcome I E (f h log))
    → Outcome I E (given o m f log)
unfolding given
Outcome-given I E none m f log km kf = km
Outcome-given I E (some h) m f log km kf = kf h

pub ruleset returns_rules =
    (Returns-pure, Returns-attempt, Returns-bind, Returns-then, Returns-if, Returns-given)
