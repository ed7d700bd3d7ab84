-- ===== src/Base/Effects/Rules.antt =====
-- Rules for what code leaves behind, one for each way to build it.
use mathlib.Core.List.{List, [], ◌∷◌}
use mathlib.Core.Bool.{Bool, true, false}
use mathlib.Core.Option.{Option, none, some}
use foreman_dispatch_bridge.Base.Tests.{if◌then◌else◌, given}
use foreman_dispatch_bridge.Base.Effects.{
  Result, ok, raise, M, pure, perform, attempt, continue, ◌>>=◌, ◌>>◌, for_each,
}

-- A normal end satisfies I, and an exception leaves a log that satisfies E.
abbrev pub Outcome {ℓ} :
    {C : Type 0} {A : Type ℓ} (I : A → List C → Type 0) (E : List C → Type 0)
    → Result A × List C
    → Type 0
Outcome I E (ok a, log) = I a log
Outcome I E (raise e, log) = E log

module _ {C : Type 0} (E : List C → Type 0) where
  pub continue_lem {ℓ κ} :
      {A : Type ℓ} {B : Type κ} (I : A → List C → Type 0) (K : B → List C → Type 0) (r : Result A)
      (f : A → M C B) (log : List C)
      → Outcome I E (r, log)
      → ((a : A) (log' : List C) → I a log' → Outcome K E (f a log'))
      → Outcome K E (continue r f log)
  continue_lem I K (ok a) f log h k = k a log h
  continue_lem I K (raise e) f log h k = h

  pub bind_lem {ℓ κ} :
      {A : Type ℓ} {B : Type κ} (I : A → List C → Type 0) (K : B → List C → Type 0) (m : M C A)
      (f : A → M C B) (log : List C)
      → Outcome I E (m log)
      → ((a : A) (log' : List C) → I a log' → Outcome K E (f a log'))
      → Outcome K E ((m >>= f) log)
  unfolding ◌>>=◌
  bind_lem I K m f log h k = continue_lem I K (m log).0 f (m log).1 h k

  -- What each round takes from a list to its rest, the loop takes to the end of the list.
  pub for_each_lem {ℓ κ} :
      {S : Type ℓ} {A : Type κ} (I : List A → S → List C → Type 0) (step : S → A → M C S)
      → ((s : S) (a : A) (rest : List A) (log : List C)
          → I (a ∷ rest) s log
          → Outcome (I rest) E (step s a log))
      → (s : S) (xs : List A) (log : List C) → I xs s log
      → Outcome (I []) E (for_each step s xs log)
  unfolding for_each
  for_each_lem I step keep s [] log h = h
  for_each_lem I step keep s (x ∷ xs) log h =
      bind_lem (I xs) (I []) (step s x) (λ s'. for_each step s' xs) log (keep s x xs log h)
        λ s' log' h'. for_each_lem I step keep s' xs log' h'

-- `m` keeps P of the log, whether it returns or raises.
pub record Keeps {ℓ} {C : Type 0} {A : Type ℓ} (P : List C → Type 0) (m : M C A) : Type 0 where
  pub at : (log : List C) → P log → P (m log).1

module _ {C : Type 0} {P : List C → Type 0} where
  pub Keeps-pure {ℓ} : {A : Type ℓ} (a : A) → Keeps P (pure a)
  Keeps-pure a = record { at = λ log h. h }

  pub Keeps-perform {ℓ} :
      {A : Type ℓ} (entry : Result A → C) (answer : List C → Result A)
      → ((r : Result A) (log : List C) → P log → P (entry r ∷ log))
      → Keeps P (perform entry answer)
  unfolding perform
  Keeps-perform entry answer k = record { at = λ log h. k (answer log) log h }

  pub Keeps-attempt {ℓ} : {A : Type ℓ} (m : M C A) → Keeps P m → Keeps P (attempt m)
  unfolding attempt
  Keeps-attempt m k = record { at = k.at }

  Keeps-continue {ℓ κ} :
      {A : Type ℓ} {B : Type κ} (r : Result A) (f : A → M C B) (log : List C)
      → ((a : A) → Keeps P (f a))
      → P log
      → P (continue r f log).1
  Keeps-continue (ok a) f log k h = (k a).at log h
  Keeps-continue (raise e) f log k h = h

  pub Keeps-bind {ℓ κ} :
      {A : Type ℓ} {B : Type κ} (m : M C A) (f : A → M C B)
      → Keeps P m
      → ((a : A) → Keeps P (f a))
      → Keeps P (m >>= f)
  unfolding ◌>>=◌
  Keeps-bind m f km kf = record {
    at = λ log h. Keeps-continue (m log).0 f (m log).1 kf (km.at log h);
  }

  pub Keeps-then {ℓ κ} :
      {A : Type ℓ} {B : Type κ} (m : M C A) (n : M C B) → Keeps P m → Keeps P n → Keeps P (m >> n)
  unfolding ◌>>◌
  Keeps-then m n km kn = Keeps-bind m (λ _. n) km (λ _. kn)

  pub Keeps-if {ℓ} :
      {A : Type ℓ} (b : Bool) (m n : M C A) → Keeps P m → Keeps P n → Keeps P (if b then m else n)
  Keeps-if true m n km kn = km
  Keeps-if false m n km kn = kn

  pub Keeps-given {ℓ κ} :
      {F : Type κ} {A : Type ℓ} (o : Option F) (m : M C A) (f : F → M C A)
      → Keeps P m
      → ((h : F) → Keeps P (f h))
      → Keeps P (given o m f)
  unfolding given
  Keeps-given none m f km kf = km
  Keeps-given (some h) m f km kf = kf h

-- What holds before code that keeps it holds after it, on both ways out.
pub Keeps-Outcome {ℓ} :
    {C : Type 0} {A : Type ℓ} (P : List C → Type 0) (m : M C A) (log : List C)
    → Keeps P m
    → P log
    → Outcome (λ a. P) P (m log)
Keeps-Outcome {A} P m log k h = both (m log) (k.at log h)
  where
    both : (r : Result A × List _) → P r.1 → Outcome (λ a. P) P r
    both (ok a, log') p = p
    both (raise e, log') p = p

-- Two facts about one result.
pub Outcome-both {ℓ} :
    {C : Type 0} {A : Type ℓ} (I K : A → List C → Type 0) (E F : List C → Type 0)
    (r : Result A × List C)
    → Outcome I E r
    → Outcome K F r
    → Outcome (λ a log. I a log × K a log) (λ log. E log × F log) r
Outcome-both I K E F (ok a, log) h k = (h, k)
Outcome-both I K E F (raise e, log) h k = (h, k)

pub Outcome-map {ℓ} :
    {C : Type 0} {A : Type ℓ} (I K : A → List C → Type 0) (E F : List C → Type 0)
    (r : Result A × List C)
    → ((a : A) (log : List C) → I a log → K a log)
    → ((log : List C) → E log → F log)
    → Outcome I E r
    → Outcome K F r
Outcome-map I K E F (ok a, log) f g h = f a log h
Outcome-map I K E F (raise e, log) f g h = g log h

-- Nothing to say about an exception, nor about a result.
pub Outcome-any {ℓ} :
    {C : Type 0} {A : Type ℓ} (r : Result A × List C) → Outcome (λ a log. Unit) (λ log. Unit) r
Outcome-any (ok a, log) = tt
Outcome-any (raise e, log) = tt

pub ruleset keeps_rules =
    (Keeps-pure, Keeps-perform, Keeps-attempt, Keeps-bind, Keeps-then, Keeps-if, Keeps-given)
