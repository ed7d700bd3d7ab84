-- ===== src/Base/Effects.antt =====
-- Calls out of the bridge. Every injected callable is answered by an environment that may look at
-- all calls made before, and every call and how it ended is logged. The log is newest first.
use Prim.Native.Nat.{ℕ}
use mathlib.Core.Path.{◌≡◌, refl}
use mathlib.Core.Bool.{Bool, true, false}
use mathlib.Core.List.{List, [], ◌∷◌}
use native.Mathlib.Omega.{arith}
use foreman_dispatch_bridge.Base.Text.{Text}
use foreman_dispatch_bridge.Base.Tests.{if◌then◌else◌}
pub mod Rules
pub mod Returns

-- A value, or an exception with its text.
pub data Result {ℓ} (A : Type ℓ) : Type ℓ where
  ok : A → Result A
  raise : Text → Result A

abbrev pub returned {ℓ} : {A : Type ℓ} → Result A → Bool
returned (ok a) = true
returned (raise e) = false

-- `try: ... except: d`
abbrev pub recover {ℓ} : {A : Type ℓ} → A → Result A → A
recover d (ok a) = a
recover d (raise e) = d

-- Code that makes calls of type C.
abbrev pub M {ℓ} : Type 0 → Type ℓ → Type ℓ
M C A = List C → Result A × List C

module _ {C : Type 0} where
  abbrev pub pure {ℓ} : {A : Type ℓ} → A → M C A
  pure a log = (ok a, log)

  abbrev pub continue {ℓ κ} : {A : Type ℓ} {B : Type κ} → Result A → (A → M C B) → M C B
  continue (ok a) f log = f a log
  continue (raise e) f log = (raise e, log)

  infixl 5 ◌>>=◌ ◌>>◌
  unfoldable pub ◌>>=◌ {ℓ κ} : {A : Type ℓ} {B : Type κ} → M C A → (A → M C B) → M C B
  ◌>>=◌ m f log = continue (m log).0 f (m log).1

  unfoldable pub ◌>>◌ {ℓ κ} : {A : Type ℓ} {B : Type κ} → M C A → M C B → M C B
  unfolding ◌>>=◌
  m >> n = m >>= λ _. n

  -- A call: its entry in the log records how it ended.
  unfoldable pub perform {ℓ} : {A : Type ℓ} → (Result A → C) → (List C → Result A) → M C A
  perform entry answer log = (answer log, entry (answer log) ∷ log)

  -- `try: m`, with the exception as a value.
  unfoldable pub attempt {ℓ} : {A : Type ℓ} → M C A → M C (Result A)
  attempt m log = (ok (m log).0, (m log).1)

  -- `for x in xs: ...` over the variables s that the body changes.
  unfoldable pub for_each {ℓ κ} : {S : Type ℓ} {A : Type κ} → (S → A → M C S) → S → List A → M C S
  unfolding ◌>>=◌
  for_each step s [] = pure s
  for_each step s (x ∷ xs) = step s x >>= λ s'. for_each step s' xs
