-- ===== src/Base/Tests.antt =====
-- Boolean tests on the native numbers, the conditional, and case splits that keep an equation.
use Prim.Native.Nat.{ℕ, ◌≤◌, compare, Ordering}
use mathlib.Core.Path.{◌≡◌, refl, sym, subst}
use mathlib.Core.Logic.{◌↔◌, ◌⊎◌, inl, inr}
use mathlib.Core.Bool.{Bool, true, false}
use mathlib.Core.Option.{Option, none, some}
use native.Mathlib.Omega.{arith}

abbrev pub ltb : ℕ → ℕ → Bool
ltb a b = elim (compare a b) [ Ordering.lt ↦ true | _ ↦ false ]

abbrev pub leb : ℕ → ℕ → Bool
leb a b = elim (compare a b) [ Ordering.gt ↦ false | _ ↦ true ]

abbrev pub nat_eq : ℕ → ℕ → Bool
nat_eq a b = elim (compare a b) [ Ordering.eq ↦ true | _ ↦ false ]

infix 1 if◌then◌else◌
abbrev pub if◌then◌else◌ {ℓ} : {A : Type ℓ} → Bool → A → A → A
if true then x else y = x
if false then x else y = y

pub leb→le : (a b : ℕ) → leb a b ≡ true → a ≤ b
leb→le a b h = ground arith

pub nat_eq_iff : (a b : ℕ) → (nat_eq a b ≡ true) ↔ (a ≡ b)
nat_eq_iff a b = ground arith

pub Bool-cases : (b : Bool) → (b ≡ true) ⊎ (b ≡ false)
Bool-cases true = inl refl
Bool-cases false = inr refl

pub Option-cases {ℓ} : {A : Type ℓ} (o : Option A) → (o ≡ none) ⊎ ((a : A) × (o ≡ some a))
Option-cases none = inl refl
Option-cases (some a) = inr (a, refl)

abbrev pub is_some {ℓ} : {A : Type ℓ} → Option A → Bool
is_some none = false
is_some (some _) = true

-- `d.get(k, default)`
abbrev pub or_default {ℓ} : {A : Type ℓ} → Option A → A → A
or_default none d = d
or_default (some a) d = a

-- An optional callable: what happens without it, and with it.
unfoldable pub given {ℓ κ} : {F : Type ℓ} {A : Type κ} → Option F → A → (F → A) → A
given none a f = a
given (some h) a f = f h

-- Where the code goes on with a value and ends well, there was one.
pub given-eq-some {ℓ κ} :
    {F : Type ℓ} {A : Type κ} (o : Option F) (f : F → Option A) {a : A}
    → given o none f ≡ some a
    → (h : F) × (o ≡ some h) × (f h ≡ some a)
unfolding given
given-eq-some none f e = cc
given-eq-some (some h) f e = (h, refl, e)

-- Where P holds of the result and not of the first branch, the code took the other.
pub if-else {ℓ} :
    {A : Type ℓ} (P : A → Type 0) (b : Bool) (x y : A) {z : A}
    → (if b then x else y) ≡ z
    → P z
    → (P x → ⊥)
    → (b ≡ false) × (y ≡ z)
if-else P true x y e p n = elim (n (subst P (sym e) p)) [ ]
if-else P false x y e p n = (refl, e)

pub some_inj {ℓ} : {A : Type ℓ} {a b : A} → some a ≡ some b → a ≡ b
some_inj e = cc
