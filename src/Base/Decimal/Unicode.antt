-- ===== src/Base/Decimal/Unicode.antt =====
-- `str.isdigit`, and `int` of the texts that pass it, for Unicode 16.0.
use Prim.Native.Nat.{ℕ, ◌+◌, ◌-◌, ◌*◌}
use mathlib.Core.Path.{◌≡◌, refl, sym, ◌∙◌}
use mathlib.Core.Logic.{◌≢◌, inl, inr}
use mathlib.Core.Bool.{Bool, true, false, ◌&&◌}
use mathlib.Core.List.{List, [], ◌∷◌}
use mathlib.Core.Option.{Option, none, some}
use native.Mathlib.Omega.{arith}
use foreman_dispatch_bridge.Base.Tests.{leb, ltb, Option-cases, if◌then◌else◌, given}
use foreman_dispatch_bridge.Base.Lists.{All, Any, all}
use foreman_dispatch_bridge.Base.Text.{Text}
use foreman_dispatch_bridge.Base.Decimal.{show_nat, scan}
use foreman_dispatch_bridge.Base.Decimal.RoundTrip.{
  IsDigit, show_nat-IsDigit, show_nat-ne-nil, scan-show_nat,
}

-- The zeros of the other scripts with decimal digits; nine digits follow each.
other_zeros : List ℕ
other_zeros =
    1632 ∷ 1776 ∷ 1984 ∷ 2406 ∷ 2534 ∷ 2662 ∷ 2790 ∷ 2918 ∷ 3046 ∷ 3174 ∷ 3302 ∷ 3430 ∷ 3558 ∷ 3664
    ∷ 3792 ∷ 3872 ∷ 4160 ∷ 4240 ∷ 6112 ∷ 6160 ∷ 6470 ∷ 6608 ∷ 6784 ∷ 6800 ∷ 6992 ∷ 7088 ∷ 7232
    ∷ 7248 ∷ 42528 ∷ 43216 ∷ 43264 ∷ 43472 ∷ 43504 ∷ 43600 ∷ 44016 ∷ 65296 ∷ 66720 ∷ 68912 ∷ 68928
    ∷ 69734 ∷ 69872 ∷ 69942 ∷ 70096 ∷ 70384 ∷ 70736 ∷ 70864 ∷ 71248 ∷ 71360 ∷ 71376 ∷ 71386 ∷ 71472
    ∷ 71904 ∷ 72016 ∷ 72688 ∷ 72784 ∷ 73040 ∷ 73120 ∷ 73552 ∷ 90416 ∷ 92768 ∷ 92864 ∷ 93008 ∷ 93552
    ∷ 118000 ∷ 120782 ∷ 120792 ∷ 120802 ∷ 120812 ∷ 120822 ∷ 123200 ∷ 123632 ∷ 124144 ∷ 124401
    ∷ 125264 ∷ 130032 ∷ []

-- The digits that are not decimal, in ranges: superscripts, and those in circles and the like.
unfoldable pub other_digits : List (ℕ × ℕ)
other_digits =
    (178, 179)
    ∷ (185, 185)
    ∷ (4969, 4977)
    ∷ (6618, 6618)
    ∷ (8304, 8304)
    ∷ (8308, 8313)
    ∷ (8320, 8329)
    ∷ (9312, 9320)
    ∷ (9332, 9340)
    ∷ (9352, 9360)
    ∷ (9450, 9450)
    ∷ (9461, 9469)
    ∷ (9471, 9471)
    ∷ (10102, 10110)
    ∷ (10112, 10120)
    ∷ (10122, 10130)
    ∷ (68160, 68163)
    ∷ (69216, 69224)
    ∷ (69714, 69722)
    ∷ (127232, 127242)
    ∷ []

value_from : List ℕ → ℕ → Option ℕ
value_from [] c = none
value_from (z ∷ zs) c =
    let rest = value_from zs c in if leb z c && ltb c (z + 10) then some (c - z) else rest

-- What a decimal digit stands for.
unfoldable pub decimal_value : ℕ → Option ℕ
unfolding value_from other_zeros
decimal_value c = value_from (b'0' ∷ other_zeros) c

within : List (ℕ × ℕ) → ℕ → Bool
within [] c = false
within ((first, last) ∷ ranges) c =
    let rest = within ranges c in if leb first c && leb c last then true else rest

-- `c.isdigit()`
unfoldable pub is_unicode_digit : ℕ → Bool
unfolding decimal_value within other_digits
is_unicode_digit c = given (decimal_value c) (within other_digits c) λ d. true

read_from : ℕ → Text → Option ℕ
unfolding decimal_value
read_from n [] = some n
read_from n (c ∷ s) = given (decimal_value c) none λ d. read_from (n * 10 + d) s

-- `int(s)` where all of s passes `isdigit`; `none` is the ValueError.
unfoldable pub read_digits : Text → Option ℕ
unfolding read_from
read_digits s = read_from 0 s

value_from-first :
    (z c : ℕ) (zs : List ℕ)
    → (leb z c && ltb c (z + 10)) ≡ true
    → value_from (z ∷ zs) c ≡ some (c - z)
unfolding value_from
value_from-first z c zs h = rw h refl

decimal_value-IsDigit : (c : ℕ) → IsDigit c → decimal_value c ≡ some (c - b'0')
unfolding decimal_value
decimal_value-IsDigit c h = value_from-first b'0' c other_zeros (ground arith)

IsDigit-is_unicode_digit : (c : ℕ) → IsDigit c → is_unicode_digit c ≡ true
unfolding is_unicode_digit given
IsDigit-is_unicode_digit c h = rw (decimal_value-IsDigit c h) refl

pub all_unicode_digits : (t : Text) → All IsDigit t → all is_unicode_digit t ≡ true
all_unicode_digits [] d = refl
all_unicode_digits (c ∷ t) (h, d) =
    ground (arith, IsDigit-is_unicode_digit c h, all_unicode_digits t d)

scan-IsDigit :
    (after : Bool) (n c : ℕ) (t : Text)
    → IsDigit c
    → scan after n (c ∷ t) ≡ scan true (n * 10 + (c - b'0')) t
unfolding scan
scan-IsDigit after n c t h = ground arith

-- On ASCII digits this is the reading of a literal.
read_from-scan : (n : ℕ) (t : Text) → All IsDigit t → read_from n t ≡ scan true n t
unfolding read_from scan given
read_from-scan n [] d = refl
read_from-scan n (c ∷ t) (h, d) =
    rw (decimal_value-IsDigit c h)
      (read_from-scan (n * 10 + (c - b'0')) t d ∙ sym (scan-IsDigit true n c t h))

read_digits-scan : (t : Text) → t ≢ [] → All IsDigit t → read_digits t ≡ scan false 0 t
unfolding read_digits scan
read_digits-scan [] ne d = absurd (ne refl)
read_digits-scan (c ∷ t) ne (h, d) =
    read_from-scan 0 (c ∷ t) (h, d) ∙ (scan-IsDigit true 0 c t h ∙ sym (scan-IsDigit false 0 c t h))

pub read_digits-show_nat : (n : ℕ) → read_digits (show_nat n) ≡ some n
read_digits-show_nat n =
    read_digits-scan (show_nat n) (show_nat-ne-nil n) (show_nat-IsDigit n) ∙ scan-show_nat n

-- Where `int` refuses, one of the digits is not decimal.
pub read_digits-none : (t : Text) → read_digits t ≡ none → Any (λ c. decimal_value c ≡ none) t
unfolding read_digits read_from given
read_digits-none t h = refused 0 t h
  where
    refused : (n : ℕ) (t : Text) → read_from n t ≡ none → Any (λ c. decimal_value c ≡ none) t
    refused n [] e = cc
    refused n (c ∷ t) e = elim (Option-cases (decimal_value c)) [
      | inl k ↦ inl k
      | inr (d, k) ↦ inr (refused (n * 10 + d) t (rw k at e))
    ]

-- A superscript two, an Arabic-Indic three, and a full-width four.
unicode_samples :
    (is_unicode_digit 178 ≡ true)
    × (read_digits (178 ∷ []) ≡ none)
    × (read_digits (1635 ∷ 65300 ∷ []) ≡ some 34)
unfolding is_unicode_digit read_digits given
unicode_samples = (refl, refl, refl)
