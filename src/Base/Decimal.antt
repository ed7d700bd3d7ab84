-- ===== src/Base/Decimal.antt =====
-- `str(n)` and `int(s)`: decimal numbers as text.
use Prim.Native.Nat.{ℕ, zero, suc, ◌+◌, ◌-◌, ◌*◌, ◌/◌, ◌%◌, ◌≤◌, ◌<◌}
use mathlib.Core.Path.{◌≡◌, refl, sym, ◌∙◌}
use mathlib.Core.Bool.{Bool, true, false, ◌&&◌}
use mathlib.Core.List.{List, [], ◌∷◌, ◌++◌, reverse}
use mathlib.Core.Option.{Option, none, some}
use native.Mathlib.Omega.{arith}
use foreman_dispatch_bridge.Base.Tests.{ltb, leb, nat_eq, if◌then◌else◌, Bool-cases}
use foreman_dispatch_bridge.Base.Lists.{All, All-append}
use foreman_dispatch_bridge.Base.Text.{Text, codes, is_space, strip, strip_left}
use foreman_dispatch_bridge.Base.Int.{ℤ, pos, negsuc}
pub mod RoundTrip
pub mod Unicode

-- The digits of n in front of `out`; more than n rounds of fuel reach the first digit.
digits : ℕ → ℕ → Text → Text
digits zero n out = out
digits (suc fuel) n out =
    let last = (b'0' + n % 10) ∷ out in
    let rest = digits fuel (n / 10) last in if ltb n 10 then last else rest

-- `str(n)`
unfoldable pub show_nat : ℕ → Text
unfolding digits
show_nat n = digits (suc n) n []

abbrev pub is_digit : ℕ → Bool
is_digit c = leb b'0' c && leb c b'9'

-- The digits of a literal after the number so far. An underscore may stand between two digits.
unfoldable pub scan : Bool → ℕ → Text → Option ℕ
scan after n [] = if after then some n else none
scan after n (c ∷ s) = elim (is_digit c) [
  | true ↦ scan true (n * 10 + (c - b'0')) s
  | false ↦ elim (nat_eq c b'_' && after) [ true ↦ scan false n s | false ↦ none ]
]

abbrev negate : ℕ → ℤ
negate zero = pos zero
negate (suc n) = negsuc n

abbrev with_sign : Bool → Option ℕ → Option ℤ
with_sign minus none = none
with_sign true (some n) = some (negate n)
with_sign false (some n) = some (pos n)

parse_signed : Text → Option ℤ
parse_signed [] = none
parse_signed (c ∷ s) =
    if nat_eq c b'-'
    then with_sign true (scan false 0 s)
    else if nat_eq c b'+'
    then with_sign false (scan false 0 s)
    else with_sign false (scan false 0 (c ∷ s))

-- `int(s)`; `none` is the ValueError.
unfoldable pub parse_int : Text → Option ℤ
unfolding parse_signed scan strip
parse_int s = parse_signed (strip s)

show_nat-42 : show_nat 420 ≡ codes "420"
unfolding show_nat
show_nat-42 = refl

parse_int_samples :
    (parse_int (codes " -1_0 ") ≡ some (negsuc 9))
    × (parse_int (codes "1__0") ≡ none)
    × (parse_int (codes "") ≡ none)
unfolding parse_int
parse_int_samples = (refl, refl, refl)
