-- ===== src/Base/Decimal/RoundTrip.antt =====
-- A number is read back from its decimal print.
use Prim.Native.Nat.{ℕ, zero, suc, ◌+◌, ◌*◌, ◌/◌, ◌%◌, ◌<◌}
use mathlib.Core.Path.{◌≡◌, refl, ap}
use mathlib.Core.Logic.{◌≢◌}
use mathlib.Core.Bool.{Bool, true, false}
use mathlib.Core.List.{[], ◌∷◌, reverse, reverse-append, reverse-reverse}
use mathlib.Core.Option.{some}
use native.Mathlib.Omega.{arith}
use foreman_dispatch_bridge.Base.Lists.{All, All-append}
use foreman_dispatch_bridge.Base.Text.{Text, strip, strip_left}
use foreman_dispatch_bridge.Base.Int.{pos}
use foreman_dispatch_bridge.Base.Decimal.{
  digits, show_nat, is_digit, scan, with_sign, parse_signed, parse_int,
}

scan_last :
    (after : Bool) (n m : ℕ) (out : Text)
    → scan after n ((b'0' + m % 10) ∷ out) ≡ scan true (n * 10 + m % 10) out
unfolding scan
scan_last after n m out = ground arith

scan-digits :
    (fuel n : ℕ) (out : Text) → n < fuel → scan false 0 (digits fuel n out) ≡ scan true n out
unfolding digits
scan-digits zero n out h = elim h [ ]
scan-digits (suc fuel) n out h = ground (
  arith,
  scan_last false 0 n out,
  scan_last true (n / 10) n out,
  scan-digits fuel (n / 10) ((b'0' + n % 10) ∷ out),
)

abbrev pub IsDigit : ℕ → Type 0
IsDigit c = is_digit c ≡ true

digits-IsDigit : (fuel n : ℕ) (out : Text) → All IsDigit out → All IsDigit (digits fuel n out)
unfolding digits
digits-IsDigit zero n out h = h
digits-IsDigit (suc fuel) n out h =
    ground (arith, digits-IsDigit fuel (n / 10) ((b'0' + n % 10) ∷ out))

pub show_nat-IsDigit : (n : ℕ) → All IsDigit (show_nat n)
unfolding show_nat
show_nat-IsDigit n = digits-IsDigit (suc n) n [] tt

All-reverse : (xs : Text) → All IsDigit xs → All IsDigit (reverse xs)
All-reverse [] h = tt
All-reverse (x ∷ xs) (hx, h) =
    rw (reverse-append (x ∷ []) xs)
      (All-append IsDigit (reverse xs) (x ∷ []) (All-reverse xs h) (hx, tt))

strip_left_digits : (xs : Text) → All IsDigit xs → strip_left xs ≡ xs
unfolding strip_left
strip_left_digits [] h = refl
strip_left_digits (x ∷ xs) (hx, h) = ground arith

strip_digits : (xs : Text) → All IsDigit xs → strip xs ≡ xs
unfolding strip
strip_digits xs h =
    rw (strip_left_digits xs h, strip_left_digits (reverse xs) (All-reverse xs h))
      (reverse-reverse xs)

parse_signed_digits :
    (s : Text) → All IsDigit s → s ≢ [] → parse_signed s ≡ with_sign false (scan false 0 s)
unfolding parse_signed
parse_signed_digits [] h ne = absurd (ne refl)
parse_signed_digits (c ∷ s) (hc, h) ne = ground arith

digits-ne-nil : (fuel n : ℕ) (out : Text) → out ≢ [] → digits fuel n out ≢ []
unfolding digits
digits-ne-nil zero n out h = h
digits-ne-nil (suc fuel) n out h =
    ground (arith, digits-ne-nil fuel (n / 10) ((b'0' + n % 10) ∷ out))

pub show_nat-ne-nil : (n : ℕ) → show_nat n ≢ []
unfolding show_nat
show_nat-ne-nil n = ground (arith, digits-ne-nil n (n / 10) ((b'0' + n % 10) ∷ []))

pub scan-show_nat : (n : ℕ) → scan false 0 (show_nat n) ≡ some n
unfolding show_nat scan
scan-show_nat n = scan-digits (suc n) n [] (omega arith)

-- `int(str(n))` is n.
pub parse_int-show_nat : (n : ℕ) → parse_int (show_nat n) ≡ some (pos n)
unfolding parse_int
parse_int-show_nat n = rw (
  strip_digits _ (show_nat-IsDigit n),
  parse_signed_digits _ (show_nat-IsDigit n) (show_nat-ne-nil n),
  scan-show_nat,
)

-- Different numbers print differently.
pub show_nat_injective : (m n : ℕ) → show_nat m ≡ show_nat n → m ≡ n
show_nat_injective m n h = cc (scan-show_nat m, scan-show_nat n, ap (scan false 0) h)
