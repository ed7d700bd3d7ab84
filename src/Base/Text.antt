-- ===== src/Base/Text.antt =====
-- Python's `str`: a list of code points, with the methods that the bridge calls. Letter case and
-- white space are those of ASCII (and U+0085, U+00A0), which is what names, labels and states use.
use Prim.Native.Nat.{ℕ, ◌+◌, ◌-◌}
use Prim.Native.Char.{code}
use Prim.Native.String.{String}
use mathlib.Core.Path.{◌≡◌, refl, subst}
use mathlib.Core.Logic.{◌↔◌}
use mathlib.Core.Bool.{Bool, true, false, ◌&&◌, ◌||◌}
use mathlib.Core.List.{List, [], ◌∷◌, ◌++◌, map, reverse}
use native.Mathlib.Omega.{arith}
use foreman_dispatch_bridge.Base.Tests.{leb, nat_eq, if◌then◌else◌}

abbrev pub Text : Type 0
Text = List ℕ

-- The code points of a literal.
abbrev pub codes : String → Text
codes String.[] = []
codes (String.◌∷◌ c s) = code c ∷ codes s

infix 50 ◌==◌
unfoldable pub ◌==◌ : Text → Text → Bool
◌==◌ [] [] = true
◌==◌ [] (d ∷ t) = false
◌==◌ (c ∷ s) [] = false
◌==◌ (c ∷ s) (d ∷ t) = nat_eq c d && s == t

pub eq→ : (s t : Text) → (s == t) ≡ true → s ≡ t
unfolding ◌==◌
eq→ [] [] h = refl
eq→ [] (d ∷ t) h = cc
eq→ (c ∷ s) [] h = cc
eq→ (c ∷ s) (d ∷ t) h = ground (arith, eq→ s t)

pub eq_refl : (s : Text) → (s == s) ≡ true
unfolding ◌==◌
eq_refl [] = refl
eq_refl (c ∷ s) = ground (arith, eq_refl s)

pub eq_iff : (s t : Text) → ((s == t) ≡ true) ↔ (s ≡ t)
eq_iff s t = (eq→ s t, λ p. subst (λ u. (s == u) ≡ true) p (eq_refl s))

abbrev pub is_empty : Text → Bool
is_empty [] = true
is_empty (c ∷ s) = false

unfoldable pub is_upper : ℕ → Bool
is_upper c = leb b'A' c && leb c b'Z'

unfoldable pub lower_char : ℕ → ℕ
unfolding is_upper
lower_char c = if is_upper c then c + 32 else c

-- `s.lower()`
unfoldable pub lower : Text → Text
unfolding lower_char
lower = map lower_char

unfoldable pub upper_char : ℕ → ℕ
upper_char c = if leb b'a' c && leb c b'z' then c - 32 else c

-- `s.upper()`
unfoldable pub upper : Text → Text
unfolding upper_char
upper = map upper_char

-- `s.startswith(prefix)`
unfoldable pub starts_with : Text → Text → Bool
starts_with s [] = true
starts_with [] (d ∷ p) = false
starts_with (c ∷ s) (d ∷ p) = nat_eq c d && starts_with s p

-- `part in s`
unfoldable pub contains_text : Text → Text → Bool
unfolding starts_with
contains_text [] part = starts_with [] part
contains_text (c ∷ s) part = starts_with (c ∷ s) part || contains_text s part

unfoldable pub is_space : ℕ → Bool
is_space c = leb 9 c && leb c 13 || (leb 28 c && leb c 32) || (nat_eq c 133 || nat_eq c 160)

unfoldable pub strip_left : Text → Text
unfolding is_space
strip_left [] = []
strip_left (c ∷ s) = let rest = strip_left s in if is_space c then rest else c ∷ s

-- `s.strip()`
unfoldable pub strip : Text → Text
unfolding strip_left
strip s = reverse (strip_left (reverse (strip_left s)))

-- `sep.join(parts)`
unfoldable pub join : Text → List Text → Text
join sep [] = []
join sep (t ∷ []) = t
join sep (t ∷ u ∷ ts) = t ++ (sep ++ join sep (u ∷ ts))

-- `s.replace(a, b)` for two characters.
unfoldable pub replace_char : ℕ → ℕ → Text → Text
replace_char a b = map (λ c. if nat_eq c a then b else c)

-- `t in ts`
unfoldable pub mem_text : Text → List Text → Bool
mem_text t [] = false
mem_text t (u ∷ us) = t == u || mem_text t us

-- The word that is being read, if any, and the words behind it.
words_from : Text → Text → List Text
unfolding is_space
words_from [] [] = []
words_from (d ∷ word) [] = reverse (d ∷ word) ∷ []
words_from [] (c ∷ s) =
    let rest = words_from [] s in
    let more = words_from (c ∷ []) s in if is_space c then rest else more
words_from (d ∷ word) (c ∷ s) =
    let rest = words_from [] s in
    let more = words_from (c ∷ d ∷ word) s in if is_space c then reverse (d ∷ word) ∷ rest else more

-- `s.split()`
unfoldable pub words : Text → List Text
unfolding words_from
words s = words_from [] s
