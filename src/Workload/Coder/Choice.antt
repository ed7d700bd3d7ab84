-- ===== src/Workload/Coder/Choice.antt =====
-- bridge/workload.py: the choice of `_pick_coder`.
use foreman_dispatch_bridge.Base.{
  ℕ, zero, suc, ◌%◌, ◌≡◌, refl, ◌≢◌, ◌⊎◌, inl, inr, Bool, true, false, some, List, [], ◌∷◌, map,
  arith, if◌then◌else◌, get_elem?, get_elem?-lt, keep, length, is_empty, All, Any, subst,
  Bool-cases,
}
use mathlib.Core.Option.{some-injective}
use foreman_dispatch_bridge.Base.Text.{Text}
use foreman_dispatch_bridge.Base.Int.{ℤ, eq_ℤ, max_ℤ, leb_ℤ, eq_ℤ_refl, max_right, max_left}
use foreman_dispatch_bridge.Workload.Capacity.{many, Rotation, in_rotation}
use foreman_dispatch_bridge.Workload.Coder.{
  maximum, free_of, best_free, tied, by_issue, pick_among, pick_coder,
}

All-get_elem? :
    (P : Text → Type 0) (xs : List Text) (i : ℕ) {a : Text}
    → All P xs
    → get_elem? xs i ≡ some a
    → P a
All-get_elem? P [] i h e = cc
All-get_elem? P (x ∷ xs) zero h e = subst P (some-injective x _ e) h.0
All-get_elem? P (x ∷ xs) (suc i) h e = All-get_elem? P xs i h.1 e

All-keep : (P : Text → Type 0) (p : Text → Bool) (xs : List Text) → All P xs → All P (keep p xs)
All-keep P p [] h = tt
All-keep P p (x ∷ xs) h = elim (Bool-cases (p x)) [
  | inl e ↦ rw e (h.0, All-keep P p xs h.1)
  | inr e ↦ rw e (All-keep P p xs h.1)
]

All-keep_self : (p : Text → Bool) (xs : List Text) → All (λ x. p x ≡ true) (keep p xs)
All-keep_self p [] = tt
All-keep_self p (x ∷ xs) = elim (Bool-cases (p x)) [
  | inl e ↦ rw e (e, All-keep_self p xs)
  | inr e ↦ rw e (All-keep_self p xs)
]

keep-ne-nil : (p : Text → Bool) (xs : List Text) → Any (λ x. p x ≡ true) xs → keep p xs ≢ []
keep-ne-nil p [] h = elim h [ ]
keep-ne-nil p (x ∷ xs) (inl e) = ground arith
keep-ne-nil p (x ∷ xs) (inr h) = ground (arith, keep-ne-nil p xs h)

abbrev AtMost : (Text → ℤ) → ℤ → Text → Type 0
AtMost f m x = leb_ℤ (f x) m ≡ true

maximum-ge : (b : ℤ) (xs : List ℤ) → leb_ℤ b (maximum b xs) ≡ true
maximum-ge b [] = ground arith
maximum-ge b (x ∷ xs) = ground (arith, maximum-ge (max_ℤ b x) xs)

maximum-ge-All : (f : Text → ℤ) (b : ℤ) (xs : List Text) → All (AtMost f (maximum b (map f xs))) xs
maximum-ge-All f b [] = tt
maximum-ge-All f b (x ∷ xs) =
    (ground (arith, maximum-ge (max_ℤ b (f x)) (map f xs)), maximum-ge-All f (max_ℤ b (f x)) xs)

-- The maximum is one of the values.
maximum_attained :
    (f : Text → ℤ) (b : ℤ) (xs : List Text)
    → (b ≡ maximum b (map f xs)) ⊎ Any (λ x. f x ≡ maximum b (map f xs)) xs
maximum_attained f b [] = inl refl
maximum_attained f b (x ∷ xs) = elim (Bool-cases (leb_ℤ b (f x))) [
  | inl e ↦ elim (maximum_attained f (max_ℤ b (f x)) xs) [
    | inl p ↦
        inr (inl (subst (λ m. m ≡ maximum (max_ℤ b (f x)) (map f xs)) (max_right b (f x) e) p))
    | inr q ↦ inr (inr q)
  ]
  | inr e ↦ elim (maximum_attained f (max_ℤ b (f x)) xs) [
    | inl p ↦ inl (subst (λ m. m ≡ maximum (max_ℤ b (f x)) (map f xs)) (max_left b (f x) e) p)
    | inr q ↦ inr (inr q)
  ]
]

Any-map : (P Q : Text → Type 0) (xs : List Text) → ((x : Text) → P x → Q x) → Any P xs → Any Q xs
Any-map P Q [] k h = elim h [ ]
Any-map P Q (x ∷ xs) k (inl h) = inl (k x h)
Any-map P Q (x ∷ xs) k (inr h) = inr (Any-map P Q xs k h)

eq_ℤ_of : (a b : ℤ) → a ≡ b → eq_ℤ a b ≡ true
eq_ℤ_of a b e = rw e (eq_ℤ_refl b)

tied-ne-nil : (r : Rotation) (a : Text) (others : List Text) → tied r a others ≢ []
unfolding tied
tied-ne-nil r a others = keep-ne-nil _ (a ∷ others) (
    Any-map (λ b. free_of r b ≡ best_free r a others) _ (a ∷ others)
      (λ b. eq_ℤ_of (free_of r b) (best_free r a others))
      (maximum_attained (free_of r) (free_of r a) others))

-- The candidates that the fix-first rule leaves.
abbrev pub rotation : Rotation → List Text → List Text
rotation r names = if is_empty r.fix_first then names else keep (in_rotation r) names

at_most_of_eq : (x m y : ℤ) → leb_ℤ x m ≡ true → eq_ℤ y m ≡ true → leb_ℤ x y ≡ true
at_most_of_eq x m y h e = ground arith

All-weaken : (P Q : Text → Type 0) (xs : List Text) → ((x : Text) → P x → Q x) → All P xs → All Q xs
All-weaken P Q [] k h = tt
All-weaken P Q (x ∷ xs) k h = (k x h.0, All-weaken P Q xs k h.1)

pick_among-best :
    (n : ℕ) (r : Rotation) (names : List Text) {a : Text}
    → is_empty r.slots ≡ false
    → pick_among n r names ≡ some a
    → All (λ b. leb_ℤ (free_of r b) (free_of r a) ≡ true) names
unfolding pick_among tied
pick_among-best n r [] s e = tt
pick_among-best n r (b ∷ others) {a} s e =
    let tie : eq_ℤ (free_of r a) (best_free r b others) ≡ true =
      All-get_elem? (λ c. eq_ℤ (free_of r c) (best_free r b others) ≡ true) (tied r b others) _
        (All-keep_self (λ x. eq_ℤ (free_of r x) (best_free r b others)) (b ∷ others)) (rw s at e) in
    All-weaken (AtMost (free_of r) (best_free r b others)) _ (b ∷ others)
      (λ c h. at_most_of_eq (free_of r c) (best_free r b others) (free_of r a) h tie)
      (
        maximum-ge (free_of r b) (map (free_of r) others),
        maximum-ge-All (free_of r) (free_of r b) others,
      )

-- With slots configured, the coder picked from a list has at least as many free slots as any
-- candidate that the fix-first rule leaves in the rotation.
pub pick_coder-best :
    (names : List Text) (n : ℕ) (r : Rotation) {a : Text}
    → is_empty r.slots ≡ false
    → pick_coder (some (many names)) n r ≡ some a
    → All (λ b. leb_ℤ (free_of r b) (free_of r a) ≡ true) (rotation r names)
unfolding pick_coder
pick_coder-best names n r s e = pick_among-best n r (rotation r names) s e

by_issue-some :
    (P : Text → Type 0) (n : ℕ) (names : List Text)
    → names ≢ []
    → All P names
    → (a : Text) × (by_issue n names ≡ some a) × P a
unfolding by_issue
by_issue-some P n [] h all = absurd (h refl)
by_issue-some P n (b ∷ names) h all =
    let i = n % length (b ∷ names) in
    let (a, found) = get_elem?-lt (b ∷ names) i (grind arith) in
    (a, found, All-get_elem? P (b ∷ names) i all found)

pick_among-some :
    (P : Text → Type 0) (n : ℕ) (r : Rotation) (names : List Text)
    → names ≢ []
    → All P names
    → (a : Text) × (pick_among n r names ≡ some a) × P a
unfolding pick_among
pick_among-some P n r [] h all = absurd (h refl)
pick_among-some P n r (b ∷ others) h all = elim (Bool-cases (is_empty r.slots)) [
  | inl e ↦ rw e (by_issue-some P n (b ∷ others) h all)
  | inr e ↦ rw e (
      by_issue-some P n (tied r b others) (tied-ne-nil r b others) (
        unfold tied in
        All-keep P (λ x. eq_ℤ (free_of r x) (best_free r b others)) (b ∷ others) all))
]

-- A list with a candidate left in the rotation always yields a coder, whatever the issue's number,
-- and the coder has every property that all of those candidates have; so it is one of them.
pub pick_coder-some :
    (P : Text → Type 0) (names : List Text) (n : ℕ) (r : Rotation)
    → rotation r names ≢ []
    → All P (rotation r names)
    → (a : Text) × (pick_coder (some (many names)) n r ≡ some a) × P a
unfolding pick_coder
pick_coder-some P names n r h all = pick_among-some P n r (rotation r names) h all
