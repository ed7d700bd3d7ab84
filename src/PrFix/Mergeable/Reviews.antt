-- ===== src/PrFix/Mergeable/Reviews.antt =====
-- bridge/main.py: the decisions that `check_pr_mergeable` reads from the reviews of a pull request.
use foreman_dispatch_bridge.Base.{
  ◌≡◌, refl, sym, true, ◌&&◌, not, Option, none, some, List, [], ◌∷◌, if◌then◌else◌, given,
  given-eq-some, some_inj, arith, Bool-cases, inl, inr, ap, ◌∙◌, subst,
}
use foreman_dispatch_bridge.Base.Text.{Text, codes, ◌==◌, eq→, eq_refl, eq_iff, is_empty}
use foreman_dispatch_bridge.Base.Dict.{Dict, lookup, insert, lookup-insert}
use foreman_dispatch_bridge.Base.Json.{Json, Fields}
use foreman_dispatch_bridge.PrFix.Mergeable.{
  dict_or_empty, decision_of, reviewer_of, note_review, read_review, loop, wants_changes,
}

abbrev OfSome : {A : Type 0} → (A → Type 0) → Option A → Type 0
OfSome P none = Unit
OfSome P (some a) = P a

-- No key stands twice.
abbrev pub Distinct : Dict Text → Type 0
Distinct [] = Unit
Distinct ((k, v) ∷ d) = (lookup k d ≡ none) × Distinct d

insert-Distinct : (k : Text) (v : Text) (d : Dict Text) → Distinct d → Distinct (insert k v d)
unfolding insert lookup
insert-Distinct k v [] h = (refl, tt)
insert-Distinct k v ((j, w) ∷ d) (h, hs) = elim (Bool-cases (k == j)) [
  | inl e ↦ rw (e, insert) (subst (λ i. lookup i d ≡ none) (sym (eq→ k j e)) h, hs)
  | inr e ↦
      rw (e, insert)
        (lookup-insert k j v d ∙ ground (arith, eq_iff k j, eq_iff j k), insert-Distinct k v d hs)
]

abbrev changes : Text
changes = codes "CHANGES_REQUESTED"

wants_changes-lookup :
    (d : Dict Text)
    → Distinct d
    → wants_changes d ≡ true
    → (who : Text) × (lookup who d ≡ some changes)
unfolding wants_changes lookup
wants_changes-lookup [] _ h = cc
wants_changes-lookup ((j, w) ∷ d) (u, us) h = elim (Bool-cases (w == changes)) [
  | inl e ↦ (j, rw (eq_refl j) (ap some (eq→ w changes e)))
  | inr e ↦
      let (who, l) = wants_changes-lookup d us (ground arith) in (who, ground (arith, eq_iff who j))
]

lookup-wants_changes :
    (who : Text) (d : Dict Text) → lookup who d ≡ some changes → wants_changes d ≡ true
unfolding wants_changes lookup
lookup-wants_changes who [] h = cc
lookup-wants_changes who ((j, w) ∷ d) h = elim (Bool-cases (who == j)) [
  | inl e ↦ ground (arith, eq_iff w changes)
  | inr e ↦ ground (arith, lookup-wants_changes who d)
]

given-some : {A : Type 0} (o : Option A) → given o none some ≡ o
unfolding given
given-some none = refl
given-some (some a) = refl

module _ (repr : Json → Text) where
  -- The decision that a review states, and whose it is; a review without a reviewer's name has none.
  pub decision_by : Text → Json → Option Text
  decision_by who review = given (dict_or_empty review) none λ fields.
      given (decision_of repr fields) none λ state.
        given (reviewer_of repr fields) none
          λ reviewer. if who == reviewer && not (is_empty who) then some state else none

  -- The reviewer's last decision.
  pub last_decision : Text → List Json → Option Text
  last_decision who [] = none
  last_decision who (review ∷ reviews) =
      given (last_decision who reviews) (decision_by who review) some

  note_review-lookup :
      (d : Dict Text) (who reviewer state : Text)
      → lookup who (note_review d reviewer state)
        ≡ given
            (if who == reviewer && not (is_empty who) then some state else none)
            (lookup who d)
            some
  unfolding given ◌==◌
  note_review-lookup d [] [] state = refl
  note_review-lookup d (x ∷ xs) [] state = refl
  note_review-lookup d [] (c ∷ cs) state = lookup-insert (c ∷ cs) [] state d
  note_review-lookup d (x ∷ xs) (c ∷ cs) state =
      lookup-insert (c ∷ cs) (x ∷ xs) state d ∙ ground (arith, eq_iff (x ∷ xs) (c ∷ cs))

  -- One round of the loop.
  read_review-lookup :
      (who : Text) (d d' : Dict Text) (review : Json)
      → read_review repr d review ≡ some d'
      → lookup who d' ≡ given (decision_by who review) (lookup who d) some
  unfolding read_review decision_by given
  read_review-lookup who d d' review h =
      let (fields, e, h1) = given-eq-some (dict_or_empty review) _ h in
      by_decision fields e (decision_of repr fields) refl h1
    where
      by_decision :
          (fields : Fields)
          → dict_or_empty review ≡ some fields
          → (o : Option Text) → decision_of repr fields ≡ o
          → (given o (some d) λ state.
              given (reviewer_of repr fields) none λ reviewer. some (note_review d reviewer state))
            ≡ some d'
          → lookup who d' ≡ given (decision_by who review) (lookup who d) some
      by_decision fields e none f h' = ground arith
      by_decision fields e (some state) f h' =
          let (reviewer, w, h2) = given-eq-some (reviewer_of repr fields) _ h' in
          let n = note_review-lookup d who reviewer state in ground arith

  -- The round keeps the reviewers apart.
  note_review-Distinct :
      (d : Dict Text) (reviewer state : Text) → Distinct d → Distinct (note_review d reviewer state)
  note_review-Distinct d [] state h = h
  note_review-Distinct d (c ∷ cs) state h = insert-Distinct (c ∷ cs) state d h

  read_review-Distinct :
      (d d' : Dict Text) (review : Json)
      → read_review repr d review ≡ some d'
      → Distinct d
      → Distinct d'
  unfolding read_review given
  read_review-Distinct d d' review h u =
      let (fields, e, h1) = given-eq-some (dict_or_empty review) _ h in
      by_decision fields (decision_of repr fields) h1
    where
      by_decision :
          (fields : Fields) (o : Option Text)
          → (given o (some d) λ state.
              given (reviewer_of repr fields) none λ reviewer. some (note_review d reviewer state))
            ≡ some d'
          → Distinct d'
      by_decision fields none e = subst (OfSome Distinct) e u
      by_decision fields (some state) e =
          let (reviewer, w, e2) = given-eq-some (reviewer_of repr fields) _ e in
          subst (OfSome Distinct) e2 (note_review-Distinct d reviewer state u)

  -- The dict that the loop leaves: the last decision of each reviewer, over what was there.
  pub loop-last_decision :
      (who : Text) (d d' : Dict Text) (reviews : List Json)
      → loop (read_review repr) d reviews ≡ some d'
      → (lookup who d' ≡ given (last_decision who reviews) (lookup who d) some)
        × (Distinct d → Distinct d')
  unfolding loop last_decision given
  loop-last_decision who d d' [] h = (
    subst (λ x. lookup who x ≡ lookup who d) (some_inj h) refl,
    subst (λ x. Distinct d → Distinct x) (some_inj h) λ q. q,
  )
  loop-last_decision who d d' (review ∷ reviews) h =
      let (e, r, l) = given-eq-some (read_review repr d review) _ h in
      let (v, u) = loop-last_decision who e d' reviews l in
      let w = read_review-lookup who d e review r in
      (ground arith, λ q. u (read_review-Distinct d e review r q))

  -- Changes are wanted where they are some reviewer's last decision, and only there.
  pub wants_changes-last_decision :
      (d : Dict Text) (reviews : List Json)
      → loop (read_review repr) [] reviews ≡ some d
      → (wants_changes d ≡ true → (who : Text) × (last_decision who reviews ≡ some changes))
        × ((who : Text) → last_decision who reviews ≡ some changes → wants_changes d ≡ true)
  unfolding lookup
  wants_changes-last_decision d reviews l = (
    λ h.
        let (who, e) = wants_changes-lookup d ((loop-last_decision [] [] d reviews l).1 tt) h in
        (who, sym (kept who) ∙ e),
    λ who e. lookup-wants_changes who d (kept who ∙ e),
  )
    where
      kept : (who : Text) → lookup who d ≡ last_decision who reviews
      kept who = (loop-last_decision who [] d reviews l).0 ∙ given-some (last_decision who reviews)
