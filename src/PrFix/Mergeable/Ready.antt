-- ===== src/PrFix/Mergeable/Ready.antt =====
-- bridge/main.py: the verdicts of `check_pr_mergeable` that close a pull request's fix or hand it to
-- a coder.
use foreman_dispatch_bridge.Base.{
  ◌≡◌, refl, sym, Bool, true, false, Option, none, some, List, [], if◌then◌else◌, given, some_inj,
  subst,
}
use foreman_dispatch_bridge.Base.Text.{Text, codes}
use foreman_dispatch_bridge.Base.Json.{Json, null, boolean, num, str, arr, obj, Fields}
use foreman_dispatch_bridge.Base.Effects.{Result, ok, raise}
use foreman_dispatch_bridge.PrFix.Mergeable.{
  Mergeability, is_ok, changes_requested, blocked, list_or_empty, pull_url, reviews_url,
  merge_state, judge_blockers, judge_reply, check_pr_mergeable, asks_changes, loop, read_review,
  wants_changes,
}
use foreman_dispatch_bridge.PrFix.Mergeable.Verdicts.{
  IsOpenAndClean, is_blocked_state, Late, judge_pull-Late,
}
use foreman_dispatch_bridge.PrFix.Mergeable.Reviews.{last_decision, wants_changes-last_decision}

blocked-false :
    (b c : Bool)
    → (if b then if c then changes_requested else blocked else is_ok) ≡ is_ok
    → b ≡ false
blocked-false true true h = cc
blocked-false true false h = cc
blocked-false false c h = refl

refused :
    (b c : Bool)
    → (if b then if c then changes_requested else blocked else is_ok) ≡ changes_requested
    → (b ≡ true) × (c ≡ true)
refused true true h = (refl, refl)
refused true false h = cc
refused false c h = cc

given-true :
    {A : Type 0} (o : Option A) (f : A → Bool)
    → given o false f ≡ true
    → (a : A) × (o ≡ some a) × (f a ≡ true)
unfolding given
given-true none f h = cc
given-true (some a) f h = (a, refl, h)

module _ (repr : Json → Text) (http_get : Text → Result Json) (repo pr : Text) where
  -- An open pull request with a clean head, of which GitHub says that it can be merged.
  pub record IsMergeable : Type 0 where
    pub pull : Fields
    pub open_and_clean : IsOpenAndClean repr http_get repo pr pull
    pub not_blocked : is_blocked_state (merge_state repr pull) ≡ false

  -- An open pull request with a clean head that is blocked all the same, with some reviewer whose
  -- last decision is to request changes.
  pub record IsRefused : Type 0 where
    pub pull : Fields
    pub open_and_clean : IsOpenAndClean repr http_get repo pr pull
    pub is_blocked : is_blocked_state (merge_state repr pull) ≡ true
    pub answer : Json
    pub fetched : http_get (reviews_url repo pr) ≡ ok answer
    pub reviews : List Json
    pub is_list : list_or_empty answer ≡ some reviews
    pub reviewer : Text
    pub refuses : last_decision repr reviewer reviews ≡ some (codes "CHANGES_REQUESTED")

  fetched_pull :
      (r : Result Json) (m : Mergeability)
      → http_get (pull_url repo pr) ≡ r
      → Late m
      → judge_reply repr http_get repo pr r ≡ some m
      → (pull : Fields) × IsOpenAndClean repr http_get repo pr pull
        × (judge_blockers repr http_get repo pr (merge_state repr pull) ≡ m)
  fetched_pull (raise e) m f late h = elim (subst Late (sym (some_inj h)) late) [ ]
  fetched_pull (ok (obj pull)) m f late h =
      let (clean, j) = judge_pull-Late repr http_get repo pr pull m f late (some_inj h) in
      (pull, clean, j)
  fetched_pull (ok null) m f late h = cc
  fetched_pull (ok (boolean b)) m f late h = cc
  fetched_pull (ok (num n)) m f late h = cc
  fetched_pull (ok (str t)) m f late h = cc
  fetched_pull (ok (arr js)) m f late h = cc

  -- A pull request is reported as ready only if GitHub answered that it is open, neither merged nor
  -- closed, in a state that is computed and is neither conflicting nor blocked, and, if its head
  -- commit is known, the check runs of that commit were fetched, and every one of them has neither
  -- failed nor is still to end. No failed lookup is read as ready.
  pub check_pr_mergeable-IsMergeable :
      check_pr_mergeable repr http_get repo pr ≡ some is_ok → IsMergeable
  unfolding check_pr_mergeable judge_blockers
  check_pr_mergeable-IsMergeable h =
      let (pull, clean, j) = fetched_pull (http_get (pull_url repo pr)) is_ok refl tt h in
      record {
        pull = pull;
        open_and_clean = clean;
        not_blocked = blocked-false (is_blocked_state (merge_state repr pull)) _ j;
      }

  asks_changes-reviews :
      (r : Result Json)
      → asks_changes repr r ≡ true
      → (answer : Json) × (r ≡ ok answer)
        × ((reviews : List Json) × (list_or_empty answer ≡ some reviews)
            × ((who : Text) × (last_decision repr who reviews ≡ some (codes "CHANGES_REQUESTED"))))
  unfolding asks_changes
  asks_changes-reviews (raise e) h = cc
  asks_changes-reviews (ok answer) h =
      let (reviews, l, h1) = given-true (list_or_empty answer) _ h in
      let (latest, e, h2) = given-true (loop (read_review repr) [] reviews) wants_changes h1 in
      (answer, refl, (reviews, l, (wants_changes-last_decision repr latest reviews e).0 h2))

  -- A fix is asked of a coder because of a review only if the pull request is open with a clean
  -- head, it is blocked, and some reviewer's last decision is to request changes.
  pub check_pr_mergeable-IsRefused :
      check_pr_mergeable repr http_get repo pr ≡ some changes_requested → IsRefused
  unfolding check_pr_mergeable judge_blockers
  check_pr_mergeable-IsRefused h =
      let (pull, clean, j) =
        fetched_pull (http_get (pull_url repo pr)) changes_requested refl tt h in
      let (b, a) = refused (is_blocked_state (merge_state repr pull)) _ j in
      let (answer, f, (reviews, l, (who, d))) =
        asks_changes-reviews (http_get (reviews_url repo pr)) a in
      record {
        pull = pull;
        open_and_clean = clean;
        is_blocked = b;
        answer = answer;
        fetched = f;
        reviews = reviews;
        is_list = l;
        reviewer = who;
        refuses = d;
      }
