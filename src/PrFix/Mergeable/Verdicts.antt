-- ===== src/PrFix/Mergeable/Verdicts.antt =====
-- bridge/main.py: the verdicts of `check_pr_mergeable`, each with what GitHub answered.
use foreman_dispatch_bridge.Base.{
  ◌≡◌, refl, Bool, true, false, ◌&&◌, ◌||◌, not, Option, none, some, List, [], ◌∷◌, if◌then◌else◌,
  given, given-eq-some, some_inj, if-else, All, arith, subst, sym, ◌∙◌, inl, inr, ◌⊎◌,
}
use foreman_dispatch_bridge.Base.Text.{Text, codes, ◌==◌, mem_text, is_empty}
use foreman_dispatch_bridge.Base.Json.{Json, Fields, obj, get, truthy}
use foreman_dispatch_bridge.Base.Effects.{Result, ok, raise}
use foreman_dispatch_bridge.Claim.Queue.{is_text}
use foreman_dispatch_bridge.PrFix.Mergeable.{
  Mergeability, is_ok, dirty, conflicting, checks_failed, checks_pending, merged, closed,
  changes_requested, blocked, failing_conclusions, pending_statuses, dict_or_empty, get_dict,
  get_list, run_state, scan_run, loop, judge_runs, pull_url, runs_url, sha_text, judge_answer,
  unless_raised, check_runs, judge_blockers, judge_pull, run_conclusion, run_status, merge_state,
}

settled_lem :
    (a b c d : Bool) → a ≡ false → b ≡ false → (c || d) ≡ false → not (a || b || c || d) ≡ true
settled_lem a b c d p q r = ground arith

-- The verdicts that the code reaches last.
abbrev pub Late : Mergeability → Type 0
Late is_ok = Unit
Late changes_requested = Unit
Late blocked = Unit
Late _ = ⊥

abbrev pub is_blocked_state : Text → Bool
is_blocked_state state = state == codes "unstable" || state == codes "blocked"

abbrev pub is_settled_state : Text → Bool
is_settled_state state = not (
    state == codes "dirty"
    || state == codes "conflicting"
    || state == codes "unknown"
    || is_empty state)

module _ (repr : Json → Text) where
  -- A check run that neither failed nor is pending.
  pub record Passes (run : Json) : Type 0 where
    pub fields : Fields
    pub is_dict : dict_or_empty run ≡ some fields
    pub not_failed : mem_text (run_conclusion repr fields) failing_conclusions ≡ false
    pub not_pending : mem_text (run_status repr fields) pending_statuses ≡ false
    pub ended :
        (is_empty (run_conclusion repr fields) ≡ false)
        ⊎ ((run_status repr fields == codes "completed") ≡ true)

  run_state-ended : (c s m : Bool) → (m || (c && not s)) ≡ false → (c ≡ false) ⊎ (s ≡ true)
  run_state-ended false s m h = inl refl
  run_state-ended true true m h = inr refl
  run_state-ended true false true h = cc
  run_state-ended true false false h = cc

  run_state-Passes :
      (run : Json) (fields : Fields)
      → dict_or_empty run ≡ some fields
      → run_state repr fields ≡ (false, false)
      → Passes run
  unfolding run_state
  run_state-Passes run fields e h = record {
    fields = fields;
    is_dict = e;
    not_failed = ground arith;
    not_pending = ground arith;
    ended = run_state-ended _ _ (mem_text (run_status repr fields) pending_statuses) (ground arith);
  }

  abbrev nothing : Bool × Bool
  nothing = (false, false)

  scan_run-Passes :
      (seen : Bool × Bool) (run : Json) (seen' : Bool × Bool)
      → scan_run repr seen run ≡ some seen'
      → seen' ≡ nothing
      → (seen ≡ nothing) × Passes run
  unfolding scan_run
  scan_run-Passes seen run seen' h e =
      let (fields, d, s) = given-eq-some (dict_or_empty run) _ h in
      (ground arith, run_state-Passes run fields d (ground arith))

  loop-Passes :
      (seen : Bool × Bool) (runs : List Json)
      → loop (scan_run repr) seen runs ≡ some nothing
      → (seen ≡ nothing) × All Passes runs
  unfolding loop
  loop-Passes seen [] h = (cc, tt)
  loop-Passes seen (run ∷ runs) h =
      let (seen', s, l) = given-eq-some (scan_run repr seen run) _ h in
      let (e, rest) = loop-Passes seen' runs l in
      let (e', p) = scan_run-Passes seen run seen' s e in (e', (p, rest))

  -- The answer on the check runs, in which all pass.
  pub record AllPass (answer : Json) : Type 0 where
    pub fields : Fields
    pub is_dict : dict_or_empty answer ≡ some fields
    pub runs : List Json
    pub is_list : get_list (codes "check_runs") fields ≡ some runs
    pub pass : All Passes runs

  judge_runs-AllPass : (answer : Json) → judge_runs repr answer ≡ some none → AllPass answer
  unfolding judge_runs
  judge_runs-AllPass answer h =
      let (fields, d, h1) = given-eq-some (dict_or_empty answer) _ h in
      let (runs, g, h2) = given-eq-some (get_list (codes "check_runs") fields) _ h1 in
      let (seen, l, h3) = given-eq-some (loop (scan_run repr) (false, false) runs) _ h2 in
      record {
        fields = fields;
        is_dict = d;
        runs = runs;
        is_list = g;
        pass = (loop-Passes nothing runs (ground arith)).1;
      }

  judge_answer-AllPass :
      (r : Result Json)
      → judge_answer repr r ≡ none
      → (answer : Json) × (r ≡ ok answer) × AllPass answer
  judge_answer-AllPass (raise e) h = cc
  judge_answer-AllPass (ok answer) h =
      (answer, refl, judge_runs-AllPass answer (raised-none (judge_runs repr answer) h))
    where
      raised-none : (o : Option (Option Mergeability)) → unless_raised repr o ≡ none → o ≡ some none
      raised-none none e = cc
      raised-none (some o) e = ground arith

  no_pending : (m : Mergeability) → some checks_pending ≡ some m → Late m → ⊥
  no_pending m e late = subst Late (sym (some_inj e)) late

  runs-Late :
      (a b : Bool) (m : Mergeability)
      → (if a then some checks_failed else if b then some checks_pending else none) ≡ some m
      → Late m
      → ⊥
  runs-Late true b m e late = subst Late (sym (some_inj e)) late
  runs-Late false true m e late = no_pending m e late
  runs-Late false false m e late = cc

  judge_runs-Late :
      (answer : Json) (o : Option Mergeability) (m : Mergeability)
      → judge_runs repr answer ≡ some o
      → o ≡ some m
      → Late m
      → ⊥
  unfolding judge_runs
  judge_runs-Late answer o m h e late =
      let (fields, d, h1) = given-eq-some (dict_or_empty answer) _ h in
      let (runs, g, h2) = given-eq-some (get_list (codes "check_runs") fields) _ h1 in
      let (seen, l, h3) = given-eq-some (loop (scan_run repr) (false, false) runs) _ h2 in
      runs-Late seen.0 seen.1 m (some_inj h3 ∙ e) late

  judge_answer-Late :
      (r : Result Json) (m : Mergeability) → judge_answer repr r ≡ some m → Late m → ⊥
  judge_answer-Late (raise e) m h late = no_pending m h late
  judge_answer-Late (ok answer) m h late = by_runs (judge_runs repr answer) refl h
    where
      by_runs :
          (o : Option (Option Mergeability))
          → judge_runs repr answer ≡ o
          → unless_raised repr o ≡ some m
          → ⊥
      by_runs none e h' = no_pending m h' late
      by_runs (some o) e h' = judge_runs-Late answer o m e h' late

  module _ (http_get : Text → Result Json) (repo pr : Text) where
    -- The head commit has no check run that failed or is pending: it is not named, or its check runs
    -- were fetched and all pass.
    pub record HasCleanHead (pull : Fields) : Type 0 where
      pub head : Fields
      pub is_head : get_dict (codes "head") pull ≡ some head
      pub checked :
          (truthy (get (codes "sha") head) ≡ false)
          ⊎ ((answer : Json) × (http_get (runs_url repo (sha_text repr (get (codes "sha") head)))
                ≡ ok answer)
              × AllPass answer)

    -- An open pull request in a state that GitHub has computed, with a clean head.
    pub record IsOpenAndClean (pull : Fields) : Type 0 where
      pub fetched : http_get (pull_url repo pr) ≡ ok (obj pull)
      pub not_merged : truthy (get (codes "merged") pull) ≡ false
      pub not_closed : is_text (get (codes "state") pull) (codes "closed") ≡ false
      pub settled : is_settled_state (merge_state repr pull) ≡ true
      pub clean : HasCleanHead pull

    check_runs-clean :
        (pull : Fields) → check_runs repr http_get repo pr pull ≡ none → HasCleanHead pull
    unfolding check_runs given
    check_runs-clean pull h = by_head (get_dict (codes "head") pull) refl h
      where
        by_sha :
            (head : Fields) (b : Bool)
            → truthy (get (codes "sha") head) ≡ b
            → (if b
                then judge_answer repr
                    (http_get (runs_url repo (sha_text repr (get (codes "sha") head))))
                else none)
              ≡ none
            → (truthy (get (codes "sha") head) ≡ false)
              ⊎ ((answer : Json) × (http_get
                      (runs_url repo (sha_text repr (get (codes "sha") head)))
                    ≡ ok answer)
                  × AllPass answer)
        by_sha head false e h = inl e
        by_sha head true e h = inr (judge_answer-AllPass _ h)

        by_head :
            (o : Option Fields)
            → get_dict (codes "head") pull ≡ o
            → given o (some checks_pending) (λ head.
              let sha = get (codes "sha") head in
              if truthy sha
              then judge_answer repr (http_get (runs_url repo (sha_text repr sha)))
              else none)
              ≡ none
            → HasCleanHead pull
        by_head none e h = cc
        by_head (some head) e h = record {
          head = head;
          is_head = e;
          checked = by_sha head _ refl h;
        }

    check_runs-Late :
        (pull : Fields) (m : Mergeability)
        → check_runs repr http_get repo pr pull ≡ some m
        → Late m
        → ⊥
    unfolding check_runs given
    check_runs-Late pull m h late = by_head (get_dict (codes "head") pull) h
      where
        by_sha :
            (head : Fields) (b : Bool)
            → (if b
                then judge_answer repr
                    (http_get (runs_url repo (sha_text repr (get (codes "sha") head))))
                else none)
              ≡ some m
            → ⊥
        by_sha head false e = cc
        by_sha head true e = judge_answer-Late _ m e late

        by_head :
            (o : Option Fields)
            → given o (some checks_pending) (λ head.
              let sha = get (codes "sha") head in
              if truthy sha
              then judge_answer repr (http_get (runs_url repo (sha_text repr sha)))
              else none)
              ≡ some m
            → ⊥
        by_head none e = no_pending m e late
        by_head (some head) e = by_sha head (truthy (get (codes "sha") head)) e

    -- The verdicts at the end of the function come after every test.
    pub judge_pull-Late :
        (pull : Fields) (m : Mergeability)
        → http_get (pull_url repo pr) ≡ ok (obj pull)
        → Late m
        → judge_pull repr http_get repo pr pull ≡ m
        → IsOpenAndClean pull × (judge_blockers repr http_get repo pr (merge_state repr pull) ≡ m)
    unfolding judge_pull given
    judge_pull-Late pull m f late h =
        let (a, h1) = if-else Late _ merged _ h late (λ z. z) in
        let (b, h2) = if-else Late _ closed _ h1 late (λ z. z) in
        let (c, h3) = if-else Late _ dirty _ h2 late (λ z. z) in
        let (d, h4) = if-else Late _ conflicting _ h3 late (λ z. z) in
        let (e, h5) = if-else Late _ checks_pending _ h4 late (λ z. z) in
        let (clean, last) = by_runs _ refl h5 in
        (
          record {
            fetched = f;
            not_merged = a;
            not_closed = b;
            settled = settled_lem _ _ _ _ c d e;
            clean = clean;
          },
          last,
        )
      where
        by_runs :
            (o : Option Mergeability)
            → check_runs repr http_get repo pr pull ≡ o
            → given o (judge_blockers repr http_get repo pr (merge_state repr pull)) (λ v. v) ≡ m
            → HasCleanHead pull × (judge_blockers repr http_get repo pr (merge_state repr pull) ≡ m)
        by_runs none n e = (check_runs-clean pull n, e)
        by_runs (some x) s e = absurd (check_runs-Late pull x s (subst Late (sym e) late))
