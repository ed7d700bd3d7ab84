-- ===== src/PrFix/Item.antt =====
-- bridge/prfix.py: the items of the queue, and the coder, prompt, signature and name of their Workloads.
use foreman_dispatch_bridge.Base.{
  ℕ, zero, suc, true, false, Option, none, some, List, [], ◌∷◌, ◌++◌, map, if◌then◌else◌,
}
use foreman_dispatch_bridge.Base.Text
use foreman_dispatch_bridge.Base.Text.{Text, codes, ◌==◌, lower, strip, join, words, replace_char}
use foreman_dispatch_bridge.Base.Int.{pos, negsuc}
use foreman_dispatch_bridge.Base.Dict.{Dict, lookup}
use foreman_dispatch_bridge.Base.Decimal.{show_nat}
use foreman_dispatch_bridge.Base.Json.{
  Json, str, arr, obj, Fields, get, truthy, or_else, items, Integer, integer, truth, to_integer,
}
use foreman_dispatch_bridge.Workload.Config.{coder_agent, wildcard}
use foreman_dispatch_bridge.Workload.Coder.{or_name}

pub record PrFixItem : Type 0 where
  pub repo : Text
  pub pr : Integer
  pub issue : Option Integer
  pub branch : Option Text
  pub head_sha : Option Text
  pub lane : Text
  pub type : Text
  pub reason : Text
  pub feedback : List Text

-- The text of an integer in an f-string.
unfoldable pub show_integer : Integer → Text
show_integer (integer (pos n)) = show_nat n
show_integer (integer (negsuc n)) = b'-' ∷ show_nat (suc n)
show_integer (truth true) = codes "True"
show_integer (truth false) = codes "False"

-- A branch or a commit is a text; an empty one is missing.
abbrev text_or_none : Json → Option Text
text_or_none (str (c ∷ s)) = some (c ∷ s)
text_or_none _ = none

-- `repr` is Python's `str` on values that are not texts.
module _ (repr : Json → Text) where
  str_of : Json → Text
  str_of (str t) = t
  str_of j = repr j

  feedback_of : Json → List Text
  unfolding str_of
  feedback_of (arr js) = map str_of (items js)
  feedback_of _ = []

  addressed : Fields → Integer → PrFixItem
  unfolding str_of feedback_of
  addressed raw pr = record {
    repo = str_of (get (codes "repo") raw);
    pr = pr;
    issue = to_integer (get (codes "issue") raw);
    branch = text_or_none (get (codes "branch") raw);
    head_sha = text_or_none (get (codes "headSha") raw);
    lane = str_of (or_else (get (codes "lane") raw) (str []));
    type = str_of (or_else (get (codes "type") raw) (str (codes "OTHER")));
    reason = str_of (or_else (get (codes "reason") raw) (str []));
    feedback = feedback_of (get (codes "feedback") raw);
  }

  unfoldable pub parse_pr_fix_item : Json → Option PrFixItem
  unfolding addressed
  parse_pr_fix_item (obj raw) =
      if truthy (get (codes "repo") raw)
      then elim (to_integer (get (codes "pr") raw)) [
        | none ↦ none
        | some pr ↦ some (addressed raw pr)
      ]
      else none
  parse_pr_fix_item _ = none

unfoldable pub pr_fix_coder_for : Text → Dict Text → Text
pr_fix_coder_for lane lane_agents =
    or_name (lookup lane lane_agents) (or_name (lookup wildcard lane_agents) coder_agent)

type_headers : Dict Text
type_headers =
    (codes "CI_FAILURE", codes "CI failure:")
    ∷ (codes "REVIEW_FEEDBACK", codes "Review feedback:")
    ∷ (codes "MERGE_CONFLICT", codes "Merge conflict:")
    ∷ []

header_lines : Option Text → List Text
header_lines none = []
header_lines (some header) = header ∷ []

unfoldable pub assemble_fix_prompt : PrFixItem → Text
unfolding type_headers header_lines
assemble_fix_prompt item = join (codes "\n") (
    header_lines (lookup item.type type_headers)
    ++ ((if Text.is_empty item.reason then [] else item.reason ∷ [])
        ++ map (λ line. codes "- " ++ line) item.feedback))

abbrev or_unknown_type : Text → Text
or_unknown_type [] = codes "unknown"
or_unknown_type (c ∷ s) = c ∷ s

abbrev no_feedback : Text
no_feedback = codes "::no-feedback"

-- `head[:160]`
first_160 : Text → Text
first_160 = take_codes 160
  where
    take_codes : ℕ → Text → Text
    take_codes zero s = []
    take_codes (suc n) [] = []
    take_codes (suc n) (c ∷ s) = c ∷ take_codes n s

head_signature : Text → List Text → Text
unfolding first_160
head_signature type_token [] = type_token ++ no_feedback
head_signature type_token (first ∷ more) =
    let head = join (codes " ") (words (lower (strip first))) in
    if Text.is_empty head
    then type_token ++ no_feedback
    else type_token ++ (codes "::" ++ first_160 head)

unfoldable pub failure_signature : Option PrFixItem → Text
unfolding head_signature
failure_signature none = []
failure_signature (some item) =
    head_signature (or_unknown_type (lower (strip item.type))) item.feedback

unfoldable pub prfix_workload_name : PrFixItem → Text
prfix_workload_name item =
    codes "prfix-" ++ (lower (replace_char b'/' b'-' item.repo) ++ (b'-' ∷ show_integer item.pr))
