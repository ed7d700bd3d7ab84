-- ===== src/Workload/Config.antt =====
-- bridge/workload.py: constants, `parse_self_go` and `gate_profile_for`.
use foreman_dispatch_bridge.Base.{
  ◌≡◌, refl, Option, none, some, List, [], ◌∷◌, nat_eq, if◌then◌else◌,
}
use foreman_dispatch_bridge.Base.Text
use foreman_dispatch_bridge.Base.Text.{Text, codes, ◌==◌, strip}
use foreman_dispatch_bridge.Base.Dict.{Dict, lookup}
use foreman_dispatch_bridge.Base.Json.{Fields, end, field, str, get}

unfoldable pub coder_agent : Text
coder_agent = codes "coder"

unfoldable pub verifier_agent : Text
verifier_agent = codes "gate"

unfoldable pub reviewer_agents : List Text
reviewer_agents = codes "reviewer" ∷ []

unfoldable pub wildcard : Text
wildcard = codes "*"

unfoldable pub attempt_annotation : Text
attempt_annotation = codes "foreman.llmkube.dev/attempt"

unfoldable pub infra_attempt_annotation : Text
infra_attempt_annotation = codes "foreman.llmkube.dev/infra-attempt"

unfoldable pub signature_annotation : Text
signature_annotation = codes "foreman.llmkube.dev/failure-signature"

unfoldable pub progress_annotation : Text
progress_annotation = codes "foreman.llmkube.dev/progress-attempts"

unfoldable pub issue_id_annotation : Text
issue_id_annotation = codes "foreman.llmkube.dev/issue-id"

-- `raw.split(",")`: the part before the first comma, and the parts behind it.
split_comma : Text → Text × List Text
split_comma [] = ([], [])
split_comma (c ∷ s) =
    let (part, parts) = split_comma s in
    if nat_eq c b',' then ([], part ∷ parts) else (c ∷ part, parts)

strip_parts : List Text → List Text
strip_parts [] = []
strip_parts (p ∷ ps) =
    let rest = strip_parts ps in if Text.is_empty (strip p) then rest else strip p ∷ rest

unfoldable pub parse_self_go : Text → List Text
unfolding split_comma strip_parts strip
parse_self_go [] = []
parse_self_go (c ∷ raw) = let (part, parts) = split_comma (c ∷ raw) in strip_parts (part ∷ parts)

abbrev or_wildcard : Option Fields → Dict Fields → Option Fields
or_wildcard none profiles = lookup wildcard profiles
or_wildcard (some end) profiles = lookup wildcard profiles
or_wildcard (some (field k v fs)) profiles = some (field k v fs)

-- An empty profile counts as no profile, as it does for `or`.
unfoldable pub gate_profile_for : Text → Dict Fields → Option Fields
gate_profile_for repo profiles = or_wildcard (lookup repo profiles) profiles

-- `gate_profiles.get(repo, {}).get("language")`, which every caller of `coder_agent_for` passes.
unfoldable pub language_of : Text → Dict Fields → Option Text
language_of repo profiles = elim (lookup repo profiles) [
  | none ↦ none
  | some profile ↦ elim (get (codes "language") profile) [ str s ↦ some s | _ ↦ none ]
]

parse_self_go_sample : parse_self_go (codes "docs, ,ci ") ≡ codes "docs" ∷ codes "ci" ∷ []
unfolding parse_self_go
parse_self_go_sample = refl
