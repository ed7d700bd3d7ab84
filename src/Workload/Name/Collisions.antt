-- ===== src/Workload/Name/Collisions.antt =====
-- bridge/workload.py: the names of different repositories.
use foreman_dispatch_bridge.Base.{◌≡◌, refl, ap, [], ◌∷◌, ◌++◌, arith}
use foreman_dispatch_bridge.Base.Text.{Text, codes}
use foreman_dispatch_bridge.Models.{ClaimedItem}
use foreman_dispatch_bridge.Base.Decimal.{show_nat}
use foreman_dispatch_bridge.Workload.Name.{workload_name, branch_name, case_preserving_slug}

abbrev pub with_repo : ClaimedItem → Text → ClaimedItem
with_repo item repo = record item { repo = repo }

slug_prefix :
    (a s t : Text)
    → case_preserving_slug s ≡ case_preserving_slug t
    → case_preserving_slug (a ++ s) ≡ case_preserving_slug (a ++ t)
unfolding case_preserving_slug
slug_prefix [] s t h = h
slug_prefix (c ∷ a) s t h = ground (arith, slug_prefix a s t h)

slug_slash :
    (b c : Text)
    → case_preserving_slug (b'-' ∷ (b ++ (b'/' ∷ c)))
      ≡ case_preserving_slug (b'/' ∷ (b ++ (b'-' ∷ c)))
unfolding case_preserving_slug
slug_slash b c = ap (λ s. b'-' ∷ s) (slug_prefix b (b'/' ∷ c) (b'-' ∷ c) refl)

same_name :
    (item : ClaimedItem) (r s : Text)
    → case_preserving_slug r ≡ case_preserving_slug s
    → (workload_name (with_repo item r) ≡ workload_name (with_repo item s))
      × (branch_name (with_repo item r) ≡ branch_name (with_repo item s))
unfolding workload_name branch_name
same_name item r s h =
    let shared = λ (slug : Text). codes "wl-" ++ (slug ++ (b'-' ∷ show_nat item.issue_number)) in
    (
      ap shared h,
      ap
          (λ slug.
            codes "foreman/" ++ (shared slug ++ (codes "/issue-" ++ show_nat item.issue_number)))
          h,
    )

-- An owner or a repository may hold a dash, and the slash becomes one: a-b/c and a/b-c have one
-- Workload name and one branch name for each issue number.
pub workload_name_slash :
    (item : ClaimedItem) (a b c : Text)
    → (workload_name (with_repo item (a ++ (b'-' ∷ (b ++ (b'/' ∷ c)))))
        ≡ workload_name (with_repo item (a ++ (b'/' ∷ (b ++ (b'-' ∷ c))))))
      × (branch_name (with_repo item (a ++ (b'-' ∷ (b ++ (b'/' ∷ c)))))
          ≡ branch_name (with_repo item (a ++ (b'/' ∷ (b ++ (b'-' ∷ c))))))
workload_name_slash item a b c = same_name item _ _ (slug_prefix a _ _ (slug_slash b c))

case_clash :
    (b : Text) → case_preserving_slug (b'U' ∷ (b'u' ∷ b)) ≡ case_preserving_slug (b'u' ∷ (b'U' ∷ b))
unfolding case_preserving_slug
case_clash b = refl

-- Repositories whose names differ only by case can share a Workload name too: by an upper case U in front
-- of a lower case u in the one, and the other way round in the other.
pub workload_name_case :
    (item : ClaimedItem) (a b : Text)
    → workload_name (with_repo item (a ++ (b'U' ∷ (b'u' ∷ b))))
      ≡ workload_name (with_repo item (a ++ (b'u' ∷ (b'U' ∷ b))))
workload_name_case item a b = (same_name item _ _ (slug_prefix a _ _ (case_clash b))).0
