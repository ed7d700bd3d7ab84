-- ===== src/Workload/Name.antt =====
-- bridge/workload.py: `_case_preserving_slug`, `workload_name` and `_branch_name`, and
-- bridge/retry.py: `_issue_from_name`, which reads the number back.
use foreman_dispatch_bridge.Base.{
  ℕ, ◌+◌, ◌≡◌, refl, Bool, true, false, ◌&&◌, Option, none, some, List, [], ◌∷◌, ◌++◌, nat_eq,
  if◌then◌else◌, all,
}
use foreman_dispatch_bridge.Base.Text.{Text, codes, is_upper, lower_char, replace_char}
use foreman_dispatch_bridge.Base.Int.{pos, negsuc}
use foreman_dispatch_bridge.Base.Decimal.{show_nat, parse_int, is_digit}
use foreman_dispatch_bridge.Models.{ClaimedItem}
pub mod Issue
pub mod Collisions

-- The loop over the characters.
encode_case : Text → Text
encode_case [] = []
encode_case (c ∷ s) =
    let rest = encode_case s in if is_upper c then b'u' ∷ (lower_char c ∷ rest) else c ∷ rest

unfoldable pub case_preserving_slug : Text → Text
unfolding encode_case replace_char is_upper lower_char
case_preserving_slug repo = encode_case (replace_char b'/' b'-' repo)

unfoldable pub workload_name : ClaimedItem → Text
unfolding case_preserving_slug
workload_name item =
    codes "wl-" ++ (case_preserving_slug item.repo ++ (b'-' ∷ show_nat item.issue_number))

unfoldable pub branch_name : ClaimedItem → Text
branch_name item =
    codes "foreman/" ++ (workload_name item ++ (codes "/issue-" ++ show_nat item.issue_number))

-- `name.rsplit("-", 1)[-1]`: the text behind the last dash, or all of it.
tail_from : Text → Text → Text
tail_from tail [] = tail
tail_from tail (c ∷ s) = tail_from (if nat_eq c b'-' then s else tail) s

abbrev last_part : Text → Text
last_part name = tail_from name name

abbrev digits_only : Text → Bool
digits_only [] = false
digits_only (c ∷ s) = all is_digit (c ∷ s)

abbrev number_or_zero : Text → ℕ
number_or_zero tail = elim (parse_int tail) [ some (pos n) ↦ n | _ ↦ 0 ]

-- 0 when the suffix is no number; `isascii` and `isdigit` leave the ASCII digits.
unfoldable pub issue_from_name : Text → ℕ
unfolding tail_from
issue_from_name name = if digits_only (last_part name) then number_or_zero (last_part name) else 0
