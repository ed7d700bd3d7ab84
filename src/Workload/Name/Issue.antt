-- ===== src/Workload/Name/Issue.antt =====
-- bridge/workload.py, bridge/retry.py: the issue number in a Workload name.
use foreman_dispatch_bridge.Base.{
  ◌≡◌, refl, ◌≢◌, true, [], ◌∷◌, ◌++◌, nat_eq, if◌then◌else◌, all, All, arith,
}
use foreman_dispatch_bridge.Base.Text.{Text, codes}
use foreman_dispatch_bridge.Base.Decimal.{show_nat, is_digit}
use foreman_dispatch_bridge.Base.Decimal.RoundTrip.{
  IsDigit, show_nat-IsDigit, show_nat-ne-nil, parse_int-show_nat,
}
use foreman_dispatch_bridge.Models.{ClaimedItem}
use foreman_dispatch_bridge.Workload.Name.{
  workload_name, case_preserving_slug, issue_from_name, tail_from, digits_only,
}

-- Digits hold no dash, so the last part does not move in them.
tail_from_digits : (tail s : Text) → All IsDigit s → tail_from tail s ≡ tail
unfolding tail_from
tail_from_digits tail [] h = refl
tail_from_digits tail (c ∷ s) (hc, h) = ground (arith, tail_from_digits tail s h)

tail_from_dash : (xs tail s : Text) → All IsDigit s → tail_from tail (xs ++ (b'-' ∷ s)) ≡ s
unfolding tail_from
tail_from_dash [] tail s h = tail_from_digits s s h
tail_from_dash (x ∷ xs) tail s h =
    tail_from_dash xs (if nat_eq x b'-' then xs ++ (b'-' ∷ s) else tail) s h

digits_only_of : (s : Text) → s ≢ [] → All IsDigit s → digits_only s ≡ true
digits_only_of [] h d = absurd (h refl)
digits_only_of (c ∷ s) h d = all_of (c ∷ s) d
  where
    all_of : (t : Text) → All IsDigit t → all is_digit t ≡ true
    all_of [] d = refl
    all_of (x ∷ t) (dx, d) = ground (arith, all_of t d)

last_part-workload_name :
    (item : ClaimedItem)
    → tail_from (workload_name item) (workload_name item) ≡ show_nat item.issue_number
unfolding workload_name
last_part-workload_name item =
    tail_from_dash (codes "wl-" ++ case_preserving_slug item.repo) _ (show_nat item.issue_number)
      (show_nat-IsDigit item.issue_number)

-- The number that a retry recovers from a Workload's name is the number of its issue, whatever the
-- repository is called.
pub issue_from_name-workload_name :
    (item : ClaimedItem) → issue_from_name (workload_name item) ≡ item.issue_number
unfolding issue_from_name
issue_from_name-workload_name item =
    rw
      (
        last_part-workload_name item,
        digits_only_of _ (show_nat-ne-nil item.issue_number) (show_nat-IsDigit item.issue_number),
      )
      (ground (arith, parse_int-show_nat item.issue_number))
