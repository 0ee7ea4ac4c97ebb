-- ===== src/Earnings/Tests.antt =====
-- A rule, two completed orders and a settled entry, and the theorems applied to them.
use locoomo_api.Base.{
  ℕ, ◌+◌, ◌*◌, ◌≤◌, ◌<◌, ◌≡◌, refl, false, Option, none, some, [], ◌==◌, ◌⊎◌, Row, pos, ◌+ℤ◌, ◌-ℤ◌,
  percent_of,
}
use locoomo_api.Effect.{ok, err, revenue_split_not_configured}
use locoomo_api.Earnings.{
  EarningsTables, RecordRevenueSplitFields, RevenueSplitEntry, RevenueSplitRule, paid,
  calculate_split, current_rule, create_rule, record_split, mark_paid, settle, rider, pending,
}
use locoomo_api.Earnings.Split.{calculate_split-bounds}
use locoomo_api.Earnings.Record.{recorded_kobo, record_split-accounts}
use locoomo_api.Earnings.Payable.{IsValid}
use locoomo_api.Earnings.Payout.{
  create, split, mark, after_call, Reachable, start, step, Reachable-IsValid, mark_paid-once,
}

abbrev delivered : ℕ → Option ℕ → RecordRevenueSplitFields
delivered order_id rider_id = record {
  order_id = order_id;
  amount_kobo = 150001;
  destination_fee_kobo = 20000;
  rider_id = rider_id;
  origin_node_id = 1;
  destination_node_id = 2;
}

abbrev empty_books : EarningsTables
empty_books = record { rules = []; entries = []; next_id = 0 }

abbrev with_rule : EarningsTables
with_rule = after_call (create 10 60 20 20 9) empty_books

abbrev two_split : EarningsTables
two_split =
    after_call (split 30 (delivered 101 none))
      (after_call (split 20 (delivered 100 (some 50))) with_rule)

run : EarningsTables → EarningsTables
unfolding after_call create_rule record_split mark_paid current_rule calculate_split percent_of ◌-ℤ◌
run s = s

two_split-Reachable : Reachable two_split
two_split-Reachable =
    step (step (step start (create 10 60 20 20 9)) (split 20 (delivered 100 (some 50))))
      (split 30 (delivered 101 none))

Reachable-IsValid_example : IsValid two_split
Reachable-IsValid_example = Reachable-IsValid two_split-Reachable

calculate_split-bounds_example :
    let shares = calculate_split (pos 130001) 60 20 in
    (r : ℕ) × (n : ℕ) × (p : ℕ) × (shares.rider_share_kobo ≡ pos r)
    × (shares.node_share_kobo ≡ pos n)
    × (shares.platform_share_kobo ≡ pos p)
    × (100 * r ≤ 130001 * 60)
    × (100 * n ≤ 130001 * 20)
    × (130001 * 20 ≤ 100 * p)
    × (100 * p ≤ 130001 * 20 + 198)
calculate_split-bounds_example = calculate_split-bounds 130001 60 20 20 refl

record_split-accounts_example :
    let (r, s') = record_split 20 (delivered 100 (some 50)) with_rule in
    ((r ≡ ok tt)
      × (recorded_kobo 100 s'.entries ≡ recorded_kobo 100 with_rule.entries +ℤ pos 150001)
      × ((other : ℕ)
          → (100 == other) ≡ false
          → recorded_kobo other s'.entries ≡ recorded_kobo other with_rule.entries))
    ⊎ ((r ≡ err revenue_split_not_configured)
        × (s' ≡ with_rule)
        × ((q : RevenueSplitRule) → Row q with_rule.rules → 20 < q.effective_from))
record_split-accounts_example = record_split-accounts 20 (delivered 100 (some 50)) with_rule

abbrev settled_entry : RevenueSplitEntry
settled_entry = settle 40 9 (record {
  id = 1;
  order_id = 100;
  party_type = rider;
  party_id = some 50;
  amount_kobo = pos 78000;
  split_rule_id = 0;
  payout_status = pending;
  paid_at = none;
  paid_by_admin_id = none;
})

mark_paid-once_example :
    (settled_entry.payout_status ≡ paid)
    × (settled_entry.id ≡ 1)
    × ((later other : ℕ)
        → mark_paid later 1 other (after_call (mark 40 1 9) two_split)
          ≡ (ok settled_entry, after_call (mark 40 1 9) two_split))
unfolding run
mark_paid-once_example = mark_paid-once 40 1 9 two_split refl
