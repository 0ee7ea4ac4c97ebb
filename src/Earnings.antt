-- ===== src/Earnings.antt =====
-- src/modules/earnings: the revenue split rules, the split of a completed order's price, the entries
-- it is recorded in, and the settling of an entry by Admin.
pub mod Payable
pub mod Split
pub mod Record
pub mod Payout
mod Tests
use locoomo_api.Base.{
  ⊤, ℕ, suc, ◌+◌, Bool, true, false, not, Option, none, some, List, [], ◌∷◌, ◌++◌, ◌==◌, leb,
  if◌then◌else◌, find, update_where, ℤ, pos, ◌-ℤ◌, percent_of,
}
use locoomo_api.Effect.{
  Action, pure, throw, gets, or_throw, ◌>>=◌, ◌>>◌, modify, throw_if, invalid_revenue_split,
  revenue_split_not_configured, entity_not_found, revenue_split_not_payable,
}

pub data PartyType : Type 0 where
  rider node destination_node platform courier_allocation : PartyType

pub data PayoutStatus : Type 0 where
  pending paid not_payable : PayoutStatus

-- Times are milliseconds; `created_at` is left out.
pub record RevenueSplitRule : Type 0 where
  pub id : ℕ
  pub rider_percent : ℕ
  pub node_percent : ℕ
  pub platform_percent : ℕ
  pub effective_from : ℕ
  pub created_by_admin_id : ℕ

pub record RevenueSplitEntry : Type 0 where
  pub id : ℕ
  pub order_id : ℕ
  pub party_type : PartyType
  pub party_id : Option ℕ
  pub amount_kobo : ℤ
  pub split_rule_id : ℕ
  pub payout_status : PayoutStatus
  pub paid_at : Option ℕ
  pub paid_by_admin_id : Option ℕ

-- The two tables; `next_id` stands for gen_random_uuid().
pub record EarningsTables : Type 0 where
  pub rules : List RevenueSplitRule
  pub entries : List RevenueSplitEntry
  pub next_id : ℕ

abbrev pub Earnings : Type 0 → Type 0
Earnings A = Action EarningsTables A

pub record RevenueSplitShares : Type 0 where
  pub rider_share_kobo : ℤ
  pub node_share_kobo : ℤ
  pub platform_share_kobo : ℤ

pub calculate_split : ℤ → ℕ → ℕ → RevenueSplitShares
calculate_split amount_kobo rider_percent node_percent =
    let rider_share = percent_of amount_kobo rider_percent in
    let node_share = percent_of amount_kobo node_percent in
    record {
      rider_share_kobo = rider_share;
      node_share_kobo = node_share;
      platform_share_kobo = amount_kobo -ℤ rider_share -ℤ node_share;
    }

-- AdminRevenueSplitRuleService.create: the percentages are those of the DTO, from 0 to 100 each.
pub create_rule : ℕ → ℕ → ℕ → ℕ → ℕ → Earnings RevenueSplitRule
create_rule now rider_percent node_percent platform_percent admin_id = do
  throw_if (not (rider_percent + node_percent + platform_percent == 100)) invalid_revenue_split
  id ← gets (λ s. s.next_id)
  let rule : RevenueSplitRule = record {
    id = id;
    rider_percent = rider_percent;
    node_percent = node_percent;
    platform_percent = platform_percent;
    effective_from = now;
    created_by_admin_id = admin_id;
  }
  modify (λ s. record s { rules = s.rules ++ rule ∷ []; next_id = suc id })
  pure rule

-- The later of two rules; the first one of the table where they have one time.
abbrev pub later_rule : RevenueSplitRule → Option RevenueSplitRule → RevenueSplitRule
later_rule a none = a
later_rule a (some b) = if leb b.effective_from a.effective_from then a else b

-- `effectiveFrom <= now ORDER BY effectiveFrom DESC`, its first row.
pub current_rule : ℕ → List RevenueSplitRule → Option RevenueSplitRule
current_rule now [] = none
current_rule now (r ∷ rs) =
    let rest = current_rule now rs in
    if leb r.effective_from now then some (later_rule r rest) else rest

pub record RecordRevenueSplitFields : Type 0 where
  pub order_id : ℕ
  pub amount_kobo : ℕ
  pub destination_fee_kobo : ℕ
  pub rider_id : Option ℕ
  pub origin_node_id : ℕ
  pub destination_node_id : ℕ

-- `repo.create` with the column defaults.
abbrev pub new_entry : ℕ → ℕ → ℕ → PartyType → Option ℕ → ℤ → RevenueSplitEntry
new_entry id order_id rule_id party_type party_id amount = record {
  id = id;
  order_id = order_id;
  party_type = party_type;
  party_id = party_id;
  amount_kobo = amount;
  split_rule_id = rule_id;
  payout_status = pending;
  paid_at = none;
  paid_by_admin_id = none;
}

abbrev pub carrier_entry : ℕ → RecordRevenueSplitFields → ℕ → ℤ → RevenueSplitEntry
carrier_entry id fields rule_id amount = elim fields.rider_id [
  | some rider_id ↦ new_entry id fields.order_id rule_id rider (some rider_id) amount
  | none ↦
      let entry = new_entry id fields.order_id rule_id courier_allocation none amount in
      record entry { payout_status = not_payable }
]

-- The four entries that `record` saves.
abbrev pub split_entries : ℕ → RecordRevenueSplitFields → RevenueSplitRule → List RevenueSplitEntry
split_entries id fields rule =
    let shares =
      calculate_split (pos fields.amount_kobo -ℤ pos fields.destination_fee_kobo) rule.rider_percent
        rule.node_percent in
    carrier_entry id fields rule.id shares.rider_share_kobo
    ∷ new_entry (id + 1) fields.order_id rule.id node (some fields.origin_node_id)
        shares.node_share_kobo
    ∷ new_entry (id + 2) fields.order_id rule.id destination_node (some fields.destination_node_id)
        (pos fields.destination_fee_kobo)
    ∷ new_entry (id + 3) fields.order_id rule.id platform none shares.platform_share_kobo
    ∷ []

pub record_split : ℕ → RecordRevenueSplitFields → Earnings ⊤
record_split now fields = do
  found ← gets (λ s. current_rule now s.rules)
  rule ← or_throw found revenue_split_not_configured
  id ← gets (λ s. s.next_id)
  modify λ s. record s { entries = s.entries ++ split_entries id fields rule; next_id = id + 4 }

abbrev pub settle : ℕ → ℕ → RevenueSplitEntry → RevenueSplitEntry
settle now admin_id entry = record entry {
  payout_status = paid;
  paid_at = some now;
  paid_by_admin_id = some admin_id;
}

-- What markPaid does with the entry it read; `save` writes the entry of this id.
abbrev pub mark_read : ℕ → ℕ → RevenueSplitEntry → Earnings RevenueSplitEntry
mark_read now admin_id entry = elim entry.payout_status [
  | not_payable ↦ throw revenue_split_not_payable
  | paid ↦ pure entry
  | pending ↦ do
    let saved = settle now admin_id entry
    modify (λ s. record s { entries = update_where (λ e. e.id == entry.id) (λ e. saved) s.entries })
    pure saved
]

-- The Admin's e-mail address, read for the response, is left out.
pub mark_paid : ℕ → ℕ → ℕ → Earnings RevenueSplitEntry
mark_paid now entry_id admin_id = do
  found ← gets (λ s. find (λ e. e.id == entry_id) s.entries)
  entry ← or_throw found entity_not_found
  mark_read now admin_id entry
