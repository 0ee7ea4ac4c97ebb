-- ===== src/Earnings/Payable.antt =====
-- Which entries may be paid: the columns about the payment agree, and what the split and a new rule
-- leave agrees too.
use locoomo_api.Base.{
  ℕ, ◌+◌, ◌≡◌, refl, Bool, true, false, none, some, List, [], ◌∷◌, ◌++◌, ◌==◌, ==_iff, Row, here,
  there, ◌⊎◌, inl, inr, Bool-cases, Option-cases, ℤ, is_none, not,
}
use locoomo_api.Effect.{ok, err, transaction, transaction-keeps, revenue_split_not_configured}
use locoomo_api.Earnings.{
  EarningsTables, RevenueSplitEntry, RevenueSplitRule, RecordRevenueSplitFields, PartyType,
  PayoutStatus, courier_allocation, paid, not_payable, create_rule, record_split, split_entries,
  carrier_entry, current_rule,
}

-- One call of the three services, with its time.
abbrev is_courier : PartyType → Bool
is_courier courier_allocation = true
is_courier _ = false

abbrev pub is_unpayable : PayoutStatus → Bool
is_unpayable not_payable = true
is_unpayable _ = false

abbrev pub is_paid : PayoutStatus → Bool
is_paid paid = true
is_paid _ = false

-- An entry is unpayable just when it is a courier's, and has a time and an Admin just when paid.
pub record IsSettled (e : RevenueSplitEntry) : Type 0 where
  pub courier : is_courier e.party_type ≡ is_unpayable e.payout_status
  pub at : is_none e.paid_at ≡ not (is_paid e.payout_status)
  pub by : is_none e.paid_by_admin_id ≡ not (is_paid e.payout_status)

pub record IsValid (s : EarningsTables) : Type 0 where
  pub settled : (e : RevenueSplitEntry) → Row e s.entries → IsSettled e
  pub whole :
      (r : RevenueSplitRule)
      → Row r s.rules
      → r.rider_percent + r.node_percent + r.platform_percent ≡ 100

Row-append : {A : Type 0} {b : A} (xs ys : List A) → Row b (xs ++ ys) → Row b xs ⊎ Row b ys
Row-append [] ys r = inr r
Row-append (x ∷ xs) ys (here e) = inl (here e)
Row-append (x ∷ xs) ys (there r) = elim (Row-append xs ys r) [
  | inl q ↦ inl (there q)
  | inr q ↦ inr q
]

carrier_entry-IsSettled :
    (id : ℕ) (fields : RecordRevenueSplitFields) (rule_id : ℕ) (amount : ℤ)
    → IsSettled (carrier_entry id fields rule_id amount)
carrier_entry-IsSettled id fields rule_id amount = elim (Option-cases fields.rider_id) [
  | inl e ↦ rw e (record { courier = refl; at = refl; by = refl })
  | inr (r, e) ↦ rw e (record { courier = refl; at = refl; by = refl })
]

split_entries-IsSettled :
    (id : ℕ) (fields : RecordRevenueSplitFields) (rule : RevenueSplitRule) (e : RevenueSplitEntry)
    → Row e (split_entries id fields rule)
    → IsSettled e
split_entries-IsSettled id fields rule e (here q) =
    rw q (carrier_entry-IsSettled id fields rule.id _)
split_entries-IsSettled id fields rule e (there (here q)) =
    rw q (record { courier = refl; at = refl; by = refl })
split_entries-IsSettled id fields rule e (there (there (here q))) =
    rw q (record { courier = refl; at = refl; by = refl })
split_entries-IsSettled id fields rule e (there (there (there (there none_left)))) =
    elim none_left [ ]
split_entries-IsSettled id fields rule e (there (there (there (here q)))) =
    rw q (record { courier = refl; at = refl; by = refl })

split-none :
    (now : ℕ) (fields : RecordRevenueSplitFields) (s : EarningsTables)
    → current_rule now s.rules ≡ none
    → record_split now fields s ≡ (err revenue_split_not_configured, s)
unfolding record_split
split-none now fields s e = rw e refl

split-some :
    (now : ℕ) (fields : RecordRevenueSplitFields) (s : EarningsTables) (rule : RevenueSplitRule)
    → current_rule now s.rules ≡ some rule
    → record_split now fields s ≡ (
      ok tt,
      record s {
        entries = s.entries ++ split_entries s.next_id fields rule;
        next_id = s.next_id + 4;
      },
    )
unfolding record_split
split-some now fields s rule e = rw e refl

pub record_split-IsValid :
    (now : ℕ) (fields : RecordRevenueSplitFields) (s : EarningsTables)
    → IsValid s
    → IsValid ((transaction (record_split now fields) s).1)
record_split-IsValid now fields s v = elim (Option-cases (current_rule now s.rules)) [
  | inl e ↦ transaction-keeps IsValid (record_split now fields) s (split-none now fields s e) v v
  | inr (rule, e) ↦
      transaction-keeps IsValid (record_split now fields) s (split-some now fields s rule e) v
        (record {
          settled = λ b r. elim (Row-append s.entries (split_entries s.next_id fields rule) r) [
            | inl q ↦ v.settled b q
            | inr q ↦ split_entries-IsSettled s.next_id fields rule b q
          ];
          whole = v.whole;
        })
]

pub create_rule-IsValid :
    (now r n p admin_id : ℕ) (s : EarningsTables)
    → IsValid s
    → IsValid ((transaction (create_rule now r n p admin_id) s).1)
unfolding create_rule
create_rule-IsValid now r n p admin_id s v = elim (Bool-cases (r + n + p == 100)) [
  | inl e ↦ rw e (record {
    settled = v.settled;
    whole = λ b w. elim (Row-append s.rules _ w) [
      | inl q ↦ v.whole b q
      | inr q ↦ elim q [
        | here same ↦ rw same ((==_iff (r + n + p) 100).0 e)
        | there none_left ↦ elim none_left [ ]
      ]
    ];
  })
  | inr e ↦ rw e v
]
