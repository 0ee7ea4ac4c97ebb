-- ===== src/Earnings/Record.antt =====
-- What RecordRevenueSplitService.record adds to the books.
use locoomo_api.Base.{
  ℕ, ap, ◌∙◌, false, ◌<◌, ◌≡◌, refl, none, some, List, [], ◌∷◌, ◌++◌, arith, ◌==◌, if◌then◌else◌,
  Row, ◌⊎◌, inl, inr, Option-cases, ℤ, pos, ◌+ℤ◌, ◌-ℤ◌, pos_part, neg_part, int_laws, ◌+◌,
}
use locoomo_api.Effect.{ok, err, revenue_split_not_configured}
use locoomo_api.Earnings.{
  node, destination_node, platform, EarningsTables, RevenueSplitEntry, RevenueSplitRule,
  RecordRevenueSplitFields, record_split, split_entries, carrier_entry, calculate_split, new_entry,
}
use locoomo_api.Earnings.Split.{calculate_split-sum, current_rule-latest}

-- What an entry is to an order's money.
pub its_kobo : ℕ → RevenueSplitEntry → ℤ
its_kobo order_id e = if e.order_id == order_id then e.amount_kobo else pos 0

-- All that the books say of an order's money.
pub recorded_kobo : ℕ → List RevenueSplitEntry → ℤ
recorded_kobo order_id [] = pos 0
recorded_kobo order_id (e ∷ es) = its_kobo order_id e +ℤ recorded_kobo order_id es

regroup : (a b c d : ℤ) → d ≡ b +ℤ c → a +ℤ d ≡ (a +ℤ b) +ℤ c
regroup a b c d h = rw h (omega int_laws)

recorded_kobo-append :
    (order_id : ℕ) (xs ys : List RevenueSplitEntry)
    → recorded_kobo order_id (xs ++ ys) ≡ recorded_kobo order_id xs +ℤ recorded_kobo order_id ys
unfolding recorded_kobo
recorded_kobo-append order_id [] ys = let r = recorded_kobo order_id ys in omega int_laws
recorded_kobo-append order_id (x ∷ xs) ys =
    regroup (its_kobo order_id x) (recorded_kobo order_id xs) (recorded_kobo order_id ys)
      (recorded_kobo order_id (xs ++ ys)) (recorded_kobo-append order_id xs ys)

its_kobo-own :
    (order_id : ℕ) (e : RevenueSplitEntry)
    → e.order_id ≡ order_id
    → its_kobo order_id e ≡ e.amount_kobo
unfolding its_kobo
its_kobo-own order_id e h = ground arith

its_kobo-other :
    (order_id : ℕ) (e : RevenueSplitEntry)
    → (e.order_id == order_id) ≡ false
    → its_kobo order_id e ≡ pos 0
unfolding its_kobo
its_kobo-other order_id e h = rw h refl

carrier_entry-kobo :
    (id : ℕ) (fields : RecordRevenueSplitFields) (rule_id : ℕ) (amount : ℤ)
    → ((carrier_entry id fields rule_id amount).order_id ≡ fields.order_id)
      × ((carrier_entry id fields rule_id amount).amount_kobo ≡ amount)
carrier_entry-kobo id fields rule_id amount = elim (Option-cases fields.rider_id) [
  | inl e ↦ rw e (refl, refl)
  | inr (r, e) ↦ rw e (refl, refl)
]

four :
    (r n f p a : ℤ) (whole : ℤ)
    → r +ℤ n +ℤ p ≡ a
    → a ≡ whole -ℤ f
    → r +ℤ (n +ℤ (f +ℤ (p +ℤ pos 0))) ≡ whole
four r n f p a whole sum left =
    omega (int_laws, ap pos_part sum, ap neg_part sum, ap pos_part left, ap neg_part left)

no_money : pos 0 +ℤ (pos 0 +ℤ (pos 0 +ℤ (pos 0 +ℤ pos 0))) ≡ pos 0
unfolding ◌+ℤ◌
no_money = refl

-- The four entries are the whole price.
split_entries-total :
    (id : ℕ) (fields : RecordRevenueSplitFields) (rule : RevenueSplitRule)
    → recorded_kobo fields.order_id (split_entries id fields rule) ≡ pos fields.amount_kobo
unfolding recorded_kobo
split_entries-total id fields rule =
    let amount = pos fields.amount_kobo -ℤ pos fields.destination_fee_kobo in
    let shares = calculate_split amount rule.rider_percent rule.node_percent in
    let order_id = fields.order_id in
    let (its, all_of) = carrier_entry-kobo id fields rule.id shares.rider_share_kobo in
    rw
      (
        its_kobo-own order_id (carrier_entry id fields rule.id shares.rider_share_kobo) its
            ∙ all_of,
        its_kobo-own order_id
            (new_entry (id + 1) order_id rule.id node (some fields.origin_node_id)
              shares.node_share_kobo)
            refl,
        its_kobo-own order_id
            (new_entry (id + 2) order_id rule.id destination_node (some fields.destination_node_id)
              (pos fields.destination_fee_kobo))
            refl,
        its_kobo-own order_id
            (new_entry (id + 3) order_id rule.id platform none shares.platform_share_kobo) refl,
      )
      (four shares.rider_share_kobo shares.node_share_kobo (pos fields.destination_fee_kobo)
        shares.platform_share_kobo amount (pos fields.amount_kobo)
        (calculate_split-sum amount rule.rider_percent rule.node_percent) refl)

split_entries-others :
    (id : ℕ) (fields : RecordRevenueSplitFields) (rule : RevenueSplitRule) (other : ℕ)
    → (fields.order_id == other) ≡ false
    → recorded_kobo other (split_entries id fields rule) ≡ pos 0
unfolding recorded_kobo
split_entries-others id fields rule other h =
    let amount = pos fields.amount_kobo -ℤ pos fields.destination_fee_kobo in
    let shares = calculate_split amount rule.rider_percent rule.node_percent in
    let order_id = fields.order_id in
    let (its, all_of) = carrier_entry-kobo id fields rule.id shares.rider_share_kobo in
    rw
      (
        its_kobo-other other (carrier_entry id fields rule.id shares.rider_share_kobo) (rw its h),
        its_kobo-other other
            (new_entry (id + 1) order_id rule.id node (some fields.origin_node_id)
              shares.node_share_kobo)
            h,
        its_kobo-other other
            (new_entry (id + 2) order_id rule.id destination_node (some fields.destination_node_id)
              (pos fields.destination_fee_kobo))
            h,
        its_kobo-other other
            (new_entry (id + 3) order_id rule.id platform none shares.platform_share_kobo) h,
      )
      no_money

-- Once a split is recorded, the books have the order's whole price more for the order, and the same
-- as before for every other order; only a missing rule makes it throw, and then nothing is written.
pub record_split-accounts :
    (now : ℕ) (fields : RecordRevenueSplitFields) (s : EarningsTables)
    → let (r, s') = record_split now fields s in
      ((r ≡ ok tt)
        × (recorded_kobo fields.order_id s'.entries
            ≡ recorded_kobo fields.order_id s.entries +ℤ pos fields.amount_kobo)
        × ((other : ℕ)
            → (fields.order_id == other) ≡ false
            → recorded_kobo other s'.entries ≡ recorded_kobo other s.entries))
      ⊎ ((r ≡ err revenue_split_not_configured)
          × (s' ≡ s)
          × ((q : RevenueSplitRule) → Row q s.rules → now < q.effective_from))
unfolding record_split
record_split-accounts now fields s = elim (current_rule-latest now s.rules) [
  | inl (e, later) ↦ inr (rw e (refl, refl, later))
  | inr (rule, e, w, le, top) ↦
      let added = split_entries s.next_id fields rule in
      inl (
        rw e (
          refl,
          recorded_kobo-append fields.order_id s.entries added
              ∙ ap (λ t. recorded_kobo fields.order_id s.entries +ℤ t)
                  (split_entries-total s.next_id fields rule),
          λ other h.
              recorded_kobo-append other s.entries added
              ∙ (rw (split_entries-others s.next_id fields rule other h)
                  (let r = recorded_kobo other s.entries in omega int_laws)),
        ))
]
