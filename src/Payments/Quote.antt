-- ===== src/Payments/Quote.antt =====
-- What a price says, and when there is one.
use locoomo_api.Base.{
  ℕ, ◌+◌, ◌≤◌, ◌<◌, ◌≡◌, refl, sym, ap, ◌∙◌, subst, Bool, true, false, not, ◌&&◌, Option, none,
  some, List, [], ◌∷◌, ◌==◌, leb, find, Row, here, there, Row-find, ◌⊎◌, inl, inr, Bool-cases,
  Option-cases, ==_iff, arith,
}
use locoomo_api.Effect.{
  Result, ok, err, entity_not_found, no_delivery_option, pricing_not_configured,
}
use locoomo_api.Orders.{Text}
use locoomo_api.Payments.{FeeBreakdown}
use locoomo_api.Payments.Pricing.{
  Arithmetic, PricingRule, QuoteNode, current_pricing_rule, priced, quote, calculate_fee, find_node,
  if_active,
}

-- The node is there, and active.
abbrev pub IsOpen : ℕ → List QuoteNode → QuoteNode → Type 0
IsOpen id nodes n = Row n nodes × (n.id ≡ id) × (n.is_active ≡ true)

find_node-IsOpen :
    (id : ℕ) (nodes : List QuoteNode) (n : QuoteNode)
    → find_node id nodes ≡ some n
    → IsOpen id nodes n
find_node-IsOpen id nodes n e = elim (Option-cases (find (λ n. n.id == id) nodes)) [
  | inl f ↦ cc (ap if_active f, e)
  | inr (m, f) ↦
      let (r, h) = Row-find (λ n. n.id == id) nodes f in
      let got : if_active (some m) ≡ some n = sym (ap if_active f) ∙ e in
      let (same, active) = opened m n got in
      subst (IsOpen id nodes) same (r, (==_iff m.id id).0 h, active)
]
  where
    opened : (m n : QuoteNode) → if_active (some m) ≡ some n → (m ≡ n) × (m.is_active ≡ true)
    opened m n h = ground arith

module _ {Km : Type 0} (a : Arithmetic Km) where
  -- The rule that is in force: no rule in force is newer.
  abbrev pub IsCurrent : ℕ → List (PricingRule Km) → PricingRule Km → Type 0
  IsCurrent now rules r =
      Row r rules
      × (r.effective_from ≤ now)
      × ((q : PricingRule Km)
          → Row q rules
          → q.effective_from ≤ now
          → q.effective_from ≤ r.effective_from)

  current_pricing_rule-cases :
      (now : ℕ) (rules : List (PricingRule Km))
      → ((current_pricing_rule a now rules ≡ none)
          × ((q : PricingRule Km) → Row q rules → now < q.effective_from))
        ⊎ ((r : PricingRule Km) × (current_pricing_rule a now rules ≡ some r)
            × IsCurrent now rules r)
  unfolding current_pricing_rule
  current_pricing_rule-cases now [] = inl (refl, λ q r. elim r [ ])
  current_pricing_rule-cases now (x ∷ xs) = elim (current_pricing_rule-cases now xs) [
    | inl (e, later) ↦ elim (Bool-cases (leb x.effective_from now)) [
      | inl h ↦ inr (
        x,
        rw (h, e) refl,
        (
          here refl,
          ground (arith, h),
          λ q w k. elim w [
            | here same ↦ rw same (omega arith)
            | there z ↦ omega (arith, later q z)
          ],
        ),
      )
      | inr h ↦ inl (
        rw (h, e) refl,
        λ q w. elim w [ here same ↦ rw same (ground (arith, h)) | there z ↦ later q z ],
      )
    ]
    | inr (r, e, (w, le, top)) ↦ elim (Bool-cases (leb x.effective_from now)) [
      | inr h ↦ inr (
        r,
        rw (h, e) refl,
        (
          there w,
          le,
          λ q v k. elim v [ here same ↦ ground (arith, h, same, k) | there z ↦ top q z k ],
        ),
      )
      | inl h ↦ elim (Bool-cases (leb r.effective_from x.effective_from)) [
        | inl newer ↦ inr (
          x,
          rw (h, e, newer) refl,
          (
            here refl,
            ground (arith, h),
            λ q v k. elim v [
              | here same ↦ rw same (omega arith)
              | there z ↦ let t = top q z k in ground (arith, newer, t)
            ],
          ),
        )
        | inr older ↦ inr (
          r,
          rw (h, e, older) refl,
          (
            there w,
            le,
            λ q v k. elim v [ here same ↦ ground (arith, older, same) | there z ↦ top q z k ],
          ),
        )
      ]
    ]
  ]

  calculate_fee-cases :
      (now : ℕ) (rules : List (PricingRule Km)) (straight : Km) (measured : Option ℕ) (cls : Text)
      → ((calculate_fee a now rules straight measured cls ≡ err pricing_not_configured)
          × ((q : PricingRule Km) → Row q rules → now < q.effective_from))
        ⊎ ((r : PricingRule Km) × IsCurrent now rules r
            × (calculate_fee a now rules straight measured cls
                ≡ ok (priced a r straight measured cls)))
  unfolding calculate_fee
  calculate_fee-cases now rules straight measured cls =
      elim (current_pricing_rule-cases now rules) [
        | inl (e, later) ↦ inl (rw (calculate_fee, e) refl, later)
        | inr (r, e, newest) ↦ inr (r, newest, rw (calculate_fee, e) refl)
      ]

  module _ (now : ℕ) (rules : List (PricingRule Km)) (nodes : List QuoteNode)
      (straight_km : QuoteNode → QuoteNode → Km) (measured : ℕ → ℕ → Option ℕ)
      (vehicle : Option Text) (servable : ℕ → Km → Text → Bool) (public_only : Bool)
      (origin_id destination_id : ℕ) where
    abbrev pub the_quote : Result FeeBreakdown
    the_quote =
        quote a now rules nodes straight_km measured vehicle servable public_only origin_id
          destination_id

    -- What stands behind a price.
    abbrev pub IsServed : FeeBreakdown → Type 0
    IsServed fee =
        (o : QuoteNode) × (d : QuoteNode) × (cls : Text) × (r : PricingRule Km) × IsOpen origin_id
          nodes o
        × IsOpen destination_id nodes d
        × (public_only ≡ true → (o.is_publicly_visible && d.is_publicly_visible) ≡ true)
        × (vehicle ≡ some cls)
        × (servable o.id (straight_km o d) cls ≡ true)
        × IsCurrent now rules r
        × (fee ≡ priced a r (straight_km o d) (measured o.id d.id) cls)

    -- A quote that is given is for two different or equal Nodes that are active, and public where
    -- the caller may only use public ones, for the vehicle chosen for the parcel, which a courier
    -- serves on this route; it is priced by the newest rule in force, and what is charged in all is
    -- the delivery fee plus the destination Node's fee.
    pub quote-priced :
        (fee : FeeBreakdown)
        → the_quote ≡ ok fee
        → IsServed fee × (fee.total_kobo ≡ fee.delivery_fee_kobo + fee.destination_fee_kobo)
    unfolding quote
    quote-priced fee e = elim (Option-cases (find_node origin_id nodes)) [
      | inl f ↦ let lost : the_quote ≡ err entity_not_found = rw (quote, f) refl in cc (lost, e)
      | inr (o, f) ↦ elim (Option-cases (find_node destination_id nodes)) [
        | inl g ↦
            let lost : the_quote ≡ err entity_not_found = rw (quote, f, g) refl in cc (lost, e)
        | inr (d, g) ↦ seen o d f g (Bool-cases (hidden o d))
      ]
    ]
      where
        hidden : QuoteNode → QuoteNode → Bool
        hidden o d = public_only && not (o.is_publicly_visible && d.is_publicly_visible)

        seen :
            (o d : QuoteNode)
            → find_node origin_id nodes ≡ some o
            → find_node destination_id nodes ≡ some d
            → ((public_only && not (o.is_publicly_visible && d.is_publicly_visible)) ≡ true)
              ⊎ ((public_only && not (o.is_publicly_visible && d.is_publicly_visible)) ≡ false)
            → IsServed fee × (fee.total_kobo ≡ fee.delivery_fee_kobo + fee.destination_fee_kobo)
        seen o d f g (inl t) =
            let lost : the_quote ≡ err entity_not_found = rw (quote, f, g, t) refl in cc (lost, e)
        seen o d f g (inr n) = elim (Option-cases vehicle) [
          | inl h ↦
              let lost : the_quote ≡ err no_delivery_option = rw (quote, f, g, n, h) refl in
              cc (lost, e)
          | inr (cls, h) ↦ elim (Bool-cases (servable o.id (straight_km o d) cls)) [
            | inr k ↦
                let lost : the_quote ≡ err no_delivery_option = rw (quote, f, g, n, h, k) refl in
                cc (lost, e)
            | inl k ↦
                let fare : Result FeeBreakdown =
                  calculate_fee a now rules (straight_km o d) (measured o.id d.id) cls in
                let asked : the_quote ≡ fare = rw (quote, f, g, n, h, k) refl in
                elim (calculate_fee-cases now rules (straight_km o d) (measured o.id d.id) cls) [
                  | inl (lost, _) ↦ cc (lost, asked, e)
                  | inr (r, newest, got) ↦
                      let whole : fee ≡ priced a r (straight_km o d) (measured o.id d.id) cls =
                        cc in
                      (
                        (
                          o,
                          d,
                          cls,
                          r,
                          find_node-IsOpen origin_id nodes o f,
                          find_node-IsOpen destination_id nodes d g,
                          λ p. ground (arith, n, p),
                          h,
                          k,
                          newest,
                          whole,
                        ),
                        rw whole refl,
                      )
                ]
          ]
        ]
