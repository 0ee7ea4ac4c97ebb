-- ===== src/Earnings/Split.antt =====
-- The shares of calculateSplit, and the rule that `record` reads.
use locoomo_api.Base.{
  ℕ, ◌+◌, ◌*◌, ◌/◌, ◌≤◌, ◌<◌, ◌-◌, ◌⊎◌, ap, refl, ◌≡◌, none, some, List, [], ◌∷◌, arith, leb, Row,
  here, there, inl, inr, Bool-cases, ℤ, pos, ◌+ℤ◌, ◌-ℤ◌, percent_of, int_laws,
}
use locoomo_api.Earnings.{calculate_split, current_rule, RevenueSplitRule}

-- The three shares are the amount, exactly, whatever its sign and the percentages are.
pub calculate_split-sum :
    (amount : ℤ) (rider_percent node_percent : ℕ)
    → let shares = calculate_split amount rider_percent node_percent in
      shares.rider_share_kobo +ℤ shares.node_share_kobo +ℤ shares.platform_share_kobo ≡ amount
unfolding calculate_split
calculate_split-sum amount rider_percent node_percent =
    let r = percent_of amount rider_percent in
    let n = percent_of amount node_percent in omega int_laws

div_bounds : (m : ℕ) → (100 * (m / 100) ≤ m) × (m ≤ 100 * (m / 100) + 99)
div_bounds m = (omega arith, omega arith)

-- Shares of an amount that is not negative, by percentages that leave the platform something, are
-- not negative, and none is more than its percentage of the amount but the platform's, which is
-- less than two kobo above it.
pub calculate_split-bounds :
    (amount rider_percent node_percent platform_percent : ℕ)
    → rider_percent + node_percent + platform_percent ≡ 100
    → let shares = calculate_split (pos amount) rider_percent node_percent in
      (r : ℕ) × (n : ℕ) × (p : ℕ) × (shares.rider_share_kobo ≡ pos r)
      × (shares.node_share_kobo ≡ pos n)
      × (shares.platform_share_kobo ≡ pos p)
      × (100 * r ≤ amount * rider_percent)
      × (100 * n ≤ amount * node_percent)
      × (amount * platform_percent ≤ 100 * p)
      × (100 * p ≤ amount * platform_percent + 198)
unfolding calculate_split percent_of ◌-ℤ◌
calculate_split-bounds amount rider_percent node_percent platform_percent sum =
    let r = amount * rider_percent / 100 in
    let n = amount * node_percent / 100 in
    let whole = ap (λ t. amount * t) sum in
    let (hr, kr) = div_bounds (amount * rider_percent) in
    let (hn, kn) = div_bounds (amount * node_percent) in
    (r, n, amount - r - n, refl, refl, ground arith, hr, hn, omega arith, omega arith)

-- The rule that applies now: of those in effect, one that no other is later than; there is none
-- only if none is in effect.
pub current_rule-latest :
    (now : ℕ) (rules : List RevenueSplitRule)
    → ((current_rule now rules ≡ none)
        × ((q : RevenueSplitRule) → Row q rules → now < q.effective_from))
      ⊎ ((r : RevenueSplitRule) × (current_rule now rules ≡ some r)
          × Row r rules
          × (r.effective_from ≤ now)
          × ((q : RevenueSplitRule)
              → Row q rules
              → q.effective_from ≤ now
              → q.effective_from ≤ r.effective_from))
unfolding current_rule
current_rule-latest now [] = inl (refl, λ q r. elim r [ ])
current_rule-latest now (x ∷ xs) = elim (current_rule-latest now xs) [
  | inl (e, later) ↦ elim (Bool-cases (leb x.effective_from now)) [
    | inl h ↦ inr (
      x,
      rw (h, e) refl,
      here refl,
      ground (arith, h),
      λ q w k. elim w [ here same ↦ rw same (omega arith) | there w' ↦ omega (arith, later q w') ],
    )
    | inr h ↦ inl (
      rw (h, e) refl,
      λ q w. elim w [ here same ↦ rw same (ground (arith, h)) | there w' ↦ later q w' ],
    )
  ]
  | inr (r, e, w, le, top) ↦ elim (Bool-cases (leb x.effective_from now)) [
    | inr h ↦ inr (
      r,
      rw (h, e) refl,
      there w,
      le,
      λ q v k. elim v [ here same ↦ ground (arith, h, same, k) | there v' ↦ top q v' k ],
    )
    | inl h ↦ elim (Bool-cases (leb r.effective_from x.effective_from)) [
      | inl first ↦ inr (
        x,
        rw (h, e, first) refl,
        here refl,
        ground (arith, h),
        λ q v k. elim v [
          | here same ↦ rw same (omega arith)
          | there v' ↦ ground (arith, first, top q v' k)
        ],
      )
      | inr second ↦ inr (
        r,
        rw (h, e, second) refl,
        there w,
        le,
        λ q v k. elim v [ here same ↦ rw same (ground (arith, second)) | there v' ↦ top q v' k ],
      )
    ]
  ]
]
