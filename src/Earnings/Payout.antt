-- ===== src/Earnings/Payout.antt =====
-- The settling of entries, over every order of the calls of the earnings services.
use locoomo_api.Base.{
  ℕ, ◌≡◌, refl, ap, sym, subst, ◌∙◌, none, some, List, [], ◌∷◌, arith, ◌==◌, ==_iff, find,
  update_where, Row-update_where, Row-find, inl, inr, Bool-cases, Option-cases,
}
use locoomo_api.Effect.{ok, err, transaction, entity_not_found, revenue_split_not_payable}
use locoomo_api.Earnings.{
  EarningsTables, RevenueSplitEntry, RecordRevenueSplitFields, PayoutStatus, pending, paid,
  not_payable, create_rule, record_split, mark_paid, mark_read, settle,
}
-- One call of the three services, with its time.
use locoomo_api.Earnings.Payable.{is_unpayable, IsValid, record_split-IsValid, create_rule-IsValid}

pub data Call : Type 0 where
  create : ℕ → ℕ → ℕ → ℕ → ℕ → Call
  split : ℕ → RecordRevenueSplitFields → Call
  mark : ℕ → ℕ → ℕ → Call

unfoldable pub after_call : Call → EarningsTables → EarningsTables
after_call (create now r n p admin_id) s = (transaction (create_rule now r n p admin_id) s).1
after_call (split now fields) s = (transaction (record_split now fields) s).1
after_call (mark now entry_id admin_id) s = (mark_paid now entry_id admin_id s).1

pub data Reachable : EarningsTables → Type 0 where
  start : Reachable (record { rules = []; entries = []; next_id = 0 })
  step : {s : EarningsTables} → Reachable s → (c : Call) → Reachable (after_call c s)

-- What mark_paid does to an entry that it finds.
data Marks (s : EarningsTables) (now admin_id : ℕ) (a : RevenueSplitEntry) : Type 0 where
  refused : a.payout_status ≡ not_payable → Marks s now admin_id a
  was_paid : a.payout_status ≡ paid → Marks s now admin_id a
  settles : a.payout_status ≡ pending → Marks s now admin_id a

marks : (s : EarningsTables) (now admin_id : ℕ) (a : RevenueSplitEntry) → Marks s now admin_id a
marks s now admin_id a = go a.payout_status refl
  where
    go : (p : PayoutStatus) → a.payout_status ≡ p → Marks s now admin_id a
    go pending e = settles e
    go paid e = was_paid e
    go not_payable e = refused e

mark_paid-IsValid :
    (now entry_id admin_id : ℕ) (s : EarningsTables)
    → IsValid s
    → IsValid ((mark_paid now entry_id admin_id s).1)
unfolding mark_paid
mark_paid-IsValid now entry_id admin_id s v =
    elim (Option-cases (find (λ e. e.id == entry_id) s.entries)) [
      | inl e ↦ rw e v
      | inr (a, e) ↦
          let (r, h) = Row-find (λ x. x.id == entry_id) s.entries e in
          let old = v.settled a r in
          elim (marks s now admin_id a) [
            | refused p ↦ rw (e, p) v
            | was_paid p ↦ rw (e, p) v
            | settles p ↦
                rw (e, p)
                  (record {
                    settled = λ b w.
                        let (c, q, k) =
                          Row-update_where (λ x. x.id == a.id) (λ x. settle now admin_id a)
                            s.entries w in
                        elim (Bool-cases (c.id == a.id)) [
                          | inl t ↦
                              rw (k, t)
                                (record {
                                  courier = old.courier ∙ ap is_unpayable p;
                                  at = refl;
                                  by = refl;
                                })
                          | inr f ↦ rw (k, f) (v.settled c q)
                        ];
                    whole = v.whole;
                  })
          ]
    ]

-- In every reachable state the percentages of each rule sum to 100, an entry is unpayable just when
-- it is a courier's allocation, and it has a time of payment and an Admin who paid it just when it
-- is paid.
pub Reachable-IsValid : {s : EarningsTables} → Reachable s → IsValid s
unfolding after_call
Reachable-IsValid start = record { settled = λ e r. elim r [ ]; whole = λ r w. elim w [ ] }
Reachable-IsValid (step {s} r (create now a b c admin_id)) =
    create_rule-IsValid now a b c admin_id s (Reachable-IsValid r)
Reachable-IsValid (step {s} r (split now fields)) =
    record_split-IsValid now fields s (Reachable-IsValid r)
Reachable-IsValid (step {s} r (mark now entry_id admin_id)) =
    mark_paid-IsValid now entry_id admin_id s (Reachable-IsValid r)

find-update :
    (k : ℕ) (c : RevenueSplitEntry) (xs : List RevenueSplitEntry) {a : RevenueSplitEntry}
    → c.id ≡ k
    → find (λ x. x.id == k) xs ≡ some a
    → find (λ x. x.id == k) (update_where (λ x. x.id == k) (λ x. c) xs) ≡ some c
find-update k c [] h e = cc
find-update k c (x ∷ xs) {a} h e = elim (Bool-cases (x.id == k)) [
  | inl t ↦ rw (t, (==_iff c.id k).1 h) refl
  | inr f ↦ rw (f, f) (find-update k c xs {a = a} h (ground (arith, e, f)))
]

missing-marks :
    (now entry_id admin_id : ℕ) (s : EarningsTables)
    → find (λ x. x.id == entry_id) s.entries ≡ none
    → mark_paid now entry_id admin_id s ≡ (err entity_not_found, s)
unfolding mark_paid
missing-marks now entry_id admin_id s f = rw f refl

found-marks :
    (now entry_id admin_id : ℕ) (s : EarningsTables) {a : RevenueSplitEntry}
    → find (λ x. x.id == entry_id) s.entries ≡ some a
    → mark_paid now entry_id admin_id s ≡ mark_read now admin_id a s
unfolding mark_paid
found-marks now entry_id admin_id s f = rw f refl

-- A paid entry that is found is returned as it is.
paid-marks :
    (now entry_id admin_id : ℕ) (s : EarningsTables) {a : RevenueSplitEntry}
    → find (λ x. x.id == entry_id) s.entries ≡ some a
    → a.payout_status ≡ paid
    → mark_paid now entry_id admin_id s ≡ (ok a, s)
paid-marks now entry_id admin_id s f p = found-marks now entry_id admin_id s f ∙ rw p refl

-- Whoever marks an entry paid, and whenever, it is paid then, and marking it again, by any Admin at
-- any time, changes nothing and returns the entry as the first one left it.
pub mark_paid-once :
    (now entry_id admin_id : ℕ) (s : EarningsTables) {e : RevenueSplitEntry} {s' : EarningsTables}
    → mark_paid now entry_id admin_id s ≡ (ok e, s')
    → (e.payout_status ≡ paid)
      × (e.id ≡ entry_id)
      × ((later other : ℕ) → mark_paid later entry_id other s' ≡ (ok e, s'))
mark_paid-once now entry_id admin_id s {e} {s'} ran =
    elim (Option-cases (find (λ x. x.id == entry_id) s.entries)) [
      | inl f ↦ let gone = missing-marks now entry_id admin_id s f in cc
      | inr (a, f) ↦
          let (r, h) = Row-find (λ x. x.id == entry_id) s.entries f in
          let its = (==_iff a.id entry_id).0 h in
          let read = sym (found-marks now entry_id admin_id s f) ∙ ran in
          elim (marks s now admin_id a) [
            | refused p ↦
                let no : mark_read now admin_id a s ≡ (err revenue_split_not_payable, s) =
                  rw p refl in
                cc
            | was_paid p ↦
                let yes : mark_read now admin_id a s ≡ (ok a, s) = rw p refl in
                let same : a ≡ e = cc in
                let kept : s ≡ s' = cc in
                (
                  rw (sym same) p,
                  rw (sym same) its,
                  λ later other. rw (sym kept, sym same) (paid-marks later entry_id other s f p),
                )
            | settles p ↦
                let saved = settle now admin_id a in
                let t = record s {
                  entries = update_where (λ x. x.id == a.id) (λ x. saved) s.entries;
                } in
                let yes : mark_read now admin_id a s ≡ (ok saved, t) = rw p refl in
                let same : saved ≡ e = cc in
                let kept : t ≡ s' = cc in
                let again : find (λ x. x.id == entry_id) t.entries ≡ some saved =
                  subst (λ k. find (λ x. x.id == k) t.entries ≡ some saved) its
                    (find-update a.id saved s.entries refl
                      (subst (λ k. find (λ x. x.id == k) s.entries ≡ some a) (sym its) f)) in
                (
                  rw (sym same) refl,
                  rw (sym same) its,
                  λ later other.
                      rw (sym kept, sym same) (paid-marks later entry_id other t again refl),
                )
          ]
    ]
