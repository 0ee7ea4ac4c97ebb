-- ===== src/Handoffs/Confirm/Collected.antt =====
-- The collection of a parcel by its receiver: the order and the books change together.
use locoomo_api.Base.{
  ⊤, ℕ, ◌≡◌, refl, sym, ap, ◌∙◌, subst, Bool, Option, none, some, any, Row, ◌⊎◌, inl, inr,
  Bool-cases, pos, ◌+ℤ◌,
}
use locoomo_api.Effect.{ok, pure, ◌>>=◌, ◌>>◌, run-cases, >>=-eq-ok, >>=_ok, >>=_err, >>=_quiet}
use locoomo_api.Orders.{Order, completed, identity_confirmed, mark_collected}
use locoomo_api.Orders.Along.{IsUnique, collected-Along}
use locoomo_api.Earnings.{EarningsTables, RecordRevenueSplitFields, record_split}
use locoomo_api.Earnings.Record.{recorded_kobo, record_split-accounts}
use locoomo_api.Handoffs.Codes.{receiver_collection, validate}
use locoomo_api.Database.{
  Database, Db, on_orders, on_codes, on_earnings, opened, is_key, keyed, close, once, once-used,
  once_err, once_ok,
}
use locoomo_api.Delivery.Agrees.{AreAt}
use locoomo_api.Handoffs.Confirm.{
  Desk, collect, confirm_collection, collection_scope, answer, split_fields,
  assert_destination_node_ownership,
}

-- Neither the orders nor the books are changed.
abbrev pub IsUntouched : Database → Database → Type 0
IsUntouched s t = (t.orders ≡ s.orders) × (t.earnings ≡ s.earnings)

-- The order is complete, and the books have its whole price more for it.
abbrev pub IsPaidOut : ℕ → Database → Database → Type 0
IsPaidOut order_id s t =
    (o : Order) × Row o s.orders.orders
    × (o.id ≡ order_id)
    × AreAt order_id completed t.orders.orders
    × (recorded_kobo order_id t.earnings.entries
        ≡ recorded_kobo order_id s.earnings.entries +ℤ pos o.placed.amount_kobo)

split-recorded :
    (now : ℕ) (fields : RecordRevenueSplitFields) (s t : EarningsTables)
    → record_split now fields s ≡ (ok tt, t)
    → recorded_kobo fields.order_id t.entries
      ≡ recorded_kobo fields.order_id s.entries +ℤ pos fields.amount_kobo
split-recorded now fields s t ran = elim (record_split-accounts now fields s) [
  | inl (r, sum, _) ↦ ap (λ o. recorded_kobo fields.order_id o.1.entries) (sym ran) ∙ sum
  | inr (r, _, _) ↦ cc (r, ap (λ o. o.0) ran)
]

module _ (desk : Desk) (order_id code : ℕ) (identity : Bool) where
  abbrev marking : Db Order
  marking = on_orders (mark_collected order_id (identity_confirmed identity))

  abbrev recording : Order → Db (Option Order)
  recording order =
      on_earnings (record_split desk.now (split_fields desk order)) >> pure (some order)

  -- What the body does when it returns.
  collect-IsPaidOut :
      (s t : Database) (answered : Option Order)
      → IsUnique s.orders
      → collect desk order_id code identity s ≡ (ok answered, t)
      → IsPaidOut order_id s t
  unfolding collect
  collect-IsPaidOut s t answered unique e =
      let (_, s₁, checked, e₁) =
        >>=-eq-ok (on_codes (validate desk.hash desk.now order_id receiver_collection code))
          (λ _. marking >>= recording) s e in
      let (order, s₂, marked, e₂) = >>=-eq-ok marking recording s₁ e₁ in
      let (_, s₃, written, e₃) =
        >>=-eq-ok (on_earnings (record_split desk.now (split_fields desk order)))
          (λ _. pure (some order)) s₂ e₂ in
      let orders₁ : s.orders ≡ s₁.orders = ap (λ o. o.1.orders) checked in
      let books₁ : s.earnings ≡ s₁.earnings = ap (λ o. o.1.earnings) checked in
      let books₂ : s₁.earnings ≡ s₂.earnings = ap (λ o. o.1.earnings) marked in
      let orders₃ : s₂.orders ≡ t.orders = ap (λ o. o.1.orders) written ∙ ap (λ o. o.1.orders) e₃ in
      let ran : mark_collected order_id (identity_confirmed identity) s₁.orders
          ≡ (ok order, s₂.orders) =
        ap (λ o. (o.0, o.1.orders)) marked in
      let recorded : record_split desk.now (split_fields desk order) s₂.earnings
          ≡ (ok tt, t.earnings) =
        ap (λ o. (o.0, o.1.earnings)) written ∙ ap (λ b. (ok tt, b)) (ap (λ o. o.1.earnings) e₃) in
      let (along, own, (a, r, same, placed)) =
        collected-Along order_id (identity_confirmed identity) s₁.orders
          (subst IsUnique orders₁ unique) ran in
      (
        a,
        subst (λ o. Row a o.orders) (sym orders₁) r,
        same,
        subst (λ o. AreAt order_id completed o.orders) orders₃
            (λ o q h. let (_, _, _, on, _) = along o q in on h),
        subst
            (λ id.
              recorded_kobo id t.earnings.entries
              ≡ recorded_kobo id s.earnings.entries +ℤ pos a.placed.amount_kobo)
            own
            (split-recorded desk.now (split_fields desk order) s₂.earnings t.earnings recorded
              ∙ ap (λ b. recorded_kobo order.id b.entries +ℤ pos order.placed.amount_kobo)
                  (sym (books₁ ∙ books₂))
              ∙ ap (λ f. recorded_kobo order.id s.earnings.entries +ℤ pos f.amount_kobo) placed),
      )

  abbrev body : Db (Option Order)
  body = collect desk order_id code identity

  -- What the transaction leaves.
  once-IsPaidOut :
      (s : Database)
      → IsUnique s.orders
      → let t = (once collection_scope order_id body s).1 in
        IsUntouched s t ⊎ IsPaidOut order_id s t
  once-IsPaidOut s unique = elim (Bool-cases (any (is_key collection_scope order_id) s.keys)) [
    | inl h ↦
        subst (λ o. IsUntouched s (o.1) ⊎ IsPaidOut order_id s (o.1))
          (sym (once-used collection_scope order_id body s h)) (inl (refl, refl))
    | inr f ↦ elim (run-cases (body (keyed collection_scope order_id (opened s)))) [
      | inl (e, t, ran) ↦
          subst (λ o. IsUntouched s (o.1) ⊎ IsPaidOut order_id s (o.1))
            (sym (once_err collection_scope order_id body s f ran)) (inl (refl, refl))
      | inr (a, t, ran) ↦
          subst (λ o. IsUntouched s (o.1) ⊎ IsPaidOut order_id s (o.1))
            (sym (once_ok collection_scope order_id body s f ran))
            (closed a t
              (collect-IsPaidOut (keyed collection_scope order_id (opened s)) t a unique ran))
    ]
  ]
    where
      closed :
          (a : Option Order) (t : Database)
          → IsPaidOut order_id s t
          → let u = (close s (ok (some a), t)).1 in IsUntouched s u ⊎ IsPaidOut order_id s u
      closed a t paid = elim (Bool-cases t.orders.aborted) [
        | inl y ↦ rw y (inl (refl, refl))
        | inr n ↦ rw n (inr paid)
      ]

  -- However a collection ends, whether its code is wrong, the step was confirmed before, a rule is
  -- missing or all goes well, the order and the books change together or not at all: the order is
  -- complete, and the books have its whole price more for it, or both are as they were.
  pub confirm_collection-whole :
      (user_id : ℕ) (s : Database)
      → IsUnique s.orders
      → let t = (confirm_collection desk order_id user_id code identity s).1 in
        IsUntouched s t ⊎ IsPaidOut order_id s t
  unfolding confirm_collection assert_destination_node_ownership
  confirm_collection-whole user_id s unique = elim (run-cases (asserting s)) [
    | inl (e, t, ran) ↦
        let stays : s ≡ t = ap (λ o. o.1) ran in
        subst (λ o. IsUntouched s (o.1) ⊎ IsPaidOut order_id s (o.1))
          (sym (>>=_err asserting (λ _. answered) s ran))
          (subst (λ u. IsUntouched s u ⊎ IsPaidOut order_id s u) stays (inl (refl, refl)))
    | inr (a, t, ran) ↦
        let stays : s ≡ t = ap (λ o. o.1) ran in
        let left : (once collection_scope order_id body s).1 ≡ (answered t).1 =
          sym (>>=_quiet (once collection_scope order_id body) (answer desk order_id) s reading)
          ∙ ap (λ u. (answered u).1) stays in
        subst (λ o. IsUntouched s (o.1) ⊎ IsPaidOut order_id s (o.1))
          (sym (>>=_ok asserting (λ _. answered) s ran))
          (subst (λ u. IsUntouched s u ⊎ IsPaidOut order_id s u) left (once-IsPaidOut s unique))
  ]
    where
      asserting : Db ⊤
      asserting = assert_destination_node_ownership desk order_id user_id

      answered : Db (Option Order)
      answered = once collection_scope order_id body >>= answer desk order_id

      reading :
          (found : Option (Option Order)) (u : Database) → (answer desk order_id found u).1 ≡ u
      reading none u = refl
      reading (some o) u = refl
