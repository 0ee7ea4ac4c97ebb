-- ===== src/Orders/Create.antt =====
-- `createFromPaidIntent`: the new row, and why a second attempt at a tracking code cannot succeed.
use locoomo_api.Base.{
  ℕ, zero, suc, ◌≡◌, refl, true, false, [], ◌∷◌, ◌++◌, arith, ◌==◌, any, Row, Row-append_one, ap,
  sym, ◌∙◌, inl, inr,
}
use locoomo_api.Effect.{Result, ok, err, transaction_aborted, ◌>>=◌, ◌>>◌, pure}
use locoomo_api.Orders.{
  Order, OrdersTables, Orders, CreateOrderFields, Text, save_with_tracking_code,
  create_from_paid_intent, new_order, collides, append_event, order_placed, placed_for, OrderEvent,
  awaiting_drop_off, is_on_shelf,
}
use locoomo_api.Orders.Code.{generate_tracking_code}
use locoomo_api.Orders.Effects.{event_row}
use locoomo_api.Orders.Trail.{IsTrailed, id-lt-next_id, replay, replay-append, reached, advance}
use locoomo_api.Orders.Held.{IsHeld}

abbrev pub inserted : CreateOrderFields → Text → OrdersTables → OrdersTables
inserted fields code s = record s {
  orders = s.orders ++ new_order s.next_id fields code ∷ [];
  next_id = suc s.next_id;
}

abbrev pub created : CreateOrderFields → Text → OrdersTables → OrdersTables
created fields code s = record s {
  orders = s.orders ++ new_order s.next_id fields code ∷ [];
  order_events =
      s.order_events
      ++ event_row s.next_id order_placed (placed_for fields.payment_intent_id fields.amount_kobo)
        ∷ [];
  next_id = suc s.next_id;
}

module _ (draw : ℕ → ℕ → ℕ) (fields : CreateOrderFields) where
  -- Once a statement has failed no attempt returns.
  save_aborted :
      (attempt left : ℕ) (s : OrdersTables)
      → s.aborted ≡ true
      → save_with_tracking_code draw fields attempt left s ≡ (err transaction_aborted, s)
  unfolding save_with_tracking_code
  save_aborted attempt zero s h = ground arith
  save_aborted attempt (suc left) s h = ground arith

  save-inserted :
      (attempt left : ℕ) (s : OrdersTables) {order : Order} {s' : OrdersTables}
      → save_with_tracking_code draw fields attempt left s ≡ (ok order, s')
      → let code = generate_tracking_code (draw attempt) in
        (s.aborted ≡ false)
        × (any (collides fields code) s.orders ≡ false)
        × (order ≡ new_order s.next_id fields code)
        × (s' ≡ inserted fields code s)
  unfolding save_with_tracking_code
  save-inserted attempt zero s e = ground arith
  save-inserted attempt (suc left) s e =
      ground (arith, save_aborted (suc attempt) left (record s { aborted = true }) refl)

  pub create-created :
      (s : OrdersTables) {order : Order} {s' : OrdersTables}
      → create_from_paid_intent draw fields s ≡ (ok order, s')
      → let code = generate_tracking_code (draw 1) in
        (any (collides fields code) s.orders ≡ false)
        × (order ≡ new_order s.next_id fields code)
        × (s' ≡ created fields code s)
  unfolding create_from_paid_intent
  create-created s {order} {s'} e = go (save_with_tracking_code draw fields 1 4 s) refl e
    where
      rest : Order → Orders Order
      rest order =
          append_event order.id order_placed
            (placed_for fields.payment_intent_id fields.amount_kobo)
          >> pure order

      go :
          (out : Result Order × OrdersTables)
          → save_with_tracking_code draw fields 1 4 s ≡ out
          → ((λ (st : OrdersTables). out) >>= rest) s ≡ (ok order, s')
          → let code = generate_tracking_code (draw 1) in
            (any (collides fields code) s.orders ≡ false)
            × (order ≡ new_order s.next_id fields code)
            × (s' ≡ created fields code s)
      go (ok o, s₁) saved e' =
          let (fine, free, o_is, s_is) = save-inserted 1 4 s saved in
          (free, ground (arith, o_is, e'), ground (arith, o_is, s_is, e'))
      go (err x, s₁) saved e' = cc

  -- A collision of the first code fails the whole call, whatever the later codes are.
  pub collision_aborts :
      (s : OrdersTables)
      → s.aborted ≡ false
      → any (collides fields (generate_tracking_code (draw 1))) s.orders ≡ true
      → (create_from_paid_intent draw fields s).0 ≡ err transaction_aborted
  unfolding create_from_paid_intent save_with_tracking_code
  collision_aborts s fine h = ground (arith, save_aborted 2 3 (record s { aborted = true }) refl)

-- A new order starts its trail, under an id that no event had.
module _ (fields : CreateOrderFields) (code : Text) (s : OrdersTables) where
  abbrev placed_event : OrderEvent
  placed_event =
      event_row s.next_id order_placed (placed_for fields.payment_intent_id fields.amount_kobo)

  module _ (v : IsTrailed s) where
    old_trail :
        (id : ℕ)
        → (s.next_id == id) ≡ false
        → replay id (s.order_events ++ placed_event ∷ []) ≡ replay id s.order_events
    old_trail id differ = rw (replay-append id s.order_events placed_event, differ)

    new_trail : replay s.next_id (s.order_events ++ placed_event ∷ []) ≡ reached awaiting_drop_off
    unfolding advance
    new_trail =
        rw (replay-append s.next_id s.order_events placed_event, v.unused s.next_id (omega arith))
          (ground arith)

    is_old : (b : Order) → Row b s.orders → (s.next_id == b.id) ≡ false
    is_old b r = let low = id-lt-next_id s v b r in ground arith

    unique_new :
        (b c : Order)
        → Row b (created fields code s).orders
        → Row c (created fields code s).orders
        → b.id ≡ c.id
        → b.placed ≡ c.placed
    unique_new b c q u e = elim (Row-append_one s.orders q) [
      | inl r ↦ elim (Row-append_one s.orders u) [
        | inl w ↦ v.unique b c r w e
        | inr ec ↦
            let low = id-lt-next_id s v b r in
            let same : b.id ≡ s.next_id = e ∙ ap (λ o. o.id) ec in absurd (omega arith)
      ]
      | inr eb ↦ elim (Row-append_one s.orders u) [
        | inl w ↦
            let low = id-lt-next_id s v c w in
            let same : s.next_id ≡ c.id = sym (ap (λ o. o.id) eb) ∙ e in absurd (omega arith)
        | inr ec ↦ ap (λ o. o.placed) eb ∙ sym (ap (λ o. o.placed) ec)
      ]
    ]

    pub created-IsTrailed : IsTrailed (created fields code s)
    created-IsTrailed = record {
      trail = λ b q. elim (Row-append_one s.orders q) [
        | inl r ↦ old_trail b.id (is_old b r) ∙ v.trail b r
        | inr e ↦ rw e new_trail
      ];
      unused = λ i h. old_trail i (ground (arith, h)) ∙ v.unused i (omega arith);
      riders = λ b q. elim (Row-append_one s.orders q) [
        | inl r ↦ v.riders b r
        | inr e ↦ rw e (λ w. refl)
      ];
      unique = unique_new;
    }

  -- It stands on no shelf yet.
  pub created-IsHeld : IsHeld s → IsHeld (created fields code s)
  created-IsHeld v = record {
    home = λ b q. elim (Row-append_one s.orders q) [ inl r ↦ v.home b r | inr e ↦ rw e refl ];
    paired = λ b q. elim (Row-append_one s.orders q) [ inl r ↦ v.paired b r | inr e ↦ rw e refl ];
    slots = λ b c node_id n q u x y. elim (Row-append_one s.orders q) [
      | inl r ↦ elim (Row-append_one s.orders u) [
        | inl w ↦ v.slots b c node_id n r w x y
        | inr ec ↦ cc (y, ap (is_on_shelf node_id n) ec)
      ]
      | inr eb ↦ cc (x, ap (is_on_shelf node_id n) eb)
    ];
  }
