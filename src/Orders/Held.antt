-- ===== src/Orders/Held.antt =====
-- Where a parcel is: each order's shelf columns follow its status, and no two share a place.
use locoomo_api.Base.{
  ℕ, ◌≡◌, refl, sym, ◌∙◌, ap, Bool, true, Option, none, some, if◌then◌else◌, inl, inr, Bool-cases,
  Row, Row-update_where, is_none,
}
use locoomo_api.Orders.{
  OrderStatus, OrderEventType, Order, OrderEvent, OrdersTables, CreateOrderFields, is_on_shelf,
}
use locoomo_api.Orders.Effects.{moved}
use locoomo_api.Orders.Trail.{IsMove}

-- The Node on whose shelf a parcel of this status stands.
abbrev pub shelf_home : OrderStatus → CreateOrderFields → Option ℕ
shelf_home OrderStatus.parcel_received_at_origin placed = some placed.origin_node_id
shelf_home OrderStatus.rider_assigned placed = some placed.origin_node_id
shelf_home OrderStatus.ready_for_collection placed = some placed.destination_node_id
shelf_home OrderStatus.ready_for_sender_collection placed = some placed.origin_node_id
shelf_home _ _ = none

pub record IsHeld (s : OrdersTables) : Type 0 where
  pub home : (o : Order) → Row o s.orders → o.shelf_node_id ≡ shelf_home o.status o.placed
  pub paired : (o : Order) → Row o s.orders → is_none o.shelf_number ≡ is_none o.shelf_node_id
  pub slots :
      (o p : Order) (node_id n : ℕ)
      → Row o s.orders
      → Row p s.orders
      → is_on_shelf node_id n o ≡ true
      → is_on_shelf node_id n p ≡ true
      → o.id ≡ p.id

-- A move that keeps the shelf columns, between statuses with one home.
module _ {p : Order → Bool} {f : Order → Order} {id : ℕ} {from to : OrderStatus}
    {type : OrderEventType} (event : OrderEvent) (m : IsMove p f id from to type)
    (same_home : (placed : CreateOrderFields) → shelf_home to placed ≡ shelf_home from placed)
    (same_node : (a : Order) → (f a).shelf_node_id ≡ a.shelf_node_id)
    (same_number : (a : Order) → (f a).shelf_number ≡ a.shelf_number) (s : OrdersTables)
    (v : IsHeld s) where
  kept :
      (a : Order)
      → let b = if p a then f a else a in
        (b.id ≡ a.id) × (b.shelf_node_id ≡ a.shelf_node_id) × (b.shelf_number ≡ a.shelf_number)
  kept a = elim (Bool-cases (p a)) [
    | inl t ↦ rw t (m.same_id a, same_node a, same_number a)
    | inr n ↦ rw n (refl, refl, refl)
  ]

  homes :
      (a : Order)
      → Row a s.orders
      → let b = if p a then f a else a in b.shelf_node_id ≡ shelf_home b.status b.placed
  homes a r = elim (Bool-cases (p a)) [
    | inl t ↦
        rw (t, m.goes a, m.same_placed a, same_home a.placed, same_node a, v.home a r)
          (ap (λ st. shelf_home st a.placed) (m.chosen a t).1)
    | inr n ↦ rw n (v.home a r)
  ]

  shelf_kept :
      (node_id n : ℕ) (a : Order)
      → is_on_shelf node_id n (if p a then f a else a) ≡ is_on_shelf node_id n a
  shelf_kept node_id n a = let (_, x, y) = kept a in rw (x, y)

  pub moved-IsHeld : IsHeld (moved p f event s)
  moved-IsHeld = record {
    home = λ b q. let (a, r, e) = Row-update_where p f s.orders q in rw e (homes a r);
    paired = λ b q.
        let (a, r, e) = Row-update_where p f s.orders q in
        let (_, x, y) = kept a in rw e (rw (x, y) (v.paired a r));
    slots = λ b c node_id n q u on_b on_c.
        let (a, r, eb) = Row-update_where p f s.orders q in
        let (d, w, ec) = Row-update_where p f s.orders u in
        ap (λ o. o.id) eb
        ∙ (kept a).0
        ∙ v.slots a d node_id n r w
            (sym (shelf_kept node_id n a) ∙ sym (ap (is_on_shelf node_id n) eb) ∙ on_b)
            (sym (shelf_kept node_id n d) ∙ sym (ap (is_on_shelf node_id n) ec) ∙ on_c)
        ∙ sym (ap (λ o. o.id) ec ∙ (kept d).0);
  }
