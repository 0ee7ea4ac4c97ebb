-- ===== src/Orders/Effects.antt =====
-- What a call of OrdersService that returns has done to the two tables.
use locoomo_api.Base.{
  ℕ, ◌≡◌, false, true, if◌then◌else◌, Row-update_where_of_Row, Bool, true, ◌&&◌, Option, none, some,
  [], ◌∷◌, ◌++◌, arith, ◌==◌, inl, inr, Bool-cases, is_none, head?, where_rows, where_rows-none,
  update_where, map, Row, Row-head?-map,
}
use locoomo_api.Effect.{ok, err, or_throw, pure, ◌>>=◌, ◌>>◌, illegal_order_transition, type_error}
use locoomo_api.Orders.{
  OrderStatus, OrderEventType, Order, OrderEvent, OrdersTables, Orders, EventPayload, is_legal,
  same_status, is_at, set_status, update_returning, append_event, assert_legal_transition,
  transition, assign_rider, mark_courier_released, courier_released, rider, place_on_shelf,
  clear_shelf, lowest_free_shelf,
}

abbrev pub event_row : ℕ → OrderEventType → EventPayload → OrderEvent
event_row id type payload = record { order_id = id; type = type; payload = payload }

-- The tables after the rows that `p` selects are changed by `f` and one event is appended.
abbrev pub moved : (Order → Bool) → (Order → Order) → OrderEvent → OrdersTables → OrdersTables
moved p f event s = record s {
  orders = update_where p f s.orders;
  order_events = s.order_events ++ event ∷ [];
}

-- A guarded update found the order in its `from` status, and moved it.
pub record Moved (p : Order → Bool) (f : Order → Order) (event : OrderEvent) (s : OrdersTables)
    (order : Order) (s' : OrdersTables) : Type 0 where
  pub source : Order
  pub found : Row source s.orders
  pub selected : p source ≡ true
  pub returned : order ≡ f source
  pub after : s' ≡ moved p f event s

-- The returned row stands in the table.
pub Moved-Row :
    (p : Order → Bool) (f : Order → Order) (event : OrderEvent) (s : OrdersTables) {order : Order}
    {s' : OrdersTables}
    → Moved p f event s order s'
    → Row order s'.orders
Moved-Row p f event s m =
    let kept : Row (if p m.source then f m.source else m.source) (update_where p f s.orders) =
      Row-update_where_of_Row p f m.found in
    let here : Row (f m.source) (update_where p f s.orders) = rw m.selected at kept in
    rw (m.after, m.returned) here

-- The end that the guarded updates share: the first row returned, or a throw; the event; the row.
finish :
    (rows : Option Order) (order_id : ℕ) (type : OrderEventType) (payload : EventPayload)
    (s : OrdersTables) {order : Order} {s' : OrdersTables}
    → (or_throw rows illegal_order_transition >>= λ order.
          append_event order_id type payload >> pure order)
        s
      ≡ (ok order, s')
    → (rows ≡ some order)
      × (s' ≡ record s { order_events = s.order_events ++ event_row order_id type payload ∷ [] })
unfolding append_event
finish none order_id type payload s e = ground arith
finish (some o) order_id type payload s e = ground arith

-- The guarded update that the transitions make once the edge is known to be legal.
abbrev guarded : (Order → Bool) → (Order → Order) → ℕ → OrderEventType → EventPayload → Orders Order
guarded p f order_id type payload = do
  rows ← update_returning p f
  order ← or_throw (head? rows) illegal_order_transition
  append_event order_id type payload
  pure order

guarded-Moved :
    (p : Order → Bool) (f : Order → Order) (order_id : ℕ) (type : OrderEventType)
    (payload : EventPayload) (s : OrdersTables) {order : Order} {s' : OrdersTables}
    → guarded p f order_id type payload s ≡ (ok order, s')
    → Moved p f (event_row order_id type payload) s order s'
unfolding update_returning
guarded-Moved p f order_id type payload s e =
    let (first, after) =
      finish (head? (map f (where_rows p s.orders))) order_id type payload
        (record s { orders = update_where p f s.orders }) e in
    let (a, r, h, k) = Row-head?-map p f s.orders first in
    record { source = a; found = r; selected = h; returned = k; after = after }

legal_first :
    (from to : OrderStatus) (m : Orders Order) (s : OrdersTables) {order : Order}
    {s' : OrdersTables}
    → (assert_legal_transition from to >> m) s ≡ (ok order, s')
    → (is_legal from to ≡ true) × (m s ≡ (ok order, s'))
unfolding assert_legal_transition
legal_first from to m s e = elim (Bool-cases (is_legal from to)) [
  | inl t ↦ (t, rw t at e)
  | inr n ↦ ground arith
]

module _ (order_id : ℕ) (from to : OrderStatus) (type : OrderEventType)
    (payload : EventPayload) where
  -- A transition that returns was legal, and found the order in `from`.
  pub transition-Moved :
      (s : OrdersTables) {order : Order} {s' : OrdersTables}
      → transition order_id from to type payload s ≡ (ok order, s')
      → (is_legal from to ≡ true)
        × Moved (is_at order_id from) (set_status to) (event_row order_id type payload) s order s'
  unfolding transition
  transition-Moved s e =
      let (legal, rest) =
        legal_first from to (guarded (is_at order_id from) (set_status to) order_id type payload) s
          e in
      (legal, guarded-Moved (is_at order_id from) (set_status to) order_id type payload s rest)

abbrev pub is_claimable : ℕ → Order → Bool
is_claimable order_id o =
    is_at order_id OrderStatus.parcel_received_at_origin o && is_none o.rider_id

abbrev pub claim : ℕ → Order → Order
claim rider_id o = record o { status = OrderStatus.rider_assigned; rider_id = some rider_id }

pub assign_rider-Moved :
    (order_id rider_id : ℕ) (s : OrdersTables) {order : Order} {s' : OrdersTables}
    → assign_rider order_id rider_id s ≡ (ok order, s')
    → Moved
        (is_claimable order_id)
        (claim rider_id)
        (event_row order_id OrderEventType.rider_assigned (rider rider_id))
        s
        order
        s'
unfolding assign_rider
assign_rider-Moved order_id rider_id s e =
    guarded-Moved (is_claimable order_id) (claim rider_id) order_id OrderEventType.rider_assigned
      (rider rider_id) s
      (legal_first OrderStatus.parcel_received_at_origin OrderStatus.rider_assigned
        (guarded (is_claimable order_id) (claim rider_id) order_id OrderEventType.rider_assigned
          (rider rider_id))
        s e).1

-- With nothing to claim a claim is refused, and writes nothing.
pub assign_rider-refused :
    (order_id rider_id : ℕ) (s : OrdersTables)
    → ((a : Order) → Row a s.orders → is_claimable order_id a ≡ false)
    → (assign_rider order_id rider_id s).0 ≡ err illegal_order_transition
unfolding assign_rider assert_legal_transition update_returning is_legal same_status
assign_rider-refused order_id rider_id s h = rw (where_rows-none (is_claimable order_id) s.orders h)

abbrev pub release : Order → Order
release o = record o { status = OrderStatus.parcel_received_at_origin; rider_id = none }

pub mark_courier_released-Moved :
    (order_id : ℕ) (payload : EventPayload) (s : OrdersTables) {order : Order} {s' : OrdersTables}
    → mark_courier_released order_id payload s ≡ (ok order, s')
    → Moved
        (is_at order_id OrderStatus.rider_assigned)
        release
        (event_row order_id courier_released payload)
        s
        order
        s'
unfolding mark_courier_released
mark_courier_released-Moved order_id payload s e =
    guarded-Moved (is_at order_id OrderStatus.rider_assigned) release order_id courier_released
      payload s
      (legal_first OrderStatus.rider_assigned OrderStatus.parcel_received_at_origin
        (guarded (is_at order_id OrderStatus.rider_assigned) release order_id courier_released
          payload)
        s e).1

-- The rows of one order, given the shelf place `node` and `number`.
abbrev pub shelve : ℕ → Option ℕ → Option ℕ → OrdersTables → OrdersTables
shelve id node number s = record s {
  orders =
      update_where (λ o. o.id == id) (λ o. record o { shelf_node_id = node; shelf_number = number })
        s.orders;
}

after_row :
    (row : Option Order) (answer : Order → Order) (s : OrdersTables) {order : Order}
    {s' : OrdersTables}
    → (or_throw row type_error >>= λ row. pure (answer row)) s ≡ (ok order, s')
    → s' ≡ s
after_row none answer s e = ground arith
after_row (some o) answer s e = ground arith

pub place_on_shelf-shelve :
    (order : Order) (node_id : ℕ) (s : OrdersTables) {order' : Order} {s' : OrdersTables}
    → place_on_shelf order node_id s ≡ (ok order', s')
    → s' ≡ shelve order.id (some node_id) (lowest_free_shelf node_id s.orders) s
unfolding place_on_shelf
place_on_shelf-shelve order node_id s e =
    let number = lowest_free_shelf node_id s.orders in
    let put : Order → Order =
      λ o. record o { shelf_node_id = some node_id; shelf_number = number } in
    after_row (head? (map put (where_rows (λ o. o.id == order.id) s.orders)))
      (λ row. record order { shelf_node_id = some node_id; shelf_number = row.shelf_number })
      (shelve order.id (some node_id) number s) e

pub clear_shelf-shelve :
    (order : Order) (s : OrdersTables) {order' : Order} {s' : OrdersTables}
    → clear_shelf order s ≡ (ok order', s')
    → s' ≡ shelve order.id none none s
unfolding clear_shelf
clear_shelf-shelve order s e = ground arith
