-- ===== src/Orders.antt =====
-- src/modules/orders/application/orders.service.ts: OrdersService, method by method, over the
-- orders and order_events tables. `manager.query` of an UPDATE ... RETURNING is `update_returning`.
mod Status
mod Rows
pub mod Code
pub mod Effects
pub mod Shelf
pub mod Trail
pub mod Create
pub mod Held
pub mod Placed
pub mod Moves
pub mod Along
pub mod Run
pub mod Kept
pub mod Taken
pub mod Reach
pub mod Known
pub mod Tests
unfoldable pub use Status.*
pub use Rows.*
use locoomo_api.Base.{
  ⊤, ℕ, zero, suc, ◌+◌, ◌-◌, ◌≡◌, Bool, true, false, not, ◌&&◌, ◌||◌, Option, none, some, List, [],
  ◌∷◌, ◌++◌, arith, ◌==◌, leb, if◌then◌else◌, opt_is, is_none, head?, any, where_rows, count_where,
  update_where, find, map,
}
use locoomo_api.Effect.{
  Error, Result, ok, err, Action, pure, throw, gets, or_throw, ◌>>=◌, ◌>>◌, modify, throw_if,
  illegal_edge, illegal_order_transition, type_error, unique_violation, transaction_aborted,
}

abbrev pub Orders : Type 0 → Type 0
Orders A = Action OrdersTables A

unfoldable pub assert_legal_transition : OrderStatus → OrderStatus → Orders ⊤
assert_legal_transition from to = throw_if (not (is_legal from to)) illegal_edge

-- UPDATE orders SET f WHERE p RETURNING *
unfoldable pub update_returning : (Order → Bool) → (Order → Order) → Orders (List Order)
update_returning p f s =
    (ok (map f (where_rows p s.orders)), record s { orders = update_where p f s.orders })

unfoldable pub append_event : ℕ → OrderEventType → EventPayload → Orders ⊤
append_event order_id type payload = modify λ s. record s {
  order_events =
      s.order_events ++ record { order_id = order_id; type = type; payload = payload } ∷ [];
}

-- `"id" = $ AND status = $`
abbrev pub is_at : ℕ → OrderStatus → Order → Bool
is_at order_id from o = o.id == order_id && same_status o.status from

abbrev pub set_status : OrderStatus → Order → Order
set_status to o = record o { status = to }

pub transition : ℕ → OrderStatus → OrderStatus → OrderEventType → EventPayload → Orders Order
unfolding assert_legal_transition update_returning append_event
transition order_id from to type payload = do
  assert_legal_transition from to
  rows ← update_returning (is_at order_id from) (set_status to)
  order ← or_throw (head? rows) illegal_order_transition
  append_event order_id type payload
  pure order

pub assign_rider : ℕ → ℕ → Orders Order
unfolding assert_legal_transition update_returning append_event
assign_rider order_id rider_id = do
  assert_legal_transition OrderStatus.parcel_received_at_origin OrderStatus.rider_assigned
  rows ←
      update_returning
        (λ o. is_at order_id OrderStatus.parcel_received_at_origin o && is_none o.rider_id)
        (λ o. record o { status = OrderStatus.rider_assigned; rider_id = some rider_id })
  order ← or_throw (head? rows) illegal_order_transition
  append_event order_id OrderEventType.rider_assigned (rider rider_id)
  pure order

pub mark_courier_assigned : ℕ → ℕ → Orders Order
unfolding transition
mark_courier_assigned order_id provider_key =
    transition order_id OrderStatus.parcel_received_at_origin OrderStatus.rider_assigned
      OrderEventType.rider_assigned (provider provider_key)

unfoldable pub mark_courier_released : ℕ → EventPayload → Orders Order
unfolding assert_legal_transition update_returning append_event
mark_courier_released order_id payload = do
  assert_legal_transition OrderStatus.rider_assigned OrderStatus.parcel_received_at_origin
  rows ←
      update_returning (is_at order_id OrderStatus.rider_assigned)
        (λ o. record o { status = OrderStatus.parcel_received_at_origin; rider_id = none })
  order ← or_throw (head? rows) illegal_order_transition
  append_event order_id courier_released payload
  pure order

-- generate_series(a, a + n - 1)
abbrev pub generate_series : ℕ → ℕ → List ℕ
generate_series a zero = []
generate_series a (suc n) = a ∷ generate_series (suc a) n

abbrev keep_min : Option ℕ → ℕ → Option ℕ
keep_min none n = some n
keep_min (some m) n = some (if leb m n then m else n)

-- MIN(n), NULL over no rows.
abbrev pub sql_min : List ℕ → Option ℕ
sql_min [] = none
sql_min (n ∷ ns) = keep_min (sql_min ns) n

-- "shelfNodeId" = $ AND "shelfNumber" = n
abbrev pub is_on_shelf : ℕ → ℕ → Order → Bool
is_on_shelf node_id n o = opt_is o.shelf_node_id node_id && opt_is o.shelf_number n

-- The subquery that picks the shelf number.
pub lowest_free_shelf : ℕ → List Order → Option ℕ
lowest_free_shelf node_id orders = sql_min (
    where_rows (λ n. not (any (is_on_shelf node_id n) orders))
      (generate_series 1 (count_where (λ o. opt_is o.shelf_node_id node_id) orders + 1)))

pub place_on_shelf : Order → ℕ → Orders Order
unfolding update_returning
place_on_shelf order node_id = do
  number ← gets (λ s. lowest_free_shelf node_id s.orders)
  rows ←
      update_returning (λ o. o.id == order.id)
        (λ o. record o { shelf_node_id = some node_id; shelf_number = number })
  row ← or_throw (head? rows) type_error
  pure (record order { shelf_node_id = some node_id; shelf_number = row.shelf_number })

pub clear_shelf : Order → Orders Order
unfolding update_returning
clear_shelf order = do
  update_returning (λ o. o.id == order.id)
      (λ o. record o { shelf_node_id = none; shelf_number = none })
  pure (record order { shelf_node_id = none; shelf_number = none })

-- `===` on texts.
abbrev pub same_text : Text → Text → Bool
same_text [] [] = true
same_text (c ∷ s) (d ∷ t) = c == d && same_text s t
same_text _ _ = false

abbrev pub new_order : ℕ → CreateOrderFields → Text → Order
new_order id fields code = record {
  id = id;
  placed = fields;
  tracking_code = code;
  status = awaiting_drop_off;
  rider_id = none;
  shelf_node_id = none;
  shelf_number = none;
}

abbrev pub collides : CreateOrderFields → Text → Order → Bool
collides fields code o =
    same_text o.tracking_code code || o.placed.payment_intent_id == fields.payment_intent_id

-- INSERT INTO orders, under its unique indexes on trackingCode and paymentIntentId.
unfoldable pub insert_order : CreateOrderFields → Text → Orders Order
insert_order fields code s =
    if s.aborted
    then (err transaction_aborted, s)
    else if any (collides fields code) s.orders
    then (err unique_violation, record s { aborted = true })
    else (
      ok (new_order s.next_id fields code),
      record s {
        orders = s.orders ++ new_order s.next_id fields code ∷ [];
        next_id = suc s.next_id;
      },
    )

abbrev pub is_unique_violation : Error → Bool
is_unique_violation unique_violation = true
is_unique_violation _ = false

abbrev pub max_tracking_code_attempts : ℕ
max_tracking_code_attempts = 5

-- The loop, by the attempts left after this one; `draw attempt` are the attempt's random numbers.
unfoldable pub save_with_tracking_code : (ℕ → ℕ → ℕ) → CreateOrderFields → ℕ → ℕ → Orders Order
unfolding insert_order
save_with_tracking_code draw fields attempt zero s =
    insert_order fields (Code.generate_tracking_code (draw attempt)) s
save_with_tracking_code draw fields attempt (suc left) s =
    let (r, s') = insert_order fields (Code.generate_tracking_code (draw attempt)) s in
    let again = save_with_tracking_code draw fields (suc attempt) left s' in
    elim r [
      | ok order ↦ (ok order, s')
      | err e ↦ if is_unique_violation e then again else (err e, s')
    ]

unfoldable pub create_from_paid_intent : (ℕ → ℕ → ℕ) → CreateOrderFields → Orders Order
unfolding save_with_tracking_code append_event
create_from_paid_intent draw fields = do
  order ← save_with_tracking_code draw fields 1 (max_tracking_code_attempts - 1)
  append_event order.id order_placed (placed_for fields.payment_intent_id fields.amount_kobo)
  pure order

pub mark_received_at_origin : ℕ → Orders Order
unfolding transition place_on_shelf
mark_received_at_origin order_id = do
  order ←
      transition order_id awaiting_drop_off OrderStatus.parcel_received_at_origin
        OrderEventType.parcel_received_at_origin empty
  place_on_shelf order order.placed.origin_node_id

pub mark_picked_up_by_rider : ℕ → Orders Order
unfolding transition clear_shelf
mark_picked_up_by_rider order_id = do
  order ← transition order_id OrderStatus.rider_assigned in_transit picked_up_by_rider empty
  clear_shelf order

pub mark_arrived_at_destination : ℕ → Orders Order
unfolding transition
mark_arrived_at_destination order_id =
    transition order_id in_transit OrderStatus.arrived_at_destination
      OrderEventType.arrived_at_destination empty

pub mark_ready_for_collection : ℕ → Orders Order
unfolding transition place_on_shelf
mark_ready_for_collection order_id = do
  order ←
      transition order_id OrderStatus.arrived_at_destination OrderStatus.ready_for_collection
        OrderEventType.ready_for_collection empty
  place_on_shelf order order.placed.destination_node_id

pub mark_collected : ℕ → EventPayload → Orders Order
unfolding transition clear_shelf
mark_collected order_id payload = do
  order ←
      transition order_id OrderStatus.ready_for_collection completed collected_by_receiver payload
  clear_shelf order

pub mark_returning : ℕ → EventPayload → Orders Order
unfolding transition
mark_returning order_id payload = do
  transition order_id in_transit OrderStatus.return_initiated OrderEventType.return_initiated
      payload
  transition order_id OrderStatus.return_initiated OrderStatus.return_in_transit
      OrderEventType.return_in_transit empty

pub mark_returned_to_origin : ℕ → Orders Order
unfolding transition
mark_returned_to_origin order_id =
    transition order_id OrderStatus.return_in_transit OrderStatus.returned_to_origin
      OrderEventType.returned_to_origin empty

pub mark_ready_for_sender_collection : ℕ → Orders Order
unfolding transition place_on_shelf
mark_ready_for_sender_collection order_id = do
  order ←
      transition order_id OrderStatus.returned_to_origin OrderStatus.ready_for_sender_collection
        OrderEventType.ready_for_sender_collection empty
  place_on_shelf order order.placed.origin_node_id

pub mark_collected_by_sender : ℕ → EventPayload → Orders Order
unfolding transition clear_shelf
mark_collected_by_sender order_id payload = do
  order ←
      transition order_id OrderStatus.ready_for_sender_collection return_completed
        collected_by_sender payload
  clear_shelf order
