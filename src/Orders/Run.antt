-- ===== src/Orders/Run.antt =====
-- The calls of OrdersService, each a transaction of its own, in any order: what always holds.
use locoomo_api.Base.{ℕ, ◌≡◌, refl, true, false, none, [], Row, is_none}
use locoomo_api.Effect.{Result, ok, err, transaction, >>=-eq-ok}
use locoomo_api.Orders.{
  OrderStatus, OrderEventType, Order, OrdersTables, Orders, EventPayload, CreateOrderFields,
  create_from_paid_intent, assign_rider, mark_courier_assigned, mark_courier_released,
  mark_received_at_origin, mark_picked_up_by_rider, mark_arrived_at_destination,
  mark_ready_for_collection, mark_collected, mark_returning, mark_returned_to_origin,
  mark_ready_for_sender_collection, mark_collected_by_sender, transition, empty, provider,
  awaiting_drop_off, in_transit, completed, return_completed, picked_up_by_rider,
  collected_by_receiver, is_on_shelf,
}
use locoomo_api.Orders.Trail.{replay, reached, is_waiting}
use locoomo_api.Orders.Held.{shelf_home}
use locoomo_api.Orders.Moves.{
  IsValid, transition-IsValid, place-IsValid, clear-IsValid, assign_rider-IsValid,
  mark_courier_released-IsValid, create-IsValid,
}

-- One call, with its arguments; `create` has the random numbers that it draws.
pub data Call : Type 0 where
  create : (ℕ → ℕ → ℕ) → CreateOrderFields → Call
  assign : ℕ → ℕ → Call
  courier_assigned : ℕ → ℕ → Call
  courier_released : ℕ → EventPayload → Call
  received_at_origin picked_up arrived ready_for_collection : ℕ → Call
  collected : ℕ → EventPayload → Call
  returning : ℕ → EventPayload → Call
  returned_to_origin ready_for_sender : ℕ → Call
  collected_by_sender : ℕ → EventPayload → Call

unfoldable pub perform : Call → Orders Order
perform (create draw fields) = create_from_paid_intent draw fields
perform (assign id rider_id) = assign_rider id rider_id
perform (courier_assigned id key) = mark_courier_assigned id key
perform (courier_released id payload) = mark_courier_released id payload
perform (received_at_origin id) = mark_received_at_origin id
perform (picked_up id) = mark_picked_up_by_rider id
perform (arrived id) = mark_arrived_at_destination id
perform (Call.ready_for_collection id) = mark_ready_for_collection id
perform (collected id payload) = mark_collected id payload
perform (returning id payload) = mark_returning id payload
perform (Call.returned_to_origin id) = mark_returned_to_origin id
perform (ready_for_sender id) = mark_ready_for_sender_collection id
perform (Call.collected_by_sender id payload) = mark_collected_by_sender id payload

-- Every method that returns keeps the invariant.
perform-IsValid :
    (c : Call) (s : OrdersTables) {order : Order} {s' : OrdersTables}
    → IsValid s
    → perform c s ≡ (ok order, s')
    → IsValid s'
unfolding perform mark_courier_assigned mark_received_at_origin mark_picked_up_by_rider
    mark_arrived_at_destination mark_ready_for_collection mark_collected mark_returning
    mark_returned_to_origin mark_ready_for_sender_collection mark_collected_by_sender
perform-IsValid (create draw fields) s v e = create-IsValid s v draw fields e
perform-IsValid (assign id rider_id) s v e = assign_rider-IsValid s v id rider_id e
perform-IsValid (courier_assigned id key) s v e =
    transition-IsValid id OrderStatus.parcel_received_at_origin OrderStatus.rider_assigned
      OrderEventType.rider_assigned (provider key) refl (λ w. cc) s v (λ placed. refl) e
perform-IsValid (courier_released id payload) s v e = mark_courier_released-IsValid s v id payload e
perform-IsValid (received_at_origin id) s v e =
    place-IsValid id awaiting_drop_off OrderStatus.parcel_received_at_origin
      OrderEventType.parcel_received_at_origin empty refl (λ w. refl) s v
      (λ placed. placed.origin_node_id) (λ placed. refl) e
perform-IsValid (picked_up id) s v e =
    clear-IsValid id OrderStatus.rider_assigned in_transit picked_up_by_rider empty refl (λ w. cc) s
      v (λ placed. refl) e
perform-IsValid (arrived id) s v e =
    transition-IsValid id in_transit OrderStatus.arrived_at_destination
      OrderEventType.arrived_at_destination empty refl (λ w. cc) s v (λ placed. refl) e
perform-IsValid (Call.ready_for_collection id) s v e =
    place-IsValid id OrderStatus.arrived_at_destination OrderStatus.ready_for_collection
      OrderEventType.ready_for_collection empty refl (λ w. cc) s v
      (λ placed. placed.destination_node_id) (λ placed. refl) e
perform-IsValid (collected id payload) s v e =
    clear-IsValid id OrderStatus.ready_for_collection completed collected_by_receiver payload refl
      (λ w. cc) s v (λ placed. refl) e
perform-IsValid (returning id payload) s v e =
    let (o, t, ran, rest) =
      >>=-eq-ok
        (transition id in_transit OrderStatus.return_initiated OrderEventType.return_initiated
          payload)
        (λ _.
          transition id OrderStatus.return_initiated OrderStatus.return_in_transit
            OrderEventType.return_in_transit empty)
        s e in
    transition-IsValid id OrderStatus.return_initiated OrderStatus.return_in_transit
      OrderEventType.return_in_transit empty refl (λ w. cc) t
      (transition-IsValid id in_transit OrderStatus.return_initiated OrderEventType.return_initiated
        payload refl (λ w. cc) s v (λ placed. refl) ran)
      (λ placed. refl) rest
perform-IsValid (Call.returned_to_origin id) s v e =
    transition-IsValid id OrderStatus.return_in_transit OrderStatus.returned_to_origin
      OrderEventType.returned_to_origin empty refl (λ w. cc) s v (λ placed. refl) e
perform-IsValid (ready_for_sender id) s v e =
    place-IsValid id OrderStatus.returned_to_origin OrderStatus.ready_for_sender_collection
      OrderEventType.ready_for_sender_collection empty refl (λ w. cc) s v
      (λ placed. placed.origin_node_id) (λ placed. refl) e
perform-IsValid (Call.collected_by_sender id payload) s v e =
    clear-IsValid id OrderStatus.ready_for_sender_collection return_completed
      OrderEventType.collected_by_sender payload refl (λ w. cc) s v (λ placed. refl) e

abbrev pub no_orders : OrdersTables
no_orders = record { orders = []; order_events = []; next_id = 0; aborted = false }

-- The tables after any sequence of transactions, returned or rolled back.
pub data Reachable : OrdersTables → Type 0 where
  start : Reachable no_orders
  step : {s : OrdersTables} → Reachable s → (c : Call) → Reachable (transaction (perform c) s).1

transaction-IsValid :
    (c : Call) (s : OrdersTables) → IsValid s → IsValid (transaction (perform c) s).1
transaction-IsValid c s v = go (perform c s) refl
  where
    go :
        (out : Result Order × OrdersTables)
        → perform c s ≡ out
        → IsValid (transaction (λ _. out) s).1
    go (ok order, s') ran = perform-IsValid c s v ran
    go (err x, s') ran = v

pub Reachable-IsValid : {s : OrdersTables} → Reachable s → IsValid s
unfolding replay
Reachable-IsValid start = record {
  trailed = record {
    trail = λ o r. elim r [ ];
    unused = λ id h. refl;
    riders = λ o r. elim r [ ];
    unique = λ o p r. elim r [ ];
  };
  held = record {
    home = λ o r. elim r [ ];
    paired = λ o r. elim r [ ];
    slots = λ o p node_id n r. elim r [ ];
  };
  running = refl;
}
Reachable-IsValid (step {s} r c) = transaction-IsValid c s (Reachable-IsValid r)

-- The audit trail: in every reachable state, the events of each order in the order they were
-- written are a path of ORDER_TRANSITIONS that starts at its placing and ends at its status.
pub trail-status :
    {s : OrdersTables}
    → Reachable s
    → (o : Order) → Row o s.orders
    → replay o.id s.order_events ≡ reached o.status
trail-status r = (Reachable-IsValid r).trailed.trail

-- In every reachable state a parcel stands on the shelf of the Node that its status calls for (the
-- origin from drop-off to pickup and again when a return waits for its sender, the destination
-- when it waits for its receiver) with a number, and on none otherwise; and no two orders have one
-- Node and one number.
pub shelf_places :
    {s : OrdersTables}
    → Reachable s
    → ((o : Order)
        → Row o s.orders
        → (o.shelf_node_id ≡ shelf_home o.status o.placed)
          × (is_none o.shelf_number ≡ is_none o.shelf_node_id))
      × ((o p : Order) (node_id n : ℕ)
          → Row o s.orders
          → Row p s.orders
          → is_on_shelf node_id n o ≡ true
          → is_on_shelf node_id n p ≡ true
          → o.id ≡ p.id)
shelf_places r =
    let held = (Reachable-IsValid r).held in (λ o q. (held.home o q, held.paired o q), held.slots)

-- In every reachable state an order that waits to be dropped off or claimed has no rider.
pub waiting-rider :
    {s : OrdersTables}
    → Reachable s
    → (o : Order) → Row o s.orders
    → is_waiting o.status ≡ true
    → o.rider_id ≡ none
waiting-rider r = (Reachable-IsValid r).trailed.riders
