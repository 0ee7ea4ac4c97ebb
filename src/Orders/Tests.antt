-- ===== src/Orders/Tests.antt =====
-- Runs of OrdersService on two orders between two Nodes, and the theorems applied to them.
use locoomo_api.Base.{
  List, ℕ, ◌+◌, ◌-◌, ◌≤◌, ◌&&◌, Option, leb, ◌==◌, if◌then◌else◌, arith, ◌≡◌, ◌≢◌, refl, true,
  false, none, some, [], ◌∷◌, Row, here, there, is_none, any, map, count_where, opt_is, ◌⊎◌,
}
use locoomo_api.Effect.{err, transaction, illegal_order_transition, transaction_aborted}
use locoomo_api.Orders.{
  OrderStatus, Order, OrdersTables, CreateOrderFields, small, completed, in_transit, Text,
  return_completed, is_on_shelf, lowest_free_shelf, create_from_paid_intent, assign_rider,
  mark_received_at_origin, is_legal, same_status,
}
use locoomo_api.Orders.Code.{
  codes, generate_tracking_code, normalize_tracking_code, tracking_code, uri_error,
}
use locoomo_api.Orders.Code.RoundTrip.{may_change, normalize_tracking_code-generate_tracking_code}
use locoomo_api.Orders.Trail.{replay, reached, advance}
use locoomo_api.Orders.Held.{shelf_home}
use locoomo_api.Orders.Shelf.{lowest_free_shelf_lem}
use locoomo_api.Orders.Create.{collision_aborts}
use locoomo_api.Orders.Kept.{releases}
use locoomo_api.Orders.Taken.{by_rider, run as run_calls, claimed-once}
use locoomo_api.Orders.Reach.{
  Leads, stay, go, is_return, is_unset, return-never_completed, placed-can_end,
}
use locoomo_api.Orders.Run.{
  Call, create, assign, courier_assigned, received_at_origin, perform, no_orders, Reachable, start,
  step, trail-status, shelf_places, waiting-rider,
}

abbrev parcel : ℕ → CreateOrderFields
parcel n = record {
  payment_intent_id = n;
  consumer_id = 7;
  origin_node_id = 1;
  destination_node_id = 2;
  receiver_full_name = [];
  receiver_email = [];
  receiver_phone = [];
  parcel_description = [];
  parcel_size = small;
  weight_kg = none;
  length_cm = none;
  width_cm = none;
  height_cm = none;
  handling = [];
  vehicle_class = none;
  amount_kobo = 100;
  destination_fee_kobo = 10;
}

-- The random numbers of one checkout: the same eight characters at each attempt.
abbrev draws : ℕ → ℕ → ℕ → ℕ
draws c attempt i = c

abbrev after : OrdersTables → Call → OrdersTables
after s c = (transaction (perform c) s).1

-- Two orders are placed and dropped off; the second one is claimed.
abbrev two_dropped_off : OrdersTables
two_dropped_off =
    after
      (after (after (after no_orders (create (draws 3) (parcel 0))) (create (draws 4) (parcel 1)))
        (received_at_origin 0))
      (received_at_origin 1)

abbrev pub second_claimed : OrdersTables
second_claimed = after two_dropped_off (assign 1 50)

two_dropped_off-Reachable : Reachable two_dropped_off
two_dropped_off-Reachable =
    step
      (step (step (step start (create (draws 3) (parcel 0))) (create (draws 4) (parcel 1)))
        (received_at_origin 0))
      (received_at_origin 1)

pub second_claimed-Reachable : Reachable second_claimed
second_claimed-Reachable = step two_dropped_off-Reachable (assign 1 50)

-- What the runs below compute with.
run : Call → OrdersTables → OrdersTables
unfolding perform create_from_paid_intent assign_rider mark_received_at_origin is_legal same_status
    lowest_free_shelf generate_tracking_code replay advance
run c s = after s c

shelf_numbers : map (λ o. o.shelf_number) two_dropped_off.orders ≡ some 1 ∷ some 2 ∷ []
unfolding run
shelf_numbers = refl

abbrev pub claimed_order : Order
claimed_order = record {
  id = 1;
  placed = parcel 1;
  tracking_code = generate_tracking_code (λ i. 4);
  status = OrderStatus.rider_assigned;
  rider_id = some 50;
  shelf_node_id = some 1;
  shelf_number = some 2;
}

pub claimed-Row : Row claimed_order second_claimed.orders
unfolding run
claimed-Row = there (here refl)

trail-status_example : replay 1 second_claimed.order_events ≡ reached OrderStatus.rider_assigned
trail-status_example = trail-status second_claimed-Reachable claimed_order claimed-Row

shelf_places_example :
    ((o : Order)
      → Row o second_claimed.orders
      → (o.shelf_node_id ≡ shelf_home o.status o.placed)
        × (is_none o.shelf_number ≡ is_none o.shelf_node_id))
    × ((o p : Order) (node_id n : ℕ)
        → Row o second_claimed.orders
        → Row p second_claimed.orders
        → is_on_shelf node_id n o ≡ true
        → is_on_shelf node_id n p ≡ true
        → o.id ≡ p.id)
shelf_places_example = shelf_places second_claimed-Reachable

abbrev waiting_order : Order
waiting_order = record {
  id = 0;
  placed = parcel 0;
  tracking_code = generate_tracking_code (λ i. 3);
  status = OrderStatus.parcel_received_at_origin;
  rider_id = none;
  shelf_node_id = some 1;
  shelf_number = some 1;
}

waiting-Row : Row waiting_order second_claimed.orders
unfolding run
waiting-Row = here refl

waiting-rider_example : waiting_order.rider_id ≡ none
waiting-rider_example = waiting-rider second_claimed-Reachable waiting_order waiting-Row refl

lowest_free_shelf_lem_example :
    let orders = second_claimed.orders in
    (n : ℕ) × (lowest_free_shelf 1 orders ≡ some n)
    × (any (is_on_shelf 1 n) orders ≡ false)
    × (1 ≤ n)
    × (n ≤ count_where (λ o. opt_is o.shelf_node_id 1) orders + 1)
    × ((i : ℕ) → 1 ≤ i → any (is_on_shelf 1 i) orders ≡ false → n ≤ i)
lowest_free_shelf_lem_example = lowest_free_shelf_lem 1 second_claimed.orders

collision_aborts_example :
    (create_from_paid_intent (draws 3) (parcel 9) two_dropped_off).0 ≡ err transaction_aborted
unfolding run
collision_aborts_example = collision_aborts (draws 3) (parcel 9) two_dropped_off refl refl

-- Another rider and a provider ask for it, and the rider picks it up.
abbrev in_between : List Call
in_between = Call.picked_up 1 ∷ courier_assigned 1 9 ∷ assign 1 52 ∷ []

claimed-once_example :
    ((rider_id : ℕ) → assign 1 50 ≡ assign 1 rider_id → claimed_order.rider_id ≡ some rider_id)
    × (transaction (perform (assign 1 51)) (run_calls in_between second_claimed)
        ≡ (err illegal_order_transition, run_calls in_between second_claimed))
unfolding run perform releases
claimed-once_example =
    claimed-once two_dropped_off-Reachable 1 (assign 1 50) (by_rider 50) claimed_order
      second_claimed refl in_between refl (assign 1 51) (by_rider 51)

return-never_completed_example :
    (is_return return_completed ≡ true)
    × (return_completed ≢ completed)
    × (return_completed ≢ in_transit)
unfolding is_legal same_status
return-never_completed_example =
    return-never_completed {a = OrderStatus.ready_for_sender_collection} refl
      (go return_completed refl stay)

placed-can_end_example :
    (is_unset OrderStatus.parcel_received_at_origin ≡ false)
    × (Leads OrderStatus.parcel_received_at_origin completed
        ⊎ Leads OrderStatus.parcel_received_at_origin return_completed)
unfolding is_legal same_status
placed-can_end_example = placed-can_end (go OrderStatus.parcel_received_at_origin refl stay)

-- Upper-casing of ASCII.
abbrev upper_char : ℕ → ℕ
upper_char c = if leb b'a' c && leb c b'z' then c - 32 else c

abbrev upper : Text → Text
upper s = map upper_char s

-- A decoder that refuses every escape.
abbrev decode : Text → Option Text
decode s = if any (λ c. c == b'%') s then none else some s

upper-caseless : (s : Text) → any may_change s ≡ false → upper s ≡ s
upper-caseless [] h = refl
upper-caseless (c ∷ s) h =
    let kept : (leb b'a' c && leb c b'z') ≡ false = ground (arith, h) in
    rw (kept, upper-caseless s (ground (arith, h))) refl

pasted_link :
    normalize_tracking_code upper decode (codes " https://locoomo.com/track/lcm_o123-4567?x=1")
    ≡ tracking_code (codes "LCM-0123-4567")
unfolding normalize_tracking_code
pasted_link = refl

malformed_link : normalize_tracking_code upper decode (codes "/track/%E0") ≡ uri_error
unfolding normalize_tracking_code
malformed_link = refl

normalize_tracking_code-generate_tracking_code_example :
    normalize_tracking_code upper decode (generate_tracking_code (λ i. 7))
    ≡ tracking_code (generate_tracking_code (λ i. 7))
normalize_tracking_code-generate_tracking_code_example =
    normalize_tracking_code-generate_tracking_code upper decode upper-caseless (λ i. 7)
      (λ i. omega arith)
