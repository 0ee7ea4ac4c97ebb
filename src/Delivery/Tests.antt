-- ===== src/Delivery/Tests.antt =====
-- One order with the in-house pool and a remote courier, and the theorems applied to it.
use locoomo_api.Base.{
  ℕ, ◌≤◌, ◌≡◌, refl, true, false, Option, none, some, List, [], ◌∷◌, leb, Row, here, there,
  count_where, arith, sym, ◌∙◌,
}
use locoomo_api.Effect.{ok}
use locoomo_api.Orders.{
  Order, OrderStatus, CreateOrderFields, small, same_status, is_legal, mark_courier_released,
  assert_legal_transition, update_returning, append_event,
}
use locoomo_api.Orders.Along.{IsUnique}
use locoomo_api.Logistics.Leg.{DeliveryLegStatus, released, requested, next_leg_status, is_terminal}
use locoomo_api.Logistics.Routing.{ProviderRoutingConfig}
use locoomo_api.Database.{Database}
use locoomo_api.Delivery.{DeliveryLeg, forward, new_leg, is_active_for}
use locoomo_api.Delivery.Listener.{Moment, on_delivery_event, heed, on_event, on_let_go}
use locoomo_api.Delivery.Dispatch.{Couriers}
use locoomo_api.Delivery.Events.{apply, apply_next, route_again, RiderUser}
use locoomo_api.Delivery.Steps.{IsOrderly}
use locoomo_api.Delivery.Active.{Call, dispatched, claimed, run, one_active_leg, ended_leg-stays}
use locoomo_api.Delivery.Agrees.{order_at, AreAt}
use locoomo_api.Delivery.Together.{apply-AreAt}

abbrev pool : ProviderRoutingConfig ℕ
pool = record {
  key = 0;
  enabled = true;
  priority = 2;
  max_attempts = 9;
  min_distance_km = none;
  max_distance_km = none;
  pilot_node_ids = none;
  vehicle_classes = [];
}

abbrev couriers : Couriers ℕ
couriers = record {
  configs = pool ∷ [];
  is_registered = λ key. true;
  is_remote = λ key. false;
  km_leb = leb;
  locale_leb = leb;
  distance_km = λ a b. 4;
  number_of = λ t. 0;
}

abbrev moment : Moment
moment = record { now = 50; return_emails = λ o. ok [] }

abbrev fields : CreateOrderFields
fields = record {
  payment_intent_id = 1;
  consumer_id = 7;
  origin_node_id = 1;
  destination_node_id = 2;
  receiver_full_name = [];
  receiver_email = [];
  receiver_phone = [];
  parcel_description = [];
  parcel_size = small;
  weight_kg = none;
  length_cm = none;
  width_cm = none;
  height_cm = none;
  handling = [];
  vehicle_class = none;
  amount_kobo = 100;
  destination_fee_kobo = 10;
}

abbrev order : OrderStatus → Order
order status = record {
  id = 3;
  placed = fields;
  tracking_code = [];
  status = status;
  rider_id = none;
  shelf_node_id = none;
  shelf_number = none;
}

abbrev with_legs : OrderStatus → List DeliveryLeg → Database
with_legs status legs = record {
  orders = record { orders = order status ∷ []; order_events = []; next_id = 4; aborted = false };
  nodes = [];
  riders = [];
  codes = record { handoff_codes = []; next_id = 0; counted = [] };
  earnings = record { rules = []; entries = []; next_id = 0 };
  outbox = record { outbox_events = []; next_id = 0 };
  keys = [];
  intents = [];
  next_intent_id = 1;
  legs = legs;
  next_leg_id = 9;
}

no_legs-IsOrderly : IsOrderly [] 9
no_legs-IsOrderly = record {
  distinct = tt;
  below = λ leg r. elim r [ ];
  single = λ order_id. omega arith;
}

abbrev rider : ℕ → Option RiderUser
rider id = some (record { first_name = []; last_name = []; phone = none })

abbrev calls : List Call
calls = dispatched 60 3 forward none ∷ claimed moment rider 3 12 ∷ dispatched 40 3 forward none ∷ []

one_active_leg_example :
    count_where
      (is_active_for 3)
      (run couriers calls (with_legs OrderStatus.parcel_received_at_origin [])).legs
    ≤ 1
one_active_leg_example =
    one_active_leg couriers calls (with_legs OrderStatus.parcel_received_at_origin [])
      no_legs-IsOrderly 3

abbrev leg : DeliveryLegStatus → DeliveryLeg
leg status = new_leg 5 3 forward 0 status 1 none none

one_ended-IsOrderly : IsOrderly (leg DeliveryLegStatus.cancelled ∷ []) 9
one_ended-IsOrderly = record {
  distinct = (refl, tt);
  below = λ a r. elim r [ here e ↦ rw e (omega arith) | there q ↦ elim q [ ] ];
  single = λ order_id. ended order_id;
}
  where
    ended :
        (order_id : ℕ)
        → count_where (is_active_for order_id) (leg DeliveryLegStatus.cancelled ∷ []) ≤ 1
    ended order_id = ground arith

cancelled_ended : is_terminal DeliveryLegStatus.cancelled ≡ true
unfolding is_terminal
cancelled_ended = refl

ended_leg-stays_example :
    let s =
      with_legs OrderStatus.parcel_received_at_origin (leg DeliveryLegStatus.cancelled ∷ []) in
    (later : DeliveryLeg) × Row later (run couriers calls s).legs
    × (later.id ≡ 5)
    × (later.status ≡ DeliveryLegStatus.cancelled)
ended_leg-stays_example =
    ended_leg-stays couriers calls
      (with_legs OrderStatus.parcel_received_at_origin (leg DeliveryLegStatus.cancelled ∷ []))
      one_ended-IsOrderly (leg DeliveryLegStatus.cancelled) (here refl) cancelled_ended

-- The order is with a rider, and so is its leg.
abbrev riding : Database
riding = with_legs OrderStatus.rider_assigned (leg DeliveryLegStatus.assigned ∷ [])

abbrev let_go_leg : DeliveryLeg
let_go_leg = leg requested

riding-AreAt : AreAt 3 (order_at DeliveryLegStatus.assigned) riding.orders.orders
unfolding order_at
riding-AreAt o (here e) h = rw e refl
riding-AreAt o (there r) h = elim r [ ]

riding-IsUnique : IsUnique riding.orders
riding-IsUnique a b (here e) (here f) same = e ∙ sym f
riding-IsUnique a b (here e) (there r) same = elim r [ ]
riding-IsUnique a b (there r) q same = elim r [ ]

abbrev let_go_state : Database
let_go_state = (apply couriers moment released none (leg DeliveryLegStatus.assigned) riding).1

released_run :
    apply couriers moment released none (leg DeliveryLegStatus.assigned) riding
    ≡ (ok (some let_go_leg), let_go_state)
unfolding apply apply_next route_again next_leg_status on_delivery_event heed on_event on_let_go
    same_status is_legal is_terminal mark_courier_released assert_legal_transition update_returning
    append_event
released_run = refl

apply-AreAt_example : AreAt 3 (order_at requested) let_go_state.orders.orders
apply-AreAt_example =
    apply-AreAt couriers moment released none (leg DeliveryLegStatus.assigned) let_go_leg riding
      let_go_state refl riding-IsUnique riding-AreAt released_run
