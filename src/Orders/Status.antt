-- ===== src/Orders/Status.antt =====
-- src/modules/orders/domain: order-status.enum.ts, order-event-type.enum.ts, order-transitions.ts.
use mathlib.Core.Bool.{decide}
use locoomo_api.Base.{◌≡◌, refl, Bool, true, false, Option, none, some, List, [], ◌∷◌, ◌↔◌, any}

pub data OrderStatus : Type 0 where
  awaiting_drop_off parcel_received_at_origin rider_assigned in_transit : OrderStatus
  arrived_at_destination ready_for_collection completed : OrderStatus
  return_initiated return_in_transit returned_to_origin : OrderStatus
  ready_for_sender_collection return_completed cancelled disputed : OrderStatus

pub data OrderEventType : Type 0 where
  order_placed rider_assigned courier_released parcel_received_at_origin : OrderEventType
  picked_up_by_rider arrived_at_destination ready_for_collection : OrderEventType
  collected_by_receiver return_initiated return_in_transit returned_to_origin : OrderEventType
  ready_for_sender_collection collected_by_sender : OrderEventType

unfoldable pub OrderStatus-discrete : Discrete OrderStatus
OrderStatus-discrete = hlevel

-- `a === b`
unfoldable pub same_status : OrderStatus → OrderStatus → Bool
unfolding OrderStatus-discrete decide
same_status a b = decide (OrderStatus-discrete a b)

pub same_status_iff : (a b : OrderStatus) → (same_status a b ≡ true) ↔ (a ≡ b)
unfolding same_status decide
same_status_iff a b = elim (OrderStatus-discrete a b) as (λ d. (decide d ≡ true) ↔ (a ≡ b)) [
  | yes e ↦ ((λ _. e), λ _. refl)
  | no n ↦ ((λ h. cc), λ e. absurd (n e))
]

-- ORDER_TRANSITIONS; a status that is no key of it is `none`.
unfoldable pub order_transitions : OrderStatus → Option (List OrderStatus)
order_transitions awaiting_drop_off = some (OrderStatus.parcel_received_at_origin ∷ [])
order_transitions OrderStatus.parcel_received_at_origin = some (OrderStatus.rider_assigned ∷ [])
order_transitions OrderStatus.rider_assigned =
    some (in_transit ∷ OrderStatus.parcel_received_at_origin ∷ [])
order_transitions in_transit =
    some (OrderStatus.arrived_at_destination ∷ OrderStatus.return_initiated ∷ [])
order_transitions OrderStatus.arrived_at_destination = some (OrderStatus.ready_for_collection ∷ [])
order_transitions OrderStatus.ready_for_collection = some (completed ∷ [])
order_transitions OrderStatus.return_initiated = some (OrderStatus.return_in_transit ∷ [])
order_transitions OrderStatus.return_in_transit = some (OrderStatus.returned_to_origin ∷ [])
order_transitions OrderStatus.returned_to_origin =
    some (OrderStatus.ready_for_sender_collection ∷ [])
order_transitions OrderStatus.ready_for_sender_collection = some (return_completed ∷ [])
order_transitions completed = none
order_transitions return_completed = none
order_transitions cancelled = none
order_transitions disputed = none

-- `ORDER_TRANSITIONS[from]?.includes(to)`, the test of `assertLegalTransition`.
unfoldable pub is_legal : OrderStatus → OrderStatus → Bool
unfolding order_transitions
is_legal from to = elim (order_transitions from) [ none ↦ false | some l ↦ any (same_status to) l ]
