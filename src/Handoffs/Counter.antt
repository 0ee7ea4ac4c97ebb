-- ===== src/Handoffs/Counter.antt =====
-- src/modules/handoffs/domain/counter-view.ts: which side of an order the caller's Node is on, and
-- what its staff do next. `maskReceiver` is left out.
pub mod Work
use locoomo_api.Base.{
  ℕ, Bool, true, false, ◌&&◌, Option, none, some, List, ◌==◌, any, or_else, if◌then◌else◌,
}
use locoomo_api.Orders.{OrderStatus, awaiting_drop_off, in_transit}

pub data NodeRole : Type 0 where
  origin destination : NodeRole

pub data NextAction : Type 0 where
  confirm_drop_off await_courier hand_to_rider hand_to_courier await_arrival : NextAction
  receive_from_rider receive_from_courier intake hand_to_receiver return_intake : NextAction
  hand_to_sender nothing : NextAction

pub data HandoverMode : Type 0 where
  enter_rider_code give_code_to_courier : HandoverMode

-- `ORIGIN_PHASE.has(status)`
unfoldable pub is_origin_phase : OrderStatus → Bool
is_origin_phase awaiting_drop_off = true
is_origin_phase OrderStatus.parcel_received_at_origin = true
is_origin_phase OrderStatus.rider_assigned = true
is_origin_phase OrderStatus.return_initiated = true
is_origin_phase OrderStatus.return_in_transit = true
is_origin_phase OrderStatus.returned_to_origin = true
is_origin_phase OrderStatus.ready_for_sender_collection = true
is_origin_phase _ = false

unfoldable pub node_role_for : OrderStatus → ℕ → ℕ → List ℕ → NodeRole
node_role_for status origin_node_id destination_node_id my_node_ids =
    let at_origin = any (λ id. id == origin_node_id) my_node_ids in
    let at_destination = any (λ id. id == destination_node_id) my_node_ids in
    if at_origin && at_destination
    then (if is_origin_phase status then origin else destination)
    else if at_origin
    then origin
    else destination

unfoldable pub origin_actions : OrderStatus → Option NextAction
origin_actions awaiting_drop_off = some confirm_drop_off
origin_actions OrderStatus.parcel_received_at_origin = some await_courier
origin_actions OrderStatus.rider_assigned = some hand_to_rider
origin_actions OrderStatus.return_initiated = some await_arrival
origin_actions OrderStatus.return_in_transit = some receive_from_rider
origin_actions OrderStatus.returned_to_origin = some return_intake
origin_actions OrderStatus.ready_for_sender_collection = some hand_to_sender
origin_actions _ = none

unfoldable pub destination_actions : OrderStatus → Option NextAction
destination_actions OrderStatus.rider_assigned = some await_arrival
destination_actions in_transit = some receive_from_rider
destination_actions OrderStatus.arrived_at_destination = some intake
destination_actions OrderStatus.ready_for_collection = some hand_to_receiver
destination_actions _ = none

unfoldable pub courier_variants : NextAction → Option NextAction
courier_variants hand_to_rider = some hand_to_courier
courier_variants receive_from_rider = some receive_from_courier
courier_variants _ = none

abbrev pub actions_of : NodeRole → OrderStatus → Option NextAction
actions_of origin status = origin_actions status
actions_of destination status = destination_actions status

abbrev pub for_courier : HandoverMode → NextAction → NextAction
for_courier give_code_to_courier action = or_else (courier_variants action) action
for_courier enter_rider_code action = action

unfoldable pub next_action_for : OrderStatus → NodeRole → HandoverMode → NextAction
next_action_for status role handover =
    for_courier handover (or_else (actions_of role status) nothing)
