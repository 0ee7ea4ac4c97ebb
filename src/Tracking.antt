-- ===== src/Tracking.antt =====
-- src/modules/tracking/domain/public-status.ts: what the public page says about a parcel, and of
-- application/public-tracking.service.ts whether it says so still. Statuses and event types are those
-- of orders, and texts are lists of code units.
pub mod Agrees
mod Tests
use locoomo_api.Base.{ℕ, ◌+◌, ◌*◌, ltb, if◌then◌else◌, Bool, true, false, Option, none, some, ◌++◌}
use locoomo_api.Orders.{
  OrderStatus, OrderEventType, Text, in_transit, completed, cancelled, disputed, order_placed,
  courier_released, picked_up_by_rider, collected_by_receiver, collected_by_sender,
}
use locoomo_api.Orders.Code.{codes}

pub data PublicStatus : Type 0 where
  awaiting_drop_off at_origin_station on_the_way arrived_at_destination : PublicStatus
  ready_for_collection collected returning_to_sender returned_to_sender : PublicStatus
  return_completed : PublicStatus

unfoldable pub public_status_labels : PublicStatus → Text
public_status_labels PublicStatus.awaiting_drop_off = codes "Awaiting drop-off"
public_status_labels PublicStatus.at_origin_station = codes "At origin station"
public_status_labels PublicStatus.on_the_way = codes "On the way"
public_status_labels PublicStatus.arrived_at_destination = codes "Arrived at destination station"
public_status_labels PublicStatus.ready_for_collection = codes "Ready for collection"
public_status_labels PublicStatus.collected = codes "Collected"
public_status_labels PublicStatus.returning_to_sender = codes "Returning to sender"
public_status_labels PublicStatus.returned_to_sender =
    codes "Returned — ready for sender collection"
public_status_labels PublicStatus.return_completed = codes "Returned to sender"

-- A status with no public meaning is `none`.
unfoldable pub to_public_status : OrderStatus → Option PublicStatus
to_public_status OrderStatus.awaiting_drop_off = some PublicStatus.awaiting_drop_off
to_public_status OrderStatus.parcel_received_at_origin = some PublicStatus.at_origin_station
to_public_status OrderStatus.rider_assigned = some PublicStatus.at_origin_station
to_public_status OrderStatus.in_transit = some PublicStatus.on_the_way
to_public_status OrderStatus.arrived_at_destination = some PublicStatus.arrived_at_destination
to_public_status OrderStatus.ready_for_collection = some PublicStatus.ready_for_collection
to_public_status OrderStatus.completed = some PublicStatus.collected
to_public_status OrderStatus.return_initiated = some PublicStatus.returning_to_sender
to_public_status OrderStatus.return_in_transit = some PublicStatus.returning_to_sender
to_public_status OrderStatus.returned_to_origin = some PublicStatus.returned_to_sender
to_public_status OrderStatus.ready_for_sender_collection = some PublicStatus.returned_to_sender
to_public_status OrderStatus.return_completed = some PublicStatus.return_completed
to_public_status cancelled = none
to_public_status disputed = none

-- RETURN_PUBLIC_STATUSES.has(status)
unfoldable pub is_return_public : PublicStatus → Bool
is_return_public returning_to_sender = true
is_return_public returned_to_sender = true
is_return_public PublicStatus.return_completed = true
is_return_public _ = false

-- FINAL_PUBLIC_STATUSES.has(status)
unfoldable pub is_final_public : PublicStatus → Bool
is_final_public collected = true
is_final_public PublicStatus.return_completed = true
is_final_public _ = false

abbrev pub retention_days_after_final : ℕ
retention_days_after_final = 30

-- isExpired: `updatedAt < now - retention`, with the retention on the other side.
unfoldable pub is_expired : ℕ → PublicStatus → ℕ → Bool
is_expired now status updated_at =
    if is_final_public status
    then ltb (updated_at + retention_days_after_final * 24 * 60 * 60000) now
    else false

-- The status that `track` answers with for an order that it may show; `none` is its 404.
unfoldable pub status_on_page : ℕ → OrderStatus → ℕ → Option PublicStatus
status_on_page now status updated_at = answer (to_public_status status)
  where
    answer : Option PublicStatus → Option PublicStatus
    answer none = none
    answer (some public) = if is_expired now public updated_at then none else some public

pub record StationNames : Type 0 where
  pub origin : Text
  pub destination : Text

pub data TimelineStatus : Type 0 where
  shown : PublicStatus → TimelineStatus
  placed : TimelineStatus

pub record TimelineEntry : Type 0 where
  pub status : TimelineStatus
  pub label : Text

abbrev entry : PublicStatus → Text → Option TimelineEntry
entry status label = some (record { status = shown status; label = label })

unfoldable pub timeline_entry_for : OrderEventType → StationNames → Option TimelineEntry
timeline_entry_for order_placed names =
    some (record { status = placed; label = codes "Order placed" })
timeline_entry_for OrderEventType.parcel_received_at_origin names =
    entry PublicStatus.at_origin_station (codes "Dropped off at " ++ names.origin)
timeline_entry_for OrderEventType.rider_assigned names =
    entry PublicStatus.at_origin_station (codes "Rider assigned")
timeline_entry_for OrderEventType.picked_up_by_rider names =
    entry PublicStatus.on_the_way (codes "On the way to " ++ names.destination)
timeline_entry_for OrderEventType.arrived_at_destination names =
    entry PublicStatus.arrived_at_destination (codes "Arrived at " ++ names.destination)
timeline_entry_for OrderEventType.ready_for_collection names =
    entry PublicStatus.ready_for_collection (codes "Ready for collection")
timeline_entry_for OrderEventType.collected_by_receiver names =
    entry PublicStatus.collected (codes "Collected")
timeline_entry_for OrderEventType.return_initiated names =
    entry PublicStatus.returning_to_sender (codes "Delivery couldn't be completed")
timeline_entry_for OrderEventType.return_in_transit names =
    entry PublicStatus.returning_to_sender (codes "Returning to " ++ names.origin)
timeline_entry_for OrderEventType.returned_to_origin names =
    entry PublicStatus.returned_to_sender (codes "Back at " ++ names.origin)
timeline_entry_for OrderEventType.ready_for_sender_collection names =
    entry PublicStatus.returned_to_sender (codes "Ready for the sender to collect")
timeline_entry_for OrderEventType.collected_by_sender names =
    entry PublicStatus.return_completed (codes "Collected by the sender")
timeline_entry_for courier_released names = none

unfoldable pub next_step_for : PublicStatus → StationNames → Text
next_step_for PublicStatus.awaiting_drop_off names =
    codes "Waiting for the sender to drop the parcel off at " ++ names.origin ++ codes "."
next_step_for PublicStatus.at_origin_station names =
    codes "The parcel is at "
    ++ names.origin
    ++ codes " and will be on its way to "
    ++ names.destination
    ++ codes " soon."
next_step_for PublicStatus.on_the_way names =
    codes "The parcel is on its way to "
    ++ names.destination
    ++ codes ". We'll email the receiver a collection code when it's ready."
next_step_for PublicStatus.arrived_at_destination names =
    codes "The parcel has reached "
    ++ names.destination
    ++ codes " and is being checked in. The receiver will get a collection code by email shortly."
next_step_for PublicStatus.ready_for_collection names =
    codes "Ready at "
    ++ names.destination
    ++ codes ". Bring the collection code from the email and a form of ID."
next_step_for PublicStatus.collected names = codes "The parcel has been collected."
next_step_for PublicStatus.returning_to_sender names =
    codes "The delivery couldn't be completed, so the parcel is going back to "
    ++ names.origin
    ++ codes ". We'll email the sender when it's ready to collect."
next_step_for PublicStatus.returned_to_sender names =
    codes "The parcel is back at "
    ++ names.origin
    ++ codes ". The sender has been emailed a collection code."
next_step_for PublicStatus.return_completed names = codes "The sender has collected the parcel."
