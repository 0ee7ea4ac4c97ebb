-- ===== src/Delivery/Listener.antt =====
-- src/modules/handoffs/application/delivery-progress.listener.ts: the order moves with its leg.
use locoomo_api.Base.{
  ⊤, ℕ, Bool, false, Option, none, some, List, [], ◌∷◌, ◌==◌, find, if◌then◌else◌,
}
use locoomo_api.Effect.{Result, pure, gets, ◌>>=◌, ◌>>◌, modify}
use locoomo_api.Orders.{
  Text, Order, OrderStatus, same_status, released_by, returned_by, assign_rider,
  mark_courier_assigned, mark_courier_released, mark_picked_up_by_rider,
  mark_arrived_at_destination, mark_returning, mark_returned_to_origin,
}
use locoomo_api.Orders.Code.{codes}
use locoomo_api.Capacity.{release_capacity_slot, hold_returned_parcel, release_delivery_slot}
use locoomo_api.Logistics.Leg.{DeliveryEventType, released, attempt_failed}
use locoomo_api.Database.{Database, Db, lift, on_orders, on_nodes, on_riders}
use locoomo_api.Payments.Intents.{enqueue_email}
use locoomo_api.Delivery.{DeliveryLegType, forward, return}

pub record DeliveryEventNotice : Type 0 where
  pub order_id : ℕ
  pub leg_id : ℕ
  pub leg_type : DeliveryLegType
  pub provider_key : ℕ
  pub event : DeliveryEventType
  pub courier_user_id : Option ℕ
  pub reason : Option Text

-- What the call reads besides the database: the clock, and the emails of `enqueueReturnStarted`,
-- which are made from the sender's account and may throw.
pub record Moment : Type 0 where
  pub now : ℕ
  pub return_emails : Order → Result (List Text)

abbrev pub enqueue_emails : ℕ → List Text → Database → Database
enqueue_emails now [] s = s
enqueue_emails now (mail ∷ mails) s = enqueue_emails now mails (enqueue_email now mail s)

unfoldable pub on_assigned : DeliveryEventNotice → Option ℕ → Db ⊤
on_assigned notice (some rider) = on_orders (assign_rider notice.order_id rider) >> pure tt
on_assigned notice none =
    on_orders (mark_courier_assigned notice.order_id notice.provider_key) >> pure tt

-- `if (notice.courierUserId) releaseDeliverySlot(...)`
unfoldable pub release_rider : Option ℕ → Db ⊤
release_rider none = pure tt
release_rider (some rider) = on_riders (release_delivery_slot rider)

unfoldable pub on_picked_up : DeliveryEventNotice → Db ⊤
on_picked_up notice = do
  order ← on_orders (mark_picked_up_by_rider notice.order_id)
  on_nodes (release_capacity_slot order.placed.origin_node_id)

unfoldable pub on_delivered : DeliveryEventNotice → Db ⊤
on_delivered notice =
    on_orders (mark_arrived_at_destination notice.order_id) >> release_rider notice.courier_user_id

-- `SELECT status FROM orders WHERE id = $1` and the test of it.
abbrev pub is_assigned : Option Order → Bool
is_assigned none = false
is_assigned (some order) = same_status order.status OrderStatus.rider_assigned

unfoldable pub on_let_go : DeliveryEventNotice → Text → Db ⊤
on_let_go notice event = do
  found ← gets (λ s. find (λ o. o.id == notice.order_id) s.orders.orders)
  if is_assigned found
      then (on_orders (
            mark_courier_released notice.order_id
              (released_by notice.provider_key event notice.reason))
          >> pure tt)
      else pure tt

unfoldable pub on_returning : Moment → DeliveryEventNotice → Db ⊤
on_returning moment notice = do
  order ← on_orders (mark_returning notice.order_id (returned_by notice.provider_key notice.reason))
  mails ← lift (moment.return_emails order)
  modify (enqueue_emails moment.now mails)

unfoldable pub on_returned : DeliveryEventNotice → Db ⊤
on_returned notice = do
  order ← on_orders (mark_returned_to_origin notice.order_id)
  on_nodes (hold_returned_parcel order.placed.origin_node_id)
  release_rider notice.courier_user_id

-- The switch.
unfoldable pub on_event : Moment → DeliveryEventNotice → DeliveryEventType → Db ⊤
on_event moment notice DeliveryEventType.assigned = on_assigned notice notice.courier_user_id
on_event moment notice DeliveryEventType.picked_up = on_picked_up notice
on_event moment notice DeliveryEventType.delivered = on_delivered notice
on_event moment notice attempt_failed = pure tt
on_event moment notice released = on_let_go notice (codes "released")
on_event moment notice DeliveryEventType.cancelled = on_let_go notice (codes "cancelled")
on_event moment notice DeliveryEventType.returning = on_returning moment notice
on_event moment notice DeliveryEventType.returned = on_returned notice

-- Events of a separate return leg are ignored.
unfoldable pub heed : Moment → DeliveryEventNotice → DeliveryLegType → Db ⊤
heed moment notice forward = on_event moment notice notice.event
heed moment notice return = pure tt

-- It is the one listener of DeliveryEventBus, so this is `publish` too.
unfoldable pub on_delivery_event : Moment → DeliveryEventNotice → Db ⊤
on_delivery_event moment notice = heed moment notice notice.leg_type
