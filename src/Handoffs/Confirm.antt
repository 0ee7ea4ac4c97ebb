-- ===== src/Handoffs/Confirm.antt =====
-- The services by which staff of a Node confirm a step, and a rider takes an order: confirm-drop-off,
-- confirm-handoff, confirm-intake, confirm-collection, return-intake, return-collection and
-- accept-order of src/modules/handoffs/application.
pub mod Collected
mod Tests
use locoomo_api.Base.{
  ⊤, ℕ, Bool, true, false, not, ◌&&◌, Option, none, some, List, [], ◌∷◌, ◌==◌, any, find,
  if◌then◌else◌,
}
use locoomo_api.Effect.{
  Result, ok, err, pure, gets, or_throw, ◌>>=◌, ◌>>◌, modify, throw_if, entity_not_found,
  rider_capacity_unavailable,
}
use locoomo_api.Orders.{
  Text, Order, identity_confirmed, mark_received_at_origin, mark_ready_for_collection,
  mark_collected, mark_ready_for_sender_collection, mark_collected_by_sender,
}
use locoomo_api.Capacity.{release_capacity_slot, reserve_delivery_slot}
use locoomo_api.Earnings.{RecordRevenueSplitFields, record_split}
use locoomo_api.Handoffs.Codes.{
  HandoffCodeType, rider_pickup, rider_arrival, receiver_collection, sender_collection, validate,
  issue,
}
use locoomo_api.Database.{
  Database, Db, lift, on_orders, on_nodes, on_riders, on_codes, on_earnings, in_transaction, once,
}
use locoomo_api.Delivery.{forward}
use locoomo_api.Delivery.Listener.{Moment, enqueue_emails}
use locoomo_api.Delivery.Dispatch.{Couriers, dispatch}
use locoomo_api.Delivery.Events.{RiderUser, assign_in_house_rider, record_in_house_handover}

-- What a confirmation reads besides the database: the clock, the hash of codes, the number drawn for
-- a new code, the Nodes of a user, and the emails about an order and its code, which may throw.
pub record Desk : Type 0 where
  pub now : ℕ
  pub hash : ℕ → ℕ
  pub raw_code : ℕ
  pub node_ids : ℕ → List ℕ
  pub emails : Order → Option ℕ → Result (List Text)

-- The IDEMPOTENCY_SCOPE of each service; the handoff's is `handoffs.confirm-handoff.${type}`.
abbrev pub drop_off_scope : ℕ
drop_off_scope = 1

abbrev pub handoff_scope : Bool → ℕ
handoff_scope true = 2
handoff_scope false = 3

abbrev pub intake_scope : ℕ
intake_scope = 4

abbrev pub collection_scope : ℕ
collection_scope = 5

abbrev pub return_intake_scope : ℕ
return_intake_scope = 6

abbrev pub return_collection_scope : ℕ
return_collection_scope = 7

abbrev pub collection_code_ttl_minutes : ℕ
collection_code_ttl_minutes = 60

abbrev pub is_order : ℕ → Order → Bool
is_order id o = o.id == id

-- `SELECT ... FROM orders WHERE id = $1`, its first row.
abbrev pub read_order : ℕ → Db (Option Order)
read_order order_id = gets (λ s. find (is_order order_id) s.orders.orders)

module _ (desk : Desk) where
  unfoldable pub assert_origin_node_ownership : ℕ → ℕ → Db ⊤
  assert_origin_node_ownership order_id user_id = do
    owned ← gets (λ s.
        any
          (λ o. o.id == order_id && any (λ n. n == o.placed.origin_node_id) (desk.node_ids user_id))
          s.orders.orders)
    throw_if (not owned) entity_not_found

  unfoldable pub assert_destination_node_ownership : ℕ → ℕ → Db ⊤
  assert_destination_node_ownership order_id user_id = do
    owned ← gets (λ s.
        any
          (λ o.
            o.id == order_id
            && any (λ n. n == o.placed.destination_node_id) (desk.node_ids user_id))
          s.orders.orders)
    throw_if (not owned) entity_not_found

  -- The order as the service returns it: when the key was used it is read again.
  abbrev pub answer : ℕ → Option (Option Order) → Db (Option Order)
  answer order_id (some order) = pure order
  answer order_id none = read_order order_id

  abbrev pub send : Order → Option ℕ → Db ⊤
  send order code =
      lift (desk.emails order code) >>= λ mails. modify (enqueue_emails desk.now mails)

  -- A new code for the order, and the emails that carry it.
  unfoldable pub issue_code : ℕ → HandoffCodeType → Order → Db (Option Order)
  issue_code order_id type order = do
    code ←
        on_codes
          (issue desk.hash desk.now order_id type none collection_code_ttl_minutes desk.raw_code)
    send order (some code)
    pure (some order)

  unfoldable pub confirm_intake : ℕ → ℕ → Db (Option Order)
  confirm_intake order_id user_id = do
    assert_destination_node_ownership order_id user_id
    once intake_scope order_id (
          on_orders (mark_ready_for_collection order_id)
          >>= issue_code order_id receiver_collection)
        >>= answer order_id

  unfoldable pub return_intake : ℕ → ℕ → Db (Option Order)
  return_intake order_id user_id = do
    assert_origin_node_ownership order_id user_id
    once return_intake_scope order_id (
          on_orders (mark_ready_for_sender_collection order_id)
          >>= issue_code order_id sender_collection)
        >>= answer order_id

  abbrev pub split_fields : Order → RecordRevenueSplitFields
  split_fields order = record {
    order_id = order.id;
    amount_kobo = order.placed.amount_kobo;
    destination_fee_kobo = order.placed.destination_fee_kobo;
    rider_id = order.rider_id;
    origin_node_id = order.placed.origin_node_id;
    destination_node_id = order.placed.destination_node_id;
  }

  unfoldable pub collect : ℕ → ℕ → Bool → Db (Option Order)
  collect order_id code identity = do
    on_codes (validate desk.hash desk.now order_id receiver_collection code)
    order ← on_orders (mark_collected order_id (identity_confirmed identity))
    on_earnings (record_split desk.now (split_fields order))
    pure (some order)

  unfoldable pub confirm_collection : ℕ → ℕ → ℕ → Bool → Db (Option Order)
  confirm_collection order_id user_id code identity = do
    assert_destination_node_ownership order_id user_id
    once collection_scope order_id (collect order_id code identity) >>= answer order_id

  unfoldable pub collect_return : ℕ → ℕ → Bool → Db (Option Order)
  collect_return order_id code identity = do
    on_codes (validate desk.hash desk.now order_id sender_collection code)
    order ← on_orders (mark_collected_by_sender order_id (identity_confirmed identity))
    on_nodes (release_capacity_slot order.placed.origin_node_id)
    pure (some order)

  unfoldable pub return_collection : ℕ → ℕ → ℕ → Bool → Db (Option Order)
  return_collection order_id user_id code identity = do
    assert_origin_node_ownership order_id user_id
    once return_collection_scope order_id (collect_return order_id code identity)
        >>= answer order_id

  module _ {Km : Type 0} (w : Couriers Km) (moment : Moment) where
    unfoldable pub drop_off : ℕ → Db (Option Order)
    drop_off order_id = do
      order ← on_orders (mark_received_at_origin order_id)
      send order none
      dispatch w moment.now order_id forward none
      pure (some order)

    unfoldable pub confirm_drop_off : ℕ → ℕ → Db (Option Order)
    confirm_drop_off order_id user_id = do
      assert_origin_node_ownership order_id user_id
      once drop_off_scope order_id (drop_off order_id) >>= answer order_id

    -- true is the pickup at the origin, false the arrival at the destination.
    abbrev pub handoff_type : Bool → HandoffCodeType
    handoff_type true = rider_pickup
    handoff_type false = rider_arrival

    abbrev pub assert_ownership : Bool → ℕ → ℕ → Db ⊤
    assert_ownership true order_id user_id = assert_origin_node_ownership order_id user_id
    assert_ownership false order_id user_id = assert_destination_node_ownership order_id user_id

    unfoldable pub confirm_handoff : ℕ → ℕ → Bool → ℕ → Db (Option Order)
    confirm_handoff order_id user_id picking_up code = do
      assert_ownership picking_up order_id user_id
      once (handoff_scope picking_up) order_id (
            on_codes (validate desk.hash desk.now order_id (handoff_type picking_up) code)
            >> record_in_house_handover w moment order_id picking_up
            >> read_order order_id)
          >>= answer order_id

    unfoldable pub accept : (ℕ → Option RiderUser) → ℕ → ℕ → Db (Option Order)
    accept users order_id rider_id = in_transaction (do
      reserved ← on_riders (reserve_delivery_slot rider_id)
      throw_if (not reserved) rider_capacity_unavailable
      assign_in_house_rider w moment users order_id rider_id
      read_order order_id)
