-- ===== src/Capacity.antt =====
-- The places at a Node's counter (src/modules/nodes/application/nodes.service.ts) and in a rider's
-- hands (src/modules/riders/application/rider-capacity.service.ts). A lock of the row lasts for the
-- transaction, so each method is one step.
pub mod Places
pub mod Riders
mod Tests
use locoomo_api.Base.{
  ⊤, ℕ, suc, ◌+◌, ◌-◌, Bool, true, false, not, Option, none, some, List, [], ◌∷◌, ◌==◌, leb,
  if◌then◌else◌, find, update_where,
}
use locoomo_api.Effect.{
  Action, pure, throw, gets, or_throw, ◌>>=◌, ◌>>◌, modify, throw_if, entity_not_found,
  rider_not_active,
}

-- The columns of a Node that these methods read and write.
pub record NodeRow : Type 0 where
  pub id : ℕ
  pub capacity : ℕ
  pub current_count : ℕ

abbrev pub Nodes : Type 0 → Type 0
Nodes A = Action (List NodeRow) A

abbrev pub one_more : NodeRow → NodeRow
one_more node = record node { current_count = node.current_count + 1 }

-- `GREATEST(count - 1, 0)`
abbrev pub one_less : NodeRow → NodeRow
one_less node = record node { current_count = node.current_count - 1 }

abbrev pub hold_one : ℕ → Nodes ⊤
hold_one node_id = modify (update_where (λ n. n.id == node_id) one_more)

unfoldable pub reserve_capacity_slot : ℕ → Nodes Bool
reserve_capacity_slot node_id = do
  found ← gets (find (λ n. n.id == node_id))
  node ← or_throw found entity_not_found
  if leb node.capacity node.current_count then pure false else (hold_one node_id >> pure true)

unfoldable pub hold_returned_parcel : ℕ → Nodes ⊤
hold_returned_parcel node_id = hold_one node_id

unfoldable pub release_capacity_slot : ℕ → Nodes ⊤
release_capacity_slot node_id = modify (update_where (λ n. n.id == node_id) one_less)

pub data RiderStatus : Type 0 where
  pending active suspended : RiderStatus

pub record RiderProfile : Type 0 where
  pub user_id : ℕ
  pub status : RiderStatus
  pub current_active_order_count : ℕ

abbrev pub max_active_orders_per_rider : ℕ
max_active_orders_per_rider = 3

abbrev pub Riders : Type 0 → Type 0
Riders A = Action (List RiderProfile) A

abbrev pub is_active : RiderStatus → Bool
is_active active = true
is_active _ = false

abbrev pub take_up : RiderProfile → RiderProfile
take_up r = record r { current_active_order_count = r.current_active_order_count + 1 }

abbrev pub put_down : RiderProfile → RiderProfile
put_down r = record r { current_active_order_count = r.current_active_order_count - 1 }

unfoldable pub reserve_delivery_slot : ℕ → Riders Bool
reserve_delivery_slot rider_id = do
  found ← gets (find (λ r. r.user_id == rider_id))
  profile ← or_throw found entity_not_found
  throw_if (not (is_active profile.status)) rider_not_active
  if leb max_active_orders_per_rider profile.current_active_order_count
      then pure false
      else (modify (update_where (λ r. r.user_id == rider_id) take_up) >> pure true)

unfoldable pub release_delivery_slot : ℕ → Riders ⊤
release_delivery_slot rider_id = modify (update_where (λ r. r.user_id == rider_id) put_down)
