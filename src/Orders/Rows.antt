-- ===== src/Orders/Rows.antt =====
-- The rows of the orders module: src/modules/orders/infrastructure/entities, and the fields that
-- an order is created from. Ids are uuids, which are only compared, so they are numbers. Texts are
-- lists of character codes. The timestamps that nothing reads are left out.
use locoomo_api.Base.{ℕ, Bool, Option, List}
use locoomo_api.Orders.Status.{OrderStatus, OrderEventType}

abbrev pub Text : Type 0
Text = List ℕ

pub data ParcelSize : Type 0 where
  small medium large extra_large : ParcelSize

-- `weightKg` is numeric(6,1): tenths of a kilogram.
pub record CreateOrderFields : Type 0 where
  pub payment_intent_id : ℕ
  pub consumer_id : ℕ
  pub origin_node_id : ℕ
  pub destination_node_id : ℕ
  pub receiver_full_name : Text
  pub receiver_email : Text
  pub receiver_phone : Text
  pub parcel_description : Text
  pub parcel_size : ParcelSize
  pub weight_kg : Option ℕ
  pub length_cm : Option ℕ
  pub width_cm : Option ℕ
  pub height_cm : Option ℕ
  pub handling : List Text
  pub vehicle_class : Option Text
  pub amount_kobo : ℕ
  pub destination_fee_kobo : ℕ

-- OrderEntity: what it is created from, which no method changes, and the columns that change.
pub record Order : Type 0 where
  pub id : ℕ
  pub placed : CreateOrderFields
  pub tracking_code : Text
  pub status : OrderStatus
  pub rider_id : Option ℕ
  pub shelf_node_id : Option ℕ
  pub shelf_number : Option ℕ

-- The `payload` objects that the callers pass.
pub data EventPayload : Type 0 where
  empty : EventPayload
  placed_for : ℕ → ℕ → EventPayload
  rider : ℕ → EventPayload
  provider : ℕ → EventPayload
  identity_confirmed : Bool → EventPayload
  released_by : ℕ → Text → Option Text → EventPayload
  returned_by : ℕ → Option Text → EventPayload

pub record OrderEvent : Type 0 where
  pub order_id : ℕ
  pub type : OrderEventType
  pub payload : EventPayload

-- The tables that OrdersService writes. `aborted` is set once a statement of the transaction has
-- failed: PostgreSQL then refuses every further one.
pub record OrdersTables : Type 0 where
  pub orders : List Order
  pub order_events : List OrderEvent
  pub next_id : ℕ
  pub aborted : Bool
