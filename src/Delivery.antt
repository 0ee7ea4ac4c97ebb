-- ===== src/Delivery.antt =====
-- src/modules/logistics/infrastructure/entities/delivery-leg.entity.ts: the rows of delivery_legs.
-- Provider keys and external ids are only compared, so they are numbers.
pub mod Alone
pub mod Listener
pub mod Dispatch
pub mod Events
pub mod Steps
pub mod Quiet
pub mod Moves
pub mod Applying
pub mod Run
pub mod Active
pub mod Agrees
pub mod Together
mod Tests
use locoomo_api.Base.{ℕ, Bool, true, false, Option, none, some, List, ◌&&◌, ◌==◌}
use locoomo_api.Orders.{Text}
use locoomo_api.Logistics.Leg.{DeliveryLegStatus, is_terminal}
use locoomo_api.Base.{not}

pub data DeliveryLegType : Type 0 where
  forward return : DeliveryLegType

abbrev pub same_leg_type : DeliveryLegType → DeliveryLegType → Bool
same_leg_type forward forward = true
same_leg_type return return = true
same_leg_type _ _ = false

pub record DeliveryLeg : Type 0 where
  pub id : ℕ
  pub order_id : ℕ
  pub leg_type : DeliveryLegType
  pub provider_key : ℕ
  pub status : DeliveryLegStatus
  pub attempt_number : ℕ
  pub external_id : Option ℕ
  pub provider_status : Option Text
  pub provider_sequence : Option ℕ
  pub vehicle_class : Option Text
  pub courier_user_id : Option ℕ
  pub courier_name : Option Text
  pub courier_phone : Option Text
  pub courier_vehicle : Option Text
  pub tracking_url : Option Text
  pub eta_minutes : Option ℕ
  pub quoted_kobo : Option ℕ
  pub actual_kobo : Option ℕ
  pub surcharge_kobo : ℕ
  pub failure_reason : Option Text
  pub ended_at : Option ℕ

-- `legs.create` with the column defaults.
abbrev pub new_leg :
    ℕ → ℕ → DeliveryLegType → ℕ → DeliveryLegStatus → ℕ → Option Text → Option ℕ → DeliveryLeg
new_leg id order_id leg_type provider_key status attempt_number vehicle_class courier_user_id =
    record {
      id = id;
      order_id = order_id;
      leg_type = leg_type;
      provider_key = provider_key;
      status = status;
      attempt_number = attempt_number;
      external_id = none;
      provider_status = none;
      provider_sequence = none;
      vehicle_class = vehicle_class;
      courier_user_id = courier_user_id;
      courier_name = none;
      courier_phone = none;
      courier_vehicle = none;
      tracking_url = none;
      eta_minutes = none;
      quoted_kobo = none;
      actual_kobo = none;
      surcharge_kobo = 0;
      failure_reason = none;
      ended_at = none;
    }

-- A row that the index IDX_delivery_legs_one_active covers.
abbrev pub is_active_for : ℕ → DeliveryLeg → Bool
is_active_for order_id leg = leg.order_id == order_id && not (is_terminal leg.status)
