-- ===== src/Handoffs/Confirm/Tests.antt =====
-- One parcel at its destination's counter, and the theorem applied to it.
use locoomo_api.Base.{sym, ◌∙◌, false, true, none, some, [], ◌∷◌, here, there, ◌⊎◌}
use locoomo_api.Effect.{ok}
use locoomo_api.Orders.{Order, OrderStatus, small}
use locoomo_api.Orders.Along.{IsUnique}
use locoomo_api.Handoffs.Codes.{receiver_collection}
use locoomo_api.Database.{Database}
use locoomo_api.Handoffs.Confirm.{Desk, confirm_collection}
use locoomo_api.Handoffs.Confirm.Collected.{IsUntouched, IsPaidOut, confirm_collection-whole}

abbrev parcel : Order
parcel = record {
  id = 3;
  placed = record {
    payment_intent_id = 1;
    consumer_id = 7;
    origin_node_id = 1;
    destination_node_id = 2;
    receiver_full_name = [];
    receiver_email = [];
    receiver_phone = [];
    parcel_description = [];
    parcel_size = small;
    weight_kg = none;
    length_cm = none;
    width_cm = none;
    height_cm = none;
    handling = [];
    vehicle_class = none;
    amount_kobo = 1000;
    destination_fee_kobo = 100;
  };
  tracking_code = [];
  status = OrderStatus.ready_for_collection;
  rider_id = some 12;
  shelf_node_id = some 2;
  shelf_number = some 1;
}

abbrev shop : Database
shop = record {
  orders = record { orders = parcel ∷ []; order_events = []; next_id = 4; aborted = false };
  nodes = [];
  riders = [];
  codes = record {
    handoff_codes =
        record {
          id = 0;
          order_id = 3;
          type = receiver_collection;
          code_hash = 4321;
          requested_by_user_id = none;
          expires_at = 900;
          used_at = none;
          failed_attempts = 0;
          created_at = 5;
        }
        ∷ [];
    next_id = 1;
    counted = [];
  };
  earnings = record {
    rules =
        record {
          id = 1;
          rider_percent = 60;
          node_percent = 15;
          platform_percent = 25;
          effective_from = 1;
          created_by_admin_id = 1;
        }
        ∷ [];
    entries = [];
    next_id = 1;
  };
  outbox = record { outbox_events = []; next_id = 0 };
  keys = [];
  intents = [];
  next_intent_id = 1;
  legs = [];
  next_leg_id = 1;
}

abbrev desk : Desk
desk = record {
  now = 100;
  hash = λ code. code;
  raw_code = 0;
  node_ids = λ user. 2 ∷ [];
  emails = λ o code. ok [];
}

shop-IsUnique : IsUnique shop.orders
shop-IsUnique a b (here e) (here f) same = e ∙ sym f
shop-IsUnique a b (here e) (there r) same = elim r [ ]
shop-IsUnique a b (there r) q same = elim r [ ]

confirm_collection-whole_example :
    IsUntouched shop ((confirm_collection desk 3 40 4321 true shop).1)
    ⊎ IsPaidOut 3 shop ((confirm_collection desk 3 40 4321 true shop).1)
confirm_collection-whole_example = confirm_collection-whole desk 3 4321 true 40 shop shop-IsUnique
