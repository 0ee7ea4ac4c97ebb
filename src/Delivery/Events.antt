-- ===== src/Delivery/Events.antt =====
-- src/modules/logistics/application/delivery-events.service.ts: how a leg moves. A leg that a method
-- has read is an object that it changes and saves, so the helpers hand it on.
use locoomo_api.Base.{
  ⊤, ℕ, ◌+◌, Bool, true, false, not, ◌&&◌, Option, none, some, List, [], ◌∷◌, ◌++◌, ◌==◌, leb,
  opt_is, find, count_where, or_else, or_keep, if◌then◌else◌, take,
}
use locoomo_api.Effect.{pure, throw, gets, ◌>>=◌, ◌>>◌, modify, throw_if, delivery_not_claimable}
use locoomo_api.Orders.{Text}
use locoomo_api.Logistics.Leg.{
  DeliveryLegStatus, DeliveryEventType, requested, released, next_leg_status, events_to_reach,
  is_terminal, same_leg_status,
}
use locoomo_api.Database.{Db}
use locoomo_api.Delivery.{DeliveryLeg, forward, new_leg, is_active_for}
use locoomo_api.Delivery.Listener.{Moment, DeliveryEventNotice, on_delivery_event}
use locoomo_api.Delivery.Dispatch.{Couriers, has_id, save_leg, insert_leg, dispatch}

abbrev pub in_house_provider_key : ℕ
in_house_provider_key = 0

-- The columns of a user that a claim copies.
pub record RiderUser : Type 0 where
  pub first_name : Text
  pub last_name : Text
  pub phone : Option Text

-- `${firstName} ${lastName.charAt(0)}.`
abbrev pub courier_name_of : RiderUser → Text
courier_name_of u = u.first_name ++ (b' ' ∷ (take 1 u.last_name ++ (b'.' ∷ [])))

abbrev pub name_of : Option RiderUser → Option Text
name_of none = none
name_of (some u) = some (courier_name_of u)

abbrev pub phone_of : Option RiderUser → Option Text
phone_of none = none
phone_of (some u) = u.phone

-- What `apply` does to the leg.
abbrev pub let_go : DeliveryEventType → DeliveryLeg → DeliveryLeg
let_go released leg = record leg {
  courier_user_id = none;
  courier_name = none;
  courier_phone = none;
  courier_vehicle = none;
}
let_go _ leg = leg

abbrev pub moved_leg : ℕ → DeliveryEventType → DeliveryLegStatus → DeliveryLeg → DeliveryLeg
moved_leg now event next leg =
    let kept = let_go event leg in
    record kept { status = next; ended_at = if is_terminal next then some now else kept.ended_at }

abbrev pub notice_of : DeliveryEventType → DeliveryLeg → DeliveryEventNotice
notice_of event leg = record {
  order_id = leg.order_id;
  leg_id = leg.id;
  leg_type = leg.leg_type;
  provider_key = leg.provider_key;
  event = event;
  courier_user_id = leg.courier_user_id;
  reason = leg.failure_reason;
}

pub record CourierDetails : Type 0 where
  pub name : Option Text
  pub phone : Option Text
  pub vehicle : Option Text

pub record ProviderDeliverySnapshot : Type 0 where
  pub external_id : ℕ
  pub status : DeliveryLegStatus
  pub provider_status : Text
  pub sequence : Option ℕ
  pub courier : Option CourierDetails
  pub tracking_url : Option Text
  pub actual_kobo : Option ℕ
  pub surcharge_kobo : Option ℕ
  pub failure_reason : Option Text

-- `snapshot.sequence !== null && leg.providerSequence !== null && snapshot.sequence <= ...`
abbrev pub is_stale : Option ℕ → Option ℕ → Bool
is_stale (some new) (some old) = leb new old
is_stale _ _ = false

-- `snapshot.courier?.field`
abbrev pub of_courier : (CourierDetails → Option Text) → Option CourierDetails → Option Text
of_courier field none = none
of_courier field (some c) = field c

abbrev pub with_details : ProviderDeliverySnapshot → DeliveryLeg → DeliveryLeg
with_details x leg = record leg {
  provider_status = some x.provider_status;
  provider_sequence = x.sequence;
  courier_name = or_keep (of_courier (λ c. c.name) x.courier) leg.courier_name;
  courier_phone = or_keep (of_courier (λ c. c.phone) x.courier) leg.courier_phone;
  courier_vehicle = or_keep (of_courier (λ c. c.vehicle) x.courier) leg.courier_vehicle;
  tracking_url = or_keep x.tracking_url leg.tracking_url;
  actual_kobo = or_keep x.actual_kobo leg.actual_kobo;
  surcharge_kobo = or_else x.surcharge_kobo leg.surcharge_kobo;
  failure_reason = or_keep x.failure_reason leg.failure_reason;
}

module _ {Km : Type 0} (w : Couriers Km) (moment : Moment) where
  -- A cancelled leg's order is routed again.
  unfoldable pub route_again : DeliveryEventType → Option ℕ → DeliveryLeg → Db ⊤
  route_again DeliveryEventType.cancelled route_to leg =
      dispatch w moment.now leg.order_id leg.leg_type route_to >> pure tt
  route_again _ route_to leg = pure tt

  unfoldable pub apply_next :
      DeliveryEventType
      → Option ℕ
      → DeliveryLeg
      → Option DeliveryLegStatus
      → Db (Option DeliveryLeg)
  apply_next event route_to leg none = pure none
  apply_next event route_to leg (some next) = do
    let after = moved_leg moment.now event next leg
    modify (save_leg after)
    on_delivery_event moment (notice_of event after)
    route_again event route_to after
    pure (some after)

  -- The leg as it then is; `none` where the source returns false.
  unfoldable pub apply : DeliveryEventType → Option ℕ → DeliveryLeg → Db (Option DeliveryLeg)
  apply event route_to leg = apply_next event route_to leg (next_leg_status leg.status event)

  unfoldable pub create_in_house_leg : ℕ → DeliveryLegStatus → Option ℕ → Db DeliveryLeg
  create_in_house_leg order_id status courier_user_id = do
    count ← gets (λ s. count_where (λ l. l.order_id == order_id) s.legs)
    insert_leg (λ id.
        new_leg id order_id forward in_house_provider_key status (count + 1) none courier_user_id)

  -- `lockActiveLeg(...) ?? createInHouseLeg(...)`
  abbrev pub or_create : ℕ → DeliveryLegStatus → Option ℕ → Option DeliveryLeg → Db DeliveryLeg
  or_create order_id status courier_user_id (some leg) = pure leg
  or_create order_id status courier_user_id none =
      create_in_house_leg order_id status courier_user_id

  unfoldable pub assign_in_house_rider : (ℕ → Option RiderUser) → ℕ → ℕ → Db ⊤
  assign_in_house_rider users order_id rider_user_id = do
    active ← gets (λ s. find (is_active_for order_id) s.legs)
    leg ← or_create order_id requested none active
    throw_if (not (leg.provider_key == in_house_provider_key)) delivery_not_claimable
    throw_if (not (same_leg_status leg.status requested)) delivery_not_claimable
    apply DeliveryEventType.assigned none (record leg {
      courier_user_id = some rider_user_id;
      courier_name = name_of (users rider_user_id);
      courier_phone = phone_of (users rider_user_id);
    })
    pure tt

  -- The two events of an in-house handover: true is PICKED_UP, false is DELIVERED.
  abbrev pub handover_event : Bool → DeliveryEventType
  handover_event true = DeliveryEventType.picked_up
  handover_event false = DeliveryEventType.delivered

  abbrev pub status_before : Bool → DeliveryLegStatus
  status_before true = DeliveryLegStatus.assigned
  status_before false = DeliveryLegStatus.picked_up

  unfoldable pub record_in_house_handover : ℕ → Bool → Db ⊤
  record_in_house_handover order_id picking_up = do
    active ← gets (λ s. find (is_active_for order_id) s.legs)
    rider ← gets (λ s. elim (find (λ o. o.id == order_id) s.orders.orders) [
      | none ↦ none
      | some o ↦ o.rider_id
    ])
    leg ← or_create order_id (status_before picking_up) rider active
    throw_if (not (leg.provider_key == in_house_provider_key)) delivery_not_claimable
    moved ← apply (handover_event picking_up) none leg
    elim moved [ none ↦ throw delivery_not_claimable | some _ ↦ pure tt ]

  -- The loop over the steps.
  unfoldable pub apply_all : List DeliveryEventType → DeliveryLeg → Db ⊤
  apply_all [] leg = pure tt
  apply_all (event ∷ events) leg = do
    moved ← apply event none leg
    apply_all events (or_else moved leg)

  unfoldable pub follow : List DeliveryEventType → DeliveryLeg → Db ⊤
  follow [] leg = modify (save_leg leg)
  follow (event ∷ events) leg = apply_all (event ∷ events) leg

  unfoldable pub sync_found : ProviderDeliverySnapshot → Option DeliveryLeg → Db Bool
  sync_found x none = pure false
  sync_found x (some leg) =
      if is_stale x.sequence leg.provider_sequence
      then pure false
      else (follow (or_else (events_to_reach leg.status x.status) []) (with_details x leg)
          >> pure true)

  unfoldable pub sync_from_snapshot : ℕ → ProviderDeliverySnapshot → Db Bool
  sync_from_snapshot provider_key x =
      gets (λ s.
        find (λ l. l.provider_key == provider_key && opt_is l.external_id x.external_id) s.legs)
      >>= sync_found x

  unfoldable pub cancel_found : Text → Option ℕ → Option DeliveryLeg → Db Bool
  cancel_found reason route_to none = pure false
  cancel_found reason route_to (some leg) = do
    moved ← apply DeliveryEventType.cancelled route_to (record leg { failure_reason = some reason })
    pure (elim moved [ none ↦ false | some _ ↦ true ])

  unfoldable pub cancel_leg : ℕ → Text → Option ℕ → Db Bool
  cancel_leg leg_id reason route_to =
      gets (λ s. find (has_id leg_id) s.legs) >>= cancel_found reason route_to
