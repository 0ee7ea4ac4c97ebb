-- ===== src/Delivery/Run.antt =====
-- The calls of the logistics services, each a transaction of its own: they take the steps of
-- Delivery.Steps.
use locoomo_api.Base.{
  ⊤, ℕ, ◌+◌, ◌≡◌, refl, Bool, true, false, not, ◌&&◌, Option, none, some, List, [], ◌==◌, Row,
  Row-find, Row-append_new, inl, inr, Bool-cases, or_else, find, opt_is, count_where,
}
use locoomo_api.Effect.{Error, pure, throw, ◌>>=◌, ◌>>◌, throw_if, delivery_not_claimable}
use locoomo_api.Orders.{Text}
use locoomo_api.Logistics.Leg.{
  DeliveryLegStatus, DeliveryEventType, requested, same_leg_status, events_to_reach,
}
use locoomo_api.Database.{Database, Db}
use locoomo_api.Delivery.{DeliveryLeg, forward, is_active_for, new_leg}
use locoomo_api.Delivery.Listener.{Moment}
use locoomo_api.Delivery.Dispatch.{Couriers, has_id}
use locoomo_api.Delivery.Events.{
  RiderUser, ProviderDeliverySnapshot, apply, assign_in_house_rider, create_in_house_leg, or_create,
  record_in_house_handover, handover_event, status_before, sync_from_snapshot, sync_found, follow,
  with_details, cancel_leg, cancel_found, in_house_provider_key, name_of, phone_of, is_stale,
}
use locoomo_api.Delivery.Steps.{Steps, done}
use locoomo_api.Delivery.Quiet.{>>=-Steps}
use locoomo_api.Delivery.Moves.{inserting-Steps}
use locoomo_api.Delivery.Applying.{IsHeld, apply-Steps, follow-Steps}

row-IsHeld : (leg : DeliveryLeg) (legs : List DeliveryLeg) → Row leg legs → IsHeld leg legs
row-IsHeld leg legs r = record {
  old = leg;
  row = r;
  same_id = refl;
  same_order = refl;
  same_type = refl;
  same_status = refl;
}

throwing-Steps :
    {B : Type 0} (c : Bool) (e : Error) (f : ⊤ → Db B) (s : Database)
    → Steps s ((f tt s).1)
    → Steps s (((throw_if c e >>= f) s).1)
throwing-Steps c e f s h = elim (Bool-cases c) [ inl t ↦ rw t done | inr n ↦ rw n h ]

module _ {Km : Type 0} (w : Couriers Km) (moment : Moment) where
  or_create-Steps :
      {B : Type 0} (order_id : ℕ) (status : DeliveryLegStatus) (rider : Option ℕ)
      (f : DeliveryLeg → Db B) (s : Database)
      → ((leg : DeliveryLeg) → (t : Database) → Row leg t.legs → Steps t ((f leg t).1))
      → (active : Option DeliveryLeg) → ((leg : DeliveryLeg) → active ≡ some leg → Row leg s.legs)
      → Steps s (((or_create w moment order_id status rider active >>= f) s).1)
  unfolding create_in_house_leg
  or_create-Steps order_id status rider f s h (some leg) there_is = h leg s (there_is leg refl)
  or_create-Steps order_id status rider f s h none there_is =
      let make : ℕ → DeliveryLeg = λ id.
        new_leg id order_id forward in_house_provider_key status
          (count_where (λ l. l.order_id == order_id) s.legs + 1) none rider in
      inserting-Steps make f s (λ id. refl)
        (h (make s.next_leg_id) _ (Row-append_new s.legs (make s.next_leg_id)))

  abbrev claimed : (ℕ → Option RiderUser) → ℕ → DeliveryLeg → DeliveryLeg
  claimed users rider leg = record leg {
    courier_user_id = some rider;
    courier_name = name_of (users rider);
    courier_phone = phone_of (users rider);
  }

  abbrev claiming : (ℕ → Option RiderUser) → ℕ → DeliveryLeg → Db ⊤
  claiming users rider leg = do
    throw_if (not (leg.provider_key == in_house_provider_key)) delivery_not_claimable
    throw_if (not (same_leg_status leg.status requested)) delivery_not_claimable
    apply w moment DeliveryEventType.assigned none (claimed users rider leg)
    pure tt

  claiming-Steps :
      (users : ℕ → Option RiderUser) (rider : ℕ) (leg : DeliveryLeg) (s : Database)
      → Row leg s.legs
      → Steps s ((claiming users rider leg s).1)
  claiming-Steps users rider leg s r =
      let go : Db ⊤ =
        apply w moment DeliveryEventType.assigned none (claimed users rider leg) >> pure tt in
      throwing-Steps (not (leg.provider_key == in_house_provider_key)) delivery_not_claimable
        (λ _.
          throw_if (not (same_leg_status leg.status requested)) delivery_not_claimable >>= λ _. go)
        s
        (throwing-Steps (not (same_leg_status leg.status requested)) delivery_not_claimable
          (λ _. go) s
          (>>=-Steps (apply w moment DeliveryEventType.assigned none (claimed users rider leg))
            (λ _. pure tt) s
            (apply-Steps w moment DeliveryEventType.assigned none (claimed users rider leg) s (
              inl (record {
                old = leg;
                row = r;
                same_id = refl;
                same_order = refl;
                same_type = refl;
                same_status = refl;
              })))
            (λ a t ran. done)))

  pub assign-Steps :
      (users : ℕ → Option RiderUser) (order_id rider : ℕ) (s : Database)
      → Steps s ((assign_in_house_rider w moment users order_id rider s).1)
  unfolding assign_in_house_rider
  assign-Steps users order_id rider s =
      or_create-Steps order_id requested none (claiming users rider) s
        (λ leg t r. claiming-Steps users rider leg t r) (find (is_active_for order_id) s.legs)
        (λ leg e. (Row-find (is_active_for order_id) s.legs e).0)

  abbrev handing : Bool → DeliveryLeg → Db ⊤
  handing picking_up leg = do
    throw_if (not (leg.provider_key == in_house_provider_key)) delivery_not_claimable
    moved ← apply w moment (handover_event w moment picking_up) none leg
    elim moved [ none ↦ throw delivery_not_claimable | some _ ↦ pure tt ]

  handing-Steps :
      (picking_up : Bool) (leg : DeliveryLeg) (s : Database)
      → Row leg s.legs
      → Steps s ((handing picking_up leg s).1)
  handing-Steps picking_up leg s r =
      let event = handover_event w moment picking_up in
      let answer : Option DeliveryLeg → Db ⊤ =
        λ moved. elim moved [ none ↦ throw delivery_not_claimable | some _ ↦ pure tt ] in
      throwing-Steps (not (leg.provider_key == in_house_provider_key)) delivery_not_claimable
        (λ _. apply w moment event none leg >>= answer) s
        (>>=-Steps (apply w moment event none leg) answer s
          (apply-Steps w moment event none leg s (inl (row-IsHeld leg s.legs r)))
          (λ moved t ran. elim moved as (λ m. Steps t ((answer m t).1)) [
            | none ↦ done
            | some _ ↦ done
          ]))

  pub handover-Steps :
      (order_id : ℕ) (picking_up : Bool) (s : Database)
      → Steps s ((record_in_house_handover w moment order_id picking_up s).1)
  unfolding record_in_house_handover
  handover-Steps order_id picking_up s =
      or_create-Steps order_id (status_before w moment picking_up)
        (elim (find (λ o. o.id == order_id) s.orders.orders) [ none ↦ none | some o ↦ o.rider_id ])
        (handing picking_up) s (λ leg t r. handing-Steps picking_up leg t r)
        (find (is_active_for order_id) s.legs)
        (λ leg e. (Row-find (is_active_for order_id) s.legs e).0)

  sync_found-Steps :
      (x : ProviderDeliverySnapshot) (found : Option DeliveryLeg) (s : Database)
      → ((leg : DeliveryLeg) → found ≡ some leg → Row leg s.legs)
      → Steps s ((sync_found w moment x found s).1)
  unfolding sync_found
  sync_found-Steps x none s h = done
  sync_found-Steps x (some leg) s h =
      elim (Bool-cases (is_stale x.sequence leg.provider_sequence)) [
        | inl t ↦ rw t done
        | inr f ↦
            let path = or_else (events_to_reach leg.status x.status) [] in
            rw f (
              >>=-Steps (follow w moment path (with_details x leg)) (λ _. pure true) s
                (follow-Steps w moment path (with_details x leg) s (record {
                  old = leg;
                  row = h leg refl;
                  same_id = refl;
                  same_order = refl;
                  same_type = refl;
                  same_status = refl;
                }))
                (λ a t ran. done))
      ]

  pub sync-Steps :
      (key : ℕ) (x : ProviderDeliverySnapshot) (s : Database)
      → Steps s ((sync_from_snapshot w moment key x s).1)
  unfolding sync_from_snapshot
  sync-Steps key x s =
      let mine : DeliveryLeg → Bool =
        λ l. l.provider_key == key && opt_is l.external_id x.external_id in
      sync_found-Steps x (find mine s.legs) s (λ leg e. (Row-find mine s.legs e).0)

  cancel_found-Steps :
      (reason : Text) (route_to : Option ℕ) (found : Option DeliveryLeg) (s : Database)
      → ((leg : DeliveryLeg) → found ≡ some leg → Row leg s.legs)
      → Steps s ((cancel_found w moment reason route_to found s).1)
  unfolding cancel_found
  cancel_found-Steps reason route_to none s h = done
  cancel_found-Steps reason route_to (some leg) s h =
      let noted : DeliveryLeg = record leg { failure_reason = some reason } in
      >>=-Steps (apply w moment DeliveryEventType.cancelled route_to noted)
        (λ moved. pure (elim moved [ none ↦ false | some _ ↦ true ])) s
        (apply-Steps w moment DeliveryEventType.cancelled route_to noted s (
          inl (record {
            old = leg;
            row = h leg refl;
            same_id = refl;
            same_order = refl;
            same_type = refl;
            same_status = refl;
          })))
        (λ a t ran. done)

  pub cancel-Steps :
      (leg_id : ℕ) (reason : Text) (route_to : Option ℕ) (s : Database)
      → Steps s ((cancel_leg w moment leg_id reason route_to s).1)
  unfolding cancel_leg
  cancel-Steps leg_id reason route_to s =
      cancel_found-Steps reason route_to (find (has_id leg_id) s.legs) s
        (λ leg e. (Row-find (has_id leg_id) s.legs e).0)
