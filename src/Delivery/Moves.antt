-- ===== src/Delivery/Moves.antt =====
-- Dispatch and `apply` take the steps of Delivery.Steps.
use locoomo_api.Base.{
  ℕ, suc, ◌++◌, ◌≡◌, refl, sym, subst, false, Option, none, some, [], ◌∷◌, ◌==◌, any, find, Row,
  Row-append_new, ◌⊎◌, inl, inr, Bool-cases, Option-cases,
}
use locoomo_api.Effect.{
  ok, err, Error, pure, ◌>>=◌, ◌>>◌, transaction_aborted, unique_violation, >>=_ok, >>=_err,
}
use locoomo_api.Orders.{Order}
use locoomo_api.Logistics.Leg.{requested}
use locoomo_api.Database.{Database, Db, poisoned}
use locoomo_api.Delivery.{DeliveryLeg, DeliveryLegType, is_active_for, new_leg}
use locoomo_api.Delivery.Dispatch.{
  Couriers, insert_leg, choose, forced_choice, choice_for, hand_over, start_leg, dispatch_if_none,
  dispatch, RoutingChoice,
}
use locoomo_api.Delivery.Steps.{done, inserted, saved, Steps}
use locoomo_api.Delivery.Quiet.{Quiet, Takes, >>=-Steps, same-Steps, Quiet-Takes}

abbrev added : (ℕ → DeliveryLeg) → Database → Database
added make s = record s {
  legs = s.legs ++ make s.next_leg_id ∷ [];
  next_leg_id = suc s.next_leg_id;
}

-- What an insert does.
pub insert_leg-cases :
    (make : ℕ → DeliveryLeg) (s : Database)
    → ((e : Error) × (t : Database) × (insert_leg make s ≡ (err e, t))
        × (t.legs ≡ s.legs)
        × (t.next_leg_id ≡ s.next_leg_id))
      ⊎ ((any (is_active_for (make s.next_leg_id).order_id) s.legs ≡ false)
          × (insert_leg make s ≡ (ok (make s.next_leg_id), added make s)))
unfolding insert_leg
insert_leg-cases make s = elim (Bool-cases s.orders.aborted) [
  | inl y ↦ inl (transaction_aborted, s, rw y refl, refl, refl)
  | inr n ↦ elim (Bool-cases (any (is_active_for (make s.next_leg_id).order_id) s.legs)) [
    | inl t ↦ inl (unique_violation, poisoned s, rw (n, t) refl, refl, refl)
    | inr f ↦ inr (f, rw (n, f) refl)
  ]
]

-- An insert, and what follows it.
pub inserting-Steps :
    {B : Type 0} (make : ℕ → DeliveryLeg) (f : DeliveryLeg → Db B) (s : Database)
    → ((id : ℕ) → (make id).id ≡ id)
    → Steps (added make s) ((f (make s.next_leg_id) (added make s)).1)
    → Steps s (((insert_leg make >>= f) s).1)
inserting-Steps make f s own rest = elim (insert_leg-cases make s) [
  | inl (e, t, ran, same, next) ↦
      subst (λ o. Steps s (o.1)) (sym (>>=_err (insert_leg make) f s ran))
        (same-Steps s t same next)
  | inr (free, ran) ↦
      subst (λ o. Steps s (o.1)) (sym (>>=_ok (insert_leg make) f s ran))
        (inserted (make s.next_leg_id) (own s.next_leg_id) free rest)
]

module _ {Km : Type 0} (w : Couriers Km) where
  -- A leg that is there is saved with no external id.
  hand_over-Steps :
      (now : ℕ) (leg : DeliveryLeg) (s : Database)
      → Row leg s.legs
      → Steps s ((hand_over w now leg s).1)
  unfolding hand_over
  hand_over-Steps now leg s r = elim (Bool-cases (w.is_remote leg.provider_key)) [
    | inl t ↦ rw t done
    | inr f ↦ rw f (
        saved leg (record leg { external_id = none; provider_status = none }) r
          (record { same_id = refl; same_order = refl; same_type = refl; moved = inl refl }) done)
  ]

  abbrev made : ℕ → DeliveryLegType → ℕ → ℕ → Order → ℕ → DeliveryLeg
  made order_id leg_type key attempt order id =
      new_leg id order_id leg_type key requested attempt order.placed.vehicle_class none

  start_leg-Takes :
      (now order_id : ℕ) (leg_type : DeliveryLegType) (choice : Option RoutingChoice)
      → Takes (start_leg w now order_id leg_type choice)
  unfolding start_leg
  start_leg-Takes now order_id leg_type none = λ s. done
  start_leg-Takes now order_id leg_type (some (key, attempt)) = λ s.
      elim (Option-cases (find (λ o. o.id == order_id) s.orders.orders)) [
        | inl e ↦ rw e done
        | inr (order, e) ↦
            let make = made order_id leg_type key attempt order in
            let leg = make s.next_leg_id in
            let rest : DeliveryLeg → Db (Option DeliveryLeg) =
              λ leg. hand_over w now leg >> pure (some leg) in
            rw e (
              inserting-Steps make rest s (λ id. refl)
                (>>=-Steps (hand_over w now leg) (λ _. pure (some leg)) (added make s)
                  (hand_over-Steps now leg (added make s) (Row-append_new s.legs leg))
                  (λ a t ran. done)))
      ]

  choose-Quiet : (order_id : ℕ) (leg_type : DeliveryLegType) → Quiet (choose w order_id leg_type)
  unfolding choose
  choose-Quiet order_id leg_type s =
      elim (Option-cases (find (λ o. o.id == order_id) s.orders.orders)) [
        | inl e ↦ rw e (refl, refl)
        | inr (o, e) ↦ rw e (refl, refl)
      ]

  forced-Quiet :
      (order_id : ℕ) (leg_type : DeliveryLegType) (key : ℕ)
      → Quiet (forced_choice w order_id leg_type key)
  unfolding forced_choice
  forced-Quiet order_id leg_type key s = elim (Bool-cases (w.is_registered key)) [
    | inl t ↦ rw t (refl, refl)
    | inr f ↦ rw f (refl, refl)
  ]

  choice_for-Quiet :
      (order_id : ℕ) (leg_type : DeliveryLegType) (forced : Option ℕ)
      → Quiet (choice_for w order_id leg_type forced)
  choice_for-Quiet order_id leg_type none = choose-Quiet order_id leg_type
  choice_for-Quiet order_id leg_type (some key) = forced-Quiet order_id leg_type key

  dispatch_if_none-Takes :
      (now order_id : ℕ) (leg_type : DeliveryLegType) (forced : Option ℕ)
      (active : Option DeliveryLeg)
      → Takes (dispatch_if_none w now order_id leg_type forced active)
  unfolding dispatch_if_none
  dispatch_if_none-Takes now order_id leg_type forced (some active) = λ s. done
  dispatch_if_none-Takes now order_id leg_type forced none = λ s.
      >>=-Steps (choice_for w order_id leg_type forced) (start_leg w now order_id leg_type) s
        (Quiet-Takes (choice_for w order_id leg_type forced)
          (choice_for-Quiet order_id leg_type forced) s)
        (λ choice t ran. start_leg-Takes now order_id leg_type choice t)

  pub dispatch-Takes :
      (now order_id : ℕ) (leg_type : DeliveryLegType) (forced : Option ℕ)
      → Takes (dispatch w now order_id leg_type forced)
  unfolding dispatch
  dispatch-Takes now order_id leg_type forced s =
      dispatch_if_none-Takes now order_id leg_type forced (find (is_active_for order_id) s.legs) s
