-- ===== src/Delivery/Active.antt =====
-- Runs of the logistics services: an order has at most one active leg, and a leg that has ended stays
-- ended.
use locoomo_api.Base.{
  ⊤, ℕ, ◌≤◌, ◌≡◌, refl, sym, ap, subst, Bool, true, Option, none, some, List, [], ◌∷◌, Row,
  Row-find, inl, inr, Bool-cases, find, count_where, arith, update_where, put, update-put, Row-one,
  take,
}
use locoomo_api.Effect.{pure, ◌>>◌, modify}
use locoomo_api.Orders.{Text}
use locoomo_api.Logistics.Leg.{
  DeliveryLegStatus, DeliveryEventType, requested, same_leg_status, next_leg_status, is_terminal,
}
use locoomo_api.Database.{Database, Db, in_transaction, opened}
use locoomo_api.Delivery.{DeliveryLeg, DeliveryLegType, is_active_for}
use locoomo_api.Delivery.Listener.{Moment}
use locoomo_api.Delivery.Dispatch.{
  Couriers, has_id, dispatch, Submitted, accepted, rejected, unavailable, submit, submit_found,
  record_answer, awaits_submission, cancelled_leg, update_leg,
}
use locoomo_api.Delivery.Events.{
  RiderUser, ProviderDeliverySnapshot, assign_in_house_rider, record_in_house_handover,
  sync_from_snapshot, cancel_leg,
}
use locoomo_api.Delivery.Steps.{
  id_of, Follows, Steps, done, saved, LegSteps, IsOrderly, LegSteps-IsOrderly, LegSteps-ended,
  LegSteps-trans,
}
use locoomo_api.Delivery.Quiet.{>>=-Steps, in_transaction-Steps}
use locoomo_api.Delivery.Moves.{dispatch-Takes}
use locoomo_api.Delivery.Run.{assign-Steps, handover-Steps, sync-Steps, cancel-Steps}

requested_cancels :
    (a : DeliveryLegStatus)
    → same_leg_status a requested ≡ true
    → next_leg_status a DeliveryEventType.cancelled ≡ some DeliveryLegStatus.cancelled
unfolding next_leg_status same_leg_status
requested_cancels a h = ground arith

-- An UPDATE of a leg by its id.
update_leg-Steps :
    (leg : DeliveryLeg) (f : DeliveryLeg → DeliveryLeg) (s : Database)
    → IsOrderly s.legs s.next_leg_id
    → Row leg s.legs
    → Follows leg (f leg)
    → Steps s (update_leg leg.id f s)
update_leg-Steps leg f s v r m =
    let as_put : update_where (has_id leg.id) f s.legs ≡ put id_of leg.id (f leg) s.legs =
      update-put id_of leg.id f (f leg) s.legs
        (λ a q same. ap f (Row-one id_of s.legs v.distinct q r same)) in
    subst (λ x. LegSteps s.legs s.next_leg_id x s.next_leg_id) (sym as_put)
      (saved leg (f leg) r m done)

module _ {Km : Type 0} (w : Couriers Km) where
  record_answer-Steps :
      (now : ℕ) (leg : DeliveryLeg) (answer : Submitted) (s : Database)
      → IsOrderly s.legs s.next_leg_id
      → Row leg s.legs
      → same_leg_status leg.status requested ≡ true
      → Steps s ((record_answer w now leg answer s).1)
  unfolding record_answer
  record_answer-Steps now leg (accepted external_id provider_status quoted tracking eta) s v r h =
      update_leg-Steps leg
        (λ l. record l {
          external_id = external_id;
          provider_status = provider_status;
          quoted_kobo = quoted;
          tracking_url = tracking;
          eta_minutes = eta;
        })
        s v r (record { same_id = refl; same_order = refl; same_type = refl; moved = inl refl })
  record_answer-Steps now leg unavailable s v r h = done
  record_answer-Steps now leg (rejected reason) s v r h =
      let ending : Db ⊤ = modify (update_leg leg.id (cancelled_leg now (take 500 reason))) in
      let onward : Db ⊤ = dispatch w now leg.order_id leg.leg_type none >> pure tt in
      in_transaction-Steps (ending >> onward) s (
        >>=-Steps ending (λ _. onward) (opened s)
          (update_leg-Steps leg (cancelled_leg now (take 500 reason)) (opened s) v r (record {
            same_id = refl;
            same_order = refl;
            same_type = refl;
            moved = inr (DeliveryEventType.cancelled, requested_cancels leg.status h);
          }))
          (λ a t ran.
            >>=-Steps (dispatch w now leg.order_id leg.leg_type none) (λ _. pure tt) t
              (dispatch-Takes w now leg.order_id leg.leg_type none t) (λ b u went. done)))

  submit_found-Steps :
      (now : ℕ) (answer : DeliveryLeg → Submitted) (found : Option DeliveryLeg) (s : Database)
      → IsOrderly s.legs s.next_leg_id
      → ((leg : DeliveryLeg) → found ≡ some leg → Row leg s.legs)
      → Steps s ((submit_found w now answer found s).1)
  unfolding submit_found
  submit_found-Steps now answer none s v h = done
  submit_found-Steps now answer (some leg) s v h = elim (Bool-cases (awaits_submission leg)) [
    | inr f ↦ rw f done
    | inl t ↦
        let waiting : same_leg_status leg.status requested ≡ true = ground (arith, t) in
        rw t (record_answer-Steps now leg (answer leg) s v (h leg refl) waiting)
  ]

  submit-Steps :
      (now : ℕ) (answer : DeliveryLeg → Submitted) (leg_id : ℕ) (s : Database)
      → IsOrderly s.legs s.next_leg_id
      → Steps s ((submit w now answer leg_id s).1)
  unfolding submit
  submit-Steps now answer leg_id s v =
      submit_found-Steps now answer (find (has_id leg_id) s.legs) s v
        (λ leg e. (Row-find (has_id leg_id) s.legs e).0)

-- One call of the services, with what it is told and reads.
pub data Call : Type 0 where
  dispatched : ℕ → ℕ → DeliveryLegType → Option ℕ → Call
  claimed : Moment → (ℕ → Option RiderUser) → ℕ → ℕ → Call
  handed_over : Moment → ℕ → Bool → Call
  reported : Moment → ℕ → ProviderDeliverySnapshot → Call
  cancelled : Moment → ℕ → Text → Option ℕ → Call
  submitted : ℕ → (DeliveryLeg → Submitted) → ℕ → Call

module _ {Km : Type 0} (w : Couriers Km) where
  unfoldable pub after : Call → Database → Database
  after (dispatched now order_id leg_type forced) s =
      (in_transaction (dispatch w now order_id leg_type forced) s).1
  after (claimed moment users order_id rider) s =
      (in_transaction (assign_in_house_rider w moment users order_id rider) s).1
  after (handed_over moment order_id picking_up) s =
      (in_transaction (record_in_house_handover w moment order_id picking_up) s).1
  after (reported moment key snapshot) s =
      (in_transaction (sync_from_snapshot w moment key snapshot) s).1
  after (cancelled moment leg_id reason route_to) s =
      (in_transaction (cancel_leg w moment leg_id reason route_to) s).1
  after (submitted now answer leg_id) s = (submit w now answer leg_id s).1

  -- The last call stands first.
  unfoldable pub run : List Call → Database → Database
  run [] s = s
  run (c ∷ cs) s = after c (run cs s)

  after-Steps : (c : Call) (s : Database) → IsOrderly s.legs s.next_leg_id → Steps s (after c s)
  unfolding after
  after-Steps (dispatched now order_id leg_type forced) s v =
      in_transaction-Steps (dispatch w now order_id leg_type forced) s
        (dispatch-Takes w now order_id leg_type forced (opened s))
  after-Steps (claimed moment users order_id rider) s v =
      in_transaction-Steps (assign_in_house_rider w moment users order_id rider) s
        (assign-Steps w moment users order_id rider (opened s))
  after-Steps (handed_over moment order_id picking_up) s v =
      in_transaction-Steps (record_in_house_handover w moment order_id picking_up) s
        (handover-Steps w moment order_id picking_up (opened s))
  after-Steps (reported moment key snapshot) s v =
      in_transaction-Steps (sync_from_snapshot w moment key snapshot) s
        (sync-Steps w moment key snapshot (opened s))
  after-Steps (cancelled moment leg_id reason route_to) s v =
      in_transaction-Steps (cancel_leg w moment leg_id reason route_to) s
        (cancel-Steps w moment leg_id reason route_to (opened s))
  after-Steps (submitted now answer leg_id) s v = submit-Steps w now answer leg_id s v

  run-IsOrderly :
      (cs : List Call) (s : Database)
      → IsOrderly s.legs s.next_leg_id
      → IsOrderly (run cs s).legs (run cs s).next_leg_id
  unfolding run
  run-IsOrderly [] s v = v
  run-IsOrderly (c ∷ cs) s v =
      let before = run-IsOrderly cs s v in
      LegSteps-IsOrderly (after-Steps c (run cs s) before) before

  run-Steps : (cs : List Call) (s : Database) → IsOrderly s.legs s.next_leg_id → Steps s (run cs s)
  unfolding run
  run-Steps [] s v = done
  run-Steps (c ∷ cs) s v =
      LegSteps-trans (run-Steps cs s v) (after-Steps c (run cs s) (run-IsOrderly cs s v))

  -- Whatever riders, couriers, Admin and the outbox do, in any order, an order never has two active
  -- legs: no parcel is in the hands of two couriers.
  pub one_active_leg :
      (cs : List Call) (s : Database)
      → IsOrderly s.legs s.next_leg_id
      → (order_id : ℕ) → count_where (is_active_for order_id) (run cs s).legs ≤ 1
  one_active_leg cs s v order_id = (run-IsOrderly cs s v).single order_id

  -- A leg that has ended, by delivery, return or cancellation, is still in the table after any further
  -- calls, and its status is what it was.
  pub ended_leg-stays :
      (cs : List Call) (s : Database)
      → IsOrderly s.legs s.next_leg_id
      → (leg : DeliveryLeg) → Row leg s.legs
      → is_terminal leg.status ≡ true
      → (later : DeliveryLeg) × Row later (run cs s).legs
        × (later.id ≡ leg.id)
        × (later.status ≡ leg.status)
  ended_leg-stays cs s v leg r h = LegSteps-ended (run-Steps cs s v) v leg r h
