-- ===== src/Delivery/Together.antt =====
-- `apply`: the order is where its leg is.
use locoomo_api.Base.{
  ℕ, ◌≡◌, refl, sym, ap, ◌∙◌, subst, Option, none, some, ◌⊎◌, inl, inr, Option-cases, arith,
}
use locoomo_api.Effect.{ok, pure, ◌>>=◌, ◌>>◌, modify, >>=-eq-ok}
use locoomo_api.Orders.Code.{codes}
use locoomo_api.Orders.Along.{IsUnique}
use locoomo_api.Logistics.Leg.{
  DeliveryLegStatus, DeliveryEventType, next_leg_status, requested, released, attempt_failed,
  same_leg_status,
}
use locoomo_api.Database.{Database, Db}
use locoomo_api.Delivery.{DeliveryLeg, forward}
use locoomo_api.Delivery.Listener.{Moment, DeliveryEventNotice, on_event, heed, on_delivery_event}
use locoomo_api.Delivery.Dispatch.{Couriers, save_leg, dispatch}
use locoomo_api.Delivery.Events.{apply, apply_next, route_again, moved_leg, let_go, notice_of}
use locoomo_api.Delivery.Agrees.{
  order_at, AreAt, assigned-AreAt, picked_up-AreAt, delivered-AreAt, returned-AreAt,
  returning-AreAt, let_go-AreAt,
}
-- The status after each event, and the ones before it.
use locoomo_api.Delivery.Alone.{IsAlone, >>=-IsAlone, dispatch-IsAlone}

leaves :
    (a b : DeliveryLegStatus) (e : DeliveryEventType)
    → next_leg_status a e ≡ some b
    → (e ≡ released → (a ≡ DeliveryLegStatus.assigned) × (b ≡ requested))
      × (e ≡ DeliveryEventType.cancelled
          → ((a ≡ requested) ⊎ (a ≡ DeliveryLegStatus.assigned))
            × (b ≡ DeliveryLegStatus.cancelled))
unfolding next_leg_status same_leg_status
leaves requested b e h = (λ k. ground arith, λ k. (inl refl, ground arith))
leaves DeliveryLegStatus.assigned b e h = (λ k. (refl, ground arith), λ k. (inr refl, ground arith))
leaves a b e h = (λ k. ground arith, λ k. ground arith)

reaches :
    (a b : DeliveryLegStatus) (e : DeliveryEventType)
    → next_leg_status a e ≡ some b
    → (e ≡ DeliveryEventType.assigned → b ≡ DeliveryLegStatus.assigned)
      × (e ≡ DeliveryEventType.picked_up → b ≡ DeliveryLegStatus.picked_up)
      × (e ≡ attempt_failed → b ≡ a)
      × (e ≡ DeliveryEventType.delivered → b ≡ DeliveryLegStatus.delivered)
      × (e ≡ DeliveryEventType.returning → b ≡ DeliveryLegStatus.returning)
      × (e ≡ DeliveryEventType.returned → b ≡ DeliveryLegStatus.returned)
unfolding next_leg_status same_leg_status
reaches a b e h = (
  λ k. ground arith,
  λ k. ground arith,
  λ k. ground arith,
  λ k. ground arith,
  λ k. ground arith,
  λ k. ground arith,
)

module _ (moment : Moment) (n : DeliveryEventNotice) (s t : Database) (unique : IsUnique s.orders)
    (a b : DeliveryLegStatus) (before : AreAt n.order_id (order_at a) s.orders.orders) where
  -- What the listener makes of the order.
  on_event-AreAt :
      (e : DeliveryEventType)
      → next_leg_status a e ≡ some b
      → on_event moment n e s ≡ (ok tt, t)
      → AreAt n.order_id (order_at b) t.orders.orders
  unfolding on_event order_at
  on_event-AreAt DeliveryEventType.assigned h ran =
      let (is, _, _, _, _, _) = reaches a b DeliveryEventType.assigned h in
      subst (λ x. AreAt n.order_id (order_at x) t.orders.orders) (sym (is refl))
        (assigned-AreAt n s t unique n.courier_user_id ran)
  on_event-AreAt DeliveryEventType.picked_up h ran =
      let (_, is, _, _, _, _) = reaches a b DeliveryEventType.picked_up h in
      subst (λ x. AreAt n.order_id (order_at x) t.orders.orders) (sym (is refl))
        (picked_up-AreAt n s t unique ran)
  on_event-AreAt attempt_failed h ran =
      let (_, _, is, _, _, _) = reaches a b attempt_failed h in
      let stays : s ≡ t = ap (λ o. o.1) ran in
      subst (λ x. AreAt n.order_id (order_at x) t.orders.orders) (sym (is refl))
        (subst (λ u. AreAt n.order_id (order_at a) u.orders.orders) stays before)
  on_event-AreAt DeliveryEventType.delivered h ran =
      let (_, _, _, is, _, _) = reaches a b DeliveryEventType.delivered h in
      subst (λ x. AreAt n.order_id (order_at x) t.orders.orders) (sym (is refl))
        (delivered-AreAt n s t unique ran)
  on_event-AreAt DeliveryEventType.returning h ran =
      let (_, _, _, _, is, _) = reaches a b DeliveryEventType.returning h in
      subst (λ x. AreAt n.order_id (order_at x) t.orders.orders) (sym (is refl))
        (returning-AreAt n s t unique moment ran)
  on_event-AreAt DeliveryEventType.returned h ran =
      let (_, _, _, _, _, is) = reaches a b DeliveryEventType.returned h in
      subst (λ x. AreAt n.order_id (order_at x) t.orders.orders) (sym (is refl))
        (returned-AreAt n s t unique ran)
  on_event-AreAt released h ran =
      let (was, is) = (leaves a b released h).0 refl in
      subst (λ x. AreAt n.order_id (order_at x) t.orders.orders) (sym is)
        (let_go-AreAt n s t unique (codes "released")
          (inr (subst (λ x. AreAt n.order_id (order_at x) s.orders.orders) was before)) ran)
  on_event-AreAt DeliveryEventType.cancelled h ran =
      let (was, is) = (leaves a b DeliveryEventType.cancelled h).1 refl in
      subst (λ x. AreAt n.order_id (order_at x) t.orders.orders) (sym is)
        (let_go-AreAt n s t unique (codes "cancelled")
          (elim was [
            | inl k ↦ inl (subst (λ x. AreAt n.order_id (order_at x) s.orders.orders) k before)
            | inr k ↦ inr (subst (λ x. AreAt n.order_id (order_at x) s.orders.orders) k before)
          ])
          ran)

module _ {Km : Type 0} (w : Couriers Km) (moment : Moment) where
  route_again-IsAlone :
      (e : DeliveryEventType) (route_to : Option ℕ) (leg : DeliveryLeg)
      → IsAlone (route_again w moment e route_to leg)
  unfolding route_again
  route_again-IsAlone DeliveryEventType.assigned route_to leg = λ s. refl
  route_again-IsAlone released route_to leg = λ s. refl
  route_again-IsAlone DeliveryEventType.picked_up route_to leg = λ s. refl
  route_again-IsAlone attempt_failed route_to leg = λ s. refl
  route_again-IsAlone DeliveryEventType.delivered route_to leg = λ s. refl
  route_again-IsAlone DeliveryEventType.returning route_to leg = λ s. refl
  route_again-IsAlone DeliveryEventType.returned route_to leg = λ s. refl
  route_again-IsAlone DeliveryEventType.cancelled route_to leg =
      >>=-IsAlone (dispatch w moment.now leg.order_id leg.leg_type route_to) (λ _. pure tt)
        (dispatch-IsAlone w moment.now leg.order_id leg.leg_type route_to) (λ _ u. refl)

  let_go-order :
      (e : DeliveryEventType) (leg : DeliveryLeg)
      → ((let_go e leg).order_id ≡ leg.order_id) × ((let_go e leg).leg_type ≡ leg.leg_type)
  let_go-order e leg = ground arith

  abbrev status_of : Option DeliveryLeg → DeliveryLegStatus
  status_of none = requested
  status_of (some leg) = leg.status

  stands_still :
      (event : DeliveryEventType) (route_to : Option ℕ) (leg : DeliveryLeg) (s : Database)
      → apply_next w moment event route_to leg none s ≡ (ok none, s)
  unfolding apply_next
  stands_still event route_to leg s = refl

  applied :
      (event : DeliveryEventType) (route_to : Option ℕ) (leg later : DeliveryLeg) (s t : Database)
      (next : DeliveryLegStatus)
      → leg.leg_type ≡ forward
      → IsUnique s.orders
      → AreAt leg.order_id (order_at leg.status) s.orders.orders
      → next_leg_status leg.status event ≡ some next
      → apply_next w moment event route_to leg (some next) s ≡ (ok (some later), t)
      → (later.status ≡ next) × AreAt leg.order_id (order_at next) t.orders.orders
  unfolding apply_next on_delivery_event heed
  applied event route_to leg later s t next fwd unique before h e =
      let after = moved_leg moment.now event next leg in
      let heeding = on_delivery_event moment (notice_of event after) in
      let routing : Db (Option DeliveryLeg) =
        route_again w moment event route_to after >> pure (some after) in
      let (_, t₁, wrote, e₁) =
        >>=-eq-ok (modify (save_leg after)) (λ _. heeding >>= λ _. routing) s e in
      let (_, t₂, heard, e₂) = >>=-eq-ok heeding (λ _. routing) t₁ e₁ in
      let (_, t₃, routed, e₃) =
        >>=-eq-ok (route_again w moment event route_to after) (λ _. pure (some after)) t₂ e₂ in
      let notice : DeliveryEventNotice = notice_of event after in
      let (own, type) = let_go-order event leg in
      let kept : s.orders ≡ t₁.orders = ap (λ o. o.1.orders) wrote in
      let went : on_event moment notice event t₁ ≡ (ok tt, t₂) =
        ap (λ x. heed moment notice x t₁) (sym (type ∙ fwd)) ∙ heard in
      let placed : AreAt notice.order_id (order_at next) t₂.orders.orders =
        on_event-AreAt moment notice t₁ t₂ (subst IsUnique kept unique) leg.status next
          (subst (λ id. AreAt id (order_at leg.status) t₁.orders.orders) (sym own)
            (subst (λ o. AreAt leg.order_id (order_at leg.status) o.orders) kept before))
          event h went in
      let last : t₂.orders.orders ≡ t.orders.orders =
        sym (route_again-IsAlone event route_to after t₂)
        ∙ ap (λ o. o.1.orders.orders) routed
        ∙ ap (λ o. o.1.orders.orders) e₃ in
      let is_later : some after ≡ some later = cc (ap (λ o. o.0) e₃) in
      (
        sym (ap status_of is_later),
        subst (λ id. AreAt id (order_at next) t.orders.orders) own
            (subst (AreAt notice.order_id (order_at next)) last placed),
      )

  -- Whenever a leg is moved on behalf of a delivery, its order moves with it: if the order was at
  -- the status that belongs to the leg's, then after a move that goes through, with all that it
  -- sets off, the order is at the status that belongs to the leg's new one.
  pub apply-AreAt :
      (event : DeliveryEventType) (route_to : Option ℕ) (leg later : DeliveryLeg) (s t : Database)
      → leg.leg_type ≡ forward
      → IsUnique s.orders
      → AreAt leg.order_id (order_at leg.status) s.orders.orders
      → apply w moment event route_to leg s ≡ (ok (some later), t)
      → AreAt leg.order_id (order_at later.status) t.orders.orders
  unfolding apply
  apply-AreAt event route_to leg later s t fwd unique before e =
      elim (Option-cases (next_leg_status leg.status event)) [
        | inl x ↦
            let none_moved : apply_next w moment event route_to leg none s ≡ (ok (some later), t) =
              ap (λ o. apply_next w moment event route_to leg o s) (sym x) ∙ e in
            cc (stands_still event route_to leg s, none_moved)
        | inr (next, x) ↦
            let moved : apply_next w moment event route_to leg (some next) s
                ≡ (ok (some later), t) =
              ap (λ o. apply_next w moment event route_to leg o s) (sym x) ∙ e in
            let (is, there) = applied event route_to leg later s t next fwd unique before x moved in
            subst (λ y. AreAt leg.order_id (order_at y) t.orders.orders) (sym is) there
      ]
