-- ===== src/Delivery/Quiet.antt =====
-- The calls that leave the table of legs alone, and the calls that take the steps of Delivery.Steps.
use locoomo_api.Base.{
  ℕ, ◌≡◌, refl, sym, ap, ◌∙◌, subst, Option, none, some, List, [], ◌∷◌, ◌==◌, find, inl, inr,
  Bool-cases,
}
use locoomo_api.Effect.{ok, pure, ◌>>=◌, ◌>>◌, modify, run-cases, >>=_ok, >>=_err}
use locoomo_api.Orders.{
  Text, Orders, released_by, returned_by, assign_rider, mark_courier_assigned,
  mark_courier_released, mark_picked_up_by_rider, mark_arrived_at_destination, mark_returning,
  mark_returned_to_origin,
}
use locoomo_api.Orders.Code.{codes}
use locoomo_api.Capacity.{release_capacity_slot, hold_returned_parcel}
use locoomo_api.Logistics.Leg.{DeliveryEventType, released, attempt_failed}
use locoomo_api.Database.{Database, Db, on_orders, on_nodes, lift, close, in_transaction, opened}
use locoomo_api.Delivery.{DeliveryLegType, forward, return}
use locoomo_api.Delivery.Listener.{
  Moment, DeliveryEventNotice, enqueue_emails, on_assigned, release_rider, on_picked_up,
  on_delivered, is_assigned, on_let_go, on_returning, on_returned, on_event, heed,
  on_delivery_event,
}
use locoomo_api.Delivery.Steps.{Steps, LegSteps, done, LegSteps-trans}

abbrev pub Quiet : {A : Type 0} → Db A → Type 0
Quiet m = (s : Database) → ((m s).1.legs ≡ s.legs) × ((m s).1.next_leg_id ≡ s.next_leg_id)

abbrev pub Takes : {A : Type 0} → Db A → Type 0
Takes m = (s : Database) → Steps s ((m s).1)

module _ {A B : Type 0} (m : Db A) (f : A → Db B) where
  pub >>=-Quiet : Quiet m → ((a : A) → Quiet (f a)) → Quiet (m >>= f)
  >>=-Quiet q r s =
      let (one, two) = q s in
      elim (run-cases (m s)) [
        | inl (e, t, ran) ↦
            subst (λ o. (o.1.legs ≡ s.legs) × (o.1.next_leg_id ≡ s.next_leg_id))
              (sym (>>=_err m f s ran))
              (ap (λ o. o.1.legs) (sym ran) ∙ one, ap (λ o. o.1.next_leg_id) (sym ran) ∙ two)
        | inr (a, t, ran) ↦
            let (three, four) = r a t in
            subst (λ o. (o.1.legs ≡ s.legs) × (o.1.next_leg_id ≡ s.next_leg_id))
              (sym (>>=_ok m f s ran))
              (
                three ∙ ap (λ o. o.1.legs) (sym ran) ∙ one,
                four ∙ ap (λ o. o.1.next_leg_id) (sym ran) ∙ two,
              )
      ]

  -- A sequence, its second part taken at the states where the first one can end.
  pub >>=-Steps :
      (s : Database)
      → Steps s ((m s).1)
      → ((a : A) → (t : Database) → m s ≡ (ok a, t) → Steps t ((f a t).1))
      → Steps s (((m >>= f) s).1)
  >>=-Steps s one rest = elim (run-cases (m s)) [
    | inl (e, t, ran) ↦
        subst (λ o. Steps s (o.1)) (sym (>>=_err m f s ran)) (subst (λ o. Steps s (o.1)) ran one)
    | inr (a, t, ran) ↦
        subst (λ o. Steps s (o.1)) (sym (>>=_ok m f s ran))
          (LegSteps-trans (subst (λ o. Steps s (o.1)) ran one) (rest a t ran))
  ]

pub same-Steps : (s t : Database) → t.legs ≡ s.legs → t.next_leg_id ≡ s.next_leg_id → Steps s t
same-Steps s t e f =
    subst (λ x. LegSteps s.legs s.next_leg_id x t.next_leg_id) (sym e)
      (subst (λ n. LegSteps s.legs s.next_leg_id s.legs n) (sym f) done)

pub Quiet-Takes : {A : Type 0} (m : Db A) → Quiet m → Takes m
Quiet-Takes m q s = same-Steps s ((m s).1) ((q s).0) ((q s).1)

-- A transaction takes the steps of its body, or none.
pub in_transaction-Steps :
    {A : Type 0} (m : Db A) (s : Database)
    → Steps s ((m (opened s)).1)
    → Steps s ((in_transaction m s).1)
in_transaction-Steps m s h = elim (run-cases (m (opened s))) [
  | inl (e, t, ran) ↦ subst (λ o. Steps s ((close s o).1)) (sym ran) done
  | inr (a, t, ran) ↦
      subst (λ o. Steps s ((close s o).1)) (sym ran)
        (elim (Bool-cases t.orders.aborted) [
          | inl y ↦ rw y done
          | inr n ↦ rw n (subst (λ o. Steps s (o.1)) ran h)
        ])
]

enqueue_emails-quiet :
    (now : ℕ) (mails : List Text) (s : Database)
    → ((enqueue_emails now mails s).legs ≡ s.legs)
      × ((enqueue_emails now mails s).next_leg_id ≡ s.next_leg_id)
enqueue_emails-quiet now [] s = (refl, refl)
enqueue_emails-quiet now (mail ∷ mails) s = enqueue_emails-quiet now mails _

release_rider-Quiet : (rider : Option ℕ) → Quiet (release_rider rider)
unfolding release_rider
release_rider-Quiet none s = (refl, refl)
release_rider-Quiet (some r) s = (refl, refl)

orders-Quiet :
    {A B : Type 0} (m : Orders A) (f : A → Db B)
    → ((a : A) → Quiet (f a))
    → Quiet (on_orders m >>= f)
orders-Quiet m f q = >>=-Quiet (on_orders m) f (λ s. (refl, refl)) q

on_assigned-Quiet : (n : DeliveryEventNotice) (rider : Option ℕ) → Quiet (on_assigned n rider)
unfolding on_assigned
on_assigned-Quiet n none =
    orders-Quiet (mark_courier_assigned n.order_id n.provider_key) (λ _. pure tt)
      (λ a s. (refl, refl))
on_assigned-Quiet n (some r) =
    orders-Quiet (assign_rider n.order_id r) (λ _. pure tt) (λ a s. (refl, refl))

on_picked_up-Quiet : (n : DeliveryEventNotice) → Quiet (on_picked_up n)
unfolding on_picked_up
on_picked_up-Quiet n =
    orders-Quiet (mark_picked_up_by_rider n.order_id)
      (λ order. on_nodes (release_capacity_slot order.placed.origin_node_id)) (λ a s. (refl, refl))

on_delivered-Quiet : (n : DeliveryEventNotice) → Quiet (on_delivered n)
unfolding on_delivered
on_delivered-Quiet n =
    orders-Quiet (mark_arrived_at_destination n.order_id) (λ _. release_rider n.courier_user_id)
      (λ a. release_rider-Quiet n.courier_user_id)

on_let_go-Quiet : (n : DeliveryEventNotice) (event : Text) → Quiet (on_let_go n event)
unfolding on_let_go
on_let_go-Quiet n event s =
    elim (Bool-cases (is_assigned (find (λ o. o.id == n.order_id) s.orders.orders))) [
      | inr f ↦ rw f (refl, refl)
      | inl t ↦ rw t (
          orders-Quiet
            (mark_courier_released n.order_id (released_by n.provider_key event n.reason))
            (λ _. pure tt) (λ a s. (refl, refl)) s)
    ]

on_returning-Quiet : (moment : Moment) (n : DeliveryEventNotice) → Quiet (on_returning moment n)
unfolding on_returning
on_returning-Quiet moment n =
    orders-Quiet (mark_returning n.order_id (returned_by n.provider_key n.reason))
      (λ order.
        lift (moment.return_emails order) >>= λ mails. modify (enqueue_emails moment.now mails))
      (λ order.
        >>=-Quiet (lift (moment.return_emails order))
          (λ mails. modify (enqueue_emails moment.now mails)) (λ s. (refl, refl))
          (λ mails s. enqueue_emails-quiet moment.now mails s))

on_returned-Quiet : (n : DeliveryEventNotice) → Quiet (on_returned n)
unfolding on_returned
on_returned-Quiet n =
    orders-Quiet (mark_returned_to_origin n.order_id)
      (λ order.
        on_nodes (hold_returned_parcel order.placed.origin_node_id)
        >> release_rider n.courier_user_id)
      (λ order.
        >>=-Quiet (on_nodes (hold_returned_parcel order.placed.origin_node_id))
          (λ _. release_rider n.courier_user_id) (λ s. (refl, refl))
          (λ a. release_rider-Quiet n.courier_user_id))

on_event-Quiet :
    (moment : Moment) (n : DeliveryEventNotice) (e : DeliveryEventType)
    → Quiet (on_event moment n e)
unfolding on_event
on_event-Quiet moment n DeliveryEventType.assigned = on_assigned-Quiet n n.courier_user_id
on_event-Quiet moment n DeliveryEventType.picked_up = on_picked_up-Quiet n
on_event-Quiet moment n DeliveryEventType.delivered = on_delivered-Quiet n
on_event-Quiet moment n attempt_failed = λ s. (refl, refl)
on_event-Quiet moment n released = on_let_go-Quiet n (codes "released")
on_event-Quiet moment n DeliveryEventType.cancelled = on_let_go-Quiet n (codes "cancelled")
on_event-Quiet moment n DeliveryEventType.returning = on_returning-Quiet moment n
on_event-Quiet moment n DeliveryEventType.returned = on_returned-Quiet n

heed-Quiet :
    (moment : Moment) (n : DeliveryEventNotice) (type : DeliveryLegType)
    → Quiet (heed moment n type)
unfolding heed
heed-Quiet moment n forward = on_event-Quiet moment n n.event
heed-Quiet moment n return = λ s. (refl, refl)

-- The order flow never writes the legs.
pub on_delivery_event-Quiet :
    (moment : Moment) (n : DeliveryEventNotice) → Quiet (on_delivery_event moment n)
unfolding on_delivery_event
on_delivery_event-Quiet moment n = heed-Quiet moment n n.leg_type
