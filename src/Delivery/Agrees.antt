-- ===== src/Delivery/Agrees.antt =====
-- A leg and its order move together.
use locoomo_api.Base.{
  ⊤, ℕ, ◌≡◌, refl, sym, ap, ◌∙◌, subst, Bool, true, false, Option, none, some, List, [], ◌∷◌, ◌==◌,
  find, if◌then◌else◌, Row, Row-find, find-none, ◌⊎◌, inl, inr, Bool-cases, Option-cases,
}
use locoomo_api.Effect.{
  Result, ok, err, pure, ◌>>=◌, ◌>>◌, modify, run-cases, >>=-eq-ok, >>=_ok, >>=_err,
}
use locoomo_api.Orders.{
  Text, Order, OrderStatus, Orders, OrdersTables, same_status, in_transit, released_by, returned_by,
  assign_rider, mark_courier_assigned, mark_courier_released, mark_picked_up_by_rider,
  mark_arrived_at_destination, mark_returning, mark_returned_to_origin,
}
use locoomo_api.Orders.Along.{
  IsUnique, Along, assign_rider-Along, courier_assigned-Along, courier_released-Along,
  arrived-Along, returned-Along, picked_up-Along, returning-Along,
}
use locoomo_api.Capacity.{release_capacity_slot, hold_returned_parcel}
use locoomo_api.Logistics.Leg.{DeliveryLegStatus, requested}
use locoomo_api.Database.{Database, Db, on_orders, on_nodes, lift}
use locoomo_api.Delivery.Listener.{
  Moment, DeliveryEventNotice, enqueue_emails, on_assigned, release_rider, on_picked_up,
  on_delivered, is_assigned, on_let_go, on_returning, on_returned,
}

-- The status of an order whose leg has this one.
unfoldable pub order_at : DeliveryLegStatus → OrderStatus
order_at requested = OrderStatus.parcel_received_at_origin
order_at DeliveryLegStatus.assigned = OrderStatus.rider_assigned
order_at DeliveryLegStatus.picked_up = in_transit
order_at DeliveryLegStatus.delivered = OrderStatus.arrived_at_destination
order_at DeliveryLegStatus.returning = OrderStatus.return_in_transit
order_at DeliveryLegStatus.returned = OrderStatus.returned_to_origin
order_at DeliveryLegStatus.cancelled = OrderStatus.parcel_received_at_origin

abbrev pub AreAt : ℕ → OrderStatus → List Order → Type 0
AreAt id status orders = (o : Order) → Row o orders → (o.id == id) ≡ true → o.status ≡ status

Along-AreAt :
    (id : ℕ) (to : OrderStatus) (s s' : OrdersTables) → Along id to s s' → AreAt id to s'.orders
Along-AreAt id to s s' h o r t = let (a, w, same, on, off) = h o r in on t

-- A call that begins with a call of OrdersService, and leaves the orders alone after that.
orders_part :
    {A B : Type 0} (m : Orders A) (f : A → Db B) (s t : Database) {b : B}
    → ((a : A) → (u : Database) → (f a u).1.orders ≡ u.orders)
    → (on_orders m >>= f) s ≡ (ok b, t)
    → (a : A) × (m s.orders ≡ (ok a, t.orders))
orders_part m f s t alone e =
    let (a, u, ran, rest) = >>=-eq-ok (on_orders m) f s e in
    let whole : m s.orders ≡ (ok a, u.orders) = ap (λ o. (o.0, o.1.orders)) ran in
    let after : u.orders ≡ t.orders = sym (alone a u) ∙ ap (λ o. o.1.orders) rest in
    (a, whole ∙ ap (λ o. (ok a, o)) after)

enqueue_emails-orders :
    (now : ℕ) (mails : List Text) (s : Database) → (enqueue_emails now mails s).orders ≡ s.orders
enqueue_emails-orders now [] s = refl
enqueue_emails-orders now (mail ∷ mails) s = enqueue_emails-orders now mails _

release_rider-orders :
    (rider : Option ℕ) (s : Database) → (release_rider rider s).1.orders ≡ s.orders
unfolding release_rider
release_rider-orders none s = refl
release_rider-orders (some r) s = refl

module _ (n : DeliveryEventNotice) (s t : Database) (unique : IsUnique s.orders) where
  pub assigned-AreAt :
      (rider : Option ℕ)
      → on_assigned n rider s ≡ (ok tt, t)
      → AreAt n.order_id OrderStatus.rider_assigned t.orders.orders
  unfolding on_assigned
  assigned-AreAt none e =
      let (o, ran) =
        orders_part (mark_courier_assigned n.order_id n.provider_key) (λ _. pure tt) s t
          (λ a u. refl) e in
      Along-AreAt n.order_id OrderStatus.rider_assigned s.orders t.orders
        (courier_assigned-Along n.order_id s.orders unique n.provider_key ran)
  assigned-AreAt (some r) e =
      let (o, ran) = orders_part (assign_rider n.order_id r) (λ _. pure tt) s t (λ a u. refl) e in
      Along-AreAt n.order_id OrderStatus.rider_assigned s.orders t.orders
        (assign_rider-Along n.order_id s.orders unique r ran)

  pub picked_up-AreAt : on_picked_up n s ≡ (ok tt, t) → AreAt n.order_id in_transit t.orders.orders
  unfolding on_picked_up
  picked_up-AreAt e =
      let (o, ran) =
        orders_part (mark_picked_up_by_rider n.order_id)
          (λ order. on_nodes (release_capacity_slot order.placed.origin_node_id)) s t (λ a u. refl)
          e in
      Along-AreAt n.order_id in_transit s.orders t.orders
        (picked_up-Along n.order_id s.orders unique ran)

  pub delivered-AreAt :
      on_delivered n s ≡ (ok tt, t)
      → AreAt n.order_id OrderStatus.arrived_at_destination t.orders.orders
  unfolding on_delivered
  delivered-AreAt e =
      let (o, ran) =
        orders_part (mark_arrived_at_destination n.order_id) (λ _. release_rider n.courier_user_id)
          s t (λ a u. release_rider-orders n.courier_user_id u) e in
      Along-AreAt n.order_id OrderStatus.arrived_at_destination s.orders t.orders
        (arrived-Along n.order_id s.orders unique ran)

  pub returned-AreAt :
      on_returned n s ≡ (ok tt, t) → AreAt n.order_id OrderStatus.returned_to_origin t.orders.orders
  unfolding on_returned
  returned-AreAt e =
      let (o, ran) =
        orders_part (mark_returned_to_origin n.order_id)
          (λ order.
            on_nodes (hold_returned_parcel order.placed.origin_node_id)
            >> release_rider n.courier_user_id)
          s t (λ a u. held a.placed.origin_node_id u) e in
      Along-AreAt n.order_id OrderStatus.returned_to_origin s.orders t.orders
        (returned-Along n.order_id s.orders unique ran)
    where
      held :
          (node : ℕ) (u : Database)
          → ((on_nodes (hold_returned_parcel node) >> release_rider n.courier_user_id) u).1.orders
            ≡ u.orders
      held node u = elim (run-cases (on_nodes (hold_returned_parcel node) u)) [
        | inl (e, x, ran) ↦
            ap (λ o. o.1.orders)
              (>>=_err (on_nodes (hold_returned_parcel node)) (λ _. release_rider n.courier_user_id)
                u ran)
            ∙ sym (ap (λ o. o.1.orders) ran)
        | inr (a, x, ran) ↦
            ap (λ o. o.1.orders)
              (>>=_ok (on_nodes (hold_returned_parcel node)) (λ _. release_rider n.courier_user_id)
                u ran)
            ∙ release_rider-orders n.courier_user_id x
            ∙ sym (ap (λ o. o.1.orders) ran)
      ]

  pub returning-AreAt :
      (moment : Moment)
      → on_returning moment n s ≡ (ok tt, t)
      → AreAt n.order_id OrderStatus.return_in_transit t.orders.orders
  unfolding on_returning
  returning-AreAt moment e =
      let (o, ran) =
        orders_part (mark_returning n.order_id (returned_by n.provider_key n.reason))
          (λ order.
            lift (moment.return_emails order) >>= λ mails. modify (enqueue_emails moment.now mails))
          s t (λ a u. mailed a u) e in
      Along-AreAt n.order_id OrderStatus.return_in_transit s.orders t.orders
        (returning-Along n.order_id (returned_by n.provider_key n.reason) s.orders unique ran)
    where
      mailed :
          (a : Order) (u : Database)
          → ((lift (moment.return_emails a) >>= λ mails. modify (enqueue_emails moment.now mails))
              u).1.orders
            ≡ u.orders
      mailed a u = go (moment.return_emails a)
        where
          go :
              (r : Result (List Text))
              → ((lift r >>= λ mails. modify (enqueue_emails moment.now mails)) u).1.orders
                ≡ u.orders
          go (ok mails) = enqueue_emails-orders moment.now mails u
          go (err e) = refl

  pub let_go-AreAt :
      (event : Text)
      → (AreAt n.order_id OrderStatus.parcel_received_at_origin s.orders.orders)
        ⊎ (AreAt n.order_id OrderStatus.rider_assigned s.orders.orders)
      → on_let_go n event s ≡ (ok tt, t)
      → AreAt n.order_id OrderStatus.parcel_received_at_origin t.orders.orders
  unfolding on_let_go same_status
  let_go-AreAt event before e =
      elim (Bool-cases (is_assigned (find (λ o. o.id == n.order_id) s.orders.orders))) [
        | inl y ↦
            let payload = released_by n.provider_key event n.reason in
            let went : (on_orders (mark_courier_released n.order_id payload) >> pure tt) s
                ≡ (ok tt, t) =
              sym (ap (λ c. letting c s) y) ∙ e in
            let (o, ran) =
              orders_part (mark_courier_released n.order_id payload) (λ _. pure tt) s t
                (λ a u. refl) went in
            Along-AreAt n.order_id OrderStatus.parcel_received_at_origin s.orders t.orders
              (courier_released-Along n.order_id s.orders unique payload ran)
        | inr f ↦
            let stays : s ≡ t = ap (λ o. o.1) (sym (ap (λ c. letting c s) f) ∙ e) in
            subst (λ u. AreAt n.order_id OrderStatus.parcel_received_at_origin u.orders.orders)
              stays (unassigned f before)
      ]
    where
      letting : Bool → Db ⊤
      letting c =
          if c
          then (on_orders
                (mark_courier_released n.order_id (released_by n.provider_key event n.reason))
              >> pure tt)
          else pure tt

      unassigned :
          is_assigned (find (λ o. o.id == n.order_id) s.orders.orders) ≡ false
          → (AreAt n.order_id OrderStatus.parcel_received_at_origin s.orders.orders)
            ⊎ (AreAt n.order_id OrderStatus.rider_assigned s.orders.orders)
          → AreAt n.order_id OrderStatus.parcel_received_at_origin s.orders.orders
      unassigned f (inl h) = h
      unassigned f (inr h) = λ o r t.
          elim (Option-cases (find (λ o. o.id == n.order_id) s.orders.orders)) [
            | inl e ↦ cc (find-none (λ o. o.id == n.order_id) s.orders.orders e r, t)
            | inr (a, e) ↦
                let (w, k) = Row-find (λ o. o.id == n.order_id) s.orders.orders e in
                let its : a.status ≡ OrderStatus.rider_assigned = h a w k in
                let yes_it_is : is_assigned (find (λ o. o.id == n.order_id) s.orders.orders)
                    ≡ true =
                  ap is_assigned e ∙ ap (λ x. same_status x OrderStatus.rider_assigned) its in
                cc (yes_it_is, f)
          ]
