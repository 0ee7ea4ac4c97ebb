-- ===== src/Orders/Kept.antt =====
-- Every method of OrdersService but the release leaves an order with its courier.
use locoomo_api.Base.{
  ℕ, ◌<◌, ◌≡◌, refl, sym, ap, ◌∙◌, subst, Bool, true, false, Option, none, ◌==◌, inl, inr,
  Bool-cases, Row, Row-update_where, Row-append_one, arith,
}
use locoomo_api.Effect.{ok, ◌>>=◌, >>=-eq-ok}
use locoomo_api.Orders.{
  OrderStatus, OrderEventType, Order, OrderEvent, OrdersTables, EventPayload, CreateOrderFields,
  mark_courier_assigned, mark_received_at_origin, mark_picked_up_by_rider,
  mark_arrived_at_destination, mark_ready_for_collection, mark_collected, mark_returning,
  mark_returned_to_origin, mark_ready_for_sender_collection, mark_collected_by_sender, transition,
  empty, provider, awaiting_drop_off, in_transit, completed, return_completed, picked_up_by_rider,
  collected_by_receiver, place_on_shelf, clear_shelf, is_at, same_status_iff,
}
use locoomo_api.Orders.Effects.{
  Moved, transition-Moved, assign_rider-Moved, mark_courier_released-Moved, shelve,
  clear_shelf-shelve, place_on_shelf-shelve,
}
use locoomo_api.Orders.Trail.{is_waiting}
use locoomo_api.Orders.Create.{create-created}
use locoomo_api.Orders.Run.{Call, perform}

unfoldable pub releases : ℕ → Call → Bool
releases id (Call.courier_released k payload) = k == id
releases id _ = false

-- The id was given out, and its order waits for no courier.
pub record IsTaken (id : ℕ) (s : OrdersTables) : Type 0 where
  pub below : id < s.next_id
  pub taken : (a : Order) → Row a s.orders → a.id ≡ id → is_waiting a.status ≡ false

Moved-IsTaken :
    (id : ℕ) {p : Order → Bool} {f : Order → Order} {event : OrderEvent} {s : OrdersTables}
    {order : Order} {s' : OrdersTables}
    → Moved p f event s order s'
    → ((a : Order) → (f a).id ≡ a.id)
    → ((a : Order)
        → p a ≡ true
        → a.id ≡ id
        → is_waiting a.status ≡ false
        → is_waiting (f a).status ≡ false)
    → IsTaken id s
    → IsTaken id s'
Moved-IsTaken id {p} {f} {event} {s} {order} {s'} m same_id keeps v = record {
  below = rw m.after v.below;
  taken = λ b r i.
      let (a, q, e) = Row-update_where p f s.orders (subst (λ t. Row b t.orders) m.after r) in
      elim (Bool-cases (p a)) [
        | inl t ↦
            let stands : b ≡ f a = e ∙ rw t refl in
            let own : a.id ≡ id = sym (same_id a) ∙ sym (ap (λ o. o.id) stands) ∙ i in
            rw stands (keeps a t own (v.taken a q own))
        | inr n ↦
            let stands : b ≡ a = e ∙ rw n refl in
            rw stands (v.taken a q (sym (ap (λ o. o.id) stands) ∙ i))
      ];
}

shelve-IsTaken :
    (id k : ℕ) (at number : Option ℕ) (s : OrdersTables)
    → IsTaken id s
    → IsTaken id (shelve k at number s)
shelve-IsTaken id k at number s v = record {
  below = v.below;
  taken = λ b r i.
      let put : Order → Order = λ o. record o { shelf_node_id = at; shelf_number = number } in
      let (a, q, e) = Row-update_where (λ o. o.id == k) put s.orders r in
      elim (Bool-cases (a.id == k)) [
        | inl t ↦
            let stands : b ≡ put a = e ∙ rw t refl in
            rw stands (v.taken a q (sym (ap (λ o. o.id) stands) ∙ i))
        | inr n ↦
            let stands : b ≡ a = e ∙ rw n refl in
            rw stands (v.taken a q (sym (ap (λ o. o.id) stands) ∙ i))
      ];
}

module _ (id k : ℕ) (from to : OrderStatus) (type : OrderEventType) (payload : EventPayload)
    (waits : is_waiting to ≡ true → is_waiting from ≡ true) (s : OrdersTables)
    (v : IsTaken id s) where
  transition-IsTaken :
      {order : Order} {s' : OrdersTables}
      → transition k from to type payload s ≡ (ok order, s')
      → IsTaken id s'
  transition-IsTaken e =
      Moved-IsTaken id ((transition-Moved k from to type payload s e).1) (λ a. refl)
        (λ a t i w.
          let st : a.status ≡ from = (same_status_iff a.status from).0 (ground (arith, t)) in
          let gone : is_waiting from ≡ false = sym (ap is_waiting st) ∙ w in
          elim (Bool-cases (is_waiting to)) [ inr n ↦ n | inl y ↦ let back = waits y in cc ])
        v

  place-IsTaken :
      (node : CreateOrderFields → ℕ) {order : Order} {s' : OrdersTables}
      → (transition k from to type payload >>= λ o. place_on_shelf o (node o.placed)) s
        ≡ (ok order, s')
      → IsTaken id s'
  place-IsTaken node e =
      let (o, t, ran, put) =
        >>=-eq-ok (transition k from to type payload) (λ o. place_on_shelf o (node o.placed)) s e in
      subst (IsTaken id) (sym (place_on_shelf-shelve o (node o.placed) t put))
        (shelve-IsTaken id o.id _ _ t (transition-IsTaken ran))

  clear-IsTaken :
      {order : Order} {s' : OrdersTables}
      → (transition k from to type payload >>= clear_shelf) s ≡ (ok order, s')
      → IsTaken id s'
  clear-IsTaken e =
      let (o, t, ran, put) = >>=-eq-ok (transition k from to type payload) clear_shelf s e in
      subst (IsTaken id) (sym (clear_shelf-shelve o t put))
        (shelve-IsTaken id o.id none none t (transition-IsTaken ran))

pub perform-IsTaken :
    (id : ℕ) (c : Call) (s : OrdersTables) {order : Order} {s' : OrdersTables}
    → releases id c ≡ false
    → IsTaken id s
    → perform c s ≡ (ok order, s')
    → IsTaken id s'
unfolding perform releases mark_courier_assigned mark_received_at_origin mark_picked_up_by_rider
    mark_arrived_at_destination mark_ready_for_collection mark_collected mark_returning
    mark_returned_to_origin mark_ready_for_sender_collection mark_collected_by_sender
perform-IsTaken id (Call.create draw fields) s h v e =
    let (_, _, after) = create-created draw fields s e in
    let fresh : (b : Order) → (b.id ≡ s.next_id) → b.id ≡ id → is_waiting b.status ≡ false =
      λ b new own. absurd (omega (arith, v.below, new, own)) in
    rw after (record {
      below = omega (arith, v.below);
      taken = λ b r i. elim (Row-append_one s.orders r) [
        | inl q ↦ v.taken b q i
        | inr n ↦ fresh b (ap (λ o. o.id) n) i
      ];
    })
perform-IsTaken id (Call.assign k rider_id) s h v e =
    Moved-IsTaken id (assign_rider-Moved k rider_id s e) (λ a. refl) (λ a t i w. refl) v
perform-IsTaken id (Call.courier_assigned k key) s h v e =
    transition-IsTaken id k OrderStatus.parcel_received_at_origin OrderStatus.rider_assigned
      OrderEventType.rider_assigned (provider key) (λ w. cc) s v e
perform-IsTaken id (Call.courier_released k payload) s h v e =
    Moved-IsTaken id (mark_courier_released-Moved k payload s e) (λ a. refl)
      (λ a t i w. absurd (other a t i)) v
  where
    other : (a : Order) → is_at k OrderStatus.rider_assigned a ≡ true → a.id ≡ id → ⊥
    other a t i = ground (arith, t, h, i)
perform-IsTaken id (Call.received_at_origin k) s h v e =
    place-IsTaken id k awaiting_drop_off OrderStatus.parcel_received_at_origin
      OrderEventType.parcel_received_at_origin empty (λ w. refl) s v
      (λ placed. placed.origin_node_id) e
perform-IsTaken id (Call.picked_up k) s h v e =
    clear-IsTaken id k OrderStatus.rider_assigned in_transit picked_up_by_rider empty (λ w. cc) s v
      e
perform-IsTaken id (Call.arrived k) s h v e =
    transition-IsTaken id k in_transit OrderStatus.arrived_at_destination
      OrderEventType.arrived_at_destination empty (λ w. cc) s v e
perform-IsTaken id (Call.ready_for_collection k) s h v e =
    place-IsTaken id k OrderStatus.arrived_at_destination OrderStatus.ready_for_collection
      OrderEventType.ready_for_collection empty (λ w. cc) s v (λ placed. placed.destination_node_id)
      e
perform-IsTaken id (Call.collected k payload) s h v e =
    clear-IsTaken id k OrderStatus.ready_for_collection completed collected_by_receiver payload
      (λ w. cc) s v e
perform-IsTaken id (Call.returning k payload) s h v e =
    let (o, t, ran, rest) =
      >>=-eq-ok
        (transition k in_transit OrderStatus.return_initiated OrderEventType.return_initiated
          payload)
        (λ _.
          transition k OrderStatus.return_initiated OrderStatus.return_in_transit
            OrderEventType.return_in_transit empty)
        s e in
    transition-IsTaken id k OrderStatus.return_initiated OrderStatus.return_in_transit
      OrderEventType.return_in_transit empty (λ w. cc) t
      (transition-IsTaken id k in_transit OrderStatus.return_initiated
        OrderEventType.return_initiated payload (λ w. cc) s v ran)
      rest
perform-IsTaken id (Call.returned_to_origin k) s h v e =
    transition-IsTaken id k OrderStatus.return_in_transit OrderStatus.returned_to_origin
      OrderEventType.returned_to_origin empty (λ w. cc) s v e
perform-IsTaken id (Call.ready_for_sender k) s h v e =
    place-IsTaken id k OrderStatus.returned_to_origin OrderStatus.ready_for_sender_collection
      OrderEventType.ready_for_sender_collection empty (λ w. cc) s v
      (λ placed. placed.origin_node_id) e
perform-IsTaken id (Call.collected_by_sender k payload) s h v e =
    clear-IsTaken id k OrderStatus.ready_for_sender_collection return_completed
      OrderEventType.collected_by_sender payload (λ w. cc) s v e
