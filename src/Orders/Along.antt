-- ===== src/Orders/Along.antt =====
-- Where a method that returns has left every order: its own at one status, the others where they were.
use locoomo_api.Base.{
  ℕ, ◌≡◌, refl, sym, ap, ◌∙◌, subst, Bool, true, false, Option, none, ◌==◌, if◌then◌else◌, inl, inr,
  Bool-cases, ==_iff, Row, Row-update_where, arith,
}
use locoomo_api.Effect.{ok, >>=-eq-ok}
use locoomo_api.Orders.{
  OrderStatus, OrderEventType, Order, OrderEvent, OrdersTables, EventPayload, transition,
  assign_rider, mark_courier_assigned, mark_courier_released, mark_picked_up_by_rider,
  mark_arrived_at_destination, mark_returning, mark_returned_to_origin, clear_shelf, in_transit,
  completed, collected_by_receiver, mark_collected, is_at, empty, provider, rider, courier_released,
  picked_up_by_rider,
}
use locoomo_api.Orders.Effects.{
  Moved, event_row, transition-Moved, assign_rider-Moved, mark_courier_released-Moved, shelve,
  clear_shelf-shelve,
}

-- No two orders have one id.
abbrev pub IsUnique : OrdersTables → Type 0
IsUnique s = (a b : Order) → Row a s.orders → Row b s.orders → a.id ≡ b.id → a ≡ b

abbrev pub Along : ℕ → OrderStatus → OrdersTables → OrdersTables → Type 0
Along id to s s' =
    (b : Order)
    → Row b s'.orders
    → (a : Order) × Row a s.orders
      × (b.id ≡ a.id)
      × ((b.id == id) ≡ true → b.status ≡ to)
      × ((b.id == id) ≡ false → b.status ≡ a.status)

module _ {p : Order → Bool} {f : Order → Order} (id : ℕ) (to : OrderStatus) (event : OrderEvent)
    (s : OrdersTables) (unique : IsUnique s) (same_id : (a : Order) → (f a).id ≡ a.id)
    (goes : (a : Order) → (f a).status ≡ to)
    (own : (a : Order) → p a ≡ true → (a.id == id) ≡ true) where
  Moved-Along : {order : Order} {s' : OrdersTables} → Moved p f event s order s' → Along id to s s'
  Moved-Along {order} {s'} m b r =
      let (a, q, e) = Row-update_where p f s.orders (subst (λ t. Row b t.orders) m.after r) in
      elim (Bool-cases (p a)) [
        | inl t ↦
            let stands : b ≡ f a = e ∙ rw t refl in
            let same : b.id ≡ a.id = ap (λ o. o.id) stands ∙ same_id a in
            (
              a,
              q,
              same,
              λ h. ap (λ o. o.status) stands ∙ goes a,
              λ h. cc (own a t, ap (λ k. k == id) same, h),
            )
        | inr n ↦
            let stands : b ≡ a = e ∙ rw n refl in
            (
              a,
              q,
              ap (λ o. o.id) stands,
              λ h.
                  let mine : a.id ≡ id = sym (ap (λ o. o.id) stands) ∙ (==_iff b.id id).0 h in
                  let its : m.source.id ≡ id =
                    (==_iff m.source.id id).0 (own m.source m.selected) in
                  let one : a ≡ m.source = unique a m.source q m.found (mine ∙ sym its) in
                  cc (ap p one, n, m.selected),
              λ h. ap (λ o. o.status) stands,
            )
      ]

  Moved-IsUnique : {order : Order} {s' : OrdersTables} → Moved p f event s order s' → IsUnique s'
  Moved-IsUnique m b c r q e =
      let (a, w, g) = Row-update_where p f s.orders (subst (λ t. Row b t.orders) m.after r) in
      let (d, x, h) = Row-update_where p f s.orders (subst (λ t. Row c t.orders) m.after q) in
      let one : a ≡ d =
        unique a d w x (sym (keeps a) ∙ sym (ap (λ o. o.id) g) ∙ e ∙ ap (λ o. o.id) h ∙ keeps d) in
      g ∙ ap (λ o. if p o then f o else o) one ∙ sym h
    where
      keeps : (o : Order) → (if p o then f o else o).id ≡ o.id
      keeps o = elim (Bool-cases (p o)) [ inl t ↦ rw t (same_id o) | inr n ↦ rw n refl ]

is_at-own : (id : ℕ) (from : OrderStatus) (a : Order) → is_at id from a ≡ true → (a.id == id) ≡ true
is_at-own id from a h = ground (arith, h)

shelve-Along :
    (k id : ℕ) (to : OrderStatus) (at number : Option ℕ) (s s' : OrdersTables)
    → Along id to s s'
    → Along id to s (shelve k at number s')
shelve-Along k id to at number s s' h b r =
    let (c, q, e) =
      Row-update_where (λ o. o.id == k)
        (λ o. record o { shelf_node_id = at; shelf_number = number }) s'.orders r in
    let (a, w, same, on, off) = h c q in
    let (one, two) = unshelved c in
    let id_same : b.id ≡ c.id = ap (λ o. o.id) e ∙ one in
    let status_same : b.status ≡ c.status = ap (λ o. o.status) e ∙ two in
    (
      a,
      w,
      id_same ∙ same,
      λ t. status_same ∙ on (sym (ap (λ i. i == id) id_same) ∙ t),
      λ n. status_same ∙ off (sym (ap (λ i. i == id) id_same) ∙ n),
    )
  where
    unshelved :
        (c : Order)
        → let d = if c.id == k then record c { shelf_node_id = at; shelf_number = number } else c in
          (d.id ≡ c.id) × (d.status ≡ c.status)
    unshelved c = elim (Bool-cases (c.id == k)) [
      | inl t ↦ rw t (refl, refl)
      | inr n ↦ rw n (refl, refl)
    ]

module _ (id : ℕ) (s : OrdersTables) (unique : IsUnique s) {order : Order} {s' : OrdersTables} where
  transition-Along :
      (from to : OrderStatus) (type : OrderEventType) (payload : EventPayload)
      → transition id from to type payload s ≡ (ok order, s')
      → Along id to s s' × IsUnique s'
  transition-Along from to type payload ran =
      let (_, m) = transition-Moved id from to type payload s ran in
      (
        Moved-Along id to (event_row id type payload) s unique (λ a. refl) (λ a. refl)
            (is_at-own id from) m,
        Moved-IsUnique id to (event_row id type payload) s unique (λ a. refl) (λ a. refl)
            (is_at-own id from) m,
      )

  pub assign_rider-Along :
      (rider_id : ℕ)
      → assign_rider id rider_id s ≡ (ok order, s')
      → Along id OrderStatus.rider_assigned s s'
  assign_rider-Along rider_id ran =
      Moved-Along id OrderStatus.rider_assigned
        (event_row id OrderEventType.rider_assigned (rider rider_id)) s unique (λ a. refl)
        (λ a. refl) (λ a h. ground (arith, h)) (assign_rider-Moved id rider_id s ran)

  pub courier_assigned-Along :
      (key : ℕ)
      → mark_courier_assigned id key s ≡ (ok order, s')
      → Along id OrderStatus.rider_assigned s s'
  unfolding mark_courier_assigned
  courier_assigned-Along key ran =
      (transition-Along OrderStatus.parcel_received_at_origin OrderStatus.rider_assigned
        OrderEventType.rider_assigned (provider key) ran).0

  pub courier_released-Along :
      (payload : EventPayload)
      → mark_courier_released id payload s ≡ (ok order, s')
      → Along id OrderStatus.parcel_received_at_origin s s'
  courier_released-Along payload ran =
      Moved-Along id OrderStatus.parcel_received_at_origin (event_row id courier_released payload) s
        unique (λ a. refl) (λ a. refl) (is_at-own id OrderStatus.rider_assigned)
        (mark_courier_released-Moved id payload s ran)

  pub arrived-Along :
      mark_arrived_at_destination id s ≡ (ok order, s')
      → Along id OrderStatus.arrived_at_destination s s'
  unfolding mark_arrived_at_destination
  arrived-Along ran =
      (transition-Along in_transit OrderStatus.arrived_at_destination
        OrderEventType.arrived_at_destination empty ran).0

  pub returned-Along :
      mark_returned_to_origin id s ≡ (ok order, s') → Along id OrderStatus.returned_to_origin s s'
  unfolding mark_returned_to_origin
  returned-Along ran =
      (transition-Along OrderStatus.return_in_transit OrderStatus.returned_to_origin
        OrderEventType.returned_to_origin empty ran).0

pub picked_up-Along :
    (id : ℕ) (s : OrdersTables) {order : Order} {s' : OrdersTables}
    → IsUnique s
    → mark_picked_up_by_rider id s ≡ (ok order, s')
    → Along id in_transit s s'
unfolding mark_picked_up_by_rider
picked_up-Along id s {order} {s'} unique ran =
    let (first, t, went, rest) =
      >>=-eq-ok (transition id OrderStatus.rider_assigned in_transit picked_up_by_rider empty)
        clear_shelf s ran in
    let (along, _) =
      transition-Along id s unique OrderStatus.rider_assigned in_transit picked_up_by_rider empty
        went in
    subst (Along id in_transit s) (sym (clear_shelf-shelve first t rest))
      (shelve-Along first.id id in_transit none none s t along)

pub returning-Along :
    (id : ℕ) (payload : EventPayload) (s : OrdersTables) {order : Order} {s' : OrdersTables}
    → IsUnique s
    → mark_returning id payload s ≡ (ok order, s')
    → Along id OrderStatus.return_in_transit s s'
unfolding mark_returning
returning-Along id payload s {order} {s'} unique ran b r =
    let (first, t, went, rest) =
      >>=-eq-ok
        (transition id in_transit OrderStatus.return_initiated OrderEventType.return_initiated
          payload)
        (λ _.
          transition id OrderStatus.return_initiated OrderStatus.return_in_transit
            OrderEventType.return_in_transit empty)
        s ran in
    let (along, unique') =
      transition-Along id s unique in_transit OrderStatus.return_initiated
        OrderEventType.return_initiated payload went in
    let (second, _) =
      transition-Along id t unique' OrderStatus.return_initiated OrderStatus.return_in_transit
        OrderEventType.return_in_transit empty rest in
    let (c, q, same, on, off) = second b r in
    let (a, w, same', _, off') = along c q in
    (a, w, same ∙ same', on, λ n. off n ∙ off' (sym (ap (λ i. i == id) same) ∙ n))

clear_shelf-kept :
    (first : Order) (t : OrdersTables) {order : Order} {s' : OrdersTables}
    → clear_shelf first t ≡ (ok order, s')
    → (order.id ≡ first.id) × (order.placed ≡ first.placed)
unfolding clear_shelf
clear_shelf-kept first t e = ground arith

-- A parcel that is collected: the order is complete, and what is returned is its row as it was placed.
pub collected-Along :
    (id : ℕ) (payload : EventPayload) (s : OrdersTables) {order : Order} {s' : OrdersTables}
    → IsUnique s
    → mark_collected id payload s ≡ (ok order, s')
    → Along id completed s s'
      × (order.id ≡ id)
      × ((a : Order) × Row a s.orders × (a.id ≡ id) × (order.placed ≡ a.placed))
unfolding mark_collected
collected-Along id payload s {order} {s'} unique ran =
    let from = OrderStatus.ready_for_collection in
    let (first, t, went, rest) =
      >>=-eq-ok (transition id from completed collected_by_receiver payload) clear_shelf s ran in
    let (along, _) =
      transition-Along id s unique from completed collected_by_receiver payload went in
    let (_, m) = transition-Moved id from completed collected_by_receiver payload s went in
    let its : m.source.id ≡ id =
      (==_iff m.source.id id).0 (is_at-own id from m.source m.selected) in
    let (same_id, same_placed) = clear_shelf-kept first t rest in
    (
      subst (Along id completed s) (sym (clear_shelf-shelve first t rest))
          (shelve-Along first.id id completed none none s t along),
      same_id ∙ ap (λ o. o.id) m.returned ∙ its,
      (m.source, m.found, its, same_placed ∙ ap (λ o. o.placed) m.returned),
    )
