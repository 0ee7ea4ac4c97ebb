-- ===== src/Orders/Trail.antt =====
-- The audit trail: order_events, read in order, is a legal path that ends at the order's status.
use locoomo_api.Base.{
  ℕ, ◌≤◌, ◌<◌, ◌≡◌, refl, sym, ◌∙◌, ap, Bool, true, false, Option, none, List, [], ◌∷◌, ◌++◌, arith,
  ◌==◌, if◌then◌else◌, inl, inr, Bool-cases, ltb, ==_iff, Row, Row-update_where,
}
use locoomo_api.Orders.{
  OrderStatus, OrderEventType, Order, OrderEvent, OrdersTables, EventPayload, is_legal,
  awaiting_drop_off, in_transit, completed, return_completed, order_placed, courier_released,
  picked_up_by_rider, collected_by_receiver, collected_by_sender,
}
use locoomo_api.Orders.Effects.{moved, shelve, event_row}

-- The status that an event reports.
abbrev pub status_after : OrderEventType → OrderStatus
status_after order_placed = awaiting_drop_off
status_after OrderEventType.rider_assigned = OrderStatus.rider_assigned
status_after courier_released = OrderStatus.parcel_received_at_origin
status_after OrderEventType.parcel_received_at_origin = OrderStatus.parcel_received_at_origin
status_after picked_up_by_rider = in_transit
status_after OrderEventType.arrived_at_destination = OrderStatus.arrived_at_destination
status_after OrderEventType.ready_for_collection = OrderStatus.ready_for_collection
status_after collected_by_receiver = completed
status_after OrderEventType.return_initiated = OrderStatus.return_initiated
status_after OrderEventType.return_in_transit = OrderStatus.return_in_transit
status_after OrderEventType.returned_to_origin = OrderStatus.returned_to_origin
status_after OrderEventType.ready_for_sender_collection = OrderStatus.ready_for_sender_collection
status_after collected_by_sender = return_completed

pub data Trail : Type 0 where
  not_started corrupt : Trail
  reached : OrderStatus → Trail

-- One more event: an order starts by being placed, and then moves along ORDER_TRANSITIONS.
unfoldable pub advance : Trail → OrderEventType → Trail
advance not_started order_placed = reached awaiting_drop_off
advance not_started _ = corrupt
advance (reached s) t = if is_legal s (status_after t) then reached (status_after t) else corrupt
advance corrupt t = corrupt

unfoldable pub replay_from : Trail → ℕ → List OrderEvent → Trail
replay_from acc id [] = acc
replay_from acc id (e ∷ es) =
    replay_from (if e.order_id == id then advance acc e.type else acc) id es

-- The trail of one order in the event log.
unfoldable pub replay : ℕ → List OrderEvent → Trail
unfolding replay_from
replay id es = replay_from not_started id es

replay_from-append :
    (acc : Trail) (id : ℕ) (es : List OrderEvent) (e : OrderEvent)
    → replay_from acc id (es ++ e ∷ [])
      ≡ (if e.order_id == id then advance (replay_from acc id es) e.type else replay_from acc id es)
unfolding replay_from
replay_from-append acc id [] e = refl
replay_from-append acc id (x ∷ es) e =
    replay_from-append (if x.order_id == id then advance acc x.type else acc) id es e

pub replay-append :
    (id : ℕ) (es : List OrderEvent) (e : OrderEvent)
    → replay id (es ++ e ∷ [])
      ≡ (if e.order_id == id then advance (replay id es) e.type else replay id es)
unfolding replay
replay-append id es e = replay_from-append not_started id es e

-- Nobody carries a parcel that has not been claimed.
abbrev pub is_waiting : OrderStatus → Bool
is_waiting awaiting_drop_off = true
is_waiting OrderStatus.parcel_received_at_origin = true
is_waiting _ = false

pub record IsTrailed (s : OrdersTables) : Type 0 where
  pub trail : (o : Order) → Row o s.orders → replay o.id s.order_events ≡ reached o.status
  pub unused : (id : ℕ) → s.next_id ≤ id → replay id s.order_events ≡ not_started
  pub riders : (o : Order) → Row o s.orders → is_waiting o.status ≡ true → o.rider_id ≡ none
  pub unique : (o p : Order) → Row o s.orders → Row p s.orders → o.id ≡ p.id → o.placed ≡ p.placed

-- Ids are handed out in order, so a row's id is used.
pub id-lt-next_id :
    (s : OrdersTables) → IsTrailed s → (o : Order) → Row o s.orders → o.id < s.next_id
id-lt-next_id s v o r = elim (Bool-cases (ltb o.id s.next_id)) [
  | inl lt ↦ ground arith
  | inr ge ↦
      let fresh : replay o.id s.order_events ≡ not_started = v.unused o.id (ground (arith, ge)) in
      cc (v.trail o r, fresh)
]

reached-injective : {a b : OrderStatus} → reached a ≡ reached b → a ≡ b
reached-injective e = cc

-- Two rows with one id have one trail, so one status.
pub status_unique :
    (s : OrdersTables)
    → IsTrailed s
    → (o p : Order) → Row o s.orders
    → Row p s.orders
    → o.id ≡ p.id
    → o.status ≡ p.status
status_unique s v o p r q e =
    reached-injective (sym (v.trail o r) ∙ ap (λ i. replay i s.order_events) e ∙ v.trail p q)

-- A row that was moved carries the event at the end of its trail.
trail_moved :
    (id : ℕ) (from to : OrderStatus) (type : OrderEventType) (payload : EventPayload)
    (es : List OrderEvent)
    → is_legal from to ≡ true
    → status_after type ≡ to
    → replay id es ≡ reached from
    → replay id (es ++ event_row id type payload ∷ []) ≡ reached to
unfolding advance
trail_moved id from to type payload es legal says before =
    rw (replay-append id es (event_row id type payload), before) (ground arith)

trail_kept :
    (id other : ℕ) (type : OrderEventType) (payload : EventPayload) (es : List OrderEvent)
    → (id == other) ≡ false
    → replay other (es ++ event_row id type payload ∷ []) ≡ replay other es
trail_kept id other type payload es differ =
    rw (replay-append other es (event_row id type payload), differ)

-- What a guarded update has to do for the trail to stay right.
pub record IsMove (p : Order → Bool) (f : Order → Order) (id : ℕ) (from to : OrderStatus)
    (type : OrderEventType) : Type 0 where
  pub legal : is_legal from to ≡ true
  pub says : status_after type ≡ to
  pub chosen : (a : Order) → p a ≡ true → (a.id ≡ id) × (a.status ≡ from)
  pub goes : (a : Order) → (f a).status ≡ to
  pub same_id : (a : Order) → (f a).id ≡ a.id
  pub same_placed : (a : Order) → (f a).placed ≡ a.placed

module _ {p : Order → Bool} {f : Order → Order} {id : ℕ} {from to : OrderStatus}
    {type : OrderEventType} (payload : EventPayload) (m : IsMove p f id from to type)
    (s : OrdersTables) (v : IsTrailed s) {source : Order} (found : Row source s.orders)
    (selected : p source ≡ true)
    (all_chosen : (a : Order) → Row a s.orders → a.id ≡ id → a.status ≡ from → p a ≡ true)
    (no_rider : (a : Order)
      → Row a s.orders
      → p a ≡ true
      → is_waiting to ≡ true
      → (f a).rider_id ≡ none) where
  before : replay id s.order_events ≡ reached from
  before =
      let (i, st) = m.chosen source selected in
      ap (λ i. replay i s.order_events) (sym i) ∙ v.trail source found ∙ ap reached st

  moved_trail :
      (a : Order)
      → Row a s.orders
      → let b = if p a then f a else a in
        replay b.id (s.order_events ++ event_row id type payload ∷ []) ≡ reached b.status
  moved_trail a r = elim (Bool-cases (p a)) [
    | inl t ↦
        let (i, st) = m.chosen a t in
        rw (t, m.goes a, m.same_id a, i)
          (trail_moved id from to type payload s.order_events m.legal m.says before)
    | inr n ↦ elim (Bool-cases (id == a.id)) [
      | inl same ↦
          let i : a.id ≡ id = sym ((==_iff id a.id).0 same) in
          let st : a.status ≡ from =
            status_unique s v a source r found (i ∙ sym (m.chosen source selected).0)
            ∙ (m.chosen source selected).1 in
          cc (n, all_chosen a r i st)
      | inr other ↦ rw n (trail_kept id a.id type payload s.order_events other ∙ v.trail a r)
    ]
  ]

  moved_rider :
      (a : Order)
      → Row a s.orders
      → let b = if p a then f a else a in is_waiting b.status ≡ true → b.rider_id ≡ none
  moved_rider a r = elim (Bool-cases (p a)) [
    | inl t ↦ rw (t, m.goes a) (no_rider a r t)
    | inr n ↦ rw n (v.riders a r)
  ]

  kept : (a : Order) → let b = if p a then f a else a in (b.id ≡ a.id) × (b.placed ≡ a.placed)
  kept a = elim (Bool-cases (p a)) [
    | inl t ↦ rw t (m.same_id a, m.same_placed a)
    | inr n ↦ rw n (refl, refl)
  ]

  other_unused : (i : ℕ) → s.next_id ≤ i → (id == i) ≡ false
  other_unused i h =
      let low = id-lt-next_id s v source found in
      let same = (m.chosen source selected).0 in
      let lt : id < i = rw (← same) (omega arith) in ground arith

  pub moved-IsTrailed : IsTrailed (moved p f (event_row id type payload) s)
  moved-IsTrailed = record {
    trail = λ b q. let (a, r, e) = Row-update_where p f s.orders q in rw e (moved_trail a r);
    unused = λ i h. trail_kept id i type payload s.order_events (other_unused i h) ∙ v.unused i h;
    riders = λ b q. let (a, r, e) = Row-update_where p f s.orders q in rw e (moved_rider a r);
    unique = λ b c q u e.
        let (a, r, eb) = Row-update_where p f s.orders q in
        let (d, w, ec) = Row-update_where p f s.orders u in
        let ids : a.id ≡ d.id =
          sym (ap (λ o. o.id) eb ∙ (kept a).0) ∙ e ∙ ap (λ o. o.id) ec ∙ (kept d).0 in
        ap (λ o. o.placed) eb
        ∙ (kept a).1
        ∙ v.unique a d r w ids
        ∙ sym (ap (λ o. o.placed) ec ∙ (kept d).1);
  }

-- A shelf place changes none of the columns that the trail is about.
shelve_keeps :
    (id : ℕ) (at number : Option ℕ) (a : Order)
    → let b = if a.id == id then record a { shelf_node_id = at; shelf_number = number } else a in
      (b.id ≡ a.id) × (b.status ≡ a.status) × (b.rider_id ≡ a.rider_id) × (b.placed ≡ a.placed)
shelve_keeps id at number a = ground arith

pub shelve-IsTrailed :
    (id : ℕ) (at number : Option ℕ) (s : OrdersTables)
    → IsTrailed s
    → IsTrailed (shelve id at number s)
shelve-IsTrailed id at number s v =
    let p : Order → Bool = λ o. o.id == id in
    let f : Order → Order = λ o. record o { shelf_node_id = at; shelf_number = number } in
    record {
      trail = λ b q.
          let (a, r, e) = Row-update_where p f s.orders q in
          let (i, st, _, _) = shelve_keeps id at number a in rw e (rw (st, i) (v.trail a r));
      unused = v.unused;
      riders = λ b q.
          let (a, r, e) = Row-update_where p f s.orders q in
          let (_, st, rider, _) = shelve_keeps id at number a in
          rw e (rw (st, rider) (v.riders a r));
      unique = λ b c q u same.
          let (a, r, eb) = Row-update_where p f s.orders q in
          let (d, w, ec) = Row-update_where p f s.orders u in
          let (ia, _, _, pa) = shelve_keeps id at number a in
          let (ib, _, _, pd) = shelve_keeps id at number d in
          let ids : a.id ≡ d.id = sym (ap (λ o. o.id) eb ∙ ia) ∙ same ∙ ap (λ o. o.id) ec ∙ ib in
          ap (λ o. o.placed) eb ∙ pa ∙ v.unique a d r w ids ∙ sym (ap (λ o. o.placed) ec ∙ pd);
    }
