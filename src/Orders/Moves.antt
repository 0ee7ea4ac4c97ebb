-- ===== src/Orders/Moves.antt =====
-- The guarded updates of OrdersService keep what holds of the orders tables.
use locoomo_api.Base.{
  ℕ, ◌≡◌, refl, sym, ◌∙◌, ap, true, false, Option, none, some, arith, ==_iff, Row, is_none,
}
use locoomo_api.Effect.{ok, ◌>>=◌, >>=-eq-ok}
use locoomo_api.Orders.{
  OrderStatus, OrderEventType, Order, OrdersTables, EventPayload, CreateOrderFields,
  create_from_paid_intent, assign_rider, mark_courier_released, transition, place_on_shelf,
  clear_shelf, is_at, set_status, same_status, same_status_iff, is_legal, rider, courier_released,
  lowest_free_shelf,
}
use locoomo_api.Orders.Effects.{
  Moved, moved, shelve, assign_rider-Moved, mark_courier_released-Moved, is_claimable, claim,
  release, place_on_shelf-shelve, clear_shelf-shelve, transition-Moved, event_row,
}
use locoomo_api.Orders.Trail.{
  IsTrailed, IsMove, status_after, is_waiting, moved-IsTrailed, shelve-IsTrailed, status_unique,
}
use locoomo_api.Orders.Code.{generate_tracking_code}
use locoomo_api.Orders.Create.{create-created, created-IsTrailed, created-IsHeld}
use locoomo_api.Orders.Held.{IsHeld, shelf_home, moved-IsHeld}
use locoomo_api.Orders.Placed.{placed-IsHeld, lowest-IsFree, IsFree}

-- The invariant between two transactions.
pub record IsValid (s : OrdersTables) : Type 0 where
  pub trailed : IsTrailed s
  pub held : IsHeld s
  pub running : s.aborted ≡ false

is_at-chosen :
    (id : ℕ) (from : OrderStatus) (a : Order)
    → is_at id from a ≡ true
    → (a.id ≡ id) × (a.status ≡ from)
is_at-chosen id from a h =
    (ground (arith, h), (same_status_iff a.status from).0 (ground (arith, h)))

is_at-all :
    (id : ℕ) (from : OrderStatus) (a : Order) → a.id ≡ id → a.status ≡ from → is_at id from a ≡ true
is_at-all id from a i st = rw ((==_iff a.id id).1 i) ((same_status_iff a.status from).1 st)

-- A plain transition is a move.
transition-IsMove :
    (id : ℕ) (from to : OrderStatus) (type : OrderEventType)
    → is_legal from to ≡ true
    → status_after type ≡ to
    → IsMove (is_at id from) (set_status to) id from to type
transition-IsMove id from to type legal says = record {
  legal = legal;
  says = says;
  chosen = is_at-chosen id from;
  goes = λ a. refl;
  same_id = λ a. refl;
  same_placed = λ a. refl;
}

module _ (id : ℕ) (from to : OrderStatus) (type : OrderEventType) (payload : EventPayload)
    (says : status_after type ≡ to) (waits : is_waiting to ≡ true → is_waiting from ≡ true)
    (s : OrdersTables) (v : IsValid s) where
  abbrev tables : OrdersTables
  tables = moved (is_at id from) (set_status to) (event_row id type payload) s

  module _ {order : Order} {s' : OrdersTables} (legal : is_legal from to ≡ true)
      (m : Moved (is_at id from) (set_status to) (event_row id type payload) s order s') where
    move : IsMove (is_at id from) (set_status to) id from to type
    move = transition-IsMove id from to type legal says

    tables-IsTrailed : IsTrailed tables
    tables-IsTrailed =
        moved-IsTrailed payload move s v.trailed m.found m.selected (λ a r. is_at-all id from a)
          (λ a r chosen w. v.trailed.riders a r (rw (is_at-chosen id from a chosen).1 (waits w)))

    all_chosen : (a : Order) → Row a s.orders → a.id ≡ id → is_at id from a ≡ true
    all_chosen a r i =
        let (j, st) = is_at-chosen id from m.source m.selected in
        is_at-all id from a i (status_unique s v.trailed a m.source r m.found (i ∙ sym j) ∙ st)

    order_id : order.id ≡ id
    order_id = ap (λ o. o.id) m.returned ∙ (is_at-chosen id from m.source m.selected).0

    -- The shelf write after the move, at a place that suits the new status and is free.
    shelved-IsValid :
        (at number : Option ℕ)
        → shelf_home to order.placed ≡ at
        → (is_none number ≡ is_none at) × IsFree id at number s.orders
        → IsValid (shelve order.id at number tables)
    shelved-IsValid at number home (paired, free) = rw order_id (record {
      trailed = shelve-IsTrailed id at number tables tables-IsTrailed;
      held =
          placed-IsHeld (event_row id type payload) move s v.trailed v.held m.found m.selected
            all_chosen at number (ap (λ o. shelf_home to o.placed) (sym m.returned) ∙ home) paired
            free;
      running = v.running;
    })

  pub transition-IsValid :
      {order : Order} {s' : OrdersTables}
      → ((placed : CreateOrderFields) → shelf_home to placed ≡ shelf_home from placed)
      → transition id from to type payload s ≡ (ok order, s')
      → IsValid s'
  transition-IsValid home e =
      let (legal, m) = transition-Moved id from to type payload s e in
      rw m.after (record {
        trailed = tables-IsTrailed legal m;
        held =
            moved-IsHeld (event_row id type payload) (move legal m) home (λ a. refl) (λ a. refl) s
              v.held;
        running = v.running;
      })

  pub place-IsValid :
      (node : CreateOrderFields → ℕ) {order : Order} {s' : OrdersTables}
      → ((placed : CreateOrderFields) → shelf_home to placed ≡ some (node placed))
      → (transition id from to type payload >>= λ o. place_on_shelf o (node o.placed)) s
        ≡ (ok order, s')
      → IsValid s'
  place-IsValid node home e =
      let (o, t, ran, put) =
        >>=-eq-ok (transition id from to type payload) (λ o. place_on_shelf o (node o.placed)) s
          e in
      let (legal, m) = transition-Moved id from to type payload s ran in
      let at : Option ℕ = some (node o.placed) in
      let number : Option ℕ = lowest_free_shelf (node o.placed) tables.orders in
      rw (place_on_shelf-shelve o (node o.placed) t put, m.after)
        (shelved-IsValid legal m at number (home o.placed) (
          lowest-IsFree (event_row id type payload) (move legal m) s v.trailed v.held m.found
            m.selected (all_chosen legal m) at number (node o.placed) refl refl))

  pub clear-IsValid :
      {order : Order} {s' : OrdersTables}
      → ((placed : CreateOrderFields) → shelf_home to placed ≡ none)
      → (transition id from to type payload >>= clear_shelf) s ≡ (ok order, s')
      → IsValid s'
  clear-IsValid home e =
      let (o, t, ran, put) = >>=-eq-ok (transition id from to type payload) clear_shelf s e in
      let (legal, m) = transition-Moved id from to type payload s ran in
      rw (clear_shelf-shelve o t put, m.after)
        (shelved-IsValid legal m none none (home o.placed)
          (refl, λ a k n r differs no_node. absurd (cc no_node)))

legal_assign : is_legal OrderStatus.parcel_received_at_origin OrderStatus.rider_assigned ≡ true
unfolding is_legal same_status
legal_assign = refl

legal_release : is_legal OrderStatus.rider_assigned OrderStatus.parcel_received_at_origin ≡ true
unfolding is_legal same_status
legal_release = refl

module _ (s : OrdersTables) (v : IsValid s) where
  pub assign_rider-IsValid :
      (id rider_id : ℕ) {order : Order} {s' : OrdersTables}
      → assign_rider id rider_id s ≡ (ok order, s')
      → IsValid s'
  assign_rider-IsValid id rider_id e =
      let m = assign_rider-Moved id rider_id s e in
      let move : IsMove (is_claimable id) (claim rider_id) id OrderStatus.parcel_received_at_origin
          OrderStatus.rider_assigned OrderEventType.rider_assigned =
        record {
          legal = legal_assign;
          says = refl;
          chosen =
              λ a h. is_at-chosen id OrderStatus.parcel_received_at_origin a (ground (arith, h));
          goes = λ a. refl;
          same_id = λ a. refl;
          same_placed = λ a. refl;
        } in
      rw m.after (record {
        trailed =
            moved-IsTrailed (rider rider_id) move s v.trailed m.found m.selected
              (λ a r i st. rw (
                is_at-all id OrderStatus.parcel_received_at_origin a i st,
                v.trailed.riders a r (rw st),
              ))
              (λ a r chosen w. absurd (cc w));
        held =
            moved-IsHeld (event_row id OrderEventType.rider_assigned (rider rider_id)) move
              (λ placed. refl) (λ a. refl) (λ a. refl) s v.held;
        running = v.running;
      })

  pub mark_courier_released-IsValid :
      (id : ℕ) (payload : EventPayload) {order : Order} {s' : OrdersTables}
      → mark_courier_released id payload s ≡ (ok order, s')
      → IsValid s'
  mark_courier_released-IsValid id payload e =
      let m = mark_courier_released-Moved id payload s e in
      let move : IsMove (is_at id OrderStatus.rider_assigned) release id OrderStatus.rider_assigned
          OrderStatus.parcel_received_at_origin courier_released =
        record {
          legal = legal_release;
          says = refl;
          chosen = is_at-chosen id OrderStatus.rider_assigned;
          goes = λ a. refl;
          same_id = λ a. refl;
          same_placed = λ a. refl;
        } in
      rw m.after (record {
        trailed =
            moved-IsTrailed payload move s v.trailed m.found m.selected
              (λ a r. is_at-all id OrderStatus.rider_assigned a) (λ a r chosen w. refl);
        held =
            moved-IsHeld (event_row id courier_released payload) move (λ placed. refl) (λ a. refl)
              (λ a. refl) s v.held;
        running = v.running;
      })

  pub create-IsValid :
      (draw : ℕ → ℕ → ℕ) (fields : CreateOrderFields) {order : Order} {s' : OrdersTables}
      → create_from_paid_intent draw fields s ≡ (ok order, s')
      → IsValid s'
  create-IsValid draw fields e =
      let (free, order_is, after) = create-created draw fields s e in
      let code = generate_tracking_code (draw 1) in
      rw after (record {
        trailed = created-IsTrailed fields code s v.trailed;
        held = created-IsHeld fields code s v.held;
        running = v.running;
      })
