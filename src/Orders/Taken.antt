-- ===== src/Orders/Taken.antt =====
-- An order whose courier is found is not given to another: assignRider and markCourierAssigned of
-- OrdersService among its other methods.
use locoomo_api.Base.{
  ℕ, ◌≡◌, refl, sym, ap, ◌∙◌, subst, Bool, true, false, some, List, [], ◌∷◌, inl, inr, Bool-cases,
  ==_iff, Row, here, arith, any, any-Row, where_rows-none,
}
use locoomo_api.Effect.{run-cases, Error, ok, err, transaction, illegal_order_transition}
use locoomo_api.Orders.{
  OrderStatus, OrderEventType, Order, OrderEvent, OrdersTables, Orders, assign_rider,
  mark_courier_assigned, transition, provider, is_at, same_status_iff, update_returning,
  assert_legal_transition, is_legal, same_status,
}
use locoomo_api.Orders.Effects.{
  Moved, Moved-Row, transition-Moved, assign_rider-Moved, assign_rider-refused,
}
use locoomo_api.Orders.Trail.{is_waiting, id-lt-next_id, status_unique}
use locoomo_api.Orders.Run.{Call, perform, Reachable, Reachable-IsValid}
use locoomo_api.Orders.Moves.{IsValid, assign_rider-IsValid, transition-IsValid}
use locoomo_api.Orders.Kept.{IsTaken, releases, perform-IsTaken}

-- Each call is a transaction of its own; the last one stands first.
unfoldable pub run : List Call → OrdersTables → OrdersTables
run [] s = s
run (c ∷ cs) s = (transaction (perform c) (run cs s)).1

-- The calls that give the order to a courier.
pub data Claims (id : ℕ) : Call → Type 0 where
  by_rider : (rider_id : ℕ) → Claims id (Call.assign id rider_id)
  by_provider : (key : ℕ) → Claims id (Call.courier_assigned id key)

run-IsTaken :
    (id : ℕ) (cs : List Call) (s : OrdersTables)
    → any (releases id) cs ≡ false
    → IsTaken id s
    → IsTaken id (run cs s)
unfolding run
run-IsTaken id [] s quiet v = v
run-IsTaken id (c ∷ cs) s quiet v =
    let own : releases id c ≡ false = any-Row (releases id) {xs = c ∷ cs} quiet (here refl) in
    let rest : any (releases id) cs ≡ false = ground (arith, quiet, own) in
    let before = run-IsTaken id cs s rest v in
    elim (run-cases (perform c (run cs s))) [
      | inl (x, t, ran) ↦
          subst (λ o. IsTaken id (transaction (λ (_ : OrdersTables). o) (run cs s)).1) (sym ran)
            before
      | inr (order, t, ran) ↦
          subst (λ o. IsTaken id (transaction (λ (_ : OrdersTables). o) (run cs s)).1) (sym ran)
            (perform-IsTaken id c (run cs s) own before ran)
    ]

-- The rows that a move takes to a courier.
given-IsTaken :
    (id : ℕ) {p : Order → Bool} {f : Order → Order} {event : OrderEvent} {s : OrdersTables}
    {order : Order} {s' : OrdersTables}
    → Moved p f event s order s'
    → IsValid s
    → IsValid s'
    → ((a : Order) → p a ≡ true → a.id ≡ id)
    → ((a : Order) → (f a).id ≡ a.id)
    → ((a : Order) → is_waiting (f a).status ≡ false)
    → IsTaken id s'
given-IsTaken id {p} {f} {event} {s} {order} {s'} m v v' own same_id goes =
    let its : m.source.id ≡ id = own m.source m.selected in
    let low = id-lt-next_id s v.trailed m.source m.found in
    let order_id : order.id ≡ id = ap (λ o. o.id) m.returned ∙ same_id m.source ∙ its in
    let order_goes : is_waiting order.status ≡ false =
      ap (λ o. is_waiting o.status) m.returned ∙ goes m.source in
    record {
      below = rw m.after (omega (arith, low, its));
      taken = λ a r i.
          ap is_waiting
            (status_unique s' v'.trailed a order r (Moved-Row p f event s m) (i ∙ sym order_id))
          ∙ order_goes;
    }

claimed-IsTaken :
    (id : ℕ) {c : Call} (s : OrdersTables) {order : Order} {s' : OrdersTables}
    → IsValid s
    → Claims id c
    → perform c s ≡ (ok order, s')
    → IsTaken id s'
unfolding perform mark_courier_assigned
claimed-IsTaken id s v (by_rider rider_id) e =
    given-IsTaken id (assign_rider-Moved id rider_id s e) v (assign_rider-IsValid s v id rider_id e)
      (λ a h. (==_iff a.id id).0 (ground (arith, h))) (λ a. refl) (λ a. refl)
claimed-IsTaken id s v (by_provider key) e =
    given-IsTaken id
      ((transition-Moved id OrderStatus.parcel_received_at_origin OrderStatus.rider_assigned
        OrderEventType.rider_assigned (provider key) s e).1)
      v
      (transition-IsValid id OrderStatus.parcel_received_at_origin OrderStatus.rider_assigned
        OrderEventType.rider_assigned (provider key) refl (λ w. cc) s v (λ placed. refl) e)
      (λ a h. (==_iff a.id id).0 (ground (arith, h))) (λ a. refl) (λ a. refl)

not_at :
    (id : ℕ) (s : OrdersTables)
    → IsTaken id s
    → (a : Order) → Row a s.orders
    → is_at id OrderStatus.parcel_received_at_origin a ≡ false
not_at id s v a r = elim (Bool-cases (is_at id OrderStatus.parcel_received_at_origin a)) [
  | inr n ↦ n
  | inl y ↦
      let own : a.id ≡ id = (==_iff a.id id).0 (ground (arith, y)) in
      let st : a.status ≡ OrderStatus.parcel_received_at_origin =
        (same_status_iff a.status OrderStatus.parcel_received_at_origin).0 (ground (arith, y)) in
      cc (v.taken a r own, ap is_waiting st)
]

-- A claim of a taken order is rolled back.
claim-refused :
    (id : ℕ) {c : Call} (s : OrdersTables)
    → IsTaken id s
    → Claims id c
    → (perform c s).0 ≡ err illegal_order_transition
unfolding perform mark_courier_assigned transition assert_legal_transition update_returning is_legal
    same_status
claim-refused id s v (by_rider rider_id) =
    assign_rider-refused id rider_id s λ a r. let n = not_at id s v a r in ground (arith, n)
claim-refused id s v (by_provider key) =
    rw (where_rows-none (is_at id OrderStatus.parcel_received_at_origin) s.orders (not_at id s v))
      refl

rolled_back :
    {A : Type 0} (m : Orders A) (s : OrdersTables) (x : Error)
    → (m s).0 ≡ err x
    → transaction m s ≡ (err x, s)
rolled_back {A} m s x h = elim (run-cases (m s)) [
  | inl (y, t, ran) ↦
      let same = sym (ap (λ o. o.0) ran) ∙ h in
      ap (λ o. transaction (λ (_ : OrdersTables). o) s) ran ∙ ap (λ r. (r, s)) same
  | inr (a, t, ran) ↦ cc h
]

-- In every reachable state a courier, be it a rider or a provider, whose claim of an order succeeds
-- has it alone: after any calls that follow, each a transaction of its own, as long as none of them
-- releases that order, every further claim of it, by whomever, is refused and changes nothing. A rider
-- who claims it is the one it is given to.
pub claimed-once :
    {s : OrdersTables}
    → Reachable s
    → (id : ℕ) (c : Call) → Claims id c
    → (order : Order) (s' : OrdersTables) → perform c s ≡ (ok order, s')
    → (cs : List Call) → any (releases id) cs ≡ false
    → (d : Call) → Claims id d
    → ((rider_id : ℕ) → c ≡ Call.assign id rider_id → order.rider_id ≡ some rider_id)
      × (transaction (perform d) (run cs s') ≡ (err illegal_order_transition, run cs s'))
unfolding perform
claimed-once {s} reach id c claim_of order s' e cs quiet d again =
    let v = Reachable-IsValid reach in
    let taken = run-IsTaken id cs s' quiet (claimed-IsTaken id s v claim_of e) in
    (
      λ rider_id is_rider.
          let ran : assign_rider id rider_id s ≡ (ok order, s') =
            ap (λ x. perform x s) (sym is_rider) ∙ e in
          ap (λ o. o.rider_id) (assign_rider-Moved id rider_id s ran).returned,
      rolled_back (perform d) (run cs s') illegal_order_transition
          (claim-refused id (run cs s') taken again),
    )
