-- ===== src/Orders/Placed.antt =====
-- A status change followed by a shelf write, as `markReceivedAtOrigin` and its like make them.
use locoomo_api.Base.{
  opt_is-eq, ℕ, ◌≡◌, refl, sym, ◌∙◌, ap, Bool, true, false, Option, some, List, arith, ◌==◌,
  if◌then◌else◌, inl, inr, Bool-cases, ==_iff, Row, Row-update_where, Row-update_where_of_Row,
  is_none, any-Row,
}
use locoomo_api.Orders.{
  OrderStatus, OrderEventType, Order, OrderEvent, OrdersTables, is_on_shelf, lowest_free_shelf,
}
use locoomo_api.Orders.Shelf.{lowest_free_shelf_lem}
use locoomo_api.Orders.Effects.{moved, shelve}
use locoomo_api.Orders.Trail.{IsTrailed, IsMove}
use locoomo_api.Orders.Held.{shelf_home, IsHeld}

on_shelf-parts :
    (node_id n : ℕ) (o : Order)
    → is_on_shelf node_id n o ≡ true
    → (o.shelf_node_id ≡ some node_id) × (o.shelf_number ≡ some n)
on_shelf-parts node_id n o h = (
  opt_is-eq o.shelf_node_id node_id (ground (arith, h)),
  opt_is-eq o.shelf_number n (ground (arith, h)),
)

-- What a move followed by a shelf write makes of a row.
data Placed (id : ℕ) (to : OrderStatus) (at number : Option ℕ) (a b : Order) : Type 0 where
  placed_here :
      a.id ≡ id
      → b.id ≡ id
      → b.status ≡ to
      → b.placed ≡ a.placed
      → b.shelf_node_id ≡ at
      → b.shelf_number ≡ number
      → Placed id to at number a b
  untouched : (a.id == id) ≡ false → b ≡ a → Placed id to at number a b

-- No other order has the place.
abbrev pub IsFree : ℕ → Option ℕ → Option ℕ → List Order → Type 0
IsFree id at number orders =
    (a : Order) (node_id n : ℕ)
    → Row a orders
    → (a.id == id) ≡ false
    → at ≡ some node_id
    → number ≡ some n
    → is_on_shelf node_id n a ≡ false

-- A move, then a shelf write for the same order: it fills the place `at`, `number`.
module _ {p : Order → Bool} {f : Order → Order} {id : ℕ} {from to : OrderStatus}
    {type : OrderEventType} (event : OrderEvent) (m : IsMove p f id from to type) (s : OrdersTables)
    (t : IsTrailed s) (v : IsHeld s) {source : Order} (found : Row source s.orders)
    (selected : p source ≡ true)
    (all_chosen : (a : Order) → Row a s.orders → a.id ≡ id → p a ≡ true)
    (at number : Option ℕ) where
  abbrev shelved : Order → Order
  shelved o = record o { shelf_node_id = at; shelf_number = number }

  Placed-Row :
      (a : Order)
      → Row a s.orders
      → let c = if p a then f a else a in
        Placed id to at number a (if c.id == id then shelved c else c)
  Placed-Row a r = elim (Bool-cases (p a)) [
    | inl yes_p ↦
        let i : (f a).id ≡ id = m.same_id a ∙ (m.chosen a yes_p).0 in
        let hit : ((f a).id == id) ≡ true = (==_iff (f a).id id).1 i in
        rw (yes_p, hit) (placed_here (m.chosen a yes_p).0 i (m.goes a) (m.same_placed a) refl refl)
    | inr no_p ↦
        let miss : (a.id == id) ≡ false = elim (Bool-cases (a.id == id)) [
          | inl same ↦ cc (no_p, all_chosen a r ((==_iff a.id id).0 same))
          | inr other ↦ other
        ] in
        rw (no_p, miss) (untouched miss refl)
  ]

  abbrev after : OrdersTables
  after = shelve id at number (moved p f event s)

  origin :
      {b : Order} → Row b after.orders → (a : Order) × Row a s.orders × Placed id to at number a b
  origin q =
      let (c, r, e) = Row-update_where (λ o. o.id == id) shelved (moved p f event s).orders q in
      let (a, w, e') = Row-update_where p f s.orders r in (a, w, rw (e, e') (Placed-Row a w))

  module _ (home : shelf_home to source.placed ≡ at) (paired : is_none number ≡ is_none at)
      (nobody : IsFree id at number s.orders) where
    clash :
        (b c d : Order) (node_id n : ℕ)
        → Row c s.orders
        → b.shelf_node_id ≡ at
        → b.shelf_number ≡ number
        → (c.id == id) ≡ false
        → d ≡ c
        → is_on_shelf node_id n b ≡ true
        → is_on_shelf node_id n d ≡ true
        → ⊥
    clash b c d node_id n w sb nb other e x y =
        let (u, k) = on_shelf-parts node_id n b x in
        cc (
          nobody c node_id n w other (sym sb ∙ u) (sym nb ∙ k),
          sym (ap (is_on_shelf node_id n) e) ∙ y,
        )

    same_slot :
        (a b c d : Order) (node_id n : ℕ)
        → Row a s.orders
        → Row c s.orders
        → Placed id to at number a b
        → Placed id to at number c d
        → is_on_shelf node_id n b ≡ true
        → is_on_shelf node_id n d ≡ true
        → b.id ≡ d.id
    same_slot a b c d node_id n r w (placed_here _ ib _ _ _ _) (placed_here _ ic _ _ _ _) x y =
        ib ∙ sym ic
    same_slot a b c d node_id n r w (placed_here _ _ _ _ sb nb) (untouched other e) x y =
        absurd (clash b c d node_id n w sb nb other e x y)
    same_slot a b c d node_id n r w (untouched other e) (placed_here _ _ _ _ sb nb) x y =
        absurd (clash d a b node_id n r sb nb other e y x)
    same_slot a b c d node_id n r w (untouched _ e) (untouched _ e') x y =
        ap (λ o. o.id) e
        ∙ v.slots a c node_id n r w (rw (← e) x) (rw (← e') y)
        ∙ sym (ap (λ o. o.id) e')

    home-Row :
        (a b : Order)
        → Row a s.orders
        → Placed id to at number a b
        → b.shelf_node_id ≡ shelf_home b.status b.placed
    home-Row a b r (placed_here ia ib st pl sn num) =
        rw (st, pl, sn)
          (sym home
            ∙ ap (shelf_home to)
                (t.unique source a found r ((m.chosen source selected).0 ∙ sym ia)))
    home-Row a b r (untouched _ e) = rw e (v.home a r)

    paired-Row :
        (a b : Order)
        → Row a s.orders
        → Placed id to at number a b
        → is_none b.shelf_number ≡ is_none b.shelf_node_id
    paired-Row a b r (placed_here ia ib st pl sn num) = rw (sn, num) paired
    paired-Row a b r (untouched _ e) = rw e (v.paired a r)

    pub placed-IsHeld : IsHeld after
    placed-IsHeld = record {
      home = λ b q. let (a, r, pl) = origin q in home-Row a b r pl;
      paired = λ b q. let (a, r, pl) = origin q in paired-Row a b r pl;
      slots = λ b d node_id n q u x y.
          let (a, r, pl) = origin q in
          let (c, w, pl') = origin u in same_slot a b c d node_id n r w pl pl' x y;
    }

  still_there :
      (a : Order) → Row a s.orders → (a.id == id) ≡ false → Row a (moved p f event s).orders
  still_there a r differs =
      let kept : Row (if p a then f a else a) (moved p f event s).orders =
        Row-update_where_of_Row p f r in
      let missed : p a ≡ false = elim (Bool-cases (p a)) [
        | inl hit ↦ cc (differs, (==_iff a.id id).1 (m.chosen a hit).0)
        | inr miss ↦ miss
      ] in
      rw missed at kept

  -- No other row has the lowest free number: it is free in the very table that is updated.
  pub lowest-IsFree :
      (node_id : ℕ)
      → at ≡ some node_id
      → number ≡ lowest_free_shelf node_id (moved p f event s).orders
      → (is_none number ≡ is_none at) × IsFree id at number s.orders
  lowest-IsFree node_id is_at is_number =
      let rows = (moved p f event s).orders in
      let (n, found_n, free, _, _, _) = lowest_free_shelf_lem node_id rows in
      (
        rw (is_at, is_number, found_n),
        λ a other k r differs at_other number_k.
            let same_node : other ≡ node_id = cc (sym at_other ∙ is_at) in
            let same_number : k ≡ n = cc (sym number_k ∙ is_number ∙ found_n) in
            rw (same_node, same_number)
              (any-Row (is_on_shelf node_id n) free (still_there a r differs)),
      )
