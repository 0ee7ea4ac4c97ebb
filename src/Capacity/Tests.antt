-- ===== src/Capacity/Tests.antt =====
-- A Node with two places and a rider, and the theorems applied to them.
use locoomo_api.Base.{ℕ, ◌+◌, ◌≤◌, ◌≡◌, refl, arith, List, [], ◌∷◌, Row, here, there}
use locoomo_api.Capacity.{
  NodeRow, RiderProfile, active, reserve_capacity_slot, hold_returned_parcel, release_capacity_slot,
  reserve_delivery_slot, release_delivery_slot,
}
use locoomo_api.Capacity.Places.{
  reserve, hold, NodeCall, run_nodes, after_node_call, returned_to, IsKeyed, capacity-bound,
}
use locoomo_api.Capacity.Riders.{
  accept, hand_over, RiderCall, run_riders, after_rider_call, IsValid,
}

abbrev counter : ℕ → NodeRow
counter n = record { id = 1; capacity = 2; current_count = n }

-- Three reservations, of which the last is refused, and a returned parcel.
abbrev busy_day : List NodeCall
busy_day = hold 1 ∷ reserve 1 ∷ reserve 1 ∷ reserve 1 ∷ []

run : ℕ → ℕ
unfolding run_nodes after_node_call reserve_capacity_slot hold_returned_parcel release_capacity_slot
    reserve_delivery_slot release_delivery_slot returned_to IsKeyed run_riders after_rider_call
run n = n

over_full : run_nodes busy_day (counter 0 ∷ []) ≡ counter 3 ∷ []
unfolding run
over_full = refl

one_node-IsKeyed : IsKeyed (counter 0 ∷ [])
unfolding run
one_node-IsKeyed a b (here e) (here f) k = cc
one_node-IsKeyed a b (there r) q k = elim r [ ]
one_node-IsKeyed a b (here e) (there q) k = elim q [ ]

within : (n : NodeRow) → Row n (counter 0 ∷ []) → n.current_count ≤ n.capacity
within n (here e) = rw e (omega arith)
within n (there r) = elim r [ ]

busy-Row : Row (counter 3) (run_nodes busy_day (counter 0 ∷ []))
unfolding run
busy-Row = here refl

capacity-bound_example : 3 ≤ 2 + returned_to 1 busy_day
capacity-bound_example =
    capacity-bound busy_day (counter 0 ∷ []) one_node-IsKeyed within (counter 3) busy-Row

abbrev courier : RiderProfile
courier = record { user_id = 5; status = active; current_active_order_count = 0 }

one_rider-IsValid : IsValid (courier ∷ [])
one_rider-IsValid = record {
  unique = λ a b r q k. elim r [
    | here e ↦ elim q [ here f ↦ cc | there w ↦ elim w [ ] ]
    | there w ↦ elim w [ ]
  ];
  light = λ a r. elim r [ here e ↦ rw e (omega arith) | there w ↦ elim w [ ] ];
}

abbrev eager : List RiderCall
eager = accept 5 ∷ hand_over 5 ∷ accept 5 ∷ accept 5 ∷ accept 5 ∷ accept 5 ∷ []
