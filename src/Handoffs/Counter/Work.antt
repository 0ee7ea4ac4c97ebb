-- ===== src/Handoffs/Counter/Work.antt =====
-- The work queues of the counters.
use locoomo_api.Base.{ℕ, ◌≡◌, Bool, true, false, List, ◌==◌, any, arith, ◌⊎◌, inl, inr, Bool-cases}
use locoomo_api.Orders.{OrderStatus, is_legal, same_status}
use locoomo_api.Handoffs.Counter.{
  NodeRole, origin, destination, HandoverMode, NextAction, nothing, next_action_for, node_role_for,
  is_origin_phase, origin_actions, destination_actions, courier_variants,
}

abbrev pub is_nothing : NextAction → Bool
is_nothing nothing = true
is_nothing _ = false

either_side :
    (s : OrderStatus) (h : HandoverMode) (my : List ℕ) (o d : ℕ) (role : NodeRole)
    → any (λ id. id == o) my ≡ true
    → any (λ id. id == d) my ≡ true
    → is_nothing (next_action_for s (node_role_for s o d my) h) ≡ true
    → is_nothing (next_action_for s role h) ≡ true
unfolding next_action_for node_role_for is_origin_phase origin_actions destination_actions
    courier_variants
either_side s h my o d role a b e = elim (Bool-cases (is_origin_phase s)) [
  | inl t ↦ ground (arith, a, b, e, t)
  | inr f ↦ ground (arith, a, b, e, f)
]

work_left :
    (s b : OrderStatus) (h : HandoverMode)
    → is_legal s b ≡ true
    → (is_nothing (next_action_for s origin h) ≡ false)
      ⊎ (is_nothing (next_action_for s destination h) ≡ false)
unfolding next_action_for origin_actions destination_actions courier_variants is_legal same_status
work_left s b h e = ground arith

-- As long as an order can move on, a counter has it to deal with; and someone on the staff of both
-- its Nodes, who is shown one of the two sides, is shown the side that has something to do or wait
-- for, whoever carries the parcel.
pub next_action_for-shown :
    (s b : OrderStatus) (h : HandoverMode) (my : List ℕ) (o d : ℕ)
    → any (λ id. id == o) my ≡ true
    → any (λ id. id == d) my ≡ true
    → is_legal s b ≡ true
    → is_nothing (next_action_for s (node_role_for s o d my) h) ≡ false
next_action_for-shown s b h my o d at_o at_d e =
    elim (Bool-cases (is_nothing (next_action_for s (node_role_for s o d my) h))) [
      | inr f ↦ f
      | inl t ↦
          let first = either_side s h my o d origin at_o at_d t in
          let second = either_side s h my o d destination at_o at_d t in
          elim (work_left s b h e) [ inl k ↦ cc | inr k ↦ cc ]
    ]
