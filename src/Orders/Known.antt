-- ===== src/Orders/Known.antt =====
-- No order is ever in a status that the service does not set.
use locoomo_api.Base.{
  ℕ, ◌≡◌, refl, sym, ◌∙◌, ap, Bool, true, false, not, arith, List, [], ◌∷◌, if◌then◌else◌, ◌==◌,
  Bool-cases, inl, inr, Row,
}
use locoomo_api.Orders.{OrderEventType, OrderEvent, Order, OrdersTables, is_legal}
use locoomo_api.Orders.Trail.{
  Trail, not_started, corrupt, reached, advance, replay, replay_from, status_after,
}
use locoomo_api.Orders.Reach.{is_unset, unset_step}
use locoomo_api.Orders.Run.{Reachable, trail-status}

-- The trail has not come to an unset status.
abbrev is_known : Trail → Bool
is_known not_started = true
is_known corrupt = true
is_known (reached s) = not (is_unset s)

advance-known : (acc : Trail) (t : OrderEventType) → is_known (advance acc t) ≡ true
unfolding advance
advance-known not_started t = ground arith
advance-known corrupt t = refl
advance-known (reached s) t = elim (Bool-cases (is_legal s (status_after t))) [
  | inl h ↦ rw (h, unset_step s (status_after t) h) refl
  | inr h ↦ rw h refl
]

replay_from-known :
    (acc : Trail) (id : ℕ) (es : List OrderEvent)
    → is_known acc ≡ true
    → is_known (replay_from acc id es) ≡ true
unfolding replay_from
replay_from-known acc id [] h = h
replay_from-known acc id (e ∷ es) h =
    replay_from-known (if e.order_id == id then advance acc e.type else acc) id es
      (elim (Bool-cases (e.order_id == id)) [
        | inl t ↦ rw t (advance-known acc e.type)
        | inr f ↦ rw f h
      ])

replay-known : (id : ℕ) (es : List OrderEvent) → is_known (replay id es) ≡ true
unfolding replay
replay-known id es = replay_from-known not_started id es refl

pub status-known :
    {s : OrdersTables} → Reachable s → (o : Order) → Row o s.orders → is_unset o.status ≡ false
status-known {s} reach o r =
    let h : is_known (reached o.status) ≡ true =
      ap is_known (sym (trail-status reach o r)) ∙ replay-known o.id s.order_events in
    ground arith
