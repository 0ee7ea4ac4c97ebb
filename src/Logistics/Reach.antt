-- ===== src/Logistics/Reach.antt =====
-- What `eventsToReach` finds, against the runs of events that a leg can take.
use locoomo_api.Base.{
  suc, ◌≤◌, ◌≡◌, ◌≢◌, refl, Bool, true, false, ◌||◌, not, Option, none, some, [], ◌∷◌, arith,
  length, ◌⊎◌, inl, inr, or_else, Bool-cases, Option-cases, ◌↔◌, ◌==◌,
}
use locoomo_api.Logistics.Leg.{
  DeliveryLegStatus, DeliveryEventType, EventPath, next_leg_status, events_to_reach, is_terminal,
  same_leg_status, requested,
}

-- The status that the events lead to, one after the other; none once one does not apply.
pub replay_events : DeliveryLegStatus → EventPath → Option DeliveryLegStatus
replay_events a [] = some a
replay_events a (e ∷ es) = elim (next_leg_status a e) [ none ↦ none | some b ↦ replay_events b es ]

found : DeliveryLegStatus → DeliveryLegStatus → EventPath
found a c = or_else (events_to_reach a c) []

can_reach : DeliveryLegStatus → DeliveryLegStatus → Bool
unfolding found
can_reach a c = same_leg_status a c || not (length (found a c) == 0)

never_stuck : (a c : DeliveryLegStatus) → events_to_reach a c ≡ some (found a c)
unfolding events_to_reach found
never_stuck a c = ground arith

found_sound :
    (a c : DeliveryLegStatus) → can_reach a c ≡ true → replay_events a (found a c) ≡ some c
unfolding events_to_reach found replay_events can_reach
found_sound a c h = ground arith

unreached-empty : (a c : DeliveryLegStatus) → can_reach a c ≡ false → found a c ≡ []
unfolding events_to_reach found can_reach
unreached-empty a c h = ground arith

reach_step :
    (a b c : DeliveryLegStatus) (e : DeliveryEventType)
    → next_leg_status a e ≡ some b
    → can_reach b c ≡ true
    → (can_reach a c ≡ true) × (length (found a c) ≤ suc (length (found b c)))
unfolding events_to_reach found can_reach next_leg_status
reach_step a b c e h k = ground arith

to_itself : (c : DeliveryLegStatus) → can_reach c c ≡ true
unfolding can_reach same_leg_status
to_itself c = ground arith

no_steps : (c : DeliveryLegStatus) → length (found c c) ≤ 0
unfolding found events_to_reach same_leg_status
no_steps c = ground arith

next_events :
    (a c : DeliveryLegStatus) (e : DeliveryEventType) (es : EventPath) (b : DeliveryLegStatus)
    → next_leg_status a e ≡ some b
    → replay_events a (e ∷ es) ≡ some c
    → replay_events b es ≡ some c
unfolding replay_events
next_events a c e es b h r = ground arith

-- Any run of events is at least as long as the path found, and none exists where none is found.
run_length :
    (a c : DeliveryLegStatus) (es : EventPath)
    → replay_events a es ≡ some c
    → (can_reach a c ≡ true) × (length (found a c) ≤ length es)
unfolding replay_events
run_length a c [] r = let same : a ≡ c = cc in rw same (to_itself c, no_steps c)
run_length a c (e ∷ es) r = elim (Option-cases (next_leg_status a e)) [
  | inl h ↦ cc
  | inr (b, h) ↦
      let (k, le) = run_length b c es (next_events a c e es b h r) in
      let (k', le') = reach_step a b c e h k in (k', omega arith)
]

-- The catching up never runs on. Its events, replayed one after the other, take the leg to the
-- reported status and are the fewest that do; it has none where the leg is there already, and where
-- no events at all lead there.
pub events_to_reach-shortest :
    (from to : DeliveryLegStatus)
    → (p : EventPath) × (events_to_reach from to ≡ some p)
      × (((replay_events from p ≡ some to)
            × ((q : EventPath) → replay_events from q ≡ some to → length p ≤ length q))
          ⊎ ((p ≡ []) × ((q : EventPath) → replay_events from q ≢ some to)))
events_to_reach-shortest from to = (
  found from to,
  never_stuck from to,
  elim (Bool-cases (can_reach from to)) [
    | inl h ↦ inl (found_sound from to h, λ q r. (run_length from to q r).1)
    | inr h ↦ inr (unreached-empty from to h, λ q r. let (k, _) = run_length from to q r in cc)
  ],
)

-- A leg has ended just when no event moves it any more.
pub is_terminal-stays :
    (status : DeliveryLegStatus)
    → (is_terminal status ≡ true) ↔ ((e : DeliveryEventType) → next_leg_status status e ≡ none)
unfolding is_terminal next_leg_status same_leg_status
is_terminal-stays status = (λ h e. ground arith, λ h. go status h)
  where
    go :
        (x : DeliveryLegStatus)
        → ((e : DeliveryEventType) → next_leg_status x e ≡ none)
        → is_terminal x ≡ true
    go requested h = cc (h DeliveryEventType.assigned)
    go DeliveryLegStatus.assigned h = cc (h DeliveryEventType.picked_up)
    go DeliveryLegStatus.picked_up h = cc (h DeliveryEventType.delivered)
    go DeliveryLegStatus.returning h = cc (h DeliveryEventType.returned)
    go _ h = refl
