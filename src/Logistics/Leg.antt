-- ===== src/Logistics/Leg.antt =====
-- src/modules/logistics/domain/delivery-leg.ts: the status of a leg and the events that move it.
use locoomo_api.Base.{
  ℕ, zero, suc, Bool, true, false, not, Option, none, some, List, [], ◌∷◌, ◌++◌, if◌then◌else◌, any,
}

pub data DeliveryLegStatus : Type 0 where
  requested assigned picked_up delivered returning returned cancelled : DeliveryLegStatus

pub data DeliveryEventType : Type 0 where
  assigned released picked_up attempt_failed delivered returning returned : DeliveryEventType
  cancelled : DeliveryEventType

unfoldable pub same_leg_status : DeliveryLegStatus → DeliveryLegStatus → Bool
same_leg_status requested requested = true
same_leg_status DeliveryLegStatus.assigned DeliveryLegStatus.assigned = true
same_leg_status DeliveryLegStatus.picked_up DeliveryLegStatus.picked_up = true
same_leg_status DeliveryLegStatus.delivered DeliveryLegStatus.delivered = true
same_leg_status DeliveryLegStatus.returning DeliveryLegStatus.returning = true
same_leg_status DeliveryLegStatus.returned DeliveryLegStatus.returned = true
same_leg_status DeliveryLegStatus.cancelled DeliveryLegStatus.cancelled = true
same_leg_status _ _ = false

-- `list.includes(status)`
abbrev pub includes : List DeliveryLegStatus → DeliveryLegStatus → Bool
includes statuses status = any (same_leg_status status) statuses

abbrev pub active_leg_statuses : List DeliveryLegStatus
active_leg_statuses =
    requested ∷ DeliveryLegStatus.assigned ∷ DeliveryLegStatus.picked_up
    ∷ DeliveryLegStatus.returning ∷ []

pub record Transition : Type 0 where
  pub from : List DeliveryLegStatus
  pub to : DeliveryLegStatus

unfoldable pub transitions : DeliveryEventType → Transition
transitions DeliveryEventType.assigned = record {
  from = requested ∷ [];
  to = DeliveryLegStatus.assigned;
}
transitions released = record { from = DeliveryLegStatus.assigned ∷ []; to = requested }
transitions DeliveryEventType.picked_up = record {
  from = DeliveryLegStatus.assigned ∷ [];
  to = DeliveryLegStatus.picked_up;
}
transitions attempt_failed = record {
  from = DeliveryLegStatus.picked_up ∷ [];
  to = DeliveryLegStatus.picked_up;
}
transitions DeliveryEventType.delivered = record {
  from = DeliveryLegStatus.picked_up ∷ [];
  to = DeliveryLegStatus.delivered;
}
transitions DeliveryEventType.returning = record {
  from = DeliveryLegStatus.picked_up ∷ [];
  to = DeliveryLegStatus.returning;
}
transitions DeliveryEventType.returned = record {
  from = DeliveryLegStatus.returning ∷ [];
  to = DeliveryLegStatus.returned;
}
transitions DeliveryEventType.cancelled = record {
  from = requested ∷ DeliveryLegStatus.assigned ∷ [];
  to = DeliveryLegStatus.cancelled;
}

unfoldable pub next_leg_status : DeliveryLegStatus → DeliveryEventType → Option DeliveryLegStatus
unfolding transitions same_leg_status
next_leg_status current event =
    let rule = transitions event in if includes rule.from current then some rule.to else none

-- `Object.values(DeliveryEventType)`
abbrev pub delivery_events : List DeliveryEventType
delivery_events =
    DeliveryEventType.assigned ∷ released ∷ DeliveryEventType.picked_up ∷ attempt_failed
    ∷ DeliveryEventType.delivered ∷ DeliveryEventType.returning ∷ DeliveryEventType.returned
    ∷ DeliveryEventType.cancelled ∷ []

abbrev pub EventPath : Type 0
EventPath = List DeliveryEventType

-- A queue item: a status, and the events that lead to it.
abbrev pub Item : Type 0
Item = DeliveryLegStatus × EventPath

-- What the loop over the events of one item ends with: a path found, or the queue and the set seen.
pub data Scan : Type 0 where
  reached : EventPath → Scan
  go_on : List Item → List DeliveryLegStatus → Scan

unfoldable pub scan :
    DeliveryLegStatus → Item → List DeliveryEventType → List Item → List DeliveryLegStatus → Scan
unfolding next_leg_status
scan to item [] queue seen = go_on queue seen
scan to (status, path) (event ∷ events) queue seen = elim (next_leg_status status event) [
  | none ↦ scan to (status, path) events queue seen
  | some next ↦
      if includes seen next
      then scan to (status, path) events queue seen
      else if same_leg_status next to
      then reached (path ++ event ∷ [])
      else scan to (status, path) events (queue ++ (next, path ++ event ∷ []) ∷ []) (next ∷ seen)
]

-- The `while` loop, with a bound on its rounds.
unfoldable pub search_from :
    ℕ → DeliveryLegStatus → List Item → List DeliveryLegStatus → Option EventPath
unfolding scan
search_from fuel to [] seen = some []
search_from zero to (item ∷ queue) seen = none
search_from (suc fuel) to (item ∷ queue) seen = elim (scan to item delivery_events queue seen) [
  | reached path ↦ some path
  | go_on queue' seen' ↦ search_from fuel to queue' seen'
]

-- Each round takes one of the seven statuses off the queue; `none` is a loop still running.
abbrev pub rounds : ℕ
rounds = 7

unfoldable pub events_to_reach : DeliveryLegStatus → DeliveryLegStatus → Option EventPath
unfolding search_from same_leg_status
events_to_reach from to =
    if same_leg_status from to then some [] else search_from rounds to ((from, []) ∷ []) (from ∷ [])

unfoldable pub is_terminal : DeliveryLegStatus → Bool
unfolding same_leg_status
is_terminal status = not (includes active_leg_statuses status)
