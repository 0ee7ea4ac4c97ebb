-- ===== src/Outbox.antt =====
-- src/modules/notifications: the outbox table, the registry of handlers, and the poller. What a
-- handler does outside the table is left out: it is a function from the payload to the message of
-- the error that it throws, if it throws one.
pub mod Loop
pub mod Poll
pub mod Reach
pub mod Backoff
mod Tests
use locoomo_api.Base.{
  ⊤, ℕ, suc, ◌+◌, ◌-◌, ◌*◌, ◌^◌, min, Bool, true, false, not, ◌&&◌, Option, none, some, List, [],
  ◌∷◌, ◌++◌, map, ◌==◌, leb, if◌then◌else◌, any, where_rows, update_where, take, sort,
}
use locoomo_api.Effect.{Result, ok, err, already_registered}

-- A text is the list of its code units.
abbrev pub Text : Type 0
Text = List ℕ

pub data OutboxEventStatus : Type 0 where
  pending sent failed : OutboxEventStatus

-- Times are milliseconds; event types are numbers, and a payload is its JSON text.
pub record OutboxEvent : Type 0 where
  pub id : ℕ
  pub event_type : ℕ
  pub payload : Text
  pub status : OutboxEventStatus
  pub attempts : ℕ
  pub last_error : Option Text
  pub next_attempt_at : ℕ
  pub processed_at : Option ℕ
  pub created_at : ℕ

pub record OutboxTable : Type 0 where
  pub outbox_events : List OutboxEvent
  pub next_id : ℕ

abbrev pub Handler : Type 0
Handler = Text → Option Text

abbrev pub Registry : Type 0
Registry = List (ℕ × Handler)

abbrev pub outbox_batch_size : ℕ
outbox_batch_size = 10

abbrev pub outbox_max_attempts : ℕ
outbox_max_attempts = 5

abbrev pub outbox_claim_lease_ms : ℕ
outbox_claim_lease_ms = 5 * 60000

-- `handlers.get(eventType)`
unfoldable pub get : Registry → ℕ → Option Handler
get [] event_type = none
get ((t, h) ∷ rest) event_type = if t == event_type then some h else get rest event_type

unfoldable pub register : ℕ → Handler → Registry → Result Registry
register event_type handler handlers = elim (get handlers event_type) [
  | none ↦ ok ((event_type, handler) ∷ handlers)
  | some _ ↦ err already_registered
]

-- `attempts` is at least 1 where it is called.
unfoldable pub compute_backoff_ms : ℕ → ℕ
compute_backoff_ms attempts = min (30000 * 2 ^ (attempts - 1)) (15 * 60000)

unfoldable pub enqueue : ℕ → ℕ → Text → OutboxTable → OutboxTable
enqueue now event_type payload s =
    let event : OutboxEvent = record {
      id = s.next_id;
      event_type = event_type;
      payload = payload;
      status = pending;
      attempts = 0;
      last_error = none;
      next_attempt_at = now;
      processed_at = none;
      created_at = now;
    } in
    record { outbox_events = s.outbox_events ++ event ∷ []; next_id = suc s.next_id }

abbrev pub is_pending : OutboxEventStatus → Bool
is_pending pending = true
is_pending _ = false

abbrev pub is_due : ℕ → OutboxEvent → Bool
is_due now e = is_pending e.status && leb e.next_attempt_at now

abbrev pub by_created_at : OutboxEvent → OutboxEvent → Bool
by_created_at a b = leb a.created_at b.created_at

abbrev pub lease : ℕ → OutboxEvent → OutboxEvent
lease now e = record e { next_attempt_at = now + outbox_claim_lease_ms }

-- The subquery of the claim.
unfoldable pub due_events : ℕ → List OutboxEvent → List OutboxEvent
due_events now events = take outbox_batch_size (sort by_created_at (where_rows (is_due now) events))

abbrev pub is_among : List OutboxEvent → OutboxEvent → Bool
is_among claimed e = any (λ c. c.id == e.id) claimed

-- The claim: the rows as it leaves them, and those returned, oldest first.
unfoldable pub claim_due_events : ℕ → List OutboxEvent → List OutboxEvent × List OutboxEvent
claim_due_events now events =
    let claimed = due_events now events in
    (update_where (is_among claimed) (lease now) events, map (lease now) claimed)

-- The error that the handler of the event ends with, if any.
unfoldable pub dispatch : Registry → Text → OutboxEvent → Option Text
dispatch handlers unknown e = elim (get handlers e.event_type) [
  | none ↦ some unknown
  | some handle ↦ handle e.payload
]

unfoldable pub register_failure : ℕ → Text → OutboxEvent → OutboxEvent
register_failure now error e =
    let attempts = e.attempts + 1 in
    if leb outbox_max_attempts attempts
    then record e { attempts = attempts; last_error = some error; status = failed }
    else record e {
      attempts = attempts;
      last_error = some error;
      next_attempt_at = now + compute_backoff_ms attempts;
    }

-- The event as processEvent saves it; `unknown` is the message about an unknown event type.
unfoldable pub process_event : Registry → Text → ℕ → OutboxEvent → OutboxEvent
process_event handlers unknown now e = elim (dispatch handlers unknown e) [
  | none ↦ record e { status = sent; processed_at = some now; last_error = none }
  | some error ↦ register_failure now error e
]

-- The loop over the claimed events; `time id` is the time when the event of that id is done with.
unfoldable pub process_all :
    Registry → Text → (ℕ → ℕ) → List OutboxEvent → List OutboxEvent → List OutboxEvent
process_all handlers unknown time [] events = events
process_all handlers unknown time (c ∷ cs) events =
    let done = process_event handlers unknown (time c.id) c in
    process_all handlers unknown time cs (update_where (λ e. e.id == c.id) (λ e. done) events)

unfoldable pub poll : Registry → Text → (ℕ → ℕ) → ℕ → OutboxTable → OutboxTable
poll handlers unknown time now s =
    let (events, claimed) = claim_due_events now s.outbox_events in
    record s { outbox_events = process_all handlers unknown time claimed events }
