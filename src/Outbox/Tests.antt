-- ===== src/Outbox/Tests.antt =====
-- Two events, one of a type that nothing handles, through some polls, and the theorems applied.
use locoomo_api.Base.{ℕ, ◌≤◌, ◌≡◌, refl, none, some, [], ◌∷◌, map, Row, here, there}
use locoomo_api.Outbox.{
  OutboxEvent, OutboxTable, pending, sent, Registry, enqueue, poll, get, compute_backoff_ms,
  register_failure, process_event, process_all, claim_due_events, due_events, dispatch,
}
use locoomo_api.Outbox.Backoff.{compute_backoff_ms-bounds}
use locoomo_api.Outbox.Poll.{IsValid, polled, poll-Row}
use locoomo_api.Outbox.Reach.{Reachable, start, enqueued, polls, outbox_sound, settled-stays}

abbrev delivers : Registry
delivers = (1, λ payload. none) ∷ []

abbrev at_once : ℕ → ℕ
at_once id = 2000

abbrev two_queued : OutboxTable
two_queued = enqueue 20 2 [] (enqueue 10 1 [] (record { outbox_events = []; next_id = 0 }))

abbrev one_sent : OutboxTable
one_sent = poll delivers [] at_once 1000 two_queued

two_queued-Reachable : Reachable two_queued
two_queued-Reachable = enqueued (enqueued start 10 1 []) 20 2 []

one_sent-Reachable : Reachable one_sent
one_sent-Reachable = polls two_queued-Reachable delivers [] at_once 1000

run : OutboxTable → OutboxTable
unfolding enqueue poll get compute_backoff_ms register_failure process_event process_all
    claim_due_events due_events dispatch
run s = s

one_sent_statuses : map (λ e. e.status) one_sent.outbox_events ≡ sent ∷ pending ∷ []
unfolding run
one_sent_statuses = refl

abbrev first_event : OutboxEvent
first_event = record {
  id = 0;
  event_type = 1;
  payload = [];
  status = sent;
  attempts = 0;
  last_error = none;
  next_attempt_at = 301000;
  processed_at = some 2000;
  created_at = 10;
}

first_event-Row : Row first_event one_sent.outbox_events
unfolding run
first_event-Row = here refl

outbox_sound_example : IsValid one_sent
outbox_sound_example = outbox_sound one_sent-Reachable

settled-stays_example : Row first_event (poll delivers [] at_once 5000 one_sent).outbox_events
settled-stays_example =
    settled-stays one_sent-Reachable first_event-Row (λ h. cc) delivers [] at_once 5000

abbrev second_event : OutboxEvent
second_event = record {
  id = 1;
  event_type = 2;
  payload = [];
  status = pending;
  attempts = 0;
  last_error = none;
  next_attempt_at = 20;
  processed_at = none;
  created_at = 20;
}

second_event-Row : Row second_event two_queued.outbox_events
unfolding run
second_event-Row = there (here refl)

poll-Row_example :
    Row
      (polled delivers [] at_once 1000 two_queued.outbox_events second_event)
      (poll delivers [] at_once 1000 two_queued).outbox_events
poll-Row_example =
    poll-Row delivers [] at_once 1000 two_queued (outbox_sound two_queued-Reachable)
      second_event-Row

compute_backoff_ms-bounds_example :
    (30000 ≤ compute_backoff_ms 4)
    × (compute_backoff_ms 4 ≤ 900000)
    × (compute_backoff_ms 4 ≤ compute_backoff_ms 5)
compute_backoff_ms-bounds_example = compute_backoff_ms-bounds 3
