-- ===== src/Outbox/Reach.antt =====
-- What holds of the outbox in every reachable state.
use locoomo_api.Base.{ℕ, ◌≢◌, ap, sym, ◌∙◌, subst, [], arith, Row, Row-append_one, inl, inr}
use locoomo_api.Outbox.{OutboxEvent, OutboxTable, pending, Registry, Text, enqueue, poll}
use locoomo_api.Outbox.Poll.{IsValid, poll-Row, poll-IsValid, polled-settled}

enqueue-IsValid :
    (now event_type : ℕ) (payload : Text) (s : OutboxTable)
    → IsValid s
    → IsValid (enqueue now event_type payload s)
unfolding enqueue
enqueue-IsValid now event_type payload s v = record {
  sound = λ e r. elim (Row-append_one s.outbox_events r) [
    | inl q ↦ v.sound e q
    | inr k ↦ rw k (record { waiting = λ h. omega arith; given_up = λ h. cc; done = λ h. cc })
  ];
  ids = λ e r. elim (Row-append_one s.outbox_events r) [
    | inl q ↦ omega (arith, v.ids e q)
    | inr k ↦ rw k (omega arith)
  ];
  unique = λ a b r q k. elim (Row-append_one s.outbox_events r) [
    | inl w ↦ elim (Row-append_one s.outbox_events q) [
      | inl x ↦ v.unique a b w x k
      | inr e ↦ absurd (omega (arith, v.ids a w, k, ap (λ o. o.id) e))
    ]
    | inr e ↦ elim (Row-append_one s.outbox_events q) [
      | inl x ↦ absurd (omega (arith, v.ids b x, k, ap (λ o. o.id) e))
      | inr f ↦ e ∙ sym f
    ]
  ];
}

-- Any sequence of enqueues and polls, each poll with the handlers as they behave then.
pub data Reachable : OutboxTable → Type 0 where
  start : Reachable (record { outbox_events = []; next_id = 0 })
  enqueued :
      {s : OutboxTable}
      → Reachable s
      → (now event_type : ℕ) (payload : Text) → Reachable (enqueue now event_type payload s)
  polls :
      {s : OutboxTable}
      → Reachable s
      → (handlers : Registry) (unknown : Text) (time : ℕ → ℕ) (now : ℕ)
      → Reachable (poll handlers unknown time now s)

-- In every reachable state an event that waits has failed fewer than five times, one that is given
-- up has failed five times and has the message of its last error, one that is sent has a time and no
-- error, and no two events have one id.
pub outbox_sound : {s : OutboxTable} → Reachable s → IsValid s
outbox_sound start = record {
  sound = λ e r. elim r [ ];
  ids = λ e r. elim r [ ];
  unique = λ a b r. elim r [ ];
}
outbox_sound (enqueued {s} r now event_type payload) =
    enqueue-IsValid now event_type payload s (outbox_sound r)
outbox_sound (polls {s} r handlers unknown time now) =
    poll-IsValid handlers unknown time now s (outbox_sound r)

-- An event that is sent or given up stays in its row, untouched, through every later poll.
pub settled-stays :
    {s : OutboxTable} {a : OutboxEvent}
    → Reachable s
    → Row a s.outbox_events
    → a.status ≢ pending
    → (handlers : Registry) (unknown : Text) (time : ℕ → ℕ) (now : ℕ)
    → Row a (poll handlers unknown time now s).outbox_events
settled-stays {s} {a} reach r ended handlers unknown time now =
    let v = outbox_sound reach in
    let row = poll-Row handlers unknown time now s v r in
    subst (λ x. Row x (poll handlers unknown time now s).outbox_events)
      (polled-settled handlers unknown time now s v r ended) row
