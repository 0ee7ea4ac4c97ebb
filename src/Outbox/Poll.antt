-- ===== src/Outbox/Poll.antt =====
-- What a poll does to the rows of the outbox.
use locoomo_api.Base.{
  ℕ, ◌<◌, ◌≡◌, ◌≢◌, refl, ap, sym, ◌∙◌, subst, true, false, List, [], ◌∷◌, map, ◌==◌, ==_iff, arith,
  if◌then◌else◌, update_where, Row, here, there, Row-update_where, Row-update_where_of_Row,
  Row-take, Row-map, map-Row, Row-where_rows, where_rows, Row-sort, Bool-cases, inl, inr,
}
use locoomo_api.Outbox.{
  OutboxEvent, OutboxTable, OutboxEventStatus, pending, sent, failed, Registry, Text, is_pending,
  is_due, by_created_at, lease, due_events, is_among, claim_due_events, process_event, process_all,
  poll,
}
use locoomo_api.Outbox.Loop.{
  IsSound, process_event-IsSound, process_event-id, after_all, process_all-Row, Row-process_all,
  after_all-other, after_all-claimed,
}

-- What holds between two calls.
pub record IsValid (s : OutboxTable) : Type 0 where
  pub sound : (e : OutboxEvent) → Row e s.outbox_events → IsSound e
  pub ids : (e : OutboxEvent) → Row e s.outbox_events → e.id < s.next_id
  pub unique :
      (a b : OutboxEvent) → Row a s.outbox_events → Row b s.outbox_events → a.id ≡ b.id → a ≡ b

-- A claimed event is a row that was due.
due_events-Row :
    (now : ℕ) (events : List OutboxEvent) {e : OutboxEvent}
    → Row e (due_events now events)
    → Row e events × (e.status ≡ pending)
unfolding due_events
due_events-Row now events {e} r =
    let (w, h) =
      Row-where_rows (is_due now) events
        (Row-sort by_created_at (where_rows (is_due now) events) (Row-take 10 _ r)) in
    (w, pending_of e.status (ground (arith, h)))
  where
    pending_of : (p : OutboxEventStatus) → is_pending p ≡ true → p ≡ pending
    pending_of pending h = refl
    pending_of sent h = cc
    pending_of failed h = cc

is_among-Row :
    (cs : List OutboxEvent) (a : OutboxEvent)
    → is_among cs a ≡ true
    → (c : OutboxEvent) × Row c cs × (c.id ≡ a.id)
is_among-Row [] a h = cc
is_among-Row (c ∷ cs) a h = elim (Bool-cases (c.id == a.id)) [
  | inl t ↦ (c, here refl, (==_iff c.id a.id).0 t)
  | inr f ↦ let (d, r, e) = is_among-Row cs a (ground (arith, h, f)) in (d, there r, e)
]

among-not :
    (cs : List OutboxEvent) (a : OutboxEvent)
    → is_among cs a ≡ false
    → (c : OutboxEvent) → Row c cs
    → (a.id == c.id) ≡ false
among-not [] a h c r = elim r [ ]
among-not (x ∷ cs) a h c (here e) = rw e (ground (arith, h))
among-not (x ∷ cs) a h c (there r) = among-not cs a (ground (arith, h)) c r

-- The row that a poll leaves for a row.
pub polled : Registry → Text → (ℕ → ℕ) → ℕ → List OutboxEvent → OutboxEvent → OutboxEvent
polled handlers unknown time now events a =
    if is_among (due_events now events) a
    then process_event handlers unknown (time a.id) (lease now a)
    else a

module _ (handlers : Registry) (unknown : Text) (time : ℕ → ℕ) (now : ℕ) (s : OutboxTable)
    (v : IsValid s) where
  after_poll :
      (a : OutboxEvent)
      → Row a s.outbox_events
      → after_all handlers unknown time
          (map (lease now) (due_events now s.outbox_events))
          (if is_among (due_events now s.outbox_events) a then lease now a else a)
        ≡ polled handlers unknown time now s.outbox_events a
  unfolding polled
  after_poll a r =
      let due = due_events now s.outbox_events in
      elim (Bool-cases (is_among due a)) [
        | inl t ↦
            let (c, w, e) = is_among-Row due a t in
            let same : c ≡ a = v.unique c a (due_events-Row now s.outbox_events w).0 r e in
            rw t (
              after_all-claimed handlers unknown time (map (lease now) due) (lease now a)
                (lease now a) refl (map-Row (lease now) (subst (λ x. Row x due) same w))
                (λ d q k.
                  let (x, y, z) = Row-map (lease now) due q in
                  let one : x ≡ a =
                    v.unique x a (due_events-Row now s.outbox_events y).0 r
                      (sym (ap (λ o. o.id) z) ∙ k) in
                  z ∙ ap (lease now) one))
        | inr f ↦ rw f (
            after_all-other handlers unknown time (map (lease now) due) a
              (λ d q. let (x, y, z) = Row-map (lease now) due q in rw z (among-not due a f x y)))
      ]

  poll-from :
      {b : OutboxEvent}
      → Row b (poll handlers unknown time now s).outbox_events
      → (a : OutboxEvent) × Row a s.outbox_events
        × (b ≡ polled handlers unknown time now s.outbox_events a)
  unfolding poll claim_due_events
  poll-from r =
      let due = due_events now s.outbox_events in
      let (c, q, e) = process_all-Row handlers unknown time (map (lease now) due) _ r in
      let (a, w, k) = Row-update_where (is_among due) (lease now) s.outbox_events q in
      (a, w, e ∙ ap (after_all handlers unknown time (map (lease now) due)) k ∙ after_poll a w)

  -- A poll deals with each event that it claims, once, and leaves every other event as it is: the
  -- row for `a` is afterwards the one that processing leaves, or `a` itself.
  pub poll-Row :
      {a : OutboxEvent}
      → Row a s.outbox_events
      → Row
          (polled handlers unknown time now s.outbox_events a)
          (poll handlers unknown time now s).outbox_events
  unfolding poll claim_due_events
  poll-Row {a} r =
      let due = due_events now s.outbox_events in
      subst
        (λ x. Row x (
          process_all handlers unknown time (map (lease now) due)
            (update_where (is_among due) (lease now) s.outbox_events)))
        (after_poll a r)
        (Row-process_all handlers unknown time (map (lease now) due) _
          (Row-update_where_of_Row (is_among due) (lease now) r))

  polled-id : (a : OutboxEvent) → (polled handlers unknown time now s.outbox_events a).id ≡ a.id
  unfolding polled
  polled-id a = elim (Bool-cases (is_among (due_events now s.outbox_events) a)) [
    | inl t ↦ rw t (process_event-id handlers unknown (time a.id) (lease now a))
    | inr f ↦ rw f refl
  ]

  pub polled-settled :
      {a : OutboxEvent}
      → Row a s.outbox_events
      → a.status ≢ pending
      → polled handlers unknown time now s.outbox_events a ≡ a
  unfolding polled
  polled-settled {a} r ended = elim (Bool-cases (is_among (due_events now s.outbox_events) a)) [
    | inl t ↦
        let (c, w, e) = is_among-Row (due_events now s.outbox_events) a t in
        let (q, p) = due_events-Row now s.outbox_events w in
        absurd (ended (ap (λ x. x.status) (sym (v.unique c a q r e)) ∙ p))
    | inr f ↦ rw f refl
  ]

  polled-IsSound :
      (a : OutboxEvent)
      → Row a s.outbox_events
      → IsSound (polled handlers unknown time now s.outbox_events a)
  unfolding polled
  polled-IsSound a r =
      let old = v.sound a r in
      elim (Bool-cases (is_among (due_events now s.outbox_events) a)) [
        | inl t ↦
            let (c, w, e) = is_among-Row (due_events now s.outbox_events) a t in
            let (q, p) = due_events-Row now s.outbox_events w in
            let waits : a.status ≡ pending = ap (λ x. x.status) (sym (v.unique c a q r e)) ∙ p in
            rw t (
              process_event-IsSound handlers unknown (time a.id) (lease now a) waits
                (record { waiting = old.waiting; given_up = old.given_up; done = old.done }))
        | inr f ↦ rw f old
      ]

  next_id_kept : (poll handlers unknown time now s).next_id ≡ s.next_id
  unfolding poll claim_due_events
  next_id_kept = refl

  pub poll-IsValid : IsValid (poll handlers unknown time now s)
  poll-IsValid = record {
    sound = λ b r. let (a, w, e) = poll-from r in subst IsSound (sym e) (polled-IsSound a w);
    ids = λ b r.
        let (a, w, e) = poll-from r in
        let own = ap (λ o. o.id) e ∙ polled-id a in rw next_id_kept (omega (arith, v.ids a w, own));
    unique = λ b c r q k.
        let (a, w, e) = poll-from r in
        let (d, x, f) = poll-from q in
        let own = ap (λ o. o.id) e ∙ polled-id a in
        let own' = ap (λ o. o.id) f ∙ polled-id d in
        let one : a ≡ d = v.unique a d w x (sym own ∙ k ∙ own') in
        e ∙ ap (polled handlers unknown time now s.outbox_events) one ∙ sym f;
  }
