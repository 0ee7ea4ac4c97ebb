-- ===== src/Outbox/Loop.antt =====
-- The loop of the poller over the events that it claimed: what it leaves in a row.
use locoomo_api.Base.{
  ℕ, ◌+◌, ◌<◌, ◌≡◌, refl, ap, sym, ◌∙◌, subst, true, false, none, some, List, [], ◌∷◌, ◌==◌, leb,
  ==_iff, arith, if◌then◌else◌, Row, here, there, Row-update_where, Row-update_where_of_Row,
  Bool-cases, Option-cases, inl, inr, is_none,
}
use locoomo_api.Outbox.{
  OutboxEvent, pending, sent, failed, Registry, Text, dispatch, register_failure, process_event,
  process_all,
}

-- What holds of each row: how many attempts, and what a sent event has.
pub record IsSound (e : OutboxEvent) : Type 0 where
  pub waiting : e.status ≡ pending → e.attempts < 5
  pub given_up : e.status ≡ failed → (e.attempts ≡ 5) × (is_none e.last_error ≡ false)
  pub done : e.status ≡ sent → (e.last_error ≡ none) × (is_none e.processed_at ≡ false)

process_event-sent :
    (handlers : Registry) (unknown : Text) (now : ℕ) (e : OutboxEvent)
    → dispatch handlers unknown e ≡ none
    → process_event handlers unknown now e
      ≡ record e { status = sent; processed_at = some now; last_error = none }
unfolding process_event
process_event-sent handlers unknown now e d = rw (d, process_event) refl

process_event-failed :
    (handlers : Registry) (unknown : Text) (now : ℕ) (e : OutboxEvent) {error : Text}
    → dispatch handlers unknown e ≡ some error
    → process_event handlers unknown now e ≡ register_failure now error e
unfolding process_event
process_event-failed handlers unknown now e d = rw (d, process_event) refl

register_failure-IsSound :
    (now : ℕ) (error : Text) (e : OutboxEvent)
    → e.status ≡ pending
    → e.attempts < 5
    → IsSound (register_failure now error e)
unfolding register_failure
register_failure-IsSound now error e p few = elim (Bool-cases (leb 5 (e.attempts + 1))) [
  | inl t ↦
      rw t (record {
        waiting = λ h. cc;
        given_up = λ h. (ground (arith, t, few), refl);
        done = λ h. cc;
      })
  | inr f ↦ rw f (record {
    waiting = λ h. ground (arith, f);
    given_up = λ h. cc (sym p ∙ h);
    done = λ h. cc (sym p ∙ h);
  })
]

pub process_event-IsSound :
    (handlers : Registry) (unknown : Text) (now : ℕ) (e : OutboxEvent)
    → e.status ≡ pending
    → IsSound e
    → IsSound (process_event handlers unknown now e)
process_event-IsSound handlers unknown now e p v =
    elim (Option-cases (dispatch handlers unknown e)) [
      | inl d ↦
          subst IsSound (sym (process_event-sent handlers unknown now e d))
            (record { waiting = λ h. cc; given_up = λ h. cc; done = λ h. (refl, refl) })
      | inr (error, d) ↦
          subst IsSound (sym (process_event-failed handlers unknown now e d))
            (register_failure-IsSound now error e p (v.waiting p))
    ]

pub process_event-id :
    (handlers : Registry) (unknown : Text) (now : ℕ) (e : OutboxEvent)
    → (process_event handlers unknown now e).id ≡ e.id
unfolding process_event register_failure
process_event-id handlers unknown now e = ground arith

-- The row that the loop leaves where a row stood before it.
unfoldable pub after_all : Registry → Text → (ℕ → ℕ) → List OutboxEvent → OutboxEvent → OutboxEvent
after_all handlers unknown time [] a = a
after_all handlers unknown time (c ∷ cs) a =
    after_all handlers unknown time cs
      (if a.id == c.id then process_event handlers unknown (time c.id) c else a)

module _ (handlers : Registry) (unknown : Text) (time : ℕ → ℕ) where
  pub process_all-Row :
      (cs events : List OutboxEvent) {b : OutboxEvent}
      → Row b (process_all handlers unknown time cs events)
      → (a : OutboxEvent) × Row a events × (b ≡ after_all handlers unknown time cs a)
  unfolding process_all after_all
  process_all-Row [] events {b} r = (b, r, refl)
  process_all-Row (c ∷ cs) events r =
      let (a, q, e) = process_all-Row cs _ r in
      let (d, w, k) =
        Row-update_where (λ e. e.id == c.id) (λ e. process_event handlers unknown (time c.id) c)
          events q in
      (d, w, rw (sym k) e)

  pub Row-process_all :
      (cs events : List OutboxEvent) {a : OutboxEvent}
      → Row a events
      → Row (after_all handlers unknown time cs a) (process_all handlers unknown time cs events)
  unfolding process_all after_all
  Row-process_all [] events r = r
  Row-process_all (c ∷ cs) events r = Row-process_all cs _ (
      Row-update_where_of_Row (λ e. e.id == c.id)
        (λ e. process_event handlers unknown (time c.id) c) r)

  -- A row that was not claimed.
  pub after_all-other :
      (cs : List OutboxEvent) (a : OutboxEvent)
      → ((c : OutboxEvent) → Row c cs → (a.id == c.id) ≡ false)
      → after_all handlers unknown time cs a ≡ a
  unfolding after_all
  after_all-other [] a h = refl
  after_all-other (c ∷ cs) a h = rw (h c (here refl)) (after_all-other cs a (λ d r. h d (there r)))

  -- A row that has been dealt with: further rounds with the same event change nothing.
  after_all-done :
      (cs : List OutboxEvent) (l : OutboxEvent)
      → ((c : OutboxEvent) → Row c cs → c.id ≡ l.id → c ≡ l)
      → let done = process_event handlers unknown (time l.id) l in
        after_all handlers unknown time cs done ≡ done
  unfolding after_all
  after_all-done [] l h = refl
  after_all-done (c ∷ cs) l h =
      let done = process_event handlers unknown (time l.id) l in
      let own = process_event-id handlers unknown (time l.id) l in
      let rest = after_all-done cs l (λ d r. h d (there r)) in
      elim (Bool-cases (done.id == c.id)) [
        | inl t ↦
            let same : c ≡ l = h c (here refl) (sym ((==_iff done.id c.id).0 t) ∙ own) in
            rw (t, same) rest
        | inr f ↦ rw f rest
      ]

  pub after_all-claimed :
      (cs : List OutboxEvent) (a l : OutboxEvent)
      → a.id ≡ l.id
      → Row l cs
      → ((c : OutboxEvent) → Row c cs → c.id ≡ l.id → c ≡ l)
      → after_all handlers unknown time cs a ≡ process_event handlers unknown (time l.id) l
  unfolding after_all
  after_all-claimed [] a l e r h = elim r [ ]
  after_all-claimed (c ∷ cs) a l e r h = elim (Bool-cases (a.id == c.id)) [
    | inl t ↦
        let same : c ≡ l = h c (here refl) (sym ((==_iff a.id c.id).0 t) ∙ e) in
        rw (t, same) (after_all-done cs l (λ d q. h d (there q)))
    | inr f ↦ elim r [
      | here k ↦ let t : (a.id == c.id) ≡ true = (==_iff a.id c.id).1 (e ∙ ap (λ x. x.id) k) in cc
      | there q ↦ rw f (after_all-claimed cs a l e q (λ d w. h d (there w)))
    ]
  ]
