-- ===== src/Payments/Slots.antt =====
-- Payment intents and places at a counter: a booked place is held by one intent, and given back once.
use locoomo_api.Base.{
  ℕ, ◌+◌, ◌≡◌, refl, sym, ap, ◌∙◌, subst, Bool, true, false, not, ◌&&◌, List, [], ◌∷◌, ◌++◌, ◌==◌,
  update_where, Row, inl, inr, Bool-cases, arith, some, count_where, one_if, count_where-put,
  count_where-append_one, count_where-update, put, Row-update_where,
}
use locoomo_api.Capacity.{NodeRow, one_more, one_less}
use locoomo_api.Database.{Database}
use locoomo_api.Payments.{PaymentIntent, PaymentIntentStatus}
use locoomo_api.Payments.Intents.{has_id, paid_intent}
use locoomo_api.Payments.Steps.{
  Change, Changes, nothing, booked, referred, keyed, confirmed, lapsed, done, next,
}
use locoomo_api.Payments.Run.{Call, run, after-Changes}
use locoomo_api.Payments.Settled.{Sound, id_of, Change-IsSound, run-IsSound}

abbrev pub is_expired : PaymentIntentStatus → Bool
is_expired PaymentIntentStatus.expired = true
is_expired _ = false

-- The intent holds a place at the Node.
abbrev pub holds : ℕ → PaymentIntent → Bool
holds node_id i = i.origin_node_id == node_id && not (is_expired i.status)

-- What each counter shows, `base` apart, is the intents that hold a place there.
abbrev pub IsCounted : (ℕ → ℕ) → List PaymentIntent → List NodeRow → Type 0
IsCounted base intents nodes =
    (n : NodeRow) → Row n nodes → n.current_count ≡ base n.id + count_where (holds n.id) intents

book-IsCounted :
    (base : ℕ → ℕ) (intents : List PaymentIntent) (nodes : List NodeRow) (x : PaymentIntent)
    → x.status ≡ PaymentIntentStatus.pending
    → IsCounted base intents nodes
    → IsCounted base
        (intents ++ x ∷ [])
        (update_where (λ n. n.id == x.origin_node_id) one_more nodes)
book-IsCounted base intents nodes x pend h n r =
    let (a, q, e) = Row-update_where (λ n. n.id == x.origin_node_id) one_more nodes r in
    let old = h a q in
    let count = count_where-append_one (holds a.id) intents x in
    elim (Bool-cases (a.id == x.origin_node_id)) [
      | inl t ↦
          let stands : n ≡ one_more a = e ∙ rw t refl in
          let one : one_if (holds a.id x) ≡ 1 = ground (arith, t, pend) in
          subst (λ m. m.current_count ≡ base m.id + count_where (holds m.id) (intents ++ x ∷ []))
            (sym stands) (omega (arith, old, count, one))
      | inr f ↦
          let stands : n ≡ a = e ∙ rw f refl in
          let none_more : one_if (holds a.id x) ≡ 0 = ground (arith, f) in
          subst (λ m. m.current_count ≡ base m.id + count_where (holds m.id) (intents ++ x ∷ []))
            (sym stands) (omega (arith, old, count, none_more))
    ]

lapse-IsCounted :
    (base : ℕ → ℕ) (intents : List PaymentIntent) (nodes : List NodeRow) (i x : PaymentIntent)
    → ((id : ℕ)
        → count_where (holds id) (put id_of i.id x intents) + one_if (holds id i)
          ≡ count_where (holds id) intents + one_if (holds id x))
    → i.status ≡ PaymentIntentStatus.pending
    → x.status ≡ PaymentIntentStatus.expired
    → IsCounted base intents nodes
    → IsCounted base
        (put id_of i.id x intents)
        (update_where (λ n. n.id == i.origin_node_id) one_less nodes)
lapse-IsCounted base intents nodes i x moves pend gone h n r =
    let (a, q, e) = Row-update_where (λ n. n.id == i.origin_node_id) one_less nodes r in
    let old = h a q in
    let count = moves a.id in
    let after : one_if (holds a.id x) ≡ 0 = ground (arith, gone) in
    elim (Bool-cases (a.id == i.origin_node_id)) [
      | inl t ↦
          let stands : n ≡ one_less a = e ∙ rw t refl in
          let one : one_if (holds a.id i) ≡ 1 = ground (arith, t, pend) in
          subst
            (λ m. m.current_count ≡ base m.id + count_where (holds m.id) (put id_of i.id x intents))
            (sym stands) (omega (arith, old, count, one, after))
      | inr f ↦
          let stands : n ≡ a = e ∙ rw f refl in
          let none_held : one_if (holds a.id i) ≡ 0 = ground (arith, f) in
          subst
            (λ m. m.current_count ≡ base m.id + count_where (holds m.id) (put id_of i.id x intents))
            (sym stands) (omega (arith, old, count, none_held, after))
    ]

same-IsCounted :
    (base : ℕ → ℕ) (intents after : List PaymentIntent) (nodes : List NodeRow)
    → ((id : ℕ) → count_where (holds id) after ≡ count_where (holds id) intents)
    → IsCounted base intents nodes
    → IsCounted base after nodes
same-IsCounted base intents after nodes same h n r =
    h n r ∙ ap (λ k. base n.id + k) (sym (same n.id))

Change-IsCounted :
    (base : ℕ → ℕ) {s t : Database}
    → Change s t
    → Sound s
    → IsCounted base s.intents s.nodes
    → IsCounted base t.intents t.nodes
Change-IsCounted base nothing v h = h
Change-IsCounted base (booked {s} now payer_id dto fee node f room) v h =
    book-IsCounted base s.intents s.nodes _ refl h
Change-IsCounted base (referred {s} id) v h =
    same-IsCounted base s.intents _ s.nodes
      (λ k.
        count_where-update (holds k) (has_id id) (λ i. record i { provider_reference = some id })
          (λ a. refl) s.intents)
      h
Change-IsCounted base (keyed reference f) v h = h
Change-IsCounted base (confirmed {s} c i seen w email reference f _ _ r same pend free) v h =
    same-IsCounted base s.intents _ s.nodes
      (λ k.
        let moved =
          count_where-put id_of (holds k) (paid_intent c.now w i) s.intents v.distinct r in
        let kept : one_if (holds k i) ≡ one_if (holds k (paid_intent c.now w i)) =
          ground (arith, pend) in
        omega (arith, moved, kept))
      h
Change-IsCounted base (lapsed {s} i r pend) v h =
    lapse-IsCounted base s.intents s.nodes i (record i { status = PaymentIntentStatus.expired })
      (λ k.
        count_where-put id_of (holds k) (record i { status = PaymentIntentStatus.expired })
          s.intents v.distinct r)
      pend refl h

Changes-IsCounted :
    (base : ℕ → ℕ) {s t : Database}
    → Changes s t
    → Sound s
    → IsCounted base s.intents s.nodes
    → IsCounted base t.intents t.nodes
Changes-IsCounted base done v h = h
Changes-IsCounted base (next c l) v h =
    Changes-IsCounted base l (Change-IsSound c v) (Change-IsCounted base c v h)

-- Through any calls of the payment services, a Node's counter is what it was without them plus the
-- intents booked there that have not expired: every booking takes one place, an intent gives its
-- place back only by expiring, and only once.
pub slots-held :
    (base : ℕ → ℕ) (cs : List Call) (s : Database)
    → Sound s
    → IsCounted base s.intents s.nodes
    → (n : NodeRow) → Row n (run cs s).nodes
    → n.current_count ≡ base n.id + count_where (holds n.id) (run cs s).intents
unfolding run
slots-held base [] s v h n r = h n r
slots-held base (c ∷ cs) s v h n r =
    Changes-IsCounted base (after-Changes c (run cs s)) (run-IsSound cs s v)
      (slots-held base cs s v h) n r
