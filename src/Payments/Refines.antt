-- ===== src/Payments/Refines.antt =====
-- The payment services take only the steps of Payments.Steps.
use locoomo_api.Base.{
  opt_is-eq, ⊤, ℕ, ◌≡◌, refl, sym, ap, ◌∙◌, subst, true, false, some, [], any, find, Row, Row-find,
  ◌⊎◌, inl, inr, Bool-cases, Option-cases, ==_iff, arith,
}
use locoomo_api.Effect.{
  ok, err, ◌>>=◌, gets, Error, Result-cases, run-cases, >>=_err, >>=_ok, modify,
}
use locoomo_api.Orders.{Text, Order, collides, create_from_paid_intent}
use locoomo_api.Orders.Code.{generate_tracking_code}
use locoomo_api.Orders.Create.{create-created}
use locoomo_api.Database.{
  Database, Db, opened, is_key, on_orders, on_orders_run, lift, once, once-cases, committed,
}
use locoomo_api.Payments.{
  PaymentIntent, PaymentIntentStatus, PaymentVerificationResult, is_confirmed, is_pending,
  order_fields, Provider,
}
use locoomo_api.Payments.Intents.{
  save_intent, Confirming, confirm, refers, has_id, settle_found, settle_verified,
  payment_webhook_idempotency_scope, confirm_fresh, enqueue_email, paid_intent,
}
use locoomo_api.Payments.Steps.{Change, nothing, keyed, confirmed, confirmed_state, with_key}

pub is_pending-eq :
    (x : PaymentIntentStatus) → is_pending x ≡ true → x ≡ PaymentIntentStatus.pending
is_pending-eq x h = ground arith

module _ (c : Confirming) (i : PaymentIntent) (v : PaymentVerificationResult) (s : Database) where
  abbrev code : Text
  code = generate_tracking_code (c.draw 1)

  abbrev saved : Database
  saved = save_intent (paid_intent c.now v i) s

  abbrev place : Db Order
  place = on_orders (create_from_paid_intent c.draw (order_fields i))

  abbrev notify : Order → Db ⊤
  notify order = do
    email ← lift (c.email (paid_intent c.now v i) order)
    modify (enqueue_email c.now email)

  -- What a confirmation does.
  confirm-cases :
      ((e : Error) × (t : Database) × (confirm c i v s ≡ (err e, t)) × (t.codes ≡ s.codes))
      ⊎ ((email : Text) × (any (collides (order_fields i) code) s.orders.orders ≡ false)
          × (confirm c i v s ≡ (ok tt, confirmed_state c i v email s)))
  unfolding confirm
  confirm-cases = elim (run-cases (create_from_paid_intent c.draw (order_fields i) s.orders)) [
    | inl (e, o, ran) ↦ inl (
      e,
      record saved { orders = o },
      >>=_err place notify saved
          (on_orders_run (create_from_paid_intent c.draw (order_fields i)) saved ran),
      refl,
    )
    | inr (order, o, ran) ↦
        let (free, own, after) = create-created c.draw (order_fields i) s.orders ran in
        let placed : confirm c i v s ≡ notify order (record saved { orders = o }) =
          >>=_ok place notify saved
            (on_orders_run (create_from_paid_intent c.draw (order_fields i)) saved ran) in
        elim (Result-cases (c.email (paid_intent c.now v i) order)) [
          | inl (e, mailed) ↦ inl (e, record saved { orders = o }, placed ∙ rw mailed refl, refl)
          | inr (email, mailed) ↦ inr (email, free, placed ∙ (rw (mailed, after) refl))
        ]
  ]

-- The end of a body: it threw and left the codes alone, it wrote nothing, or it confirmed an intent.
module _ (c : Confirming) (s : Database) where
  abbrev pub Ends : Db ⊤ → (PaymentIntent → PaymentVerificationResult → Type 0) → Type 0
  Ends m P =
      ((e : Error) × (t : Database) × (m s ≡ (err e, t)) × (t.codes ≡ s.codes))
      ⊎ ((m s ≡ (ok tt, s))
          ⊎ ((i : PaymentIntent) × (v : PaymentVerificationResult) × (email : Text) × P i v
              × (i.status ≡ PaymentIntentStatus.pending)
              × (any (collides (order_fields i) (generate_tracking_code (c.draw 1))) s.orders.orders
                  ≡ false)
              × (m s ≡ (ok tt, confirmed_state c i v email s))))

  confirm-Ends :
      (i : PaymentIntent) (v : PaymentVerificationResult)
      (P : PaymentIntent → PaymentVerificationResult → Type 0)
      → P i v
      → i.status ≡ PaymentIntentStatus.pending
      → Ends (confirm c i v) P
  confirm-Ends i v P h k = elim (confirm-cases c i v s) [
    | inl x ↦ inl x
    | inr (email, free, e) ↦ inr (inr (i, v, email, h, k, free, e))
  ]

  -- The provider's answer is about an intent of the same id, which has the reference.
  abbrev pub IsOwed : ℕ → PaymentIntent → PaymentVerificationResult → Type 0
  IsOwed reference i v =
      (seen : PaymentIntent) × (seen.provider_reference ≡ some reference)
      × (is_confirmed v seen ≡ true)
      × Row i s.intents
      × (i.id ≡ seen.id)

  settle_verified-Ends :
      (reference : ℕ) (i : PaymentIntent) (v : PaymentVerificationResult)
      → Row i s.intents
      → i.provider_reference ≡ some reference
      → i.status ≡ PaymentIntentStatus.pending
      → Ends (settle_verified c i v) (IsOwed reference)
  unfolding settle_verified
  settle_verified-Ends reference i v r own k = elim (Bool-cases (is_confirmed v i)) [
    | inl t ↦ rw t (confirm-Ends i v (IsOwed reference) (i, own, t, r, refl) k)
    | inr f ↦ rw f (inr (inl refl))
  ]

  settle_found-Ends :
      (provider : Provider) (reference : ℕ) (i : PaymentIntent)
      → Row i s.intents
      → i.provider_reference ≡ some reference
      → Ends (settle_found provider c reference (some i)) (IsOwed reference)
  unfolding settle_found
  settle_found-Ends provider reference i r own = elim (Bool-cases (is_pending i.status)) [
    | inr f ↦ rw f (inr (inl refl))
    | inl t ↦ elim (Result-cases (provider.verify reference)) [
      | inl (e, h) ↦ inl (e, s, rw (t, h) refl, refl)
      | inr (v, h) ↦ rw (t, h) (settle_verified-Ends reference i v r own (is_pending-eq i.status t))
    ]
  ]

  pub settle-Ends :
      (provider : Provider) (reference : ℕ)
      → Ends
          (gets (λ s. find (refers reference) s.intents) >>= settle_found provider c reference)
          (IsOwed reference)
  unfolding settle_found
  settle-Ends provider reference = elim (Option-cases (find (refers reference) s.intents)) [
    | inl e ↦ inr (inl (rw e refl))
    | inr (i, e) ↦
        let (r, h) = Row-find (refers reference) s.intents e in
        rw e (settle_found-Ends provider reference i r (opt_is-eq i.provider_reference reference h))
  ]

  pub recover-Ends :
      (reference : ℕ) (seen : PaymentIntent) (v : PaymentVerificationResult)
      → seen.provider_reference ≡ some reference
      → is_confirmed v seen ≡ true
      → Ends (gets (λ s. find (has_id seen.id) s.intents) >>= confirm_fresh c v) (IsOwed reference)
  unfolding confirm_fresh
  recover-Ends reference seen v own ok_v = elim (Option-cases (find (has_id seen.id) s.intents)) [
    | inl e ↦ inr (inl (rw e refl))
    | inr (i, e) ↦
        let (r, h) = Row-find (has_id seen.id) s.intents e in
        let same : i.id ≡ seen.id = (==_iff i.id seen.id).0 h in
        elim (Bool-cases (is_pending i.status)) [
          | inr f ↦ inr (inl (rw (e, f) refl))
          | inl t ↦
              rw (e, t)
                (confirm-Ends i v (IsOwed reference) (seen, own, ok_v, r, same)
                  (is_pending-eq i.status t))
        ]
  ]

-- A body that ends in one of these ways takes one step when it is run under the reference's key.
pub once-Change :
    (c : Confirming) (reference : ℕ) (fn : Db ⊤) (s : Database)
    → Ends c (with_key reference (opened s)) fn (IsOwed c (with_key reference (opened s)) reference)
    → Change s ((once payment_webhook_idempotency_scope reference fn s).1)
once-Change c reference fn s ends =
    elim (once-cases payment_webhook_idempotency_scope reference fn s (quiet ends)) [
      | inl e ↦ subst (Change s) (sym e) nothing
      | inr (f, (a, t, ran, n, e)) ↦ subst (λ o. Change s (o.1)) (sym e) (step f ends ran)
    ]
  where
    k : Database
    k = with_key reference (opened s)

    quiet : Ends c k fn (IsOwed c k reference) → (fn k).1.codes.counted ≡ []
    quiet (inl (e, t, ran, same)) = ap (λ o. o.1.codes.counted) ran ∙ ap (λ x. x.counted) same
    quiet (inr (inl ran)) = ap (λ o. o.1.codes.counted) ran
    quiet (inr (inr (i, v, email, _, _, _, ran))) = ap (λ o. o.1.codes.counted) ran

    step :
        {a : ⊤} {t : Database}
        → any (is_key payment_webhook_idempotency_scope reference) s.keys ≡ false
        → Ends c k fn (IsOwed c k reference)
        → fn k ≡ (ok a, t)
        → Change s (committed t)
    step f (inl (e, t, went, same)) ran = cc
    step {t} f (inr (inl went)) ran =
        let is : k ≡ t = ap (λ o. o.1) (sym went ∙ ran) in
        subst (λ u. Change s (committed u)) is (keyed reference f)
    step {t} f (inr (inr (i, v, email, (seen, own, ok_v, r, same), pend, free, went))) ran =
        let is : confirmed_state c i v email k ≡ t = ap (λ o. o.1) (sym went ∙ ran) in
        subst (λ u. Change s (committed u)) is
          (confirmed c i seen v email reference f own ok_v r same pend free)
