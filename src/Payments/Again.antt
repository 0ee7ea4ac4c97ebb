-- ===== src/Payments/Again.antt =====
-- A payment event that is delivered again, and one that came before the payment could be verified.
use locoomo_api.Base.{
  opt_is-eq, ⊤, ℕ, ◌≡◌, refl, sym, ap, ◌∙◌, subst, Bool, true, false, some, [], any, find, Row-find,
  inl, inr, Bool-cases, ==_iff, if◌then◌else◌,
}
use locoomo_api.Effect.{Result, ok, ◌>>=◌, ◌>>◌, gets, pure, >>=_ok, >>=_err}
use locoomo_api.Database.{
  Database, Db, in_transaction, opened, is_key, close, committed, once, once-used, once_err,
  once_ok,
}
use locoomo_api.Payments.{
  PaymentIntent, PaymentIntentStatus, PaymentVerificationResult, PaymentWebhookEvent, is_confirmed,
  Provider, charge_success, is_pending,
}
use locoomo_api.Payments.Intents.{
  Confirming, refers, settle_event, settle_found, settle_verified, process_stale_intent,
  try_recover, recover_by, recover_verified, recover_paid, payment_webhook_idempotency_scope,
  confirm_fresh, has_id, expire_fresh,
}
use locoomo_api.Payments.Steps.{with_key, confirmed_state}
use locoomo_api.Payments.Refines.{settle-Ends, Ends, IsOwed}

abbrev is_used : ℕ → Database → Bool
is_used reference s = any (is_key payment_webhook_idempotency_scope reference) s.keys

abbrev settling : Provider → Confirming → ℕ → Db ⊤
settling provider c reference =
    gets (λ s. find (refers reference) s.intents) >>= settle_found provider c reference

used-settle :
    (provider : Provider) (c : Confirming) (event : PaymentWebhookEvent) (s : Database)
    → is_used event.provider_reference s ≡ true
    → settle_event provider c event s ≡ (ok tt, opened s)
unfolding settle_event
used-settle provider c event s h =
    let reference = event.provider_reference in
    let fn = settling provider c reference in
    >>=_ok (once payment_webhook_idempotency_scope reference fn) (λ _. pure tt) s
      (once-used payment_webhook_idempotency_scope reference fn s h)

used-recover :
    (c : Confirming) (i : PaymentIntent) (reference : ℕ) (v : PaymentVerificationResult)
    (s : Database)
    → is_used reference s ≡ true
    → recover_paid c i reference v s ≡ (ok tt, opened s)
unfolding recover_paid
used-recover c i reference v s h =
    let fn : Db ⊤ = gets (λ s. find (has_id i.id) s.intents) >>= confirm_fresh c v in
    >>=_ok (once payment_webhook_idempotency_scope reference fn) (λ _. pure tt) s
      (once-used payment_webhook_idempotency_scope reference fn s h)

own_key : (reference : ℕ) (s : Database) → is_used reference (with_key reference s) ≡ true
own_key reference s = rw ((==_iff 0 0).1 refl, (==_iff reference reference).1 refl) refl

-- A database that no one has tried codes in is as a transaction finds it.
unopened : (t : Database) → t.codes.counted ≡ [] → opened t ≡ t
unopened t quiet =
    ap (λ x. let c = t.codes in let d = record c { counted = x } in record t { codes = d })
      (sym quiet)

-- What an event that is dealt with leaves: the key, and codes that no one has tried.
settled-key :
    (provider : Provider) (c : Confirming) (event : PaymentWebhookEvent) (s : Database)
    → s.orders.aborted ≡ false
    → (settle_event provider c event s).0 ≡ ok tt
    → let t = (settle_event provider c event s).1 in
      (is_used event.provider_reference t ≡ true) × (t.codes.counted ≡ [])
unfolding settle_event
settled-key provider c event s running h = elim (Bool-cases (is_used event.provider_reference s)) [
  | inl t ↦ subst Keyed (sym (used-settle provider c event s t)) (t, refl)
  | inr f ↦ wrote f (
      settle-Ends c (with_key event.provider_reference (opened s)) provider
        event.provider_reference)
]
  where
    reference : ℕ
    reference = event.provider_reference

    Keyed : Result ⊤ × Database → Type 0
    Keyed o = (is_used reference (o.1) ≡ true) × (o.1.codes.counted ≡ [])

    k : Database
    k = with_key reference (opened s)

    ends :
        (u : Database)
        → is_used reference s ≡ false
        → settling provider c reference k ≡ (ok tt, u)
        → u.orders.aborted ≡ false
        → settle_event provider c event s ≡ (ok tt, committed u)
    ends u f ran alive =
        let fn = settling provider c reference in
        let closed : close s (ok (some tt), u) ≡ (ok (some tt), committed u) = rw alive refl in
        >>=_ok (once payment_webhook_idempotency_scope reference fn) (λ _. pure tt) s
          (once_ok payment_webhook_idempotency_scope reference fn s f ran ∙ closed)

    wrote :
        is_used reference s ≡ false
        → Ends c k (settling provider c reference) (IsOwed c k reference)
        → Keyed (settle_event provider c event s)
    wrote f (inl (e, t, ran, same)) =
        let went =
          >>=_err (once payment_webhook_idempotency_scope reference (settling provider c reference))
            (λ _. pure tt) s
            (once_err payment_webhook_idempotency_scope reference (settling provider c reference) s
              f ran) in
        cc (h, ap (λ o. o.0) went)
    wrote f (inr (inl ran)) = subst Keyed (sym (ends k f ran running)) (own_key reference s, refl)
    wrote f (inr (inr (i, v, email, _, _, _, ran))) =
        subst Keyed (sym (ends (confirmed_state c i v email k) f ran running))
          (own_key reference s, refl)

-- Once a payment event is dealt with, the same event changes nothing when it is delivered again,
-- whatever the provider then says: no second order, email, or change to the intent.
pub settle_event-again :
    (provider : Provider) (c : Confirming) (event : PaymentWebhookEvent) (s : Database)
    → s.orders.aborted ≡ false
    → (settle_event provider c event s).0 ≡ ok tt
    → (later : Provider) (d : Confirming)
    → let t = (settle_event provider c event s).1 in settle_event later d event t ≡ (ok tt, t)
settle_event-again provider c event s running h later d =
    let t = (settle_event provider c event s).1 in
    let (key, quiet) = settled-key provider c event s running h in
    used-settle later d event t key ∙ ap (λ u. (ok tt, u)) (unopened t quiet)

recovering :
    (provider : Provider) (c : Confirming) (i : PaymentIntent) (reference : ℕ)
    (v : PaymentVerificationResult) (s : Database)
    → i.provider_reference ≡ some reference
    → provider.verify reference ≡ ok v
    → is_confirmed v i ≡ true
    → try_recover provider c i s ≡ (recover_paid c i reference v >> pure true) s
unfolding try_recover recover_by recover_verified
recovering provider c i reference v s own answer agree =
    ap (λ o. recover_by provider c i o s) own
    ∙ ap (λ a. recover_verified c i reference a s) answer
    ∙ (rw agree refl)

-- What the sweep does about an intent that the provider now says is paid, once the key is used.
used-stale :
    (provider : Provider) (c : Confirming) (i : PaymentIntent) (reference : ℕ)
    (v : PaymentVerificationResult) (s : Database)
    → i.provider_reference ≡ some reference
    → provider.verify reference ≡ ok v
    → is_confirmed v i ≡ true
    → is_used reference s ≡ true
    → process_stale_intent provider c i s ≡ (ok tt, opened s)
unfolding process_stale_intent
used-stale provider c i reference v s own answer agree h =
    let tried : try_recover provider c i s ≡ (ok true, opened s) =
      recovering provider c i reference v s own answer agree
      ∙ >>=_ok (recover_paid c i reference v) (λ _. pure true) s
          (used-recover c i reference v s h) in
    >>=_ok (try_recover provider c i)
      (λ skip.
        if skip
        then pure tt
        else in_transaction (gets (λ s. find (has_id i.id) s.intents) >>= expire_fresh))
      s tried

module _ (provider : Provider) (c : Confirming) (reference : ℕ) (i : PaymentIntent)
    (v : PaymentVerificationResult) (s : Database) where
  abbrev paid_event : PaymentWebhookEvent
  paid_event = record { type = charge_success; provider_reference = reference }

  -- The intent is left as it is, but the key is used.
  refused :
      s.orders.aborted ≡ false
      → is_used reference s ≡ false
      → find (refers reference) s.intents ≡ some i
      → i.status ≡ PaymentIntentStatus.pending
      → provider.verify reference ≡ ok v
      → is_confirmed v i ≡ false
      → settle_event provider c paid_event s ≡ (ok tt, with_key reference (opened s))
  unfolding settle_event settle_found settle_verified
  refused running f e pend answer disagree =
      let fn = settling provider c reference in
      let k = with_key reference (opened s) in
      let awaits : is_pending i.status ≡ true = ap is_pending pend in
      let ran : fn k ≡ (ok tt, k) = rw (e, awaits, answer, disagree) refl in
      let closed : close s (ok (some tt), k) ≡ (ok (some tt), committed k) = rw running refl in
      >>=_ok (once payment_webhook_idempotency_scope reference fn) (λ _. pure tt) s
        (once_ok payment_webhook_idempotency_scope reference fn s f ran ∙ closed)

  -- A payment event whose verification does not agree with the pending intent, by its status or by
  -- its amount, uses up the key all the same: once the provider does say that the intent is paid,
  -- neither the event delivered again nor the sweep changes anything, and the intent stays pending.
  pub mismatch-stuck :
      s.orders.aborted ≡ false
      → is_used reference s ≡ false
      → find (refers reference) s.intents ≡ some i
      → i.status ≡ PaymentIntentStatus.pending
      → provider.verify reference ≡ ok v
      → is_confirmed v i ≡ false
      → (later : Provider) (d : Confirming) (w : PaymentVerificationResult)
      → later.verify reference ≡ ok w
      → is_confirmed w i ≡ true
      → let t = (settle_event provider c paid_event s).1 in
        (find (refers reference) t.intents ≡ some i)
        × (settle_event later d paid_event t ≡ (ok tt, t))
        × (process_stale_intent later d i t ≡ (ok tt, t))
  mismatch-stuck running f e pend answer disagree later d w now_paid agree =
      let stands = sym (ap (λ o. o.1) (refused running f e pend answer disagree)) in
      let k = with_key reference (opened s) in
      let (_, own) = Row-find (refers reference) s.intents e in
      subst
        (λ t.
          (find (refers reference) t.intents ≡ some i)
          × (settle_event later d paid_event t ≡ (ok tt, t))
          × (process_stale_intent later d i t ≡ (ok tt, t)))
        stands
        (
          e,
          used-settle later d paid_event k (own_key reference (opened s)),
          used-stale later d i reference w k (opt_is-eq i.provider_reference reference own) now_paid
              agree (own_key reference (opened s)),
        )
