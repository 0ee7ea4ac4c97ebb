-- ===== src/Payments/Run.antt =====
-- The calls of the payment services, one after another: each is a run of the steps.
use locoomo_api.Base.{
  ⊤, ℕ, ◌≡◌, refl, sym, ap, subst, Bool, true, false, Option, some, List, [], ◌∷◌, find, Row,
  Row-find, ◌⊎◌, inl, inr, Bool-cases, Option-cases, where_rows, take, sort, if◌then◌else◌,
}
use locoomo_api.Effect.{
  >>=_quiet, pure, Result, ok, err, ◌>>=◌, ◌>>◌, gets, Result-cases, run-cases, >>=_err, >>=_ok,
}
use locoomo_api.Orders.{Text}
use locoomo_api.Capacity.{release_capacity_slot}
use locoomo_api.Database.{once, in_transaction, Database, Db, opened, close, committed}
use locoomo_api.Payments.{
  PaymentIntentStatus, PaymentWebhookEvent, PaymentIntent, PaymentVerificationResult, FeeBreakdown,
  is_confirmed, is_pending, Provider, verify_webhook_signature, parse_webhook_event,
}
use locoomo_api.Payments.Intents.{
  recover_verified, recover_by, refers, settle_found, confirm_fresh,
  payment_webhook_idempotency_scope, CreatePaymentIntentDto, Confirming, has_id, settle_event,
  recover_paid, create, handle, poll, try_recover, process_stale_intent, process_stale_intents,
  expire_fresh, is_charge_success, by_expires_at, is_stale, expiry_batch_size,
}
use locoomo_api.Payments.Steps.{
  with_key, Change, Changes, nothing, lapsed, Changes-one, Changes-trans, lapsed_state, done,
}
use locoomo_api.Payments.Refines.{
  once-Change, Ends, IsOwed, settle-Ends, recover-Ends, is_pending-eq,
}
-- One call, with what the providers and the clock say during it.
use locoomo_api.Payments.Booking.{close-Change, create-Changes}

pub data Call : Type 0 where
  checkout :
      ℕ → Result FeeBreakdown → (PaymentIntent → Result Text) → ℕ → CreatePaymentIntentDto → Call
  webhook : Provider → Confirming → Text → Option Text → Call
  sweep : Provider → Confirming → Call

unfoldable pub after : Call → Database → Database
after (checkout now quote initialize payer_id dto) s =
    (create now quote initialize payer_id dto s).1
after (webhook provider c raw_body signature) s = (handle provider c raw_body signature s).1
after (sweep provider c) s = (poll provider c s).1

-- The last call stands first.
unfoldable pub run : List Call → Database → Database
run [] s = s
run (c ∷ cs) s = after c (run cs s)

module _ (provider : Provider) (c : Confirming) where
  -- A body run under a reference's key, whose outcome is then dropped.
  abbrev dropped : ℕ → Db ⊤ → Db ⊤
  dropped reference fn = once payment_webhook_idempotency_scope reference fn >> pure tt

  dropped-Change :
      (reference : ℕ) (fn : Db ⊤) (s : Database)
      → Ends c
          (with_key reference (opened s))
          fn
          (IsOwed c (with_key reference (opened s)) reference)
      → Change s ((dropped reference fn s).1)
  dropped-Change reference fn s ends =
      subst (Change s)
        (sym (
          >>=_quiet (once payment_webhook_idempotency_scope reference fn) (λ _. pure tt) s
            (λ a t. refl)))
        (once-Change c reference fn s ends)

  settle_event-Change :
      (event : PaymentWebhookEvent) (s : Database) → Change s ((settle_event provider c event s).1)
  unfolding settle_event
  settle_event-Change event s =
      let reference = event.provider_reference in
      dropped-Change reference
        (gets (λ s. find (refers reference) s.intents) >>= settle_found provider c reference) s
        (settle-Ends c (with_key reference (opened s)) provider reference)

  handle-Changes :
      (raw_body : Text) (signature : Option Text) (s : Database)
      → Changes s ((handle provider c raw_body signature s).1)
  unfolding handle
  handle-Changes raw_body signature s =
      elim (Bool-cases (verify_webhook_signature provider.hmac raw_body signature)) [
        | inr f ↦ rw f done
        | inl t ↦ elim (Result-cases (provider.parse raw_body)) [
          | inl (e, h) ↦ rw (t, h) done
          | inr (payload, h) ↦
              let event = parse_webhook_event payload in
              elim (Bool-cases (is_charge_success event.type)) [
                | inr g ↦ rw (t, h, g) done
                | inl g ↦ rw (t, h, g) (Changes-one (settle_event-Change event s))
              ]
        ]
      ]

  recover_verified-Changes :
      (intent : PaymentIntent) (reference : ℕ) (answer : Result PaymentVerificationResult)
      (s : Database)
      → intent.provider_reference ≡ some reference
      → Changes s ((recover_verified c intent reference answer s).1)
  unfolding recover_verified recover_paid
  recover_verified-Changes intent reference (err _) s own = done
  recover_verified-Changes intent reference (ok v) s own =
      elim (Bool-cases (is_confirmed v intent)) [
        | inr f ↦ rw f done
        | inl t ↦
            let body : Db ⊤ = gets (λ s. find (has_id intent.id) s.intents) >>= confirm_fresh c v in
            let stands : (recover_verified c intent reference (ok v) s).1
                ≡ (dropped reference body s).1 =
              rw t (>>=_quiet (dropped reference body) (λ _. pure true) s (λ a t. refl)) in
            subst (Changes s) (sym stands) (
              Changes-one (
                dropped-Change reference body s
                  (recover-Ends c (with_key reference (opened s)) reference intent v own t)))
      ]

  try_recover-Changes :
      (intent : PaymentIntent) (s : Database) → Changes s ((try_recover provider c intent s).1)
  unfolding try_recover recover_by
  try_recover-Changes intent s = elim (Option-cases intent.provider_reference) [
    | inl e ↦ subst (λ o. Changes s ((recover_by provider c intent o s).1)) (sym e) done
    | inr (reference, own) ↦
        subst (λ o. Changes s ((recover_by provider c intent o s).1)) (sym own)
          (recover_verified-Changes intent reference (provider.verify reference) s own)
  ]

  abbrev expiring : PaymentIntent → Db ⊤
  expiring intent = gets (λ s. find (has_id intent.id) s.intents) >>= expire_fresh

  expiring-cases :
      (intent : PaymentIntent) (s : Database)
      → (expiring intent s ≡ (ok tt, s))
        ⊎ ((i : PaymentIntent) × Row i s.intents
            × (i.status ≡ PaymentIntentStatus.pending)
            × (expiring intent s ≡ (ok tt, lapsed_state i s)))
  unfolding expire_fresh release_capacity_slot
  expiring-cases intent s = elim (Option-cases (find (has_id intent.id) s.intents)) [
    | inl e ↦ inl (rw e refl)
    | inr (i, e) ↦ elim (Bool-cases (is_pending i.status)) [
      | inr f ↦ inl (rw (e, f) refl)
      | inl t ↦
          inr (
            i,
            (Row-find (has_id intent.id) s.intents e).0,
            is_pending-eq i.status t,
            rw (e, t) refl,
          )
    ]
  ]

  expire-Change :
      (intent : PaymentIntent) (s : Database) → Change s ((in_transaction (expiring intent) s).1)
  expire-Change intent s = elim (expiring-cases intent (opened s)) [
    | inl ran ↦
        subst (λ o. Change s ((close s o).1)) (sym ran)
          (close-Change s (ok tt, opened s) refl
            (λ a u same. subst (λ t. Change s (committed t)) (ap (λ o. o.1) same) nothing))
    | inr (i, r, k, ran) ↦
        subst (λ o. Change s ((close s o).1)) (sym ran)
          (close-Change s (ok tt, lapsed_state i (opened s)) refl
            (λ a u same. subst (λ t. Change s (committed t)) (ap (λ o. o.1) same) (lapsed i r k)))
  ]

  abbrev give_up : PaymentIntent → Bool → Db ⊤
  give_up intent skip = if skip then pure tt else in_transaction (expiring intent)

  process_stale-Changes :
      (intent : PaymentIntent) (s : Database)
      → Changes s ((process_stale_intent provider c intent s).1)
  unfolding process_stale_intent
  process_stale-Changes intent s =
      let tried = try_recover-Changes intent s in
      elim (run-cases (try_recover provider c intent s)) [
        | inl (e, t, ran) ↦
            subst (λ o. Changes s (o.1))
              (sym (>>=_err (try_recover provider c intent) (give_up intent) s ran))
              (subst (λ o. Changes s (o.1)) ran tried)
        | inr (skip, t, ran) ↦
            subst (λ o. Changes s (o.1))
              (sym (>>=_ok (try_recover provider c intent) (give_up intent) s ran))
              (Changes-trans (subst (λ o. Changes s (o.1)) ran tried) (given_up skip t))
      ]
    where
      given_up : (skip : Bool) (t : Database) → Changes t ((give_up intent skip t).1)
      given_up true t = done
      given_up false t = Changes-one (expire-Change intent t)

  process_all-Changes :
      (is : List PaymentIntent) (s : Database)
      → Changes s ((process_stale_intents provider c is s).1)
  unfolding process_stale_intents
  process_all-Changes [] s = done
  process_all-Changes (i ∷ is) s =
      let one = process_stale-Changes i s in
      elim (run-cases (process_stale_intent provider c i s)) [
        | inl (e, t, ran) ↦
            subst (λ o. Changes s (o.1))
              (sym (
                >>=_err (process_stale_intent provider c i)
                  (λ _. process_stale_intents provider c is) s ran))
              (subst (λ o. Changes s (o.1)) ran one)
        | inr (a, t, ran) ↦
            subst (λ o. Changes s (o.1))
              (sym (
                >>=_ok (process_stale_intent provider c i)
                  (λ _. process_stale_intents provider c is) s ran))
              (Changes-trans (subst (λ o. Changes s (o.1)) ran one) (process_all-Changes is t))
      ]

  poll-Changes : (s : Database) → Changes s ((poll provider c s).1)
  unfolding poll
  poll-Changes s =
      process_all-Changes
        (take expiry_batch_size (sort by_expires_at (where_rows (is_stale c.now) s.intents))) s

-- Whatever the provider, the clock and the callers say, a call of the payment services does to the
-- database a sequence of the steps of Payments.Steps and nothing else.
pub after-Changes : (call : Call) (s : Database) → Changes s (after call s)
unfolding after
after-Changes (checkout now quote initialize payer_id dto) s =
    create-Changes now initialize payer_id dto quote s
after-Changes (webhook provider c raw_body signature) s =
    handle-Changes provider c raw_body signature s
after-Changes (sweep provider c) s = poll-Changes provider c s
