-- ===== src/Payments/Intents.antt =====
-- create-payment-intent.service.ts, handle-payment-webhook.service.ts,
-- confirm-payment-intent-paid.service.ts and expire-payment-intents.service.ts of
-- src/modules/payments/application. A confirmation email is an argument: its text, and the reads
-- of the user and of the Nodes that it is made from, which may throw.
use locoomo_api.Base.{
  ⊤, ℕ, suc, ◌+◌, ◌*◌, Bool, true, false, not, ◌&&◌, Option, none, some, List, [], ◌∷◌, ◌++◌, ◌==◌,
  leb, if◌then◌else◌, opt_is, or_else, find, where_rows, update_where, take, sort,
}
use locoomo_api.Effect.{
  Result, ok, err, pure, gets, ◌>>=◌, ◌>>◌, modify, throw_if, node_capacity_unavailable,
  invalid_webhook_signature,
}
use locoomo_api.Orders.{Text, ParcelSize, Order, create_from_paid_intent}
use locoomo_api.Capacity.{reserve_capacity_slot, release_capacity_slot}
use locoomo_api.Outbox.{enqueue}
use locoomo_api.Database.{Database, Db, lift, on_orders, on_nodes, in_transaction, once}
use locoomo_api.Payments.{
  PaymentIntentStatus, PaymentIntent, FeeBreakdown, Provider, PaymentVerificationResult,
  PaymentWebhookEvent, PaymentWebhookEventType, charge_success, is_pending, is_confirmed,
  order_fields, parse_webhook_event, verify_webhook_signature,
}

-- The parts of CreatePaymentIntentDto that reach the row.
pub record CreatePaymentIntentDto : Type 0 where
  pub origin_node_id : ℕ
  pub destination_node_id : ℕ
  pub receiver_full_name : Text
  pub receiver_email : Text
  pub receiver_phone : Text
  pub parcel_description : Text
  pub parcel_size : ParcelSize
  pub weight_kg : Option ℕ
  pub length_cm : Option ℕ
  pub width_cm : Option ℕ
  pub height_cm : Option ℕ
  pub handling : List Text

abbrev pub payment_intent_ttl_ms : ℕ
payment_intent_ttl_ms = 15 * 60 * 1000

abbrev pub new_intent : ℕ → ℕ → ℕ → CreatePaymentIntentDto → FeeBreakdown → PaymentIntent
new_intent id now payer_id dto fee = record {
  id = id;
  consumer_id = payer_id;
  origin_node_id = dto.origin_node_id;
  destination_node_id = dto.destination_node_id;
  receiver_full_name = dto.receiver_full_name;
  receiver_email = dto.receiver_email;
  receiver_phone = dto.receiver_phone;
  parcel_description = dto.parcel_description;
  parcel_size = dto.parcel_size;
  weight_kg = dto.weight_kg;
  length_cm = dto.length_cm;
  width_cm = dto.width_cm;
  height_cm = dto.height_cm;
  handling = dto.handling;
  vehicle_class = some fee.vehicle_class;
  fee_breakdown = fee;
  amount_kobo = fee.total_kobo;
  status = PaymentIntentStatus.pending;
  provider_reference = none;
  expires_at = now + payment_intent_ttl_ms;
  paid_at = none;
}

abbrev pub has_id : ℕ → PaymentIntent → Bool
has_id id i = i.id == id

-- `repo.save(intent)` of an intent that is in the table.
abbrev pub save_intent : PaymentIntent → Database → Database
save_intent i s = record s { intents = update_where (has_id i.id) (λ _. i) s.intents }

abbrev pub insert_intent : ℕ → ℕ → CreatePaymentIntentDto → FeeBreakdown → Db PaymentIntent
insert_intent now payer_id dto fee s =
    let i = new_intent s.next_intent_id now payer_id dto fee in
    (ok i, record s { intents = s.intents ++ i ∷ []; next_intent_id = suc s.next_intent_id })

-- The transaction of `create`.
unfoldable pub book : ℕ → ℕ → CreatePaymentIntentDto → FeeBreakdown → Db PaymentIntent
book now payer_id dto fee = in_transaction (do
  reserved ← on_nodes (reserve_capacity_slot dto.origin_node_id)
  throw_if (not reserved) node_capacity_unavailable
  insert_intent now payer_id dto fee)

-- `update(intent.id, { providerReference: intent.id })`
abbrev pub refer : ℕ → Database → Database
refer id s = record s {
  intents = update_where (has_id id) (λ i. record i { provider_reference = some id }) s.intents;
}

-- `quote` is what DeliveryQuoteService.quote answers and `initialize` what the provider does, which
-- is asked for the payer's email and the intent once it is booked.
unfoldable pub create :
    ℕ
    → Result FeeBreakdown
    → (PaymentIntent → Result Text)
    → ℕ
    → CreatePaymentIntentDto
    → Db (PaymentIntent × Text)
create now quote initialize payer_id dto = do
  fee ← lift quote
  intent ← book now payer_id dto fee
  modify (refer intent.id)
  url ← lift (initialize (record intent { provider_reference = some intent.id }))
  pure (record intent { provider_reference = some intent.id }, url)

-- What a confirmation draws and reads: random numbers for the tracking code, the clock, the email.
pub record Confirming : Type 0 where
  pub draw : ℕ → ℕ → ℕ
  pub now : ℕ
  pub email : PaymentIntent → Order → Result Text

-- OUTBOX event type of `enqueueEmail`.
abbrev pub send_email : ℕ
send_email = 0

abbrev pub enqueue_email : ℕ → Text → Database → Database
enqueue_email now payload s = record s { outbox = enqueue now send_email payload s.outbox }

abbrev pub paid_intent : ℕ → PaymentVerificationResult → PaymentIntent → PaymentIntent
paid_intent now v i = record i {
  status = PaymentIntentStatus.paid;
  paid_at = some (or_else v.paid_at now);
}

unfoldable pub confirm : Confirming → PaymentIntent → PaymentVerificationResult → Db ⊤
confirm c intent verification = do
  modify (save_intent (paid_intent c.now verification intent))
  order ← on_orders (create_from_paid_intent c.draw (order_fields intent))
  email ← lift (c.email (paid_intent c.now verification intent) order)
  modify (enqueue_email c.now email)

-- 'payments.webhook'
abbrev pub payment_webhook_idempotency_scope : ℕ
payment_webhook_idempotency_scope = 0

abbrev pub refers : ℕ → PaymentIntent → Bool
refers reference i = opt_is i.provider_reference reference

unfoldable pub settle_verified : Confirming → PaymentIntent → PaymentVerificationResult → Db ⊤
settle_verified c intent verification =
    if is_confirmed verification intent then confirm c intent verification else pure tt

-- What the webhook does about the intent that it found.
unfoldable pub settle_found : Provider → Confirming → ℕ → Option PaymentIntent → Db ⊤
settle_found provider c reference none = pure tt
settle_found provider c reference (some intent) =
    if is_pending intent.status
    then (lift (provider.verify reference) >>= settle_verified c intent)
    else pure tt

unfoldable pub settle_event : Provider → Confirming → PaymentWebhookEvent → Db ⊤
settle_event provider c event =
    once payment_webhook_idempotency_scope event.provider_reference (
      gets (λ s. find (refers event.provider_reference) s.intents)
      >>= settle_found provider c event.provider_reference)
    >> pure tt

abbrev pub is_charge_success : PaymentWebhookEventType → Bool
is_charge_success charge_success = true
is_charge_success _ = false

unfoldable pub handle : Provider → Confirming → Text → Option Text → Db ⊤
handle provider c raw_body signature = do
  throw_if (not (verify_webhook_signature provider.hmac raw_body signature))
      invalid_webhook_signature
  payload ← lift (provider.parse raw_body)
  let event = parse_webhook_event payload
  if is_charge_success event.type then settle_event provider c event else pure tt

-- The re-read, and the confirmation of an intent that is still pending.
unfoldable pub confirm_fresh : Confirming → PaymentVerificationResult → Option PaymentIntent → Db ⊤
confirm_fresh c v none = pure tt
confirm_fresh c v (some fresh) = if is_pending fresh.status then confirm c fresh v else pure tt

unfoldable pub recover_paid : Confirming → PaymentIntent → ℕ → PaymentVerificationResult → Db ⊤
recover_paid c intent reference v =
    once payment_webhook_idempotency_scope reference
      (gets (λ s. find (has_id intent.id) s.intents) >>= confirm_fresh c v)
    >> pure tt

-- Whether the intent is not to be expired now, by what the provider answers.
unfoldable pub recover_verified :
    Confirming → PaymentIntent → ℕ → Result PaymentVerificationResult → Db Bool
recover_verified c intent reference (err _) = pure true
recover_verified c intent reference (ok v) =
    if is_confirmed v intent then (recover_paid c intent reference v >> pure true) else pure false

unfoldable pub recover_by : Provider → Confirming → PaymentIntent → Option ℕ → Db Bool
recover_by provider c intent none = pure false
recover_by provider c intent (some reference) =
    recover_verified c intent reference (provider.verify reference)

unfoldable pub try_recover : Provider → Confirming → PaymentIntent → Db Bool
try_recover provider c intent = recover_by provider c intent intent.provider_reference

unfoldable pub expire_fresh : Option PaymentIntent → Db ⊤
expire_fresh none = pure tt
expire_fresh (some fresh) =
    if is_pending fresh.status
    then (modify (save_intent (record fresh { status = PaymentIntentStatus.expired }))
        >> on_nodes (release_capacity_slot fresh.origin_node_id))
    else pure tt

unfoldable pub process_stale_intent : Provider → Confirming → PaymentIntent → Db ⊤
process_stale_intent provider c intent = do
  skip_expiry ← try_recover provider c intent
  if skip_expiry
      then pure tt
      else in_transaction (gets (λ s. find (has_id intent.id) s.intents) >>= expire_fresh)

abbrev pub expiry_batch_size : ℕ
expiry_batch_size = 50

abbrev pub is_stale : ℕ → PaymentIntent → Bool
is_stale now i = is_pending i.status && leb i.expires_at now

abbrev pub by_expires_at : PaymentIntent → PaymentIntent → Bool
by_expires_at a b = leb a.expires_at b.expires_at

unfoldable pub process_stale_intents : Provider → Confirming → List PaymentIntent → Db ⊤
process_stale_intents provider c [] = pure tt
process_stale_intents provider c (i ∷ is) =
    process_stale_intent provider c i >> process_stale_intents provider c is

-- One sweep; two sweeps never overlap, so `isPolling` is left out.
unfoldable pub poll : Provider → Confirming → Db ⊤
poll provider c = do
  stale ←
      gets
        (λ s. take expiry_batch_size (sort by_expires_at (where_rows (is_stale c.now) s.intents)))
  process_stale_intents provider c stale
