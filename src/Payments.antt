-- ===== src/Payments.antt =====
-- src/modules/payments: the rows of payment_intents, and what a payment provider answers
-- (domain/ports/payment-provider.port.ts). The HTTP calls to Paystack are left out; what they
-- bring back is an argument of the services. References and ids are only compared, so they are
-- numbers; 0 stands for the empty text.
pub mod Booking
pub mod Pricing
pub mod Quote
pub mod Intents
pub mod Steps
pub mod Refines
pub mod Run
pub mod Settled
pub mod Slots
pub mod Again
mod Tests
use locoomo_api.Base.{
  ℕ, Bool, true, false, ◌&&◌, Option, none, some, List, [], ◌∷◌, ◌==◌, if◌then◌else◌, or_else,
}
use locoomo_api.Effect.{Result}
use locoomo_api.Orders.{Text, ParcelSize, CreateOrderFields, same_text}
use locoomo_api.Orders.Code.{codes}

pub data PaymentIntentStatus : Type 0 where
  pending paid failed expired : PaymentIntentStatus

pub data DistanceSource : Type 0 where
  route estimate : DistanceSource

-- Distances are in hundredths of a kilometre, as they are rounded.
pub record FeeBreakdown : Type 0 where
  pub pricing_rule_id : ℕ
  pub vehicle_class : Text
  pub base_fee_kobo : ℕ
  pub per_km_rate_kobo : ℕ
  pub distance_km : ℕ
  pub distance_source : DistanceSource
  pub straight_line_km : ℕ
  pub delivery_fee_kobo : ℕ
  pub destination_fee_kobo : ℕ
  pub total_kobo : ℕ

-- There is one provider, so the `provider` column is left out.
pub record PaymentIntent : Type 0 where
  pub id : ℕ
  pub consumer_id : ℕ
  pub origin_node_id : ℕ
  pub destination_node_id : ℕ
  pub receiver_full_name : Text
  pub receiver_email : Text
  pub receiver_phone : Text
  pub parcel_description : Text
  pub parcel_size : ParcelSize
  pub weight_kg : Option ℕ
  pub length_cm : Option ℕ
  pub width_cm : Option ℕ
  pub height_cm : Option ℕ
  pub handling : List Text
  pub vehicle_class : Option Text
  pub fee_breakdown : FeeBreakdown
  pub amount_kobo : ℕ
  pub status : PaymentIntentStatus
  pub provider_reference : Option ℕ
  pub expires_at : ℕ
  pub paid_at : Option ℕ

abbrev pub is_pending : PaymentIntentStatus → Bool
is_pending pending = true
is_pending _ = false

abbrev pub is_paid : PaymentIntentStatus → Bool
is_paid paid = true
is_paid _ = false

-- The fields of `createFromPaidIntent`.
abbrev pub order_fields : PaymentIntent → CreateOrderFields
order_fields i = record {
  payment_intent_id = i.id;
  consumer_id = i.consumer_id;
  origin_node_id = i.origin_node_id;
  destination_node_id = i.destination_node_id;
  receiver_full_name = i.receiver_full_name;
  receiver_email = i.receiver_email;
  receiver_phone = i.receiver_phone;
  parcel_description = i.parcel_description;
  parcel_size = i.parcel_size;
  weight_kg = i.weight_kg;
  length_cm = i.length_cm;
  width_cm = i.width_cm;
  height_cm = i.height_cm;
  handling = i.handling;
  vehicle_class = i.vehicle_class;
  amount_kobo = i.amount_kobo;
  destination_fee_kobo = i.fee_breakdown.destination_fee_kobo;
}

pub data PaymentVerificationStatus : Type 0 where
  success failed pending : PaymentVerificationStatus

-- The currency and the reference that come back are not read.
pub record PaymentVerificationResult : Type 0 where
  pub status : PaymentVerificationStatus
  pub amount_kobo : ℕ
  pub paid_at : Option ℕ

abbrev pub is_success : PaymentVerificationStatus → Bool
is_success success = true
is_success _ = false

-- The test before a payment is believed, in the webhook and in the sweep.
abbrev pub is_confirmed : PaymentVerificationResult → PaymentIntent → Bool
is_confirmed v i = is_success v.status && v.amount_kobo == i.amount_kobo

pub data PaymentWebhookEventType : Type 0 where
  charge_success charge_failed unknown : PaymentWebhookEventType

pub record PaymentWebhookEvent : Type 0 where
  pub type : PaymentWebhookEventType
  pub provider_reference : ℕ

-- What `JSON.parse` makes of the body: `payload.event` and `payload.data?.reference`.
pub record WebhookPayload : Type 0 where
  pub event : Option Text
  pub reference : Option ℕ

-- `payload.event === name`
abbrev names : Option Text → Text → Bool
names none name = false
names (some t) name = same_text t name

unfoldable pub parse_webhook_event : WebhookPayload → PaymentWebhookEvent
parse_webhook_event payload = record {
  type =
      if names payload.event (codes "charge.success")
      then charge_success
      else if names payload.event (codes "charge.failed")
      then charge_failed
      else unknown;
  provider_reference = or_else payload.reference 0;
}

-- `hmac` is the HMAC-SHA512 under the secret key, in hexadecimal.
unfoldable pub verify_webhook_signature : (Text → Text) → Text → Option Text → Bool
verify_webhook_signature hmac raw_body none = false
verify_webhook_signature hmac raw_body (some []) = false
verify_webhook_signature hmac raw_body (some (c ∷ signature)) =
    same_text (hmac raw_body) (c ∷ signature)

-- Paystack as seen by the services, during one call: `parse` is JSON.parse, which may throw.
pub record Provider : Type 0 where
  pub hmac : Text → Text
  pub parse : Text → Result WebhookPayload
  pub verify : ℕ → Result PaymentVerificationResult
