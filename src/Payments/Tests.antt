-- ===== src/Payments/Tests.antt =====
-- Checkouts at one Node, their payments, and the theorems applied to them.
use locoomo_api.Base.{
  ℕ, ◌+◌, ◌*◌, ◌≡◌, ◌↔◌, refl, true, false, none, some, List, [], ◌∷◌, find, Row, here, there,
  count_where,
}
use locoomo_api.Effect.{ok}
use locoomo_api.Orders.{
  Order, small, create_from_paid_intent, save_with_tracking_code, insert_order, append_event,
}
use locoomo_api.Orders.Code.{codes}
use locoomo_api.Capacity.{NodeRow, reserve_capacity_slot}
use locoomo_api.Outbox.{enqueue}
use locoomo_api.Database.{Database, with_idempotency}
use locoomo_api.Payments.{
  PaymentIntent, PaymentIntentStatus, PaymentVerificationStatus, PaymentVerificationResult,
  FeeBreakdown, DistanceSource, Provider, PaymentWebhookEvent, charge_success, order_fields,
  parse_webhook_event, verify_webhook_signature,
}
use locoomo_api.Payments.Pricing.{
  Arithmetic, PricingRule, QuoteNode, quote, priced, calculate_fee, current_pricing_rule,
}
use locoomo_api.Payments.Quote.{IsServed, quote-priced}
use locoomo_api.Payments.Intents.{
  CreatePaymentIntentDto, Confirming, settle_event, settle_found, settle_verified, confirm, refers,
  process_stale_intent, handle, create, book,
}
use locoomo_api.Payments.Steps.{Changes}
use locoomo_api.Payments.Run.{Call, checkout, webhook, after, run, after-Changes}
use locoomo_api.Payments.Settled.{Sound, paid-order}
use locoomo_api.Payments.Slots.{IsCounted, holds, slots-held}
use locoomo_api.Payments.Again.{settle_event-again, mismatch-stuck}

abbrev fee : FeeBreakdown
fee = record {
  pricing_rule_id = 1;
  vehicle_class = codes "motorbike";
  base_fee_kobo = 110000;
  per_km_rate_kobo = 32000;
  distance_km = 500;
  distance_source = DistanceSource.estimate;
  straight_line_km = 357;
  delivery_fee_kobo = 270000;
  destination_fee_kobo = 20000;
  total_kobo = 290000;
}

abbrev dto : CreatePaymentIntentDto
dto = record {
  origin_node_id = 1;
  destination_node_id = 2;
  receiver_full_name = [];
  receiver_email = [];
  receiver_phone = [];
  parcel_description = [];
  parcel_size = small;
  weight_kg = none;
  length_cm = none;
  width_cm = none;
  height_cm = none;
  handling = [];
}

abbrev empty_database : Database
empty_database = record {
  orders = record { orders = []; order_events = []; next_id = 0; aborted = false };
  nodes = record { id = 1; capacity = 5; current_count = 2 } ∷ [];
  riders = [];
  codes = record { handoff_codes = []; next_id = 0; counted = [] };
  earnings = record { rules = []; entries = []; next_id = 0 };
  outbox = record { outbox_events = []; next_id = 0 };
  keys = [];
  intents = [];
  next_intent_id = 1;
  legs = [];
  next_leg_id = 1;
}

abbrev empty-Sound : Sound empty_database
empty-Sound = record {
  distinct = tt;
  below = λ i r. elim r [ ];
  order_of = λ o r. elim r [ ];
  paid_of = λ i r. elim r [ ];
  single = tt;
}

abbrev answers : PaymentVerificationStatus → ℕ → Provider
answers status amount = record {
  hmac = λ body. body;
  parse = λ body. ok (record { event = some (codes "charge.success"); reference = some 1 });
  verify = λ reference. ok (record { status = status; amount_kobo = amount; paid_at = none });
}

abbrev at_noon : Confirming
at_noon = record { draw = λ attempt i. 3; now = 43200000; email = λ i o. ok [] }

abbrev checked_out : Call
checked_out = checkout 43000000 (ok fee) (λ i. ok []) 7 dto

abbrev paid_for : Call
paid_for =
    webhook (answers PaymentVerificationStatus.success 290000) at_noon (codes "body")
      (some (codes "body"))

abbrev calls : List Call
calls = paid_for ∷ checked_out ∷ []

after-Changes_example :
    Changes (after checked_out empty_database) (after paid_for (after checked_out empty_database))
after-Changes_example = after-Changes paid_for (after checked_out empty_database)

abbrev the_intent : PaymentIntent
the_intent = record {
  id = 1;
  consumer_id = 7;
  origin_node_id = 1;
  destination_node_id = 2;
  receiver_full_name = [];
  receiver_email = [];
  receiver_phone = [];
  parcel_description = [];
  parcel_size = small;
  weight_kg = none;
  length_cm = none;
  width_cm = none;
  height_cm = none;
  handling = [];
  vehicle_class = some (codes "motorbike");
  fee_breakdown = fee;
  amount_kobo = 290000;
  status = PaymentIntentStatus.pending;
  provider_reference = some 1;
  expires_at = 43900000;
  paid_at = none;
}

abbrev with_intent : Database
with_intent = record empty_database {
  nodes = record { id = 1; capacity = 5; current_count = 3 } ∷ [];
  intents = the_intent ∷ [];
  next_intent_id = 2;
}

checked_out_run : after checked_out empty_database ≡ with_intent
unfolding after create book reserve_capacity_slot
checked_out_run = refl

abbrev event : PaymentWebhookEvent
event = record { type = charge_success; provider_reference = 1 }

settled_run :
    (settle_event (answers PaymentVerificationStatus.success 290000) at_noon event with_intent).0
    ≡ ok tt
unfolding settle_event settle_found settle_verified confirm with_idempotency create_from_paid_intent
    enqueue save_with_tracking_code insert_order append_event
settled_run = refl

abbrev paid_intent : PaymentIntent
paid_intent = record the_intent { status = PaymentIntentStatus.paid; paid_at = some 43200000 }

paid_intent-Row : Row paid_intent (run calls empty_database).intents
unfolding run after create book reserve_capacity_slot handle verify_webhook_signature
    parse_webhook_event settle_event settle_found settle_verified confirm with_idempotency
    create_from_paid_intent enqueue save_with_tracking_code insert_order append_event
paid_intent-Row = here refl

paid-order_example :
    ((paid_intent.status ≡ PaymentIntentStatus.paid) ↔ (
      (o : Order) × Row o (run calls empty_database).orders.orders
      × (o.placed ≡ order_fields paid_intent)))
    × ((o p : Order)
        → Row o (run calls empty_database).orders.orders
        → Row p (run calls empty_database).orders.orders
        → o.placed.payment_intent_id ≡ p.placed.payment_intent_id
        → o ≡ p)
paid-order_example = paid-order calls empty_database empty-Sound paid_intent paid_intent-Row

abbrev counter : NodeRow
counter = record { id = 1; capacity = 5; current_count = 3 }

counter-Row : Row counter (run calls empty_database).nodes
unfolding run after create book reserve_capacity_slot handle verify_webhook_signature
    parse_webhook_event settle_event settle_found settle_verified confirm with_idempotency
    create_from_paid_intent enqueue save_with_tracking_code insert_order append_event
counter-Row = here refl

-- Two places were taken before.
two_before : IsCounted (λ id. 2) [] empty_database.nodes
two_before n (here e) = rw e refl
two_before n (there r) = elim r [ ]

slots-held_example : 3 ≡ 2 + count_where (holds 1) (run calls empty_database).intents
slots-held_example =
    slots-held (λ id. 2) calls empty_database empty-Sound two_before counter counter-Row

settle_event-again_example :
    settle_event (answers PaymentVerificationStatus.failed 0) at_noon event (
      (settle_event (answers PaymentVerificationStatus.success 290000) at_noon event with_intent).1)
    ≡ (
      ok tt,
      (settle_event (answers PaymentVerificationStatus.success 290000) at_noon event with_intent).1,
    )
settle_event-again_example =
    settle_event-again (answers PaymentVerificationStatus.success 290000) at_noon event with_intent
      refl settled_run (answers PaymentVerificationStatus.failed 0) at_noon

abbrev saying : PaymentVerificationStatus → PaymentVerificationResult
saying status = record { status = status; amount_kobo = 290000; paid_at = none }

mismatch-stuck_example :
    let p = answers PaymentVerificationStatus.pending 290000 in
    let q = answers PaymentVerificationStatus.success 290000 in
    let t = (settle_event p at_noon event with_intent).1 in
    (find (refers 1) t.intents ≡ some the_intent)
    × (settle_event q at_noon event t ≡ (ok tt, t))
    × (process_stale_intent q at_noon the_intent t ≡ (ok tt, t))
mismatch-stuck_example =
    mismatch-stuck (answers PaymentVerificationStatus.pending 290000) at_noon 1 the_intent
      (saying PaymentVerificationStatus.pending) with_intent refl refl refl refl refl refl
      (answers PaymentVerificationStatus.success 290000) at_noon
      (saying PaymentVerificationStatus.success) refl refl

-- Kilometres as whole metres.
abbrev whole_metres : Arithmetic ℕ
whole_metres = record {
  times_tenths = λ k n. n * k;
  times_km = λ n d. n * d;
  hundredths = λ d. d;
  kilometres = λ m. m;
  times = λ a b. a * b;
}

abbrev rule : PricingRule ℕ
rule = record {
  id = 1;
  base_fee_kobo = 110;
  per_km_rate_kobo = 32;
  destination_fee_kobo = 20;
  road_distance_factor = 2;
  vehicle_rates = [];
  effective_from = 5;
}

abbrev node_of : ℕ → QuoteNode
node_of id = record { id = id; is_active = true; is_publicly_visible = true }

abbrev nodes : List QuoteNode
nodes = node_of 1 ∷ node_of 2 ∷ []

quoted :
    quote whole_metres 9
      (rule ∷ [])
      nodes
      (λ o d. 3)
      (λ o d. none)
      (some [])
      (λ o d c. true)
      true
      1
      2
    ≡ ok (priced whole_metres rule 3 none [])
unfolding quote calculate_fee current_pricing_rule
quoted = refl

quote-priced_example :
    IsServed whole_metres 9
      (rule ∷ [])
      nodes
      (λ o d. 3)
      (λ o d. none)
      (some [])
      (λ o d c. true)
      true
      1
      2
      (priced whole_metres rule 3 none [])
    × ((priced whole_metres rule 3 none []).total_kobo
        ≡ (priced whole_metres rule 3 none []).delivery_fee_kobo
          + (priced whole_metres rule 3 none []).destination_fee_kobo)
quote-priced_example =
    quote-priced whole_metres 9 (rule ∷ []) nodes (λ o d. 3) (λ o d. none) (some []) (λ o d c. true)
      true 1 2 (priced whole_metres rule 3 none []) quoted
