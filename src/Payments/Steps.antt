-- ===== src/Payments/Steps.antt =====
-- What the payment services may do to the database, as a step relation: it knows nothing of
-- providers, signatures and exceptions.
use locoomo_api.Base.{ℕ, ◌<◌, ◌≡◌, true, false, some, [], ◌∷◌, ◌==◌, any, find, update_where, Row}
use locoomo_api.Orders.{Text, collides}
use locoomo_api.Orders.Code.{generate_tracking_code}
use locoomo_api.Orders.Create.{created}
use locoomo_api.Capacity.{NodeRow, one_more, one_less}
use locoomo_api.Database.{Database, opened, is_key}
use locoomo_api.Payments.{
  PaymentIntent, PaymentIntentStatus, PaymentVerificationResult, FeeBreakdown, is_confirmed,
  order_fields,
}
use locoomo_api.Payments.Intents.{
  CreatePaymentIntentDto, new_intent, save_intent, refer, Confirming, enqueue_email, paid_intent,
  payment_webhook_idempotency_scope,
}
use Prim.Native.Nat.{suc}
use locoomo_api.Base.{◌++◌}

abbrev pub with_key : ℕ → Database → Database
with_key reference s = record s { keys = (payment_webhook_idempotency_scope, reference) ∷ s.keys }

-- A place is taken at the Node, and a pending intent is added.
abbrev pub booked_state : ℕ → ℕ → CreatePaymentIntentDto → FeeBreakdown → Database → Database
booked_state now payer_id dto fee s = record s {
  nodes = update_where (λ n. n.id == dto.origin_node_id) one_more s.nodes;
  intents = s.intents ++ new_intent s.next_intent_id now payer_id dto fee ∷ [];
  next_intent_id = suc s.next_intent_id;
}

-- The intent is paid, its order is placed, and an email is queued.
abbrev pub confirmed_state :
    Confirming → PaymentIntent → PaymentVerificationResult → Text → Database → Database
confirmed_state c i v email s =
    let t = save_intent (paid_intent c.now v i) s in
    enqueue_email c.now email
      (record t { orders = created (order_fields i) (generate_tracking_code (c.draw 1)) s.orders })

-- The intent is expired, and its place is given back.
abbrev pub lapsed_state : PaymentIntent → Database → Database
lapsed_state i s =
    let t = save_intent (record i { status = PaymentIntentStatus.expired }) s in
    record t { nodes = update_where (λ n. n.id == i.origin_node_id) one_less s.nodes }

pub data Change : Database → Database → Type 0 where
  nothing : {s : Database} → Change s (opened s)
  booked :
      {s : Database} (now payer_id : ℕ) (dto : CreatePaymentIntentDto) (fee : FeeBreakdown)
      (node : NodeRow)
      → find (λ n. n.id == dto.origin_node_id) s.nodes ≡ some node
      → node.current_count < node.capacity
      → Change s (opened (booked_state now payer_id dto fee s))
  referred : {s : Database} (id : ℕ) → Change s (refer id s)
  keyed :
      {s : Database} (reference : ℕ)
      → any (is_key payment_webhook_idempotency_scope reference) s.keys ≡ false
      → Change s (opened (with_key reference s))
  -- `seen` is the intent as the provider's answer was compared with it.
  confirmed :
      {s : Database} (c : Confirming) (i seen : PaymentIntent) (v : PaymentVerificationResult)
      (email : Text) (reference : ℕ)
      → any (is_key payment_webhook_idempotency_scope reference) s.keys ≡ false
      → seen.provider_reference ≡ some reference
      → is_confirmed v seen ≡ true
      → Row i s.intents
      → i.id ≡ seen.id
      → i.status ≡ PaymentIntentStatus.pending
      → any (collides (order_fields i) (generate_tracking_code (c.draw 1))) s.orders.orders ≡ false
      → Change s (opened (confirmed_state c i v email (with_key reference s)))
  lapsed :
      {s : Database} (i : PaymentIntent)
      → Row i s.intents
      → i.status ≡ PaymentIntentStatus.pending
      → Change s (opened (lapsed_state i s))

-- Any number of steps.
pub data Changes : Database → Database → Type 0 where
  done : {s : Database} → Changes s s
  next : {s t u : Database} → Change s t → Changes t u → Changes s u

pub Changes-one : {s t : Database} → Change s t → Changes s t
Changes-one c = next c done

pub Changes-trans : {s t u : Database} → Changes s t → Changes t u → Changes s u
Changes-trans done r = r
Changes-trans (next c l) r = next c (Changes-trans l r)
