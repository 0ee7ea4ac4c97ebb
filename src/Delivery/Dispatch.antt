-- ===== src/Delivery/Dispatch.antt =====
-- src/modules/logistics/application/delivery-dispatch.service.ts, logistics-router.service.ts and
-- the in-house provider. Row locks are left out, since a transaction is one step; so are the request
-- sent to a courier, road distances and the amounts held in a prepaid wallet.
use locoomo_api.Base.{
  ⊤, ℕ, suc, ◌+◌, Bool, ◌&&◌, Option, none, some, List, [], ◌∷◌, ◌++◌, ◌==◌, any, find, is_none,
  take, where_rows, count_where, update_where, if◌then◌else◌,
}
use locoomo_api.Effect.{
  ok, err, pure, throw, gets, or_throw, ◌>>=◌, ◌>>◌, modify, type_error, unique_violation,
  transaction_aborted, provider_unavailable,
}
use locoomo_api.Orders.{Text}
use locoomo_api.Outbox.{enqueue}
use locoomo_api.Logistics.Leg.{DeliveryLegStatus, same_leg_status, requested}
use locoomo_api.Logistics.Routing.{ProviderRoutingConfig, RoutingContext, choose_provider}
use locoomo_api.Database.{Database, Db, poisoned, in_transaction}
use locoomo_api.Delivery.{DeliveryLeg, DeliveryLegType, same_leg_type, new_leg, is_active_for}

abbrev pub has_id : ℕ → DeliveryLeg → Bool
has_id id leg = leg.id == id

-- `repo.save(leg)` of a leg that is in the table.
abbrev pub save_leg : DeliveryLeg → Database → Database
save_leg leg s = record s { legs = update_where (has_id leg.id) (λ _. leg) s.legs }

-- INSERT INTO delivery_legs of an active leg, under IDX_delivery_legs_one_active.
unfoldable pub insert_leg : (ℕ → DeliveryLeg) → Db DeliveryLeg
insert_leg make s =
    let leg = make s.next_leg_id in
    if s.orders.aborted
    then (err transaction_aborted, s)
    else if any (is_active_for leg.order_id) s.legs
    then (err unique_violation, poisoned s)
    else (ok leg, record s { legs = s.legs ++ leg ∷ []; next_leg_id = suc s.next_leg_id })

-- The couriers: the rows of logistics_providers with what their adapters can do, and how kilometres
-- and keys are compared. `number_of` numbers the vehicle classes.
pub record Couriers (Km : Type 0) : Type 0 where
  pub configs : List (ProviderRoutingConfig Km)
  pub is_registered : ℕ → Bool
  pub is_remote : ℕ → Bool
  pub km_leb : Km → Km → Bool
  pub locale_leb : ℕ → ℕ → Bool
  pub distance_km : ℕ → ℕ → Km
  pub number_of : Text → ℕ

-- `GROUP BY "providerKey"`
abbrev pub count_one : ℕ → List (ℕ × ℕ) → List (ℕ × ℕ)
count_one key [] = (key, 1) ∷ []
count_one key ((k, n) ∷ rest) =
    let others = count_one key rest in if k == key then (k, suc n) ∷ rest else (k, n) ∷ others

abbrev pub count_by_provider : List DeliveryLeg → List (ℕ × ℕ)
count_by_provider [] = []
count_by_provider (leg ∷ legs) = count_one leg.provider_key (count_by_provider legs)

abbrev pub sum_counts : List (ℕ × ℕ) → ℕ
sum_counts [] = 0
sum_counts ((_, n) ∷ rest) = n + sum_counts rest

abbrev pub is_leg_of : ℕ → DeliveryLegType → DeliveryLeg → Bool
is_leg_of order_id leg_type leg = leg.order_id == order_id && same_leg_type leg.leg_type leg_type

-- A provider's key, and the number of the attempt.
abbrev pub RoutingChoice : Type 0
RoutingChoice = ℕ × ℕ

abbrev pub key_of : {A B : Type 0} → (A → B) → Option A → Option B
key_of f none = none
key_of f (some a) = some (f a)

abbrev pub submit_delivery_event_type : ℕ
submit_delivery_event_type = 1

module _ {Km : Type 0} (w : Couriers Km) where
  unfoldable pub choose : ℕ → DeliveryLegType → Db (Option RoutingChoice)
  choose order_id leg_type = do
    found ← gets (λ s. find (λ o. o.id == order_id) s.orders.orders)
    order ← or_throw found type_error
    attempts ← gets (λ s. count_by_provider (where_rows (is_leg_of order_id leg_type) s.legs))
    let context : RoutingContext Km = record {
      origin_node_id = order.placed.origin_node_id;
      distance_km = w.distance_km order.placed.origin_node_id order.placed.destination_node_id;
      vehicle_class = key_of w.number_of order.placed.vehicle_class;
      attempts_by_provider = attempts;
    }
    pure (
        key_of (λ c. (c.key, sum_counts attempts + 1))
          (choose_provider w.km_leb w.locale_leb w.configs w.is_registered context))

  unfoldable pub forced_choice : ℕ → DeliveryLegType → ℕ → Db (Option RoutingChoice)
  forced_choice order_id leg_type key =
      if w.is_registered key
      then gets (λ s. some (key, count_where (is_leg_of order_id leg_type) s.legs + 1))
      else pure none

  abbrev pub choice_for : ℕ → DeliveryLegType → Option ℕ → Db (Option RoutingChoice)
  choice_for order_id leg_type none = choose order_id leg_type
  choice_for order_id leg_type (some key) = forced_choice order_id leg_type key

  -- The leg is submitted through the outbox, or handed to the in-house pool, whose `createDelivery`
  -- answers that it has no id and no status of its own.
  unfoldable pub hand_over : ℕ → DeliveryLeg → Db ⊤
  hand_over now leg =
      if w.is_remote leg.provider_key
      then modify
          (λ s. record s { outbox = enqueue now submit_delivery_event_type (leg.id ∷ []) s.outbox })
      else modify (save_leg (record leg { external_id = none; provider_status = none }))

  unfoldable pub start_leg :
      ℕ → ℕ → DeliveryLegType → Option RoutingChoice → Db (Option DeliveryLeg)
  start_leg now order_id leg_type none = pure none
  start_leg now order_id leg_type (some (key, attempt_number)) = do
    found ← gets (λ s. find (λ o. o.id == order_id) s.orders.orders)
    order ← or_throw found type_error
    leg ← insert_leg (λ id.
        new_leg id order_id leg_type key requested attempt_number order.placed.vehicle_class none)
    hand_over now leg
    pure (some leg)

  unfoldable pub dispatch_if_none :
      ℕ → ℕ → DeliveryLegType → Option ℕ → Option DeliveryLeg → Db (Option DeliveryLeg)
  dispatch_if_none now order_id leg_type forced (some active) = pure (some active)
  dispatch_if_none now order_id leg_type forced none =
      choice_for order_id leg_type forced >>= start_leg now order_id leg_type

  unfoldable pub dispatch : ℕ → ℕ → DeliveryLegType → Option ℕ → Db (Option DeliveryLeg)
  dispatch now order_id leg_type forced = do
    active ← gets (λ s. find (is_active_for order_id) s.legs)
    dispatch_if_none now order_id leg_type forced active

-- What a remote provider answers to a request: the id, status, quote, tracking link and minutes of
-- the delivery, or a refusal for good with its message.
pub data Submitted : Type 0 where
  accepted : Option ℕ → Option Text → Option ℕ → Option Text → Option ℕ → Submitted
  rejected : Text → Submitted
  unavailable : Submitted

abbrev pub cancelled_leg : ℕ → Text → DeliveryLeg → DeliveryLeg
cancelled_leg now reason leg = record leg {
  status = DeliveryLegStatus.cancelled;
  failure_reason = some reason;
  ended_at = some now;
}

abbrev pub update_leg : ℕ → (DeliveryLeg → DeliveryLeg) → Database → Database
update_leg id f s = record s { legs = update_where (has_id id) f s.legs }

-- `!leg || leg.status !== REQUESTED || leg.externalId`, turned around.
abbrev pub awaits_submission : DeliveryLeg → Bool
awaits_submission leg = same_leg_status leg.status requested && is_none leg.external_id

module _ {Km : Type 0} (w : Couriers Km) where
  unfoldable pub record_answer : ℕ → DeliveryLeg → Submitted → Db ⊤
  record_answer now leg
        (accepted external_id provider_status quoted_kobo tracking_url eta_minutes) =
      modify (
        update_leg leg.id (λ l. record l {
          external_id = external_id;
          provider_status = provider_status;
          quoted_kobo = quoted_kobo;
          tracking_url = tracking_url;
          eta_minutes = eta_minutes;
        }))
  record_answer now leg (rejected reason) = in_transaction (do
    modify (update_leg leg.id (cancelled_leg now (take 500 reason)))
    dispatch w now leg.order_id leg.leg_type none
    pure tt)
  record_answer now leg unavailable = throw provider_unavailable

  unfoldable pub submit_found : ℕ → (DeliveryLeg → Submitted) → Option DeliveryLeg → Db ⊤
  submit_found now answer none = pure tt
  submit_found now answer (some leg) =
      if awaits_submission leg then record_answer now leg (answer leg) else pure tt

  -- The outbox handler; `answer` is the provider's.
  unfoldable pub submit : ℕ → (DeliveryLeg → Submitted) → ℕ → Db ⊤
  submit now answer leg_id = gets (λ s. find (has_id leg_id) s.legs) >>= submit_found now answer
