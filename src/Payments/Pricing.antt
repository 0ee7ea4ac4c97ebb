-- ===== src/Payments/Pricing.antt =====
-- src/modules/payments/domain/vehicle-pricing.ts, application/pricing.service.ts and
-- application/delivery-quote.service.ts. Distances are floats, of a type `Km`; the float arithmetic
-- of the code, with its Math.round, is an `Arithmetic` that the definitions are given. Minutes are
-- left out.
use locoomo_api.Base.{
  ℕ, ◌+◌, Bool, not, ◌&&◌, Option, none, some, List, [], ◌∷◌, ◌==◌, leb, if◌then◌else◌, find,
}
use locoomo_api.Effect.{
  Result, ok, err, entity_not_found, no_delivery_option, pricing_not_configured,
}
use locoomo_api.Orders.{Text, same_text}
use locoomo_api.Orders.Code.{codes}
use locoomo_api.Payments.{FeeBreakdown, DistanceSource, route, estimate}

pub record VehicleRate : Type 0 where
  pub base_fee_kobo : ℕ
  pub per_km_rate_kobo : ℕ

pub record PricingRule (Km : Type 0) : Type 0 where
  pub id : ℕ
  pub base_fee_kobo : ℕ
  pub per_km_rate_kobo : ℕ
  pub destination_fee_kobo : ℕ
  pub road_distance_factor : Km
  pub vehicle_rates : List (Text × VehicleRate)
  pub effective_from : ℕ

-- `times_tenths k n` is Math.round(n * (k / 10)), `times_km n d` is Math.round(n * d),
-- `hundredths d` is Math.round(d * 100), `kilometres m` is m / 1000.
pub record Arithmetic (Km : Type 0) : Type 0 where
  pub times_tenths : ℕ → ℕ → ℕ
  pub times_km : ℕ → Km → ℕ
  pub hundredths : Km → ℕ
  pub kilometres : ℕ → Km
  pub times : Km → Km → Km

-- VEHICLE_RATE_MULTIPLIERS, in tenths.
abbrev pub vehicle_rate_multipliers : List (Text × ℕ)
vehicle_rate_multipliers =
    (codes "bicycle", 7)
    ∷ (codes "motorbike", 10)
    ∷ (codes "car", 24)
    ∷ (codes "van", 50)
    ∷ (codes "truck", 80)
    ∷ []

-- `record[name]`
abbrev pub look_up : {A : Type 0} → Text → List (Text × A) → Option A
look_up name [] = none
look_up name ((k, a) ∷ rest) = if same_text k name then some a else look_up name rest

abbrev pub multiplier_of : Option ℕ → ℕ
multiplier_of none = 10
multiplier_of (some m) = m

-- The greatest `effective_from` among the rules that are in force.
abbrev pub later_rule : {Km : Type 0} → PricingRule Km → Option (PricingRule Km) → PricingRule Km
later_rule a none = a
later_rule a (some b) = if leb b.effective_from a.effective_from then a else b

pub record QuoteNode : Type 0 where
  pub id : ℕ
  pub is_active : Bool
  pub is_publicly_visible : Bool

abbrev pub if_active : Option QuoteNode → Option QuoteNode
if_active none = none
if_active (some node) = if node.is_active then some node else none

-- `nodesService.findOne(id, false)`, which throws where this is `none`.
abbrev pub find_node : ℕ → List QuoteNode → Option QuoteNode
find_node id nodes = if_active (find (λ n. n.id == id) nodes)

module _ {Km : Type 0} (a : Arithmetic Km) where
  abbrev pub scaled : PricingRule Km → ℕ → VehicleRate
  scaled rule multiplier = record {
    base_fee_kobo = a.times_tenths multiplier rule.base_fee_kobo;
    per_km_rate_kobo = a.times_tenths multiplier rule.per_km_rate_kobo;
  }

  unfoldable pub rate_for : PricingRule Km → Text → VehicleRate
  rate_for rule vehicle_class = elim (look_up vehicle_class rule.vehicle_rates) [
    | some rate ↦ rate
    | none ↦ scaled rule (multiplier_of (look_up vehicle_class vehicle_rate_multipliers))
  ]

  abbrev pub delivery_fee_kobo : VehicleRate → Km → ℕ
  delivery_fee_kobo rate distance = rate.base_fee_kobo + a.times_km rate.per_km_rate_kobo distance

  unfoldable pub current_pricing_rule : ℕ → List (PricingRule Km) → Option (PricingRule Km)
  current_pricing_rule now [] = none
  current_pricing_rule now (r ∷ rs) =
      let rest = current_pricing_rule now rs in
      if leb r.effective_from now then some (later_rule r rest) else rest

  abbrev pub road_km : Option ℕ → Km → Km → Km
  road_km none straight factor = a.times straight factor
  road_km (some metres) straight factor = a.kilometres metres

  abbrev pub source_of : Option ℕ → DistanceSource
  source_of none = estimate
  source_of (some _) = route

  abbrev pub priced : PricingRule Km → Km → Option ℕ → Text → FeeBreakdown
  priced rule straight measured vehicle_class =
      let distance = road_km measured straight rule.road_distance_factor in
      let rate = rate_for rule vehicle_class in
      record {
        pricing_rule_id = rule.id;
        vehicle_class = vehicle_class;
        base_fee_kobo = rate.base_fee_kobo;
        per_km_rate_kobo = rate.per_km_rate_kobo;
        distance_km = a.hundredths distance;
        distance_source = source_of measured;
        straight_line_km = a.hundredths straight;
        delivery_fee_kobo = delivery_fee_kobo rate distance;
        destination_fee_kobo = rule.destination_fee_kobo;
        total_kobo = delivery_fee_kobo rate distance + rule.destination_fee_kobo;
      }

  -- `measured` is the road distance of the two Nodes in metres, where one is known.
  unfoldable pub calculate_fee :
      ℕ → List (PricingRule Km) → Km → Option ℕ → Text → Result FeeBreakdown
  calculate_fee now rules straight measured vehicle_class = elim (current_pricing_rule now rules) [
    | none ↦ err pricing_not_configured
    | some rule ↦ ok (priced rule straight measured vehicle_class)
  ]

  -- `vehicle` is the class chosen for the parcel; `servable` says whether a courier serves it. The
  -- distances are those that PostGIS and `roadDistanceKm` answer.
  unfoldable pub quote :
      ℕ
      → List (PricingRule Km)
      → List QuoteNode
      → (QuoteNode → QuoteNode → Km)
      → (ℕ → ℕ → Option ℕ)
      → Option Text
      → (ℕ → Km → Text → Bool)
      → Bool
      → ℕ
      → ℕ
      → Result FeeBreakdown
  quote now rules nodes straight_km measured vehicle servable public_only origin_id destination_id =
      elim (find_node origin_id nodes) [
        | none ↦ err entity_not_found
        | some origin ↦ elim (find_node destination_id nodes) [
          | none ↦ err entity_not_found
          | some destination ↦
              if public_only && not (origin.is_publicly_visible && destination.is_publicly_visible)
              then err entity_not_found
              else elim vehicle [
                | none ↦ err no_delivery_option
                | some vehicle_class ↦
                    let straight = straight_km origin destination in
                    if servable origin.id straight vehicle_class
                    then calculate_fee now rules straight (measured origin.id destination.id)
                        vehicle_class
                    else err no_delivery_option
              ]
        ]
      ]
