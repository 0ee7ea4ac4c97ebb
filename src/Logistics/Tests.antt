-- ===== src/Logistics/Tests.antt =====
-- Reports, providers and vehicle rules, and the theorems applied to them.
use locoomo_api.Base.{
  ◌<◌, ℕ, ◌≤◌, ◌≡◌, ◌≢◌, ◌⊎◌, refl, true, false, none, some, List, [], ◌∷◌, Row, length, leb, arith,
}
use locoomo_api.Logistics.Leg.{
  DeliveryLegStatus, DeliveryEventType, EventPath, events_to_reach, requested,
}
use locoomo_api.Logistics.Reach.{replay_events, events_to_reach-shortest}
use locoomo_api.Logistics.Routing.{
  ProviderRoutingConfig, RoutingContext, choose_provider, qualifies,
}
use locoomo_api.Logistics.Serves.{Serves, choose_provider-first}
use locoomo_api.Logistics.Vehicle.{
  VehicleClass, VehicleClassRule, ParcelToCarry, bicycle, car, choose_vehicle_class, carries,
  choose_vehicle_class-smallest,
}

-- A lost webhook: the leg is requested, and the provider reports a delivery.
catches_up :
    events_to_reach requested DeliveryLegStatus.delivered
    ≡ some (
        DeliveryEventType.assigned ∷ DeliveryEventType.picked_up ∷ DeliveryEventType.delivered ∷ [])
unfolding events_to_reach
catches_up = refl

events_to_reach-shortest_example :
    (p : EventPath) × (events_to_reach DeliveryLegStatus.assigned DeliveryLegStatus.returned
      ≡ some p)
    × (((replay_events DeliveryLegStatus.assigned p ≡ some DeliveryLegStatus.returned)
          × ((q : EventPath)
              → replay_events DeliveryLegStatus.assigned q ≡ some DeliveryLegStatus.returned
              → length p ≤ length q))
        ⊎ ((p ≡ [])
            × ((q : EventPath)
                → replay_events DeliveryLegStatus.assigned q ≢ some DeliveryLegStatus.returned)))
events_to_reach-shortest_example =
    events_to_reach-shortest DeliveryLegStatus.assigned DeliveryLegStatus.returned

abbrev serving : ℕ → ℕ → ProviderRoutingConfig ℕ
serving key priority = record {
  key = key;
  enabled = true;
  priority = priority;
  max_attempts = 2;
  min_distance_km = none;
  max_distance_km = some 30;
  pilot_node_ids = some (1 ∷ 2 ∷ []);
  vehicle_classes = 0 ∷ 1 ∷ [];
}

abbrev providers : List (ProviderRoutingConfig ℕ)
providers = serving 5 20 ∷ serving 9 10 ∷ serving 7 10 ∷ []

-- The first choice has used up its attempts.
abbrev third_attempt : RoutingContext ℕ
third_attempt = record {
  origin_node_id = 2;
  distance_km = 12;
  vehicle_class = some 1;
  attempts_by_provider = (7, 2) ∷ [];
}

falls_back : choose_provider leb leb providers (λ key. true) third_attempt ≡ some (serving 9 10)
unfolding choose_provider qualifies
falls_back = refl

choose_provider-first_example :
    ((choose_provider leb leb providers (λ key. true) third_attempt ≡ none)
      × ((q : ProviderRoutingConfig ℕ)
          → Row q providers
          → ¬ Serves leb leb (λ key. true) third_attempt q))
    ⊎ ((c : ProviderRoutingConfig ℕ) × (choose_provider leb leb providers
            (λ key. true)
            third_attempt
          ≡ some c)
        × Row c providers
        × Serves leb leb (λ key. true) third_attempt c
        × ((q : ProviderRoutingConfig ℕ)
            → Row q providers
            → Serves leb leb (λ key. true) third_attempt q
            → (q ≡ c)
              ⊎ ((c.priority < q.priority)
                  ⊎ ((c.priority ≡ q.priority) × (leb c.key q.key ≡ true)))))
choose_provider-first_example =
    choose_provider-first leb leb (λ a b h. ground arith) (λ a b c h k. ground arith) providers
      (λ key. true) third_attempt

abbrev rule : VehicleClass → ℕ → ℕ → VehicleClassRule ℕ
rule class rank limit = record {
  vehicle_class = class;
  rank = rank;
  enabled = true;
  parcel_sizes = 0 ∷ 1 ∷ [];
  max_weight_kg = limit;
  max_longest_side_cm = limit;
}

abbrev rules : List (VehicleClassRule ℕ)
rules = rule car 3 80 ∷ rule bicycle 1 10 ∷ []

abbrev heavy : ParcelToCarry ℕ
heavy = record {
  parcel_size = 1;
  weight_kg = some 12;
  length_cm = some 9;
  width_cm = none;
  height_cm = some 3;
}

choose_vehicle_class-smallest_example :
    ((choose_vehicle_class leb rules heavy ≡ none)
      × ((q : VehicleClassRule ℕ) → Row q rules → carries leb heavy q ≡ false))
    ⊎ ((c : VehicleClassRule ℕ) × (choose_vehicle_class leb rules heavy ≡ some c.vehicle_class)
        × Row c rules
        × (carries leb heavy c ≡ true)
        × ((q : VehicleClassRule ℕ) → Row q rules → carries leb heavy q ≡ true → c.rank ≤ q.rank))
choose_vehicle_class-smallest_example = choose_vehicle_class-smallest leb rules heavy
