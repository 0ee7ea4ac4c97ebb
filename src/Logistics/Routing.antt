-- ===== src/Logistics/Routing.antt =====
-- src/modules/logistics/domain/routing.ts: which courier gets a leg. The numbers of kilometres are
-- of any type with a comparison, and keys are compared by the platform's `localeCompare`, a
-- parameter too: `locale_leb a b` is `a.localeCompare(b) <= 0`. `maxCostShare`, which chooseProvider
-- does not read, is left out.
use locoomo_api.Base.{
  ℕ, Bool, true, ◌&&◌, ◌||◌, Option, none, some, List, [], ◌∷◌, ltb, ◌==◌, if◌then◌else◌, find, any,
  sort, or_else,
}

pub record ProviderRoutingConfig (Km : Type 0) : Type 0 where
  pub key : ℕ
  pub enabled : Bool
  pub priority : ℕ
  pub max_attempts : ℕ
  pub min_distance_km : Option Km
  pub max_distance_km : Option Km
  pub pilot_node_ids : Option (List ℕ)
  pub vehicle_classes : List ℕ

pub record RoutingContext (Km : Type 0) : Type 0 where
  pub origin_node_id : ℕ
  pub distance_km : Km
  pub vehicle_class : Option ℕ
  pub attempts_by_provider : List (ℕ × ℕ)

-- `record[key]`
abbrev pub attempts_at : List (ℕ × ℕ) → ℕ → Option ℕ
attempts_at [] key = none
attempts_at ((k, n) ∷ rest) key = if k == key then some n else attempts_at rest key

-- `!ids?.length || ids.includes(id)`
abbrev pub open_to : Option (List ℕ) → ℕ → Bool
open_to none id = true
open_to (some []) id = true
open_to (some (x ∷ xs)) id = any (λ y. y == id) (x ∷ xs)

-- `wanted === null || offered.includes(wanted)`
abbrev pub offers : Option ℕ → List ℕ → Bool
offers none offered = true
offers (some wanted) offered = any (λ y. y == wanted) offered

module _ {Km : Type 0} (km_leb : Km → Km → Bool) (locale_leb : ℕ → ℕ → Bool) where
  abbrev pub in_priority_order : ProviderRoutingConfig Km → ProviderRoutingConfig Km → Bool
  in_priority_order a b =
      ltb a.priority b.priority || (a.priority == b.priority && locale_leb a.key b.key)

  abbrev pub at_least : Option Km → Km → Bool
  at_least none d = true
  at_least (some low) d = km_leb low d

  abbrev pub at_most : Option Km → Km → Bool
  at_most none d = true
  at_most (some high) d = km_leb d high

  unfoldable pub qualifies : (ℕ → Bool) → RoutingContext Km → ProviderRoutingConfig Km → Bool
  qualifies is_registered context config =
      config.enabled
      && is_registered config.key
      && ltb (or_else (attempts_at context.attempts_by_provider config.key) 0) config.max_attempts
      && open_to config.pilot_node_ids context.origin_node_id
      && offers context.vehicle_class config.vehicle_classes
      && at_least config.min_distance_km context.distance_km
      && at_most config.max_distance_km context.distance_km

  unfoldable pub choose_provider :
      List (ProviderRoutingConfig Km)
      → (ℕ → Bool)
      → RoutingContext Km
      → Option (ProviderRoutingConfig Km)
  choose_provider configs is_registered context =
      find (qualifies is_registered context) (sort in_priority_order configs)
