-- ===== src/Logistics/Vehicle.antt =====
-- src/modules/logistics/domain/vehicle-selection.ts: the smallest vehicle that a parcel fits. Weights
-- are of any type with a comparison; lengths are whole centimetres.
use locoomo_api.Base.{
  ℕ, ◌≤◌, ◌≡◌, refl, Bool, true, false, ◌&&◌, Option, none, some, List, arith, leb, max, ◌==◌, find,
  any, Row, sort, find-sort, ◌⊎◌, inl, inr, or_else, where_rows, Bool-cases, Row-where_rows,
  where_rows-Row,
}

pub data VehicleClass : Type 0 where
  bicycle motorbike car van truck : VehicleClass

pub record VehicleClassRule (Kg : Type 0) : Type 0 where
  pub vehicle_class : VehicleClass
  pub rank : ℕ
  pub enabled : Bool
  pub parcel_sizes : List ℕ
  pub max_weight_kg : Kg
  pub max_longest_side_cm : ℕ

pub record ParcelToCarry (Kg : Type 0) : Type 0 where
  pub parcel_size : ℕ
  pub weight_kg : Option Kg
  pub length_cm : Option ℕ
  pub width_cm : Option ℕ
  pub height_cm : Option ℕ

abbrev pub class_of : {Kg : Type 0} → Option (VehicleClassRule Kg) → Option VehicleClass
class_of none = none
class_of (some rule) = some rule.vehicle_class

module _ {Kg : Type 0} (kg_leb : Kg → Kg → Bool) where
  abbrev pub by_rank : VehicleClassRule Kg → VehicleClassRule Kg → Bool
  by_rank a b = leb a.rank b.rank

  unfoldable pub longest_side : ParcelToCarry Kg → ℕ
  longest_side parcel =
      max (max (or_else parcel.length_cm 0) (or_else parcel.width_cm 0))
        (or_else parcel.height_cm 0)

  abbrev pub weight_fits : Option Kg → Kg → Bool
  weight_fits none limit = true
  weight_fits (some w) limit = kg_leb w limit

  unfoldable pub fits : ParcelToCarry Kg → VehicleClassRule Kg → Bool
  unfolding longest_side
  fits parcel rule =
      any (λ size. size == parcel.parcel_size) rule.parcel_sizes
      && weight_fits parcel.weight_kg rule.max_weight_kg
      && leb (longest_side parcel) rule.max_longest_side_cm

  unfoldable pub choose_vehicle_class :
      List (VehicleClassRule Kg) → ParcelToCarry Kg → Option VehicleClass
  unfolding fits
  choose_vehicle_class rules parcel =
      class_of (find (fits parcel) (sort by_rank (where_rows (λ rule. rule.enabled) rules)))

  -- A rule that is enabled and that the parcel fits.
  abbrev pub carries : ParcelToCarry Kg → VehicleClassRule Kg → Bool
  carries parcel rule = rule.enabled && fits parcel rule

  -- The class chosen is that of an enabled rule that the parcel fits, and no such rule has a lower
  -- rank; none is chosen only if no enabled rule fits.
  pub choose_vehicle_class-smallest :
      (rules : List (VehicleClassRule Kg)) (parcel : ParcelToCarry Kg)
      → ((choose_vehicle_class rules parcel ≡ none)
          × ((q : VehicleClassRule Kg) → Row q rules → carries parcel q ≡ false))
        ⊎ ((c : VehicleClassRule Kg) × (choose_vehicle_class rules parcel ≡ some c.vehicle_class)
            × Row c rules
            × (carries parcel c ≡ true)
            × ((q : VehicleClassRule Kg) → Row q rules → carries parcel q ≡ true → c.rank ≤ q.rank))
  unfolding choose_vehicle_class
  choose_vehicle_class-smallest rules parcel =
      let enabled = where_rows (λ rule. rule.enabled) rules in
      elim (find-sort by_rank (λ a b h. ground arith) (λ a b c h k. ground arith) (fits parcel)
        enabled) [
          | inl (e, fails) ↦ inl (
            rw e refl,
            λ q r. elim (Bool-cases q.enabled) [
              | inl t ↦
                  let f = fails q (where_rows-Row (λ rule. rule.enabled) rules r t) in
                  rw (t, f) refl
              | inr f ↦ rw f refl
            ],
          )
          | inr (c, e, r, t, low) ↦
              let (w, on) = Row-where_rows (λ rule. rule.enabled) rules r in
              inr (
                c,
                rw e refl,
                w,
                rw (on, t) refl,
                λ q v h.
                    let on' : q.enabled ≡ true = ground (arith, h) in
                    let fit' : fits parcel q ≡ true = ground (arith, h) in
                    elim (low q (where_rows-Row (λ rule. rule.enabled) rules v on') fit') [
                      | inl same ↦ rw same (omega arith)
                      | inr le ↦ ground (arith, le)
                    ],
              )
        ]
