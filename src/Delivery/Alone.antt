-- ===== src/Delivery/Alone.antt =====
-- Dispatching a leg writes no order.
use locoomo_api.Base.{
  ℕ, ◌≡◌, refl, sym, ap, ◌∙◌, Option, none, some, ◌==◌, find, inl, inr, Bool-cases, Option-cases,
  arith,
}
use locoomo_api.Effect.{pure, ◌>>=◌, ◌>>◌, run-cases, >>=_ok, >>=_err}
use locoomo_api.Logistics.Leg.{requested}
use locoomo_api.Database.{Database, Db}
use locoomo_api.Delivery.{DeliveryLeg, DeliveryLegType, new_leg}
use locoomo_api.Delivery.Dispatch.{
  Couriers, insert_leg, choose, forced_choice, choice_for, hand_over, start_leg, dispatch_if_none,
  dispatch, RoutingChoice,
}

-- The status after each event, and the ones before it.
-- The calls that leave the rows of orders alone.
abbrev pub IsAlone : {A : Type 0} → Db A → Type 0
IsAlone m = (s : Database) → (m s).1.orders.orders ≡ s.orders.orders

pub >>=-IsAlone :
    {A B : Type 0} (m : Db A) (f : A → Db B)
    → IsAlone m
    → ((a : A) → IsAlone (f a))
    → IsAlone (m >>= f)
>>=-IsAlone m f h k s = elim (run-cases (m s)) [
  | inl (e, t, ran) ↦
      ap (λ o. o.1.orders.orders) (>>=_err m f s ran) ∙ sym (ap (λ o. o.1.orders.orders) ran) ∙ h s
  | inr (a, t, ran) ↦
      ap (λ o. o.1.orders.orders) (>>=_ok m f s ran)
      ∙ k a t
      ∙ sym (ap (λ o. o.1.orders.orders) ran)
      ∙ h s
]

insert_leg-IsAlone : (make : ℕ → DeliveryLeg) → IsAlone (insert_leg make)
unfolding insert_leg
insert_leg-IsAlone make s = ground arith

module _ {Km : Type 0} (w : Couriers Km) where
  hand_over-IsAlone : (now : ℕ) (leg : DeliveryLeg) → IsAlone (hand_over w now leg)
  unfolding hand_over
  hand_over-IsAlone now leg s = elim (Bool-cases (w.is_remote leg.provider_key)) [
    | inl t ↦ rw t refl
    | inr f ↦ rw f refl
  ]

  start_leg-IsAlone :
      (now order_id : ℕ) (type : DeliveryLegType) (choice : Option RoutingChoice)
      → IsAlone (start_leg w now order_id type choice)
  unfolding start_leg
  start_leg-IsAlone now order_id type none = λ s. refl
  start_leg-IsAlone now order_id type (some (key, attempt)) = λ s.
      elim (Option-cases (find (λ o. o.id == order_id) s.orders.orders)) [
        | inl e ↦ rw e refl
        | inr (order, e) ↦
            let make : ℕ → DeliveryLeg = λ id.
              new_leg id order_id type key requested attempt order.placed.vehicle_class none in
            let rest : DeliveryLeg → Db (Option DeliveryLeg) =
              λ leg. hand_over w now leg >> pure (some leg) in
            rw e (
              >>=-IsAlone (insert_leg make) rest (insert_leg-IsAlone make)
                (λ leg.
                  >>=-IsAlone (hand_over w now leg) (λ _. pure (some leg))
                    (hand_over-IsAlone now leg) (λ _ u. refl))
                s)
      ]

  choice_for-IsAlone :
      (order_id : ℕ) (type : DeliveryLegType) (forced : Option ℕ)
      → IsAlone (choice_for w order_id type forced)
  unfolding choose forced_choice
  choice_for-IsAlone order_id type none = λ s.
      elim (Option-cases (find (λ o. o.id == order_id) s.orders.orders)) [
        | inl e ↦ rw e refl
        | inr (o, e) ↦ rw e refl
      ]
  choice_for-IsAlone order_id type (some key) =
      λ s. elim (Bool-cases (w.is_registered key)) [ inl t ↦ rw t refl | inr f ↦ rw f refl ]

  pub dispatch-IsAlone :
      (now order_id : ℕ) (type : DeliveryLegType) (forced : Option ℕ)
      → IsAlone (dispatch w now order_id type forced)
  unfolding dispatch dispatch_if_none
  dispatch-IsAlone now order_id type forced s = go (find _ s.legs)
    where
      go :
          (active : Option DeliveryLeg)
          → (dispatch_if_none w now order_id type forced active s).1.orders.orders ≡ s.orders.orders
      go (some leg) = refl
      go none =
          >>=-IsAlone (choice_for w order_id type forced) (start_leg w now order_id type)
            (choice_for-IsAlone order_id type forced)
            (λ choice. start_leg-IsAlone now order_id type choice) s
