-- ===== src/Delivery/Applying.antt =====
-- A leg that is moved by events, one after another.
use locoomo_api.Base.{
  arith, ⊤, ℕ, ◌≡◌, refl, sym, ap, ◌∙◌, subst, true, Option, none, some, List, [], ◌∷◌, Row, ◌⊎◌,
  inl, inr, Option-cases, put, put-new, or_else,
}
use locoomo_api.Effect.{ok, pure, ◌>>=◌, ◌>>◌, modify, >>=-eq-ok}
use locoomo_api.Logistics.Leg.{
  DeliveryLegStatus, DeliveryEventType, next_leg_status, is_terminal, released, attempt_failed,
  same_leg_status,
}
use locoomo_api.Database.{Database, Db}
use locoomo_api.Delivery.{DeliveryLeg}
use locoomo_api.Delivery.Listener.{Moment, on_delivery_event}
use locoomo_api.Delivery.Dispatch.{Couriers, save_leg, dispatch}
use locoomo_api.Delivery.Events.{
  apply, apply_next, apply_all, route_again, moved_leg, let_go, notice_of, follow,
}
use locoomo_api.Delivery.Steps.{id_of, Follows, done, saved, Steps}
use locoomo_api.Delivery.Quiet.{>>=-Steps, Quiet-Takes, on_delivery_event-Quiet}
use locoomo_api.Delivery.Moves.{dispatch-Takes}

-- The object is a row of the table, but for columns other than these.
pub record IsHeld (leg : DeliveryLeg) (legs : List DeliveryLeg) : Type 0 where
  pub old : DeliveryLeg
  pub row : Row old legs
  pub same_id : leg.id ≡ old.id
  pub same_order : leg.order_id ≡ old.order_id
  pub same_type : leg.leg_type ≡ old.leg_type
  pub same_status : leg.status ≡ old.status

let_go-same :
    (e : DeliveryEventType) (leg : DeliveryLeg)
    → ((let_go e leg).id ≡ leg.id)
      × ((let_go e leg).order_id ≡ leg.order_id)
      × ((let_go e leg).leg_type ≡ leg.leg_type)
let_go-same DeliveryEventType.assigned leg = (refl, refl, refl)
let_go-same released leg = (refl, refl, refl)
let_go-same DeliveryEventType.picked_up leg = (refl, refl, refl)
let_go-same attempt_failed leg = (refl, refl, refl)
let_go-same DeliveryEventType.delivered leg = (refl, refl, refl)
let_go-same DeliveryEventType.returning leg = (refl, refl, refl)
let_go-same DeliveryEventType.returned leg = (refl, refl, refl)
let_go-same DeliveryEventType.cancelled leg = (refl, refl, refl)

-- A cancelled leg is cancelled.
cancelled_ends :
    (a b : DeliveryLegStatus)
    → next_leg_status a DeliveryEventType.cancelled ≡ some b
    → is_terminal b ≡ true
unfolding next_leg_status is_terminal same_leg_status
cancelled_ends a b h = ground arith

-- Nothing moves a leg that has ended.
pub ended_none :
    (a : DeliveryLegStatus) (e : DeliveryEventType)
    → is_terminal a ≡ true
    → next_leg_status a e ≡ none
unfolding next_leg_status is_terminal same_leg_status
ended_none a e h = ground arith

-- Saving an object that is a row, its status moved by an event or not.
pub save_leg-Steps :
    (leg new : DeliveryLeg) (s : Database)
    → IsHeld leg s.legs
    → Follows leg new
    → Steps s (save_leg new s)
save_leg-Steps leg new s h m =
    let same : new.id ≡ h.old.id = m.same_id ∙ h.same_id in
    subst (λ k. Steps s (record s { legs = put id_of k new s.legs })) (sym same)
      (saved h.old new h.row
        (record {
          same_id = same;
          same_order = m.same_order ∙ h.same_order;
          same_type = m.same_type ∙ h.same_type;
          moved = elim m.moved [
            | inl e ↦ inl (e ∙ h.same_status)
            | inr (e, moves) ↦
                inr (e, subst (λ x. next_leg_status x e ≡ some new.status) h.same_status moves)
          ];
        })
        done)

module _ {Km : Type 0} (w : Couriers Km) (moment : Moment) where
  route_again-Takes :
      (event : DeliveryEventType) (route_to : Option ℕ) (leg : DeliveryLeg) (s : Database)
      → Steps s ((route_again w moment event route_to leg s).1)
  unfolding route_again
  route_again-Takes DeliveryEventType.assigned route_to leg s = done
  route_again-Takes released route_to leg s = done
  route_again-Takes DeliveryEventType.picked_up route_to leg s = done
  route_again-Takes attempt_failed route_to leg s = done
  route_again-Takes DeliveryEventType.delivered route_to leg s = done
  route_again-Takes DeliveryEventType.returning route_to leg s = done
  route_again-Takes DeliveryEventType.returned route_to leg s = done
  route_again-Takes DeliveryEventType.cancelled route_to leg s =
      >>=-Steps (dispatch w moment.now leg.order_id leg.leg_type route_to) (λ _. pure tt) s
        (dispatch-Takes w moment.now leg.order_id leg.leg_type route_to s) (λ a t ran. done)

  -- What remains to be said of a leg after it has been moved.
  abbrev pub Trails : DeliveryLeg → Database → Type 0
  Trails leg s = IsHeld leg s.legs ⊎ (is_terminal leg.status ≡ true)

  route_again-Trails :
      (event : DeliveryEventType) (route_to : Option ℕ) (leg : DeliveryLeg)
      (before : DeliveryLegStatus) (s : Database)
      → next_leg_status before event ≡ some leg.status
      → IsHeld leg s.legs
      → Trails leg ((route_again w moment event route_to leg s).1)
  unfolding route_again
  route_again-Trails DeliveryEventType.assigned route_to leg before s m h = inl h
  route_again-Trails released route_to leg before s m h = inl h
  route_again-Trails DeliveryEventType.picked_up route_to leg before s m h = inl h
  route_again-Trails attempt_failed route_to leg before s m h = inl h
  route_again-Trails DeliveryEventType.delivered route_to leg before s m h = inl h
  route_again-Trails DeliveryEventType.returning route_to leg before s m h = inl h
  route_again-Trails DeliveryEventType.returned route_to leg before s m h = inl h
  route_again-Trails DeliveryEventType.cancelled route_to leg before s m h =
      inr (cancelled_ends before leg.status m)

  module _ (event : DeliveryEventType) (route_to : Option ℕ) (leg : DeliveryLeg)
      (next : DeliveryLegStatus) where
    abbrev after : DeliveryLeg
    after = moved_leg moment.now event next leg

    after-Follows : next_leg_status leg.status event ≡ some next → Follows leg after
    after-Follows moves =
        let (one, two, three) = let_go-same event leg in
        record { same_id = one; same_order = two; same_type = three; moved = inr (event, moves) }

    abbrev heeding : Db ⊤
    heeding = on_delivery_event moment (notice_of event after)

    abbrev routing : Db (Option DeliveryLeg)
    routing = route_again w moment event route_to after >> pure (some after)

    moving-Steps :
        (s : Database)
        → IsHeld leg s.legs
        → next_leg_status leg.status event ≡ some next
        → Steps s ((apply_next w moment event route_to leg (some next) s).1)
    unfolding apply_next
    moving-Steps s h moves =
        >>=-Steps (modify (save_leg after)) (λ _. heeding >>= λ _. routing) s
          (save_leg-Steps leg after s h (after-Follows moves))
          (λ a t ran.
            >>=-Steps heeding (λ _. routing) t
              (Quiet-Takes heeding (on_delivery_event-Quiet moment (notice_of event after)) t)
              (λ b u went.
                >>=-Steps (route_again w moment event route_to after) (λ _. pure (some after)) u
                  (route_again-Takes event route_to after u) (λ d v done_so. done)))

    saved-IsHeld : (s : Database) → IsHeld leg s.legs → IsHeld after (save_leg after s).legs
    saved-IsHeld s h =
        let (one, _, _) = let_go-same event leg in
        let same : after.id ≡ h.old.id = one ∙ h.same_id in
        record {
          old = after;
          row =
              subst (λ k. Row after (put id_of k after s.legs)) (sym same)
                (put-new id_of after s.legs h.row);
          same_id = refl;
          same_order = refl;
          same_type = refl;
          same_status = refl;
        }

    moving-Trails :
        (s t : Database) (moved : Option DeliveryLeg)
        → IsHeld leg s.legs
        → next_leg_status leg.status event ≡ some next
        → apply_next w moment event route_to leg (some next) s ≡ (ok moved, t)
        → (moved ≡ some after) × Trails after t
    unfolding apply_next
    moving-Trails s t moved h moves e =
        let (_, t₁, wrote, e₁) =
          >>=-eq-ok (modify (save_leg after)) (λ _. heeding >>= λ _. routing) s e in
        let (_, t₂, heard, e₂) = >>=-eq-ok heeding (λ _. routing) t₁ e₁ in
        let (_, t₃, routed, e₃) =
          >>=-eq-ok (route_again w moment event route_to after) (λ _. pure (some after)) t₂ e₂ in
        let (quiet, _) = on_delivery_event-Quiet moment (notice_of event after) t₁ in
        let legs : (save_leg after s).legs ≡ t₂.legs =
          ap (λ o. o.1.legs) wrote ∙ sym quiet ∙ ap (λ o. o.1.legs) heard in
        let held : IsHeld after t₂.legs = subst (IsHeld after) legs (saved-IsHeld s h) in
        let trails = route_again-Trails event route_to after leg.status t₂ moves held in
        let out : (ok (some after), t₃) ≡ (ok moved, t) = e₃ in
        (
          cc (ap (λ o. o.0) out),
          subst (Trails after) (ap (λ o. o.1) out) (subst (λ o. Trails after (o.1)) routed trails),
        )

  stopped :
      (event : DeliveryEventType) (route_to : Option ℕ) (leg : DeliveryLeg) (s : Database)
      → apply_next w moment event route_to leg none s ≡ (ok none, s)
  unfolding apply_next
  stopped event route_to leg s = refl

  -- A leg that is a row, or has ended, is moved by steps, and is a row again, or has ended.
  pub apply-Steps :
      (event : DeliveryEventType) (route_to : Option ℕ) (leg : DeliveryLeg) (s : Database)
      → Trails leg s
      → Steps s ((apply w moment event route_to leg s).1)
  unfolding apply apply_next
  apply-Steps event route_to leg s (inr end) =
      subst (λ o. Steps s ((apply_next w moment event route_to leg o s).1))
        (sym (ended_none leg.status event end)) done
  apply-Steps event route_to leg s (inl h) =
      elim (Option-cases (next_leg_status leg.status event)) [
        | inl e ↦ subst (λ o. Steps s ((apply_next w moment event route_to leg o s).1)) (sym e) done
        | inr (next, e) ↦
            subst (λ o. Steps s ((apply_next w moment event route_to leg o s).1)) (sym e)
              (moving-Steps event route_to leg next s h e)
      ]

  apply-Trails :
      (event : DeliveryEventType) (route_to : Option ℕ) (leg : DeliveryLeg) (s t : Database)
      (moved : Option DeliveryLeg)
      → Trails leg s
      → apply w moment event route_to leg s ≡ (ok moved, t)
      → Trails (or_else moved leg) t
  unfolding apply
  apply-Trails event route_to leg s t moved trails ran =
      elim (Option-cases (next_leg_status leg.status event)) [
        | inl e ↦ stays e trails
        | inr (next, e) ↦ elim trails [
          | inr end ↦ cc (ended_none leg.status event end, e)
          | inl h ↦
              let went : apply_next w moment event route_to leg (some next) s ≡ (ok moved, t) =
                ap (λ o. apply_next w moment event route_to leg o s) (sym e) ∙ ran in
              let (is, after_that) = moving-Trails event route_to leg next s t moved h e went in
              subst (λ m. Trails (or_else m leg) t) (sym is) after_that
        ]
      ]
    where
      stays : next_leg_status leg.status event ≡ none → Trails leg s → Trails (or_else moved leg) t
      stays e v =
          let out : apply_next w moment event route_to leg none s ≡ (ok moved, t) =
            ap (λ o. apply_next w moment event route_to leg o s) (sym e) ∙ ran in
          let end : (ok none, s) ≡ (ok moved, t) = sym (stopped event route_to leg s) ∙ out in
          let nothing_moved : none ≡ moved = cc (ap (λ o. o.0) end) in
          subst (λ m. Trails (or_else m leg) t) nothing_moved
            (subst (Trails leg) (ap (λ o. o.1) end) v)

  apply_all-Steps :
      (events : List DeliveryEventType) (leg : DeliveryLeg) (s : Database)
      → Trails leg s
      → Steps s ((apply_all w moment events leg s).1)
  unfolding apply_all
  apply_all-Steps [] leg s v = done
  apply_all-Steps (event ∷ events) leg s v =
      >>=-Steps (apply w moment event none leg)
        (λ moved. apply_all w moment events (or_else moved leg)) s (apply-Steps event none leg s v)
        (λ moved t ran.
          apply_all-Steps events (or_else moved leg) t
            (apply-Trails event none leg s t moved v ran))

  -- Catching up with a courier's report.
  pub follow-Steps :
      (events : List DeliveryEventType) (leg : DeliveryLeg) (s : Database)
      → IsHeld leg s.legs
      → Steps s ((follow w moment events leg s).1)
  unfolding follow
  follow-Steps [] leg s h =
      save_leg-Steps leg leg s h
        (record { same_id = refl; same_order = refl; same_type = refl; moved = inl refl })
  follow-Steps (event ∷ events) leg s h = apply_all-Steps (event ∷ events) leg s (inl h)
