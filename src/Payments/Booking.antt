-- ===== src/Payments/Booking.antt =====
-- What a checkout does is a run of the steps of Payments.Steps.
use locoomo_api.Base.{ℕ, ◌≡◌, refl, sym, ap, ◌∙◌, subst, Bool, not, some, [], inl, inr}
use locoomo_api.Effect.{
  modify, pure, Result, ok, err, ◌>>=◌, ◌>>◌, throw_if, Result-cases, run-cases, >>=_err, >>=_ok,
  node_capacity_unavailable,
}
use locoomo_api.Orders.{Text}
use locoomo_api.Capacity.{reserve_capacity_slot}
use locoomo_api.Capacity.Places.{reserve-cases}
use locoomo_api.Database.{
  Database, Db, lift, opened, close, close-cases, committed, on_nodes, on_nodes_run,
}
use locoomo_api.Payments.{PaymentIntent, FeeBreakdown}
use locoomo_api.Payments.Intents.{
  CreatePaymentIntentDto, new_intent, refer, book, create, insert_intent,
}
use locoomo_api.Payments.Steps.{
  Change, Changes, nothing, booked, referred, Changes-one, booked_state, done, next,
}

-- One call, with what the providers and the clock say during it.
-- A transaction takes a step where its body, if it returns, has written one.
pub close-Change :
    {A : Type 0} (s : Database) (out : Result A × Database)
    → out.1.codes.counted ≡ []
    → ((a : A) → (u : Database) → out ≡ (ok a, u) → Change s (committed u))
    → Change s ((close s out).1)
close-Change s out quiet go = elim (close-cases s out quiet) [
  | inl e ↦ subst (Change s) (sym e) nothing
  | inr (a, u, ran, _, e) ↦ subst (Change s) (sym e) (go a u ran)
]

module _ (now payer_id : ℕ) (dto : CreatePaymentIntentDto) (fee : FeeBreakdown) (s : Database) where
  abbrev reserving : Db Bool
  reserving = on_nodes (reserve_capacity_slot dto.origin_node_id)

  abbrev inserting : Bool → Db PaymentIntent
  inserting reserved = do
    throw_if (not reserved) node_capacity_unavailable
    insert_intent now payer_id dto fee

  book-Change : Change s ((book now payer_id dto fee s).1)
  unfolding book
  book-Change = elim (reserve-cases dto.origin_node_id s.nodes) [
    | inl (e, _) ↦
        let ran =
          >>=_err reserving inserting (opened s)
            (on_nodes_run (reserve_capacity_slot dto.origin_node_id) (opened s) e) in
        subst (λ o. Change s ((close s o).1)) (sym ran) nothing
    | inr (node, _, inl (e, _)) ↦
        let ran =
          >>=_ok reserving inserting (opened s)
            (on_nodes_run (reserve_capacity_slot dto.origin_node_id) (opened s) e) in
        subst (λ o. Change s ((close s o).1)) (sym ran) nothing
    | inr (node, f, inr (e, room)) ↦
        let ran =
          >>=_ok reserving inserting (opened s)
            (on_nodes_run (reserve_capacity_slot dto.origin_node_id) (opened s) e) in
        subst (λ o. Change s ((close s o).1)) (sym ran)
          (close-Change s
            (
              ok (new_intent s.next_intent_id now payer_id dto fee),
              booked_state now payer_id dto fee (opened s),
            )
            refl
            (λ a u same.
              subst (λ t. Change s (committed t)) (ap (λ o. o.1) same)
                (booked now payer_id dto fee node f room)))
  ]

module _ (now : ℕ) (initialize : PaymentIntent → Result Text) (payer_id : ℕ)
    (dto : CreatePaymentIntentDto) where
  abbrev with_reference : PaymentIntent → PaymentIntent
  with_reference intent = record intent { provider_reference = some intent.id }

  abbrev announce : PaymentIntent → Db (PaymentIntent × Text)
  announce intent = do
    modify (refer intent.id)
    url ← lift (initialize (with_reference intent))
    pure (with_reference intent, url)

  announced : (intent : PaymentIntent) (t : Database) → (announce intent t).1 ≡ refer intent.id t
  announced intent t = elim (Result-cases (initialize (with_reference intent))) [
    | inl (e, h) ↦ rw h refl
    | inr (url, h) ↦ rw h refl
  ]

  pub create-Changes :
      (quote : Result FeeBreakdown) (s : Database)
      → Changes s ((create now quote initialize payer_id dto s).1)
  unfolding create
  create-Changes (err e) s = done
  create-Changes (ok fee) s =
      let one = book-Change now payer_id dto fee s in
      elim (run-cases (book now payer_id dto fee s)) [
        | inl (e, t, ran) ↦
            let ends : (create now (ok fee) initialize payer_id dto s).1 ≡ t =
              ap (λ o. o.1) (>>=_err (book now payer_id dto fee) announce s ran) in
            subst (Changes s) (sym ends) (Changes-one (subst (λ o. Change s (o.1)) ran one))
        | inr (intent, t, ran) ↦
            let ends : (create now (ok fee) initialize payer_id dto s).1 ≡ refer intent.id t =
              ap (λ o. o.1) (>>=_ok (book now payer_id dto fee) announce s ran)
              ∙ announced intent t in
            subst (Changes s) (sym ends)
              (next (subst (λ o. Change s (o.1)) ran one) (Changes-one (referred intent.id)))
      ]
