-- ===== src/Effect.antt =====
-- A service method: state, and the exceptions it may throw. The state comes back after a throw as
-- it then is; `transaction` is what undoes it.
use locoomo_api.Base.{
  ⊤, ap, ◌∙◌, ◌⊎◌, inl, inr, ◌≡◌, refl, sym, subst, Bool, Option, none, some, if◌then◌else◌,
}

-- The exceptions of src/*/exceptions that the modelled methods throw, and those of the platform:
-- `type_error` for a property read on undefined, `unique_violation` and `transaction_aborted` for
-- PostgreSQL's 23505 and 25P02.
pub data Error : Type 0 where
  illegal_edge illegal_order_transition entity_not_found : Error
  type_error unique_violation transaction_aborted : Error
  node_capacity_unavailable rider_capacity_unavailable rider_not_active : Error
  delivery_not_claimable invalid_handoff_code revenue_split_not_configured : Error
  revenue_split_not_payable invalid_revenue_split invalid_webhook_signature : Error
  provider_unavailable invalid_credentials account_suspended invalid_refresh_token : Error
  invalid_reset_token already_registered no_delivery_option pricing_not_configured : Error
  email_already_registered invalid_verification_token invalid_invite_token : Error
  invalid_google_token consent_required : Error

pub data Result (A : Type 0) : Type 0 where
  ok : A → Result A
  err : Error → Result A

abbrev pub Action : Type 0 → Type 0 → Type 0
Action S A = S → Result A × S

module _ {S A : Type 0} where
  abbrev pub pure : A → Action S A
  pure a s = (ok a, s)

  abbrev pub throw : Error → Action S A
  throw e s = (err e, s)

  abbrev pub gets : (S → A) → Action S A
  gets f s = (ok (f s), s)

  -- `rows[0]`, or the exception thrown when there is none.
  abbrev pub or_throw : Option A → Error → Action S A
  or_throw none e = throw e
  or_throw (some a) _ = pure a

  -- A database transaction: a throw undoes every write made in it.
  abbrev pub transaction : Action S A → Action S A
  transaction m s = let (r, s') = m s in elim r [ ok a ↦ (ok a, s') | err e ↦ (err e, s) ]

infixl 5 ◌>>=◌ ◌>>◌
abbrev pub ◌>>=◌ : {S A B : Type 0} → Action S A → (A → Action S B) → Action S B
◌>>=◌ m f s = let (r, s') = m s in elim r [ ok a ↦ f a s' | err e ↦ (err e, s') ]

abbrev pub ◌>>◌ : {S A B : Type 0} → Action S A → Action S B → Action S B
m >> k = m >>= λ _. k

abbrev pub modify : {S : Type 0} → (S → S) → Action S ⊤
modify f s = (ok tt, f s)

abbrev pub throw_if : {S : Type 0} → Bool → Error → Action S ⊤
throw_if c e s = (if c then err e else ok tt, s)

-- A sequence that returns has parts that return.
pub >>=-eq-ok :
    {S A B : Type 0} (m : Action S A) (f : A → Action S B) (s : S) {b : B} {s' : S}
    → (m >>= f) s ≡ (ok b, s')
    → (a : A) × (t : S) × (m s ≡ (ok a, t)) × (f a t ≡ (ok b, s'))
>>=-eq-ok {S} {A} {B} m f s {b} {s'} e = go (m s) refl e
  where
    go :
        (out : Result A × S)
        → m s ≡ out
        → ((λ (_ : S). out) >>= f) s ≡ (ok b, s')
        → (a : A) × (t : S) × (m s ≡ (ok a, t)) × (f a t ≡ (ok b, s'))
    go (ok a, t) ran e' = (a, t, ran, e')
    go (err x, t) ran e' = cc

-- What holds before a call, and after it where it returns, holds after its transaction.
pub transaction-keeps :
    {S A : Type 0} (P : S → Type 0) (m : Action S A) (s : S) {out : Result A × S}
    → m s ≡ out
    → P s
    → P (out.1)
    → P ((transaction m s).1)
transaction-keeps P m s {out = (ok a, t)} e before after =
    subst (λ o. P ((transaction (λ _. o) s).1)) (sym e) after
transaction-keeps P m s {out = (err x, t)} e before after =
    subst (λ o. P ((transaction (λ _. o) s).1)) (sym e) before

pub Result-cases :
    {A : Type 0} (r : Result A) → ((e : Error) × (r ≡ err e)) ⊎ ((a : A) × (r ≡ ok a))
Result-cases (err e) = inl (e, refl)
Result-cases (ok a) = inr (a, refl)

-- How a call ends.
pub run-cases :
    {S A : Type 0} (out : Result A × S)
    → ((e : Error) × (t : S) × (out ≡ (err e, t))) ⊎ ((a : A) × (t : S) × (out ≡ (ok a, t)))
run-cases (err e, t) = inl (e, t, refl)
run-cases (ok a, t) = inr (a, t, refl)

module _ {S A B : Type 0} (m : Action S A) (f : A → Action S B) (s : S) where
  pub >>=_err : {e : Error} {t : S} → m s ≡ (err e, t) → (m >>= f) s ≡ (err e, t)
  >>=_err ran = ap (λ out. ((λ (_ : S). out) >>= f) s) ran

  pub >>=_ok : {a : A} {t : S} → m s ≡ (ok a, t) → (m >>= f) s ≡ f a t
  >>=_ok ran = ap (λ out. ((λ (_ : S). out) >>= f) s) ran

  -- A continuation that writes nothing.
  pub >>=_quiet : ((a : A) → (t : S) → (f a t).1 ≡ t) → ((m >>= f) s).1 ≡ (m s).1
  >>=_quiet h = elim (run-cases (m s)) [
    | inl (e, t, ran) ↦ ap (λ o. o.1) (>>=_err ran) ∙ sym (ap (λ o. o.1) ran)
    | inr (a, t, ran) ↦ ap (λ o. o.1) (>>=_ok ran) ∙ h a t ∙ sym (ap (λ o. o.1) ran)
  ]
