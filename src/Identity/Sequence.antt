-- ===== src/Identity/Sequence.antt =====
-- How steps of Identity.Live are put together.
use locoomo_api.Base.{⊤, ℕ, ◌≡◌, sym, subst, Bool, Option, none, some, any, inl, inr, Bool-cases}
use locoomo_api.Effect.{
  Error, ok, or_throw, transaction, ◌>>=◌, throw_if, run-cases, >>=_err, >>=_ok,
}
use locoomo_api.Identity.{User, Accounts, Identity, insert_user, clashes}
use locoomo_api.Identity.SignUp.{as_taken}
use locoomo_api.Identity.Live.{Steps, TokenSteps-trans, done}

pub >>=-Steps :
    {A B : Type 0} (m : Identity A) (f : A → Identity B) (s : Accounts)
    → Steps s ((m s).1)
    → ((a : A) → (t : Accounts) → m s ≡ (ok a, t) → Steps t ((f a t).1))
    → Steps s (((m >>= f) s).1)
>>=-Steps m f s first next = elim (run-cases (m s)) [
  | inl (e, t, ran) ↦
      subst (λ o. Steps s (o.1)) (sym (>>=_err m f s ran)) (subst (λ o. Steps s (o.1)) ran first)
  | inr (a, t, ran) ↦
      subst (λ o. Steps s (o.1)) (sym (>>=_ok m f s ran))
        (TokenSteps-trans (subst (λ o. Steps s (o.1)) ran first) (next a t ran))
]

pub transaction-Steps :
    {A : Type 0} (m : Identity A) (s : Accounts) → Steps s ((m s).1) → Steps s ((transaction m s).1)
transaction-Steps {A} m s h = elim (run-cases (m s)) [
  | inl (e, t, ran) ↦ subst (λ o. Steps s ((transaction (λ (_ : Accounts). o) s).1)) (sym ran) done
  | inr (a, t, ran) ↦
      subst (λ o. Steps s ((transaction (λ (_ : Accounts). o) s).1)) (sym ran)
        (subst (λ o. Steps s (o.1)) ran h)
]

pub as_taken-Steps :
    {A : Type 0} (m : Identity A) (s : Accounts) → Steps s ((m s).1) → Steps s ((as_taken m s).1)
as_taken-Steps {A} m s h = elim (run-cases (m s)) [
  | inl (e, t, ran) ↦
      subst (λ o. Steps s ((as_taken (λ (_ : Accounts). o) s).1)) (sym ran)
        (subst (λ o. Steps s (o.1)) ran h)
  | inr (a, t, ran) ↦
      subst (λ o. Steps s ((as_taken (λ (_ : Accounts). o) s).1)) (sym ran)
        (subst (λ o. Steps s (o.1)) ran h)
]

-- A test that may throw, and a value that may be missing.
pub throwing-Steps :
    {B : Type 0} (c : Bool) (e : Error) (f : ⊤ → Identity B) (s : Accounts)
    → Steps s ((f tt s).1)
    → Steps s (((throw_if c e >>= f) s).1)
throwing-Steps c e f s h = elim (Bool-cases c) [ inl t ↦ rw t done | inr n ↦ rw n h ]

pub or_throw-Steps :
    {A B : Type 0} (o : Option A) (e : Error) (f : A → Identity B) (s : Accounts)
    → ((a : A) → Steps s ((f a s).1))
    → Steps s (((or_throw o e >>= f) s).1)
or_throw-Steps none e f s h = done
or_throw-Steps (some a) e f s h = h a

pub insert_user-Steps : (make : ℕ → User) (s : Accounts) → Steps s ((insert_user make s).1)
unfolding insert_user
insert_user-Steps make s = elim (Bool-cases (any (clashes (make s.next_id)) s.users)) [
  | inl t ↦ rw t done
  | inr f ↦ rw f done
]
