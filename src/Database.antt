-- ===== src/Database.antt =====
-- The tables that one transaction may write together, and src/common/idempotency: the services
-- below run each other's methods with the same `manager`.
use locoomo_api.Base.{
  sym, ap, ◌∙◌, ◌≡◌, refl, ◌⊎◌, inl, inr, Bool-cases, ℕ, Bool, true, false, ◌&&◌, Option, none,
  some, List, [], ◌∷◌, ◌==◌, any, if◌then◌else◌,
}
use locoomo_api.Effect.{Error, run-cases, Result, ok, err, Action}
use locoomo_api.Orders.{OrdersTables}
use locoomo_api.Capacity.{NodeRow, RiderProfile}
use locoomo_api.Handoffs.Codes.{HandoffCodes, recount}
use locoomo_api.Earnings.{EarningsTables}
use locoomo_api.Outbox.{OutboxTable}
use locoomo_api.Payments.{PaymentIntent}
use locoomo_api.Delivery.{DeliveryLeg}

-- A row of idempotency_keys: its scope and its key, under a unique index on both. Scopes are only
-- compared, so they are numbers.
abbrev pub IdempotencyKey : Type 0
IdempotencyKey = ℕ × ℕ

-- `next_intent_id` and `next_leg_id` stand for gen_random_uuid().
pub record Database : Type 0 where
  pub orders : OrdersTables
  pub nodes : List NodeRow
  pub riders : List RiderProfile
  pub codes : HandoffCodes
  pub earnings : EarningsTables
  pub outbox : OutboxTable
  pub keys : List IdempotencyKey
  pub intents : List PaymentIntent
  pub next_intent_id : ℕ
  pub legs : List DeliveryLeg
  pub next_leg_id : ℕ

abbrev pub Db : Type 0 → Type 0
Db A = Action Database A

module _ {A : Type 0} where
  abbrev pub lift : Result A → Db A
  lift r s = (r, s)

  abbrev pub on_orders : Action OrdersTables A → Db A
  on_orders m s = let (r, t) = m s.orders in (r, record s { orders = t })

  abbrev pub on_nodes : Action (List NodeRow) A → Db A
  on_nodes m s = let (r, t) = m s.nodes in (r, record s { nodes = t })

  abbrev pub on_riders : Action (List RiderProfile) A → Db A
  on_riders m s = let (r, t) = m s.riders in (r, record s { riders = t })

  abbrev pub on_codes : Action HandoffCodes A → Db A
  on_codes m s = let (r, t) = m s.codes in (r, record s { codes = t })

  abbrev pub on_earnings : Action EarningsTables A → Db A
  on_earnings m s = let (r, t) = m s.earnings in (r, record s { earnings = t })

-- The failed attempts that another connection has counted outlive a rollback.
abbrev pub rolled_back : Database → Database → Database
rolled_back s t =
    let c = s.codes in
    let kept = record c { handoff_codes = recount t.codes.counted c.handoff_codes; counted = [] } in
    record s { codes = kept }

abbrev pub committed : Database → Database
committed t = let c = t.codes in let d = record c { counted = [] } in record t { codes = d }

-- The state in which a transaction's body runs.
abbrev pub opened : Database → Database
opened s = let c = s.codes in let d = record c { counted = [] } in record s { codes = d }

-- How the transaction that began at `s` ends. A throw undoes its writes. After a failed statement
-- that was caught the body may return, but COMMIT then rolls back too.
abbrev pub close : {A : Type 0} → Database → Result A × Database → Result A × Database
close s (ok a, t) = (ok a, if t.orders.aborted then rolled_back s t else committed t)
close s (err e, t) = (err e, rolled_back s t)

abbrev pub in_transaction : {A : Type 0} → Db A → Db A
in_transaction m s = close s (m (opened s))

-- After a statement has failed.
abbrev pub poisoned : Database → Database
poisoned s = let o = s.orders in let p = record o { aborted = true } in record s { orders = p }

abbrev pub is_key : ℕ → ℕ → IdempotencyKey → Bool
is_key scope key k = k.0 == scope && k.1 == key

-- The insert fails on a key that is there, and the transaction with it; the service catches that.
-- `none` is `alreadyProcessed`.
unfoldable pub with_idempotency : {A : Type 0} → ℕ → ℕ → Db A → Db (Option A)
with_idempotency scope key fn s =
    if any (is_key scope key) s.keys
    then (ok none, poisoned s)
    else let (r, t) = fn (record s { keys = (scope, key) ∷ s.keys }) in
      elim r [ ok a ↦ (ok (some a), t) | err e ↦ (err e, t) ]

-- What a transaction leaves: nothing, or all that its body wrote.
pub close-cases :
    {A : Type 0} (s : Database) (out : Result A × Database)
    → out.1.codes.counted ≡ []
    → ((close s out).1 ≡ opened s)
      ⊎ ((a : A) × (t : Database) × (out ≡ (ok a, t))
          × (t.orders.aborted ≡ false)
          × ((close s out).1 ≡ committed t))
close-cases s (err e, t) h = inl (rw h refl)
close-cases s (ok a, t) h = elim (Bool-cases t.orders.aborted) [
  | inl y ↦ inl (rw (y, h) refl)
  | inr n ↦ inr (a, t, refl, n, rw n refl)
]

pub on_orders_run :
    {A : Type 0} (m : Action OrdersTables A) (s : Database) {r : Result A} {o : OrdersTables}
    → m s.orders ≡ (r, o)
    → on_orders m s ≡ (r, record s { orders = o })
on_orders_run m s ran = rw ran refl

pub on_nodes_run :
    {A : Type 0} (m : Action (List NodeRow) A) (s : Database) {r : Result A} {o : List NodeRow}
    → m s.nodes ≡ (r, o)
    → on_nodes m s ≡ (r, record s { nodes = o })
on_nodes_run m s ran = rw ran refl

abbrev pub keyed : ℕ → ℕ → Database → Database
keyed scope key s = record s { keys = (scope, key) ∷ s.keys }

-- What a body run under an idempotency key, in a transaction of its own, leaves: nothing, or the
-- key and all that the body wrote.
abbrev pub once : {A : Type 0} → ℕ → ℕ → Db A → Db (Option A)
once scope key fn = in_transaction (with_idempotency scope key fn)

module _ {A : Type 0} (scope key : ℕ) (fn : Db A) (s : Database) where
  abbrev used : Bool
  used = any (is_key scope key) s.keys

  abbrev inside : Database
  inside = keyed scope key (opened s)

  pub once-used : used ≡ true → once scope key fn s ≡ (ok none, opened s)
  unfolding with_idempotency
  once-used h =
      let run : with_idempotency scope key fn (opened s) ≡ (ok none, poisoned (opened s)) =
        rw h refl in
      ap (close s) run

  pub once_err :
      {e : Error} {t : Database}
      → used ≡ false
      → fn inside ≡ (err e, t)
      → once scope key fn s ≡ (err e, rolled_back s t)
  unfolding with_idempotency
  once_err {e} {t} h ran =
      let run : with_idempotency scope key fn (opened s) ≡ (err e, t) =
        rw (h, ran) (ap (λ o. (err e, o.1)) ran) in
      ap (close s) run

  pub once_ok :
      {a : A} {t : Database}
      → used ≡ false
      → fn inside ≡ (ok a, t)
      → once scope key fn s ≡ close s (ok (some a), t)
  unfolding with_idempotency
  once_ok {a} {t} h ran =
      let run : with_idempotency scope key fn (opened s) ≡ (ok (some a), t) =
        rw (h, ran) (ap (λ o. (ok (some a), o.1)) ran) in
      ap (close s) run

  pub once-cases :
      (fn inside).1.codes.counted ≡ []
      → ((once scope key fn s).1 ≡ opened s)
        ⊎ ((used ≡ false)
            × ((a : A) × (t : Database) × (fn inside ≡ (ok a, t))
                × (t.orders.aborted ≡ false)
                × (once scope key fn s ≡ (ok (some a), committed t))))
  once-cases quiet = elim (Bool-cases used) [
    | inl h ↦ inl (ap (λ o. o.1) (once-used h))
    | inr f ↦ elim (run-cases (fn inside)) [
      | inl (e, t, ran) ↦
          let none_left : t.codes.counted ≡ [] = ap (λ o. o.1.codes.counted) (sym ran) ∙ quiet in
          inl (ap (λ o. o.1) (once_err f ran) ∙ (rw none_left refl))
      | inr (a, t, ran) ↦
          let none_left : t.codes.counted ≡ [] = ap (λ o. o.1.codes.counted) (sym ran) ∙ quiet in
          elim (Bool-cases t.orders.aborted) [
            | inl y ↦ inl (ap (λ o. o.1) (once_ok f ran) ∙ (rw (y, none_left) refl))
            | inr n ↦ inr (f, (a, t, ran, n, once_ok f ran ∙ (rw n refl)))
          ]
    ]
  ]
