-- ===== src/Handoffs/Codes.antt =====
-- src/modules/handoffs/application/handoff-code-issuer.service.ts and
-- handoff-code-validator.service.ts, over the handoff_codes table. Codes and their hashes are only
-- compared, so they are numbers; `hash` stands for SHA-256, and a code that is issued is given as
-- the number that `generateHandoffCode` draws and pads.
pub mod Lockout
pub mod Single
pub mod Once
use locoomo_api.Base.{
  ⊤, ℕ, suc, ◌+◌, ◌*◌, Bool, true, false, not, ◌&&◌, Option, none, some, List, [], ◌∷◌, ◌++◌, ◌==◌,
  ltb, leb, is_none, if◌then◌else◌, where_rows, update_where,
}
use locoomo_api.Effect.{
  Result, ok, err, Action, pure, throw, gets, ◌>>=◌, ◌>>◌, modify, invalid_handoff_code,
}

pub data HandoffCodeType : Type 0 where
  rider_pickup rider_arrival receiver_collection sender_collection : HandoffCodeType

abbrev pub same_type : HandoffCodeType → HandoffCodeType → Bool
same_type rider_pickup rider_pickup = true
same_type rider_arrival rider_arrival = true
same_type receiver_collection receiver_collection = true
same_type sender_collection sender_collection = true
same_type _ _ = false

pub record HandoffCode : Type 0 where
  pub id : ℕ
  pub order_id : ℕ
  pub type : HandoffCodeType
  pub code_hash : ℕ
  pub requested_by_user_id : Option ℕ
  pub expires_at : ℕ
  pub used_at : Option ℕ
  pub failed_attempts : ℕ
  pub created_at : ℕ

-- `counted` are the ids whose failed attempts the other connection has counted since the
-- transaction began.
pub record HandoffCodes : Type 0 where
  pub handoff_codes : List HandoffCode
  pub next_id : ℕ
  pub counted : List ℕ

abbrev pub Handoffs : Type 0 → Type 0
Handoffs A = Action HandoffCodes A

abbrev pub max_handoff_code_attempts : ℕ
max_handoff_code_attempts = 5

-- `where: { orderId, type, usedAt: IsNull() }`
abbrev pub is_open : ℕ → HandoffCodeType → HandoffCode → Bool
is_open order_id type c = c.order_id == order_id && same_type c.type type && is_none c.used_at

-- The newer of two codes; the first one where they are of one time.
abbrev pub newer : HandoffCode → Option HandoffCode → HandoffCode
newer a none = a
newer a (some b) = if leb b.created_at a.created_at then a else b

-- `findOne` with `order: { createdAt: 'DESC' }`
unfoldable pub latest : (HandoffCode → Bool) → List HandoffCode → Option HandoffCode
latest p [] = none
latest p (c ∷ cs) = let rest = latest p cs in if p c then some (newer c rest) else rest

abbrev pub has_id : ℕ → HandoffCode → Bool
has_id id c = c.id == id

abbrev pub one_more_failure : HandoffCode → HandoffCode
one_more_failure c = record c { failed_attempts = c.failed_attempts + 1 }

abbrev pub used : ℕ → HandoffCode → HandoffCode
used now c = record c { used_at = some now }

-- The UPDATE on the other connection.
abbrev pub count_failure : ℕ → Handoffs ⊤
count_failure id = modify λ s. record s {
  handoff_codes = update_where (has_id id) one_more_failure s.handoff_codes;
  counted = id ∷ s.counted;
}

abbrev pub issue : (ℕ → ℕ) → ℕ → ℕ → HandoffCodeType → Option ℕ → ℕ → ℕ → Handoffs ℕ
issue hash now order_id type user_id ttl_minutes raw_code = do
  modify λ s. record s {
    handoff_codes =
        where_rows (λ c. not (is_open order_id type c)) s.handoff_codes
        ++ record {
          id = s.next_id;
          order_id = order_id;
          type = type;
          code_hash = hash raw_code;
          requested_by_user_id = user_id;
          expires_at = now + ttl_minutes * 60000;
          used_at = none;
          failed_attempts = 0;
          created_at = now;
        }
          ∷ [];
    next_id = suc s.next_id;
  }
  pure raw_code

abbrev pub is_valid : (ℕ → ℕ) → ℕ → ℕ → HandoffCode → Bool
is_valid hash now code c =
    ltb now c.expires_at
    && ltb c.failed_attempts max_handoff_code_attempts
    && hash code == c.code_hash

-- What follows the search for the code.
abbrev pub check : (ℕ → ℕ) → ℕ → ℕ → Option HandoffCode → Handoffs ⊤
check hash now code none = throw invalid_handoff_code
check hash now code (some c) =
    if is_valid hash now code c
    then modify
        (λ s. record s { handoff_codes = update_where (has_id c.id) (used now) s.handoff_codes })
    else (count_failure c.id >> throw invalid_handoff_code)

unfoldable pub validate : (ℕ → ℕ) → ℕ → ℕ → HandoffCodeType → ℕ → Handoffs ⊤
validate hash now order_id type code = do
  found ← gets (λ s. latest (is_open order_id type) s.handoff_codes)
  check hash now code found

-- The counts that outlive a rollback.
abbrev pub recount : List ℕ → List HandoffCode → List HandoffCode
recount [] codes = codes
recount (id ∷ ids) codes = update_where (has_id id) one_more_failure (recount ids codes)

-- How the transaction that began at `s` ends: a throw undoes what it wrote, but not the counts.
abbrev pub settle : {A : Type 0} → HandoffCodes → Result A × HandoffCodes → Result A × HandoffCodes
settle s (ok a, s') = (ok a, record s' { counted = [] })
settle s (err e, s') =
    (err e, record s { handoff_codes = recount s'.counted s.handoff_codes; counted = [] })

-- The transaction of a caller of the validator.
abbrev pub in_transaction : {A : Type 0} → Handoffs A → Handoffs A
in_transaction m s = settle s (m (record s { counted = [] }))
