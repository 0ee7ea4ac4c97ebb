-- ===== src/Handoffs/Codes/Lockout.antt =====
-- Guessing at a handoff code.
use locoomo_api.Base.{
  ℕ, ◌+◌, ◌≤◌, ◌≡◌, refl, ap, sym, ◌∙◌, subst, Bool, true, false, Option, none, some, List, [], ◌∷◌,
  arith, ◌==◌, leb, if◌then◌else◌, length, update_where, Bool-cases, Option-cases, inl, inr, ==_iff,
  all, not,
}
use locoomo_api.Effect.{err, invalid_handoff_code}
use locoomo_api.Handoffs.Codes.{
  HandoffCode, HandoffCodes, HandoffCodeType, latest, newer, is_open, has_id, one_more_failure,
  is_valid, validate, settle, in_transaction,
}

-- A code as the count leaves it.
abbrev counted_at : ℕ → HandoffCode → HandoffCode
counted_at id c = if has_id id c then one_more_failure c else c

counted_at-same :
    (order_id : ℕ) (type : HandoffCodeType) (id : ℕ) (c : HandoffCode)
    → (is_open order_id type (counted_at id c) ≡ is_open order_id type c)
      × ((counted_at id c).created_at ≡ c.created_at)
      × ((counted_at id c).id ≡ c.id)
counted_at-same order_id type id c = elim (Bool-cases (has_id id c)) [
  | inl t ↦ rw t (refl, refl, refl)
  | inr f ↦ rw f (refl, refl, refl)
]

newer-counted :
    (id : ℕ) (a b : HandoffCode)
    → newer (counted_at id a) (some (counted_at id b)) ≡ counted_at id (newer a (some b))
newer-counted id a b = elim (Bool-cases (leb b.created_at a.created_at)) [
  | inl t ↦ elim (Bool-cases (has_id id a)) [
    | inl h ↦ elim (Bool-cases (has_id id b)) [
      | inl k ↦ rw (h, k, t, h) refl
      | inr k ↦ rw (h, k, t, h) refl
    ]
    | inr h ↦ elim (Bool-cases (has_id id b)) [
      | inl k ↦ rw (h, k, t, h) refl
      | inr k ↦ rw (h, k, t, h) refl
    ]
  ]
  | inr t ↦ elim (Bool-cases (has_id id a)) [
    | inl h ↦ elim (Bool-cases (has_id id b)) [
      | inl k ↦ rw (h, k, t, k) refl
      | inr k ↦ rw (h, k, t, k) refl
    ]
    | inr h ↦ elim (Bool-cases (has_id id b)) [
      | inl k ↦ rw (h, k, t, k) refl
      | inr k ↦ rw (h, k, t, k) refl
    ]
  ]
]

opt_counted : ℕ → Option HandoffCode → Option HandoffCode
opt_counted id none = none
opt_counted id (some c) = some (counted_at id c)

-- A count changes neither which code is the latest nor which are open.
latest-count :
    (order_id : ℕ) (type : HandoffCodeType) (id : ℕ) (cs : List HandoffCode)
    → latest (is_open order_id type) (update_where (has_id id) one_more_failure cs)
      ≡ opt_counted id (latest (is_open order_id type) cs)
unfolding latest opt_counted
latest-count order_id type id [] = refl
latest-count order_id type id (c ∷ cs) =
    let rest = latest-count order_id type id cs in
    let same = (counted_at-same order_id type id c).0 in
    elim (Bool-cases (is_open order_id type c)) [
      | inr f ↦ rw (f, same ∙ f) rest
      | inl t ↦ elim (Option-cases (latest (is_open order_id type) cs)) [
        | inl e ↦ rw (t, same ∙ t, rest, e) refl
        | inr (b, e) ↦ rw (t, same ∙ t, rest, e) (ap some (newer-counted id c b))
      ]
    ]

validate-refused :
    (hash : ℕ → ℕ) (now order_id : ℕ) (type : HandoffCodeType) (code : ℕ) (s : HandoffCodes)
    (c : HandoffCode)
    → latest (is_open order_id type) s.handoff_codes ≡ some c
    → is_valid hash now code c ≡ false
    → validate hash now order_id type code s ≡ (
      err invalid_handoff_code,
      record s {
        handoff_codes = update_where (has_id c.id) one_more_failure s.handoff_codes;
        counted = c.id ∷ s.counted;
      },
    )
unfolding validate
validate-refused hash now order_id type code s c e bad = rw (e, bad) refl

-- A wrong guess is refused, and counts.
pub guess_wrong :
    (hash : ℕ → ℕ) (now order_id : ℕ) (type : HandoffCodeType) (code : ℕ) (s : HandoffCodes)
    (c : HandoffCode)
    → latest (is_open order_id type) s.handoff_codes ≡ some c
    → is_valid hash now code c ≡ false
    → in_transaction (validate hash now order_id type code) s ≡ (
      err invalid_handoff_code,
      record s {
        handoff_codes = update_where (has_id c.id) one_more_failure s.handoff_codes;
        counted = [];
      },
    )
guess_wrong hash now order_id type code s c e bad =
    ap (settle s) (validate-refused hash now order_id type code (record s { counted = [] }) c e bad)

-- Guesses made one after the other, each with its time, each in a transaction of its own.
unfoldable pub guesses : (ℕ → ℕ) → ℕ → HandoffCodeType → List (ℕ × ℕ) → HandoffCodes → HandoffCodes
guesses hash order_id type [] s = s
guesses hash order_id type ((now, code) ∷ rest) s =
    guesses hash order_id type rest ((in_transaction (validate hash now order_id type code) s).1)

-- No guess has the hash of the code.
abbrev pub is_miss : (ℕ → ℕ) → ℕ → ℕ × ℕ → Bool
is_miss hash code_hash (now, code) = not (hash code == code_hash)

missed :
    (hash : ℕ → ℕ) (now code : ℕ) (c : HandoffCode)
    → not (hash code == c.code_hash) ≡ true
    → is_valid hash now code c ≡ false
missed hash now code c h = ground (arith, h)

locked :
    (hash : ℕ → ℕ) (now code : ℕ) (c : HandoffCode)
    → 5 ≤ c.failed_attempts
    → is_valid hash now code c ≡ false
locked hash now code c h = ground (arith, h)

counted_latest :
    (order_id : ℕ) (type : HandoffCodeType) (c : HandoffCode) (s : HandoffCodes)
    → latest (is_open order_id type) s.handoff_codes ≡ some c
    → has_id c.id c ≡ true
    → opt_counted c.id (latest (is_open order_id type) s.handoff_codes) ≡ some (one_more_failure c)
unfolding opt_counted
counted_latest order_id type c s e own = rw (e, own) refl

guesses-count :
    (hash : ℕ → ℕ) (order_id : ℕ) (type : HandoffCodeType) (gs : List (ℕ × ℕ)) (s : HandoffCodes)
    (c : HandoffCode)
    → latest (is_open order_id type) s.handoff_codes ≡ some c
    → all (is_miss hash c.code_hash) gs ≡ true
    → (d : HandoffCode) × (latest
          (is_open order_id type)
          (guesses hash order_id type gs s).handoff_codes
        ≡ some d)
      × (d.failed_attempts ≡ c.failed_attempts + length gs)
unfolding guesses
guesses-count hash order_id type [] s c e h = (c, e, omega arith)
guesses-count hash order_id type ((now, code) ∷ gs) s c e h =
    let miss : not (hash code == c.code_hash) ≡ true = ground (arith, h) in
    let others : all (is_miss hash c.code_hash) gs ≡ true = ground (arith, h) in
    let ran = guess_wrong hash now order_id type code s c e (missed hash now code c miss) in
    let own : has_id c.id c ≡ true = (==_iff c.id c.id).1 refl in
    let s' = record s {
      handoff_codes = update_where (has_id c.id) one_more_failure s.handoff_codes;
      counted = [];
    } in
    let now_c : latest (is_open order_id type) s'.handoff_codes ≡ some (one_more_failure c) =
      latest-count order_id type c.id s.handoff_codes ∙ counted_latest order_id type c s e own in
    let (d, f, n) = guesses-count hash order_id type gs s' (one_more_failure c) now_c others in
    (
      d,
      subst
          (λ o.
            latest (is_open order_id type) (guesses hash order_id type gs (o.1)).handoff_codes
            ≡ some d)
          (sym ran) f,
      omega arith,
    )

-- After five wrong guesses a handoff code is dead: it is refused at any time, whatever is typed in,
-- the right code too. The guesses count although each one's transaction is rolled back.
pub validate-locks :
    (hash : ℕ → ℕ) (order_id : ℕ) (type : HandoffCodeType) (s : HandoffCodes) (c : HandoffCode)
    (gs : List (ℕ × ℕ))
    → latest (is_open order_id type) s.handoff_codes ≡ some c
    → all (is_miss hash c.code_hash) gs ≡ true
    → 5 ≤ length gs
    → (now code : ℕ)
    → (in_transaction (validate hash now order_id type code) (guesses hash order_id type gs s)).0
      ≡ err invalid_handoff_code
validate-locks hash order_id type s c gs e h many now code =
    let (d, f, n) = guesses-count hash order_id type gs s c e h in
    ap (λ o. o.0)
      (guess_wrong hash now order_id type code (guesses hash order_id type gs s) d f
        (locked hash now code d (omega arith)))
