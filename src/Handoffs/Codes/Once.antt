-- ===== src/Handoffs/Codes/Once.antt =====
-- A handoff code is good for one handover.
use locoomo_api.Base.{
  ℕ, ◌≡◌, refl, ap, ◌∙◌, subst, true, false, Option, none, [], ◌∷◌, List, Bool, not, ◌&&◌, ◌==◌,
  any, any-Row, here, sym, where_rows, Row-where_rows, Row-append_one, arith, update_where,
  Bool-cases, inl, inr, ==_iff, Row, Row-update_where,
}
use locoomo_api.Effect.{ok, err, invalid_handoff_code}
use locoomo_api.Handoffs.Codes.{
  HandoffCode, HandoffCodes, HandoffCodeType, latest, is_open, has_id, used, same_type,
  one_more_failure, issue, validate, settle, in_transaction,
}
use locoomo_api.Handoffs.Codes.Single.{
  IsSingle, latest-Row, latest-none, ran_none, validate-cases, validate-IsSingle, issue-IsSingle,
}

-- Codes issued and typed in, in any order, each call a transaction of its own.
pub data Reachable (hash : ℕ → ℕ) : HandoffCodes → Type 0 where
  start : Reachable hash (record { handoff_codes = []; next_id = 0; counted = [] })
  issued :
      {s : HandoffCodes}
      → Reachable hash s
      → (now order_id : ℕ) (type : HandoffCodeType) (user_id : Option ℕ) (ttl raw : ℕ)
      → Reachable hash ((in_transaction (issue hash now order_id type user_id ttl raw) s).1)
  tried :
      {s : HandoffCodes}
      → Reachable hash s
      → (now order_id : ℕ) (type : HandoffCodeType) (code : ℕ)
      → Reachable hash ((in_transaction (validate hash now order_id type code) s).1)

Reachable-IsSingle : {hash : ℕ → ℕ} {s : HandoffCodes} → Reachable hash s → IsSingle s
Reachable-IsSingle start = record { one = λ o t a b r. elim r [ ] }
Reachable-IsSingle {hash} (issued {s} r now order_id type user_id ttl raw) =
    issue-IsSingle hash now order_id type user_id ttl raw s (Reachable-IsSingle r)
Reachable-IsSingle {hash} (tried {s} r now order_id type code) =
    validate-IsSingle hash now order_id type code s (Reachable-IsSingle r)

-- One call of the issuer or of the validator, in a transaction of its own.
pub data Call : Type 0 where
  issues : ℕ → ℕ → HandoffCodeType → Option ℕ → ℕ → ℕ → Call
  tries : ℕ → ℕ → HandoffCodeType → ℕ → Call

unfoldable pub after : (ℕ → ℕ) → Call → HandoffCodes → HandoffCodes
after hash (issues now order_id type user_id ttl raw) s =
    (in_transaction (issue hash now order_id type user_id ttl raw) s).1
after hash (tries now order_id type code) s =
    (in_transaction (validate hash now order_id type code) s).1

-- The last call stands first.
unfoldable pub run : (ℕ → ℕ) → List Call → HandoffCodes → HandoffCodes
run hash [] s = s
run hash (c ∷ cs) s = after hash c (run hash cs s)

unfoldable pub issues_for : ℕ → HandoffCodeType → Call → Bool
issues_for order_id type (issues now o t user_id ttl raw) = o == order_id && same_type t type
issues_for order_id type (tries now o t code) = false

-- No code is open for the order and the step.
IsShut : ℕ → HandoffCodeType → HandoffCodes → Type 0
IsShut order_id type s = (c : HandoffCode) → Row c s.handoff_codes → is_open order_id type c ≡ false

update-IsShut :
    (o : ℕ) (t : HandoffCodeType) (p : HandoffCode → Bool) (f : HandoffCode → HandoffCode)
    (cs : List HandoffCode)
    → ((c : HandoffCode) → is_open o t c ≡ false → is_open o t (f c) ≡ false)
    → ((c : HandoffCode) → Row c cs → is_open o t c ≡ false)
    → (c : HandoffCode) → Row c (update_where p f cs)
    → is_open o t c ≡ false
update-IsShut o t p f cs keeps shut c r =
    let (a, q, e) = Row-update_where p f cs r in
    elim (Bool-cases (p a)) [
      | inl y ↦ let stands : c ≡ f a = e ∙ rw y refl in rw stands (keeps a (shut a q))
      | inr n ↦ let stands : c ≡ a = e ∙ rw n refl in rw stands (shut a q)
    ]

after-IsShut :
    (hash : ℕ → ℕ) (o : ℕ) (t : HandoffCodeType) (call : Call) (s : HandoffCodes)
    → issues_for o t call ≡ false
    → IsShut o t s
    → IsShut o t (after hash call s)
unfolding after issues_for IsShut
after-IsShut hash o t (issues now order_id type user_id ttl raw) s other shut c r =
    let kept = where_rows (λ c. not (is_open order_id type c)) s.handoff_codes in
    elim (Row-append_one kept r) [
      | inl w ↦ shut c ((Row-where_rows (λ c. not (is_open order_id type c)) s.handoff_codes w).0)
      | inr e ↦ rw e (ground (arith, other))
    ]
after-IsShut hash o t (tries now order_id type code) s other shut c r = go c r
  where
    go : IsShut o t (after hash (tries now order_id type code) s)
    go = elim (validate-cases hash now order_id type code s) [
      | inl (_, e) ↦ subst (λ z. IsShut o t (z.1)) (sym e) shut
      | inr (c, _, inl e) ↦
          subst (λ z. IsShut o t (z.1)) (sym e)
            (update-IsShut o t (has_id c.id) one_more_failure s.handoff_codes (λ d h. h) shut)
      | inr (c, _, inr (_, e)) ↦
          subst (λ z. IsShut o t (z.1)) (sym e)
            (update-IsShut o t (has_id c.id) (used now) s.handoff_codes (λ d h. ground (arith, h))
              shut)
    ]

run-IsShut :
    (hash : ℕ → ℕ) (o : ℕ) (t : HandoffCodeType) (cs : List Call) (s : HandoffCodes)
    → any (issues_for o t) cs ≡ false
    → IsShut o t s
    → IsShut o t (run hash cs s)
unfolding run
run-IsShut hash o t [] s quiet shut = shut
run-IsShut hash o t (c ∷ cs) s quiet shut =
    let own : issues_for o t c ≡ false = any-Row (issues_for o t) {xs = c ∷ cs} quiet (here refl) in
    let rest : any (issues_for o t) cs ≡ false = ground (arith, quiet, own) in
    after-IsShut hash o t c (run hash cs s) own (run-IsShut hash o t cs s rest shut)

-- Where a code has been accepted, none is open.
accepted-IsShut :
    (hash : ℕ → ℕ) (now order_id : ℕ) (type : HandoffCodeType) (code : ℕ) (s s' : HandoffCodes)
    → IsSingle s
    → in_transaction (validate hash now order_id type code) s ≡ (ok tt, s')
    → IsShut order_id type s'
unfolding IsShut
accepted-IsShut hash now order_id type code s s' v ran =
    elim (validate-cases hash now order_id type code s) [
      | inl (_, e) ↦ cc
      | inr (c, _, inl e) ↦ cc
      | inr (c, f, inr (_, e)) ↦
          let (r, h) = latest-Row (is_open order_id type) s.handoff_codes f in
          let cs = update_where (has_id c.id) (used now) s.handoff_codes in
          let same : record s { handoff_codes = cs; counted = [] } ≡ s' = cc in
          subst (λ u. (b : HandoffCode) → Row b u.handoff_codes → is_open order_id type b ≡ false)
            same (closed c r h)
    ]
  where
    closed :
        (c : HandoffCode)
        → Row c s.handoff_codes
        → is_open order_id type c ≡ true
        → (b : HandoffCode) → Row b (update_where (has_id c.id) (used now) s.handoff_codes)
        → is_open order_id type b ≡ false
    closed c r h b w =
        let (a, q, e) = Row-update_where (has_id c.id) (used now) s.handoff_codes w in
        elim (Bool-cases (has_id c.id a)) [
          | inl y ↦ let stands : b ≡ used now a = e ∙ rw y refl in rw stands (ground arith)
          | inr n ↦
              let stands : b ≡ a = e ∙ rw n refl in
              elim (Bool-cases (is_open order_id type a)) [
                | inr shut ↦ rw stands shut
                | inl up ↦
                    let own : has_id c.id a ≡ true =
                      (==_iff a.id c.id).1 (v.one order_id type a c q r up h) in
                    cc
              ]
        ]

-- In every reachable state a code that has been accepted is used up: after any calls that follow it,
-- each a transaction of its own, as long as none of them issues a code for the order and the step, no
-- code, at any time, is accepted for them again, and a refusal changes nothing in the table.
pub validate-once :
    (hash : ℕ → ℕ) (now order_id : ℕ) (type : HandoffCodeType) (code : ℕ) (s s' : HandoffCodes)
    → Reachable hash s
    → in_transaction (validate hash now order_id type code) s ≡ (ok tt, s')
    → (cs : List Call) → any (issues_for order_id type) cs ≡ false
    → (later other : ℕ)
    → in_transaction (validate hash later order_id type other) (run hash cs s')
      ≡ (err invalid_handoff_code, record (run hash cs s') { counted = [] })
unfolding IsShut
validate-once hash now order_id type code s s' reach ran cs quiet later other =
    let u = run hash cs s' in
    let shut =
      run-IsShut hash order_id type cs s' quiet
        (accepted-IsShut hash now order_id type code s s' (Reachable-IsSingle reach) ran) in
    let gone : latest (is_open order_id type) u.handoff_codes ≡ none =
      latest-none (is_open order_id type) u.handoff_codes shut in
    ap (settle u) (ran_none hash later order_id type other (record u { counted = [] }) gone)
