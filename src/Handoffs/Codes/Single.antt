-- ===== src/Handoffs/Codes/Single.antt =====
-- At most one handoff code is open for an order and a step.
use locoomo_api.Base.{
  ℕ, ◌≡◌, refl, ap, sym, ◌∙◌, subst, Bool, true, false, not, Option, none, some, List, [], ◌∷◌,
  arith, leb, if◌then◌else◌, update_where, where_rows, Bool-cases, Option-cases, ◌⊎◌, inl, inr, Row,
  here, there, Row-update_where, Row-where_rows, Row-append_one,
}
use locoomo_api.Effect.{ok, err, invalid_handoff_code}
use locoomo_api.Handoffs.Codes.{
  HandoffCode, HandoffCodes, HandoffCodeType, same_type, latest, is_open, has_id, one_more_failure,
  used, is_valid, issue, validate, settle, in_transaction, rider_pickup, rider_arrival,
  receiver_collection, sender_collection,
}
use locoomo_api.Handoffs.Codes.Lockout.{guess_wrong}

pub latest-Row :
    (p : HandoffCode → Bool) (cs : List HandoffCode) {c : HandoffCode}
    → latest p cs ≡ some c
    → Row c cs × (p c ≡ true)
unfolding latest
latest-Row p [] e = cc
latest-Row p (x ∷ cs) {c} e = elim (Bool-cases (p x)) [
  | inr f ↦ let (r, h) = latest-Row p cs {c = c} (ground (arith, e, f)) in (there r, h)
  | inl t ↦ elim (Option-cases (latest p cs)) [
    | inl n ↦
        let same : x ≡ c = ground (arith, e, t, n) in
        (here (sym same), subst (λ y. p y ≡ true) same t)
    | inr (b, n) ↦
        let (r, h) = latest-Row p cs n in
        elim (Bool-cases (leb b.created_at x.created_at)) [
          | inl l ↦
              let same : x ≡ c = ground (arith, e, t, n, l) in
              (here (sym same), subst (λ y. p y ≡ true) same t)
          | inr l ↦
              let same : b ≡ c = ground (arith, e, t, n, l) in
              (there (subst (λ y. Row y cs) same r), subst (λ y. p y ≡ true) same h)
        ]
  ]
]

pub latest-none :
    (p : HandoffCode → Bool) (cs : List HandoffCode)
    → ((c : HandoffCode) → Row c cs → p c ≡ false)
    → latest p cs ≡ none
unfolding latest
latest-none p [] h = refl
latest-none p (c ∷ cs) h = rw (h c (here refl)) (latest-none p cs (λ d r. h d (there r)))

-- One open code for each order and type; ids are not given out twice.
pub record IsSingle (s : HandoffCodes) : Type 0 where
  pub one :
      (order_id : ℕ) (type : HandoffCodeType) (a b : HandoffCode)
      → Row a s.handoff_codes
      → Row b s.handoff_codes
      → is_open order_id type a ≡ true
      → is_open order_id type b ≡ true
      → a.id ≡ b.id

same_type-eq : (a b : HandoffCodeType) → same_type a b ≡ true → a ≡ b
same_type-eq rider_pickup b h = ground arith
same_type-eq rider_arrival b h = ground arith
same_type-eq receiver_collection b h = ground arith
same_type-eq sender_collection b h = ground arith

-- An update that opens no code and keeps the ids.
update-IsSingle :
    (p : HandoffCode → Bool) (f : HandoffCode → HandoffCode) (s : HandoffCodes)
    (cs : List HandoffCode)
    → ((o : ℕ) (t : HandoffCodeType) (c : HandoffCode)
        → is_open o t (f c) ≡ true
        → is_open o t c ≡ true)
    → ((c : HandoffCode) → (f c).id ≡ c.id)
    → IsSingle s
    → s.handoff_codes ≡ cs
    → IsSingle (record s { handoff_codes = update_where p f cs; counted = [] })
update-IsSingle p f s cs shut own v e = record {
  one = λ o t a b r q h k.
      let (c, w, g) = Row-update_where p f cs r in
      let (d, x, i) = Row-update_where p f cs q in
      let left = subst (λ ys. Row c ys) (sym e) w in
      let right = subst (λ ys. Row d ys) (sym e) x in
      sym (keeps c g)
      ∙ v.one o t c d left right (was o t c (subst (λ y. is_open o t y ≡ true) g h))
          (was o t d (subst (λ y. is_open o t y ≡ true) i k))
      ∙ keeps d i;
}
  where
    keeps : (c : HandoffCode) {a : HandoffCode} → a ≡ (if p c then f c else c) → c.id ≡ a.id
    keeps c {a} g = elim (Bool-cases (p c)) [
      | inl t ↦ let now : a ≡ f c = g ∙ rw t refl in sym (ap (λ y. y.id) now ∙ own c)
      | inr n ↦ let now : a ≡ c = g ∙ rw n refl in sym (ap (λ y. y.id) now)
    ]

    was :
        (o : ℕ) (t : HandoffCodeType) (c : HandoffCode)
        → is_open o t (if p c then f c else c) ≡ true
        → is_open o t c ≡ true
    was o t c h = elim (Bool-cases (p c)) [
      | inl y ↦
          let e : (if p c then f c else c) ≡ f c = rw y refl in
          shut o t c (subst (λ z. is_open o t z ≡ true) e h)
      | inr n ↦
          let e : (if p c then f c else c) ≡ c = rw n refl in subst (λ z. is_open o t z ≡ true) e h
    ]

pub ran_none :
    (hash : ℕ → ℕ) (now order_id : ℕ) (type : HandoffCodeType) (code : ℕ) (s : HandoffCodes)
    → latest (is_open order_id type) s.handoff_codes ≡ none
    → validate hash now order_id type code s ≡ (err invalid_handoff_code, s)
unfolding validate
ran_none hash now order_id type code s e = rw e refl

ran_good :
    (hash : ℕ → ℕ) (now order_id : ℕ) (type : HandoffCodeType) (code : ℕ) (s : HandoffCodes)
    (c : HandoffCode)
    → latest (is_open order_id type) s.handoff_codes ≡ some c
    → is_valid hash now code c ≡ true
    → validate hash now order_id type code s
      ≡ (ok tt, record s { handoff_codes = update_where (has_id c.id) (used now) s.handoff_codes })
unfolding validate
ran_good hash now order_id type code s c e t = rw (e, t) refl

-- The three ways in which a validation ends.
pub validate-cases :
    (hash : ℕ → ℕ) (now order_id : ℕ) (type : HandoffCodeType) (code : ℕ) (s : HandoffCodes)
    → ((latest (is_open order_id type) s.handoff_codes ≡ none)
        × (in_transaction (validate hash now order_id type code) s
            ≡ (err invalid_handoff_code, record s { counted = [] })))
      ⊎ ((c : HandoffCode) × (latest (is_open order_id type) s.handoff_codes ≡ some c)
          × ((in_transaction (validate hash now order_id type code) s ≡ (
            err invalid_handoff_code,
            record s {
              handoff_codes = update_where (has_id c.id) one_more_failure s.handoff_codes;
              counted = [];
            },
          ))
              ⊎ ((is_valid hash now code c ≡ true)
                  × (in_transaction (validate hash now order_id type code) s ≡ (
                    ok tt,
                    record s {
                      handoff_codes = update_where (has_id c.id) (used now) s.handoff_codes;
                      counted = [];
                    },
                  )))))
validate-cases hash now order_id type code s =
    elim (Option-cases (latest (is_open order_id type) s.handoff_codes)) [
      | inl e ↦
          inl
            (e, ap (settle s) (ran_none hash now order_id type code (record s { counted = [] }) e))
      | inr (c, e) ↦ inr (
        c,
        e,
        elim (Bool-cases (is_valid hash now code c)) [
          | inr f ↦ inl (guess_wrong hash now order_id type code s c e f)
          | inl t ↦ inr (
            t,
            ap (settle s) (ran_good hash now order_id type code (record s { counted = [] }) c e t),
          )
        ],
      )
    ]

pub validate-IsSingle :
    (hash : ℕ → ℕ) (now order_id : ℕ) (type : HandoffCodeType) (code : ℕ) (s : HandoffCodes)
    → IsSingle s
    → IsSingle ((in_transaction (validate hash now order_id type code) s).1)
validate-IsSingle hash now order_id type code s v =
    elim (validate-cases hash now order_id type code s) [
      | inl (_, e) ↦ subst (λ o. IsSingle (o.1)) (sym e) (record { one = v.one })
      | inr (c, _, inl e) ↦
          subst (λ o. IsSingle (o.1)) (sym e)
            (update-IsSingle (has_id c.id) one_more_failure s s.handoff_codes (λ o t d h. h)
              (λ d. refl) v refl)
      | inr (c, _, inr (_, e)) ↦
          subst (λ o. IsSingle (o.1)) (sym e)
            (update-IsSingle (has_id c.id) (used now) s s.handoff_codes
              (λ o t d h. ground (arith, h)) (λ d. refl) v refl)
    ]

pub issue-IsSingle :
    (hash : ℕ → ℕ) (now order_id : ℕ) (type : HandoffCodeType) (user_id : Option ℕ) (ttl raw : ℕ)
    (s : HandoffCodes)
    → IsSingle s
    → IsSingle ((in_transaction (issue hash now order_id type user_id ttl raw) s).1)
issue-IsSingle hash now order_id type user_id ttl raw s v =
    let kept = where_rows (λ c. not (is_open order_id type c)) s.handoff_codes in
    record {
      one = λ o t a b r q h k. elim (Row-append_one kept r) [
        | inl w ↦
            let (w', g) = Row-where_rows (λ c. not (is_open order_id type c)) s.handoff_codes w in
            elim (Row-append_one kept q) [
              | inl x ↦
                  let (x', i) =
                    Row-where_rows (λ c. not (is_open order_id type c)) s.handoff_codes x in
                  v.one o t a b w' x' h k
              | inr e ↦ absurd (clash o t a b h k g (ap (λ y. y.order_id) e) (ap (λ y. y.type) e))
            ]
        | inr e ↦ elim (Row-append_one kept q) [
          | inl x ↦
              let (x', i) = Row-where_rows (λ c. not (is_open order_id type c)) s.handoff_codes x in
              absurd (clash o t b a k h i (ap (λ y. y.order_id) e) (ap (λ y. y.type) e))
          | inr f ↦ ap (λ y. y.id) (e ∙ sym f)
        ]
      ];
    }
  where
    clash :
        (o : ℕ) (t : HandoffCodeType) (old new : HandoffCode)
        → is_open o t old ≡ true
        → is_open o t new ≡ true
        → not (is_open order_id type old) ≡ true
        → new.order_id ≡ order_id
        → new.type ≡ type
        → ⊥
    clash o t old new h k g eo et =
        let to : o ≡ order_id = ground (arith, k, eo) in
        let tt' : type ≡ t =
          same_type-eq type t (sym (ap (λ y. same_type y t) et) ∙ ground (arith, k)) in
        let open_here : is_open order_id type old ≡ true =
          subst (λ y. is_open order_id y old ≡ true) (sym tt')
            (subst (λ y. is_open y t old ≡ true) to h) in
        cc
