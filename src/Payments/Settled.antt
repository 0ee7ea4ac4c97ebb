-- ===== src/Payments/Settled.antt =====
-- Payment intents and orders: an intent that is paid has its order, and only such an intent has one.
use locoomo_api.Base.{
  ℕ, suc, ◌<◌, ◌≡◌, refl, sym, ap, ◌∙◌, subst, false, List, [], ◌∷◌, ◌++◌, ◌==◌, any, update_where,
  Row, inl, inr, Bool-cases, ==_iff, arith, ◌↔◌, if◌then◌else◌, some, IsDistinct, Row-one,
  update-IsDistinct, put, put-IsDistinct, append-IsDistinct, Row-put, put-new, put-other,
  Row-append_one, Row-update_where, Row-update_where_of_Row, any-Row, Row-append_old,
  Row-append_new,
}
use locoomo_api.Orders.{Text, Order, collides, new_order}
use locoomo_api.Orders.Code.{generate_tracking_code}
use locoomo_api.Database.{Database}
use locoomo_api.Payments.{PaymentIntent, PaymentIntentStatus, order_fields}
use locoomo_api.Payments.Intents.{has_id}
use locoomo_api.Payments.Steps.{
  Change, Changes, nothing, booked, referred, keyed, confirmed, lapsed, done, next,
}
use locoomo_api.Payments.Run.{Call, run, after-Changes}

abbrev pub id_of : PaymentIntent → ℕ
id_of i = i.id

abbrev pub paid_by : Order → ℕ
paid_by o = o.placed.payment_intent_id

pub record IsSound (intents : List PaymentIntent) (next_id : ℕ) (orders : List Order) : Type 0 where
  pub distinct : IsDistinct id_of intents
  pub below : (i : PaymentIntent) → Row i intents → i.id < next_id
  pub order_of :
      (o : Order)
      → Row o orders
      → (i : PaymentIntent) × Row i intents
        × (i.status ≡ PaymentIntentStatus.paid)
        × (o.placed ≡ order_fields i)
  pub paid_of :
      (i : PaymentIntent)
      → Row i intents
      → i.status ≡ PaymentIntentStatus.paid
      → (o : Order) × Row o orders × (o.placed ≡ order_fields i)
  pub single : IsDistinct paid_by orders

abbrev pub Sound : Database → Type 0
Sound s = IsSound s.intents s.next_intent_id s.orders.orders

-- A pending intent `i` is replaced by `x`, which is the same but for its status, reference and time.
module _ {intents : List PaymentIntent} {next_id : ℕ} {orders : List Order}
    (v : IsSound intents next_id orders) (i x : PaymentIntent) (r : Row i intents)
    (same : order_fields x ≡ order_fields i) (pend : i.status ≡ PaymentIntentStatus.pending) where
  abbrev saved : List PaymentIntent
  saved = put id_of i.id x intents

  own : x.id ≡ i.id
  own = ap (λ f. f.payment_intent_id) same

  save-IsDistinct : IsDistinct id_of saved
  save-IsDistinct = put-IsDistinct id_of i.id x own intents v.distinct

  save-below : (j : PaymentIntent) → Row j saved → j.id < next_id
  save-below j q = elim (Row-put id_of i.id x intents q) [
    | inl e ↦ subst (λ k. k < next_id) (sym (ap id_of e ∙ own)) (v.below i r)
    | inr (w, _) ↦ v.below j w
  ]

  -- A paid intent is not the pending one.
  paid-other :
      (j : PaymentIntent)
      → Row j intents
      → j.status ≡ PaymentIntentStatus.paid
      → (j.id == i.id) ≡ false
  paid-other j q k = elim (Bool-cases (j.id == i.id)) [
    | inr f ↦ f
    | inl t ↦
        let one : j ≡ i = Row-one id_of intents v.distinct q r ((==_iff j.id i.id).0 t) in
        cc (ap (λ a. a.status) one, k, pend)
  ]

  save-order_of :
      (o : Order)
      → Row o orders
      → (j : PaymentIntent) × Row j saved
        × (j.status ≡ PaymentIntentStatus.paid)
        × (o.placed ≡ order_fields j)
  save-order_of o q =
      let (j, w, k, e) = v.order_of o q in
      (j, put-other id_of i.id x intents w (paid-other j w k), k, e)

  lapse-IsSound : x.status ≡ PaymentIntentStatus.expired → IsSound saved next_id orders
  lapse-IsSound gone = record {
    distinct = save-IsDistinct;
    below = save-below;
    order_of = save-order_of;
    paid_of = λ j q k. elim (Row-put id_of i.id x intents q) [
      | inl e ↦ cc (ap (λ a. a.status) e, k, gone)
      | inr (w, _) ↦ v.paid_of j w k
    ];
    single = v.single;
  }

  confirm-IsSound :
      (order_id : ℕ) (code : Text)
      → x.status ≡ PaymentIntentStatus.paid
      → any (collides (order_fields i) code) orders ≡ false
      → IsSound saved next_id (orders ++ new_order order_id (order_fields i) code ∷ [])
  confirm-IsSound order_id code now_paid free = record {
    distinct = save-IsDistinct;
    below = save-below;
    order_of = λ o q. elim (Row-append_one orders q) [
      | inl w ↦ save-order_of o w
      | inr e ↦ (x, put-new id_of x intents r, now_paid, ap (λ a. a.placed) e ∙ sym same)
    ];
    paid_of = λ j q k. elim (Row-put id_of i.id x intents q) [
      | inl e ↦ (
        new_order order_id (order_fields i) code,
        Row-append_new orders (new_order order_id (order_fields i) code),
        sym (ap order_fields e ∙ same),
      )
      | inr (w, _) ↦
          let (o, z, f) = v.paid_of j w k in
          (o, Row-append_old orders (new_order order_id (order_fields i) code) z, f)
    ];
    single =
        append-IsDistinct paid_by orders (new_order order_id (order_fields i) code) v.single
          (λ o q. not_yet o (any-Row (collides (order_fields i) code) {xs = orders} free q));
  }
    where
      not_yet : (o : Order) → collides (order_fields i) code o ≡ false → (i.id == paid_by o) ≡ false
      not_yet o h = ground (arith, h)

book-IsSound :
    {intents : List PaymentIntent} {next_id : ℕ} {orders : List Order}
    → IsSound intents next_id orders
    → (x : PaymentIntent) → x.id ≡ next_id
    → x.status ≡ PaymentIntentStatus.pending
    → IsSound (intents ++ x ∷ []) (suc next_id) orders
book-IsSound {intents} {next_id} v x fresh pend = record {
  distinct =
      append-IsDistinct id_of intents x v.distinct
        (λ a r. let h = v.below a r in ground (arith, h, fresh));
  below = λ j r. elim (Row-append_one intents r) [
    | inl q ↦ let h = v.below j q in omega (arith, h)
    | inr e ↦ let h = ap id_of e in omega (arith, h, fresh)
  ];
  order_of = λ o r. let (j, q, k, e) = v.order_of o r in (j, Row-append_old intents x q, k, e);
  paid_of = λ j r k. elim (Row-append_one intents r) [
    | inl q ↦ v.paid_of j q k
    | inr e ↦ cc (ap (λ a. a.status) e, k, pend)
  ];
  single = v.single;
}

-- What setting a reference leaves of a row.
refer-row :
    (id : ℕ) (a : PaymentIntent)
    → let b = if a.id == id then record a { provider_reference = some id } else a in
      (order_fields b ≡ order_fields a) × (b.status ≡ a.status)
refer-row id a = elim (Bool-cases (a.id == id)) [
  | inl t ↦ rw t (refl, refl)
  | inr f ↦ rw f (refl, refl)
]

refer-IsSound :
    (id : ℕ) {intents : List PaymentIntent} {next_id : ℕ} {orders : List Order}
    → IsSound intents next_id orders
    → IsSound
        (update_where (has_id id) (λ i. record i { provider_reference = some id }) intents)
        next_id
        orders
refer-IsSound id {intents} {next_id} v = record {
  distinct = update-IsDistinct id_of (has_id id) referring (λ a _. refl) intents v.distinct;
  below = λ j r.
      let (a, q, e) = Row-update_where (has_id id) referring intents r in
      let same : j.id ≡ a.id = ap id_of e ∙ ap (λ f. f.payment_intent_id) ((refer-row id a).0) in
      subst (λ k. k < next_id) (sym same) (v.below a q);
  order_of = λ o r.
      let (a, q, k, e) = v.order_of o r in
      let (same, kept) = refer-row id a in
      (
        if a.id == id then referring a else a,
        Row-update_where_of_Row (has_id id) referring q,
        kept ∙ k,
        e ∙ sym same,
      );
  paid_of = λ j r k.
      let (a, q, e) = Row-update_where (has_id id) referring intents r in
      let (same, kept) = refer-row id a in
      let (o, w, f) = v.paid_of a q (sym kept ∙ sym (ap (λ b. b.status) e) ∙ k) in
      (o, w, f ∙ sym (ap order_fields e ∙ same));
  single = v.single;
}
  where
    referring : PaymentIntent → PaymentIntent
    referring i = record i { provider_reference = some id }

pub Change-IsSound : {s t : Database} → Change s t → Sound s → Sound t
Change-IsSound nothing v = v
Change-IsSound (booked {s} now payer_id dto fee node f room) v = book-IsSound v _ refl refl
Change-IsSound (referred id) v = refer-IsSound id v
Change-IsSound (keyed reference f) v = v
Change-IsSound (confirmed {s} c i seen w email reference f _ _ r same pend free) v =
    confirm-IsSound v i _ r refl pend s.orders.next_id (generate_tracking_code (c.draw 1)) refl free
Change-IsSound (lapsed i r pend) v = lapse-IsSound v i _ r refl pend refl

pub Changes-IsSound : {s t : Database} → Changes s t → Sound s → Sound t
Changes-IsSound done v = v
Changes-IsSound (next c l) v = Changes-IsSound l (Change-IsSound c v)

pub run-IsSound : (cs : List Call) (s : Database) → Sound s → Sound (run cs s)
unfolding run
run-IsSound [] s v = v
run-IsSound (c ∷ cs) s v = Changes-IsSound (after-Changes c (run cs s)) (run-IsSound cs s v)

-- Through any calls of the payment services, beginning with tables where it holds, an intent is
-- paid exactly when there is an order with its fields, price and id, and no two orders are for one
-- intent: nobody pays without an order, or gets two, or gets one without paying.
pub paid-order :
    (cs : List Call) (s : Database)
    → Sound s
    → (i : PaymentIntent) → Row i (run cs s).intents
    → ((i.status ≡ PaymentIntentStatus.paid)
        ↔ ((o : Order) × Row o (run cs s).orders.orders × (o.placed ≡ order_fields i)))
      × ((o p : Order)
          → Row o (run cs s).orders.orders
          → Row p (run cs s).orders.orders
          → o.placed.payment_intent_id ≡ p.placed.payment_intent_id
          → o ≡ p)
paid-order cs s v i r =
    let w = run-IsSound cs s v in
    (
      (
        λ k. w.paid_of i r k,
        λ (o, q, e).
            let (j, z, k, f) = w.order_of o q in
            let one : j ≡ i =
              Row-one id_of (run cs s).intents w.distinct z r
                (ap (λ a. a.payment_intent_id) (sym f ∙ e)) in
            subst (λ a. a.status ≡ PaymentIntentStatus.paid) one k,
      ),
      λ o p q z e. Row-one paid_by (run cs s).orders.orders w.single q z e,
    )
