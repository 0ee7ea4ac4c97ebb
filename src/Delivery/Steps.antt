-- ===== src/Delivery/Steps.antt =====
-- What the services may do to the table of legs, as a step relation.
use locoomo_api.Base.{
  ℕ, suc, ◌≤◌, ◌<◌, ◌≡◌, refl, sym, ap, ◌∙◌, subst, true, false, ◌&&◌, not, some, List, [], ◌∷◌,
  ◌++◌, ◌==◌, any, count_where, Row, Row-append_one, ◌⊎◌, inl, inr, Bool-cases, ==_iff, arith,
  IsDistinct, put, put-IsDistinct, append-IsDistinct, Row-put, put-new, put-other, Row-append_old,
  Row-one, one_if, count_where-put, count_where-append_one, count_where-none,
}
use locoomo_api.Logistics.Leg.{
  DeliveryLegStatus, DeliveryEventType, next_leg_status, is_terminal, same_leg_status,
}
use locoomo_api.Database.{Database}
use locoomo_api.Delivery.{DeliveryLeg, is_active_for}

abbrev pub id_of : DeliveryLeg → ℕ
id_of leg = leg.id

-- The new row is the old one, moved by an event if its status is another.
pub record Follows (old new : DeliveryLeg) : Type 0 where
  pub same_id : new.id ≡ old.id
  pub same_order : new.order_id ≡ old.order_id
  pub same_type : new.leg_type ≡ old.leg_type
  pub moved :
      (new.status ≡ old.status)
      ⊎ ((e : DeliveryEventType) × (next_leg_status old.status e ≡ some new.status))

pub data LegSteps : List DeliveryLeg → ℕ → List DeliveryLeg → ℕ → Type 0 where
  done : {legs : List DeliveryLeg} {next_id : ℕ} → LegSteps legs next_id legs next_id
  inserted :
      {legs legs' : List DeliveryLeg} {next_id next_id' : ℕ} (leg : DeliveryLeg)
      → leg.id ≡ next_id
      → any (is_active_for leg.order_id) legs ≡ false
      → LegSteps (legs ++ leg ∷ []) (suc next_id) legs' next_id'
      → LegSteps legs next_id legs' next_id'
  saved :
      {legs legs' : List DeliveryLeg} {next_id next_id' : ℕ} (old new : DeliveryLeg)
      → Row old legs
      → Follows old new
      → LegSteps (put id_of old.id new legs) next_id legs' next_id'
      → LegSteps legs next_id legs' next_id'

pub LegSteps-trans :
    {a b c : List DeliveryLeg} {i j k : ℕ} → LegSteps a i b j → LegSteps b j c k → LegSteps a i c k
LegSteps-trans done r = r
LegSteps-trans (inserted leg e f l) r = inserted leg e f (LegSteps-trans l r)
LegSteps-trans (saved old new w m l) r = saved old new w m (LegSteps-trans l r)

-- What a call does to the legs.
abbrev pub Steps : Database → Database → Type 0
Steps s t = LegSteps s.legs s.next_leg_id t.legs t.next_leg_id

-- Ids are distinct and new ones fresh, and no order has two active legs.
pub record IsOrderly (legs : List DeliveryLeg) (next_id : ℕ) : Type 0 where
  pub distinct : IsDistinct id_of legs
  pub below : (leg : DeliveryLeg) → Row leg legs → leg.id < next_id
  pub single : (order_id : ℕ) → count_where (is_active_for order_id) legs ≤ 1

-- A status that an event moves is not the end.
moves-alive :
    (a b : DeliveryLegStatus) (e : DeliveryEventType)
    → next_leg_status a e ≡ some b
    → is_terminal a ≡ false
unfolding next_leg_status is_terminal same_leg_status
moves-alive a b e h = ground arith

inserted-IsOrderly :
    {legs : List DeliveryLeg} {next_id : ℕ} (leg : DeliveryLeg)
    → leg.id ≡ next_id
    → any (is_active_for leg.order_id) legs ≡ false
    → IsOrderly legs next_id
    → IsOrderly (legs ++ leg ∷ []) (suc next_id)
inserted-IsOrderly {legs} {next_id} leg fresh free v = record {
  distinct =
      append-IsDistinct id_of legs leg v.distinct
        (λ a r. let h = v.below a r in ground (arith, h, fresh));
  below = λ a r. elim (Row-append_one legs r) [
    | inl q ↦ let h = v.below a q in omega (arith, h)
    | inr e ↦ let h = ap id_of e in omega (arith, h, fresh)
  ];
  single = λ k.
      let total = count_where-append_one (is_active_for k) legs leg in
      let one = v.single k in
      elim (Bool-cases (leg.order_id == k)) [
        | inl t ↦
            let same = (==_iff leg.order_id k).0 t in
            let zero_before : count_where (is_active_for k) legs ≡ 0 =
              count_where-none (is_active_for k) legs
                (subst (λ o. any (is_active_for o) legs ≡ false) same free) in
            let small : one_if (is_active_for k leg) ≤ 1 = ground arith in
            omega (arith, total, zero_before, small)
        | inr f ↦
            let nothing_more : one_if (is_active_for k leg) ≡ 0 = ground (arith, f) in
            omega (arith, total, one, nothing_more)
      ];
}

saved-IsOrderly :
    {legs : List DeliveryLeg} {next_id : ℕ} (old new : DeliveryLeg)
    → Row old legs
    → Follows old new
    → IsOrderly legs next_id
    → IsOrderly (put id_of old.id new legs) next_id
saved-IsOrderly {legs} {next_id} old new r m v = record {
  distinct = put-IsDistinct id_of old.id new m.same_id legs v.distinct;
  below = λ a q. elim (Row-put id_of old.id new legs q) [
    | inl e ↦ subst (λ k. k < next_id) (sym (ap id_of e ∙ m.same_id)) (v.below old r)
    | inr (w, _) ↦ v.below a w
  ];
  single = λ k.
      let total = count_where-put id_of (is_active_for k) new legs v.distinct r in
      let one = v.single k in let less = less_active k m.moved in omega (arith, total, one, less);
}
  where
    less_active :
        (k : ℕ)
        → (new.status ≡ old.status)
          ⊎ ((e : DeliveryEventType) × (next_leg_status old.status e ≡ some new.status))
        → one_if (is_active_for k new) ≤ one_if (is_active_for k old)
    less_active k (inl same) =
        let whole : is_active_for k new ≡ is_active_for k old =
          ap (λ o. o == k && not (is_terminal new.status)) m.same_order
          ∙ ap (λ x. old.order_id == k && not (is_terminal x)) same in
        rw whole (omega arith)
    less_active k (inr (e, moves)) =
        let alive = moves-alive old.status new.status e moves in
        let order = m.same_order in ground (arith, alive, order)

pub LegSteps-IsOrderly :
    {a b : List DeliveryLeg} {i j : ℕ} → LegSteps a i b j → IsOrderly a i → IsOrderly b j
LegSteps-IsOrderly done v = v
LegSteps-IsOrderly (inserted leg e f l) v = LegSteps-IsOrderly l (inserted-IsOrderly leg e f v)
LegSteps-IsOrderly (saved old new w m l) v = LegSteps-IsOrderly l (saved-IsOrderly old new w m v)

-- A leg that has ended keeps its status.
pub LegSteps-ended :
    {a b : List DeliveryLeg} {i j : ℕ}
    → LegSteps a i b j
    → IsOrderly a i
    → (leg : DeliveryLeg) → Row leg a
    → is_terminal leg.status ≡ true
    → (after : DeliveryLeg) × Row after b × (after.id ≡ leg.id) × (after.status ≡ leg.status)
LegSteps-ended done v leg r h = (leg, r, refl, refl)
LegSteps-ended (inserted {legs = legs} new e f l) v leg r h =
    LegSteps-ended l (inserted-IsOrderly new e f v) leg (Row-append_old legs new r) h
LegSteps-ended (saved {legs = legs} old new w m l) v leg r h =
    let v' = saved-IsOrderly old new w m v in
    elim (Bool-cases (leg.id == old.id)) [
      | inr f ↦ LegSteps-ended l v' leg (put-other id_of old.id new legs r f) h
      | inl t ↦
          let one : leg ≡ old = Row-one id_of legs v.distinct r w ((==_iff leg.id old.id).0 t) in
          let ended : is_terminal old.status ≡ true =
            subst (λ x. is_terminal x.status ≡ true) one h in
          elim m.moved [
            | inr (e, moves) ↦ cc (moves-alive old.status new.status e moves, ended)
            | inl same ↦
                let (z, q, i, k) =
                  LegSteps-ended l v' new (put-new id_of new legs w)
                    (ap is_terminal same ∙ ended) in
                (z, q, i ∙ m.same_id ∙ sym (ap id_of one), k ∙ same ∙ sym (ap (λ x. x.status) one))
          ]
    ]
