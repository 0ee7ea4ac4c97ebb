-- ===== src/Capacity/Riders.antt =====
-- How many deliveries a rider can come to hold.
use locoomo_api.Base.{
  ℕ, ◌≤◌, ◌<◌, ◌≡◌, refl, ap, sym, ◌∙◌, subst, true, some, List, [], ◌∷◌, ◌==◌, ==_iff, leb,
  if◌then◌else◌, arith, find, update_where, Row, Row-find, Row-update_where, Bool-cases,
  Option-cases, ◌⊎◌, inl, inr,
}
use locoomo_api.Capacity.{
  RiderProfile, is_active, take_up, put_down, reserve_delivery_slot, release_delivery_slot,
}

pub data RiderCall : Type 0 where
  accept hand_over : ℕ → RiderCall

unfoldable pub after_rider_call : RiderCall → List RiderProfile → List RiderProfile
after_rider_call (accept id) s = (reserve_delivery_slot id s).1
after_rider_call (hand_over id) s = (release_delivery_slot id s).1

-- The last call stands first.
unfoldable pub run_riders : List RiderCall → List RiderProfile → List RiderProfile
run_riders [] s = s
run_riders (c ∷ cs) s = after_rider_call c (run_riders cs s)

accept-cases :
    (id : ℕ) (s : List RiderProfile)
    → ((reserve_delivery_slot id s).1 ≡ s)
      ⊎ ((r : RiderProfile) × (find (λ x. x.user_id == id) s ≡ some r)
          × (is_active r.status ≡ true)
          × (r.current_active_order_count < 3)
          × ((reserve_delivery_slot id s).1 ≡ update_where (λ x. x.user_id == id) take_up s))
unfolding reserve_delivery_slot
accept-cases id s = elim (Option-cases (find (λ x. x.user_id == id) s)) [
  | inl e ↦ inl (rw e refl)
  | inr (r, e) ↦ elim (Bool-cases (is_active r.status)) [
    | inr f ↦ inl (rw (e, f) refl)
    | inl t ↦ elim (Bool-cases (leb 3 r.current_active_order_count)) [
      | inl full ↦ inl (rw (e, t, full) refl)
      | inr room ↦ inr (r, e, t, ground (arith, room), rw (e, t, room) refl)
    ]
  ]
]

pub record IsValid (s : List RiderProfile) : Type 0 where
  pub unique : (a b : RiderProfile) → Row a s → Row b s → a.user_id ≡ b.user_id → a ≡ b
  pub light : (a : RiderProfile) → Row a s → a.current_active_order_count ≤ 3

-- An update of one rider's row.
update-IsValid :
    (id : ℕ) (f : RiderProfile → RiderProfile)
    → ((r : RiderProfile) → (f r).user_id ≡ r.user_id)
    → (s : List RiderProfile) → IsValid s
    → ((r : RiderProfile) → Row r s → r.user_id ≡ id → (f r).current_active_order_count ≤ 3)
    → IsValid (update_where (λ x. x.user_id == id) f s)
update-IsValid id f own s v few = record {
  unique = λ a b r q k.
      let (c, w, e) = Row-update_where (λ x. x.user_id == id) f s r in
      let (d, x, g) = Row-update_where (λ x. x.user_id == id) f s q in
      let one : c ≡ d =
        v.unique c d w x
          (sym (keeps c) ∙ sym (ap (λ n. n.user_id) e) ∙ k ∙ ap (λ n. n.user_id) g ∙ keeps d) in
      e ∙ ap (λ n. if n.user_id == id then f n else n) one ∙ sym g;
  light = λ a r.
      let (c, w, e) = Row-update_where (λ x. x.user_id == id) f s r in
      subst (λ x. x.current_active_order_count ≤ 3) (sym e)
        (elim (Bool-cases (c.user_id == id)) [
          | inl t ↦ rw t (few c w ((==_iff c.user_id id).0 t))
          | inr g ↦ rw g (v.light c w)
        ]);
}
  where
    keeps : (n : RiderProfile) → (if n.user_id == id then f n else n).user_id ≡ n.user_id
    keeps n = elim (Bool-cases (n.user_id == id)) [ inl t ↦ rw t (own n) | inr g ↦ rw g refl ]

step-IsValid : (c : RiderCall) (s : List RiderProfile) → IsValid s → IsValid (after_rider_call c s)
unfolding after_rider_call release_delivery_slot
step-IsValid (accept id) s v = elim (accept-cases id s) [
  | inl e ↦ subst IsValid (sym e) v
  | inr (r, f, _, room, e) ↦
      let (q, own) = Row-find (λ x. x.user_id == id) s f in
      subst IsValid (sym e) (
        update-IsValid id take_up (λ x. refl) s v
          (λ x w k.
            let one : r ≡ x = v.unique r x q w ((==_iff r.user_id id).0 own ∙ sym k) in
            subst (λ y. (take_up y).current_active_order_count ≤ 3) one (omega (arith, room))))
]
step-IsValid (hand_over id) s v =
    update-IsValid id put_down (λ x. refl) s v (λ x w k. omega (arith, v.light x w))

-- No order of accepted jobs and handovers, over any riders, gives a rider more than three
-- deliveries at once.
pub rider_load-bound :
    (cs : List RiderCall) (s : List RiderProfile) → IsValid s → IsValid (run_riders cs s)
unfolding run_riders
rider_load-bound [] s v = v
rider_load-bound (c ∷ cs) s v = step-IsValid c (run_riders cs s) (rider_load-bound cs s v)
