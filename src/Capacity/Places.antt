-- ===== src/Capacity/Places.antt =====
-- How many parcels a Node and a rider can come to hold.
use locoomo_api.Base.{
  ℕ, ◌+◌, ◌≤◌, ◌<◌, ◌≡◌, refl, ap, sym, ◌∙◌, subst, Bool, true, false, none, some, List, [], ◌∷◌,
  ◌==◌, ==_iff, leb, if◌then◌else◌, arith, find, update_where, Row, Row-find, Row-update_where,
  Bool-cases, Option-cases, ◌⊎◌, inl, inr,
}
use locoomo_api.Effect.{ok, err, entity_not_found}
use locoomo_api.Capacity.{
  NodeRow, one_more, one_less, reserve_capacity_slot, hold_returned_parcel, release_capacity_slot,
}

pub data NodeCall : Type 0 where
  reserve hold release : ℕ → NodeCall

unfoldable pub after_node_call : NodeCall → List NodeRow → List NodeRow
after_node_call (reserve id) s = (reserve_capacity_slot id s).1
after_node_call (hold id) s = (hold_returned_parcel id s).1
after_node_call (release id) s = (release_capacity_slot id s).1

-- How many returned parcels the calls put back on the counter of the Node.
unfoldable pub returned_to : ℕ → List NodeCall → ℕ
returned_to id [] = 0
returned_to id (hold k ∷ cs) = (if k == id then 1 else 0) + returned_to id cs
returned_to id (_ ∷ cs) = returned_to id cs

-- The last call stands first.
unfoldable pub run_nodes : List NodeCall → List NodeRow → List NodeRow
run_nodes [] s = s
run_nodes (c ∷ cs) s = after_node_call c (run_nodes cs s)

-- Ids are a key.
unfoldable pub IsKeyed : List NodeRow → Type 0
IsKeyed s = (a b : NodeRow) → Row a s → Row b s → a.id ≡ b.id → a ≡ b

-- What a reservation does.
pub reserve-cases :
    (id : ℕ) (s : List NodeRow)
    → ((reserve_capacity_slot id s ≡ (err entity_not_found, s)) × (find (λ n. n.id == id) s ≡ none))
      ⊎ ((node : NodeRow) × (find (λ n. n.id == id) s ≡ some node)
          × (((reserve_capacity_slot id s ≡ (ok false, s)) × (node.capacity ≤ node.current_count))
              ⊎ ((reserve_capacity_slot id s ≡ (ok true, update_where (λ n. n.id == id) one_more s))
                  × (node.current_count < node.capacity))))
unfolding reserve_capacity_slot
reserve-cases id s = elim (Option-cases (find (λ n. n.id == id) s)) [
  | inl e ↦ inl (rw e refl, e)
  | inr (node, e) ↦ inr (
    node,
    e,
    elim (Bool-cases (leb node.capacity node.current_count)) [
      | inl t ↦ inl (rw (e, t) refl, ground (arith, t))
      | inr f ↦ inr (rw (e, f) refl, ground (arith, f))
    ],
  )
]

-- An update that keeps ids keeps them a key.
update-IsKeyed :
    (p : NodeRow → Bool) (f : NodeRow → NodeRow)
    → ((n : NodeRow) → (f n).id ≡ n.id)
    → (s : List NodeRow) → IsKeyed s
    → IsKeyed (update_where p f s)
unfolding IsKeyed
update-IsKeyed p f own s v a b r q k =
    let (c, w, e) = Row-update_where p f s r in
    let (d, x, g) = Row-update_where p f s q in
    let one : c ≡ d =
      v c d w x (sym (keeps c) ∙ sym (ap (λ n. n.id) e) ∙ k ∙ ap (λ n. n.id) g ∙ keeps d) in
    e ∙ ap (λ n. if p n then f n else n) one ∙ sym g
  where
    keeps : (n : NodeRow) → (if p n then f n else n).id ≡ n.id
    keeps n = elim (Bool-cases (p n)) [ inl t ↦ rw t (own n) | inr g ↦ rw g refl ]

step-IsKeyed : (c : NodeCall) (s : List NodeRow) → IsKeyed s → IsKeyed (after_node_call c s)
unfolding after_node_call hold_returned_parcel release_capacity_slot
step-IsKeyed (reserve id) s v = elim (reserve-cases id s) [
  | inl (e, _) ↦ subst IsKeyed (sym (ap (λ t. t.1) e)) v
  | inr (node, _, inl (e, _)) ↦ subst IsKeyed (sym (ap (λ t. t.1) e)) v
  | inr (node, _, inr (e, _)) ↦
      subst IsKeyed (sym (ap (λ t. t.1) e))
        (update-IsKeyed (λ n. n.id == id) one_more (λ n. refl) s v)
]
step-IsKeyed (hold id) s v = update-IsKeyed (λ n. n.id == id) one_more (λ n. refl) s v
step-IsKeyed (release id) s v = update-IsKeyed (λ n. n.id == id) one_less (λ n. refl) s v

run-IsKeyed : (cs : List NodeCall) (s : List NodeRow) → IsKeyed s → IsKeyed (run_nodes cs s)
unfolding run_nodes
run-IsKeyed [] s v = v
run-IsKeyed (c ∷ cs) s v = step-IsKeyed c (run_nodes cs s) (run-IsKeyed cs s v)

abbrev IsWithin : NodeRow → ℕ → Type 0
IsWithin n extra = n.current_count ≤ n.capacity + extra

Fits : (ℕ → ℕ) → List NodeRow → Type 0
Fits extra s = (n : NodeRow) → Row n s → n.current_count ≤ n.capacity + extra n.id

step-Fits :
    (c : NodeCall) (cs : List NodeCall) (s : List NodeRow)
    → IsKeyed s
    → Fits (λ id. returned_to id cs) s
    → Fits (λ id. returned_to id (c ∷ cs)) (after_node_call c s)
unfolding after_node_call hold_returned_parcel release_capacity_slot Fits IsKeyed returned_to
step-Fits (reserve id) cs s v h n r = elim (reserve-cases id s) [
  | inl (e, _) ↦ h n (subst (λ t. Row n (t.1)) e r)
  | inr (node, _, inl (e, _)) ↦ h n (subst (λ t. Row n (t.1)) e r)
  | inr (node, f, inr (e, room)) ↦
      let (a, w, k) =
        Row-update_where (λ x. x.id == id) one_more s (subst (λ t. Row n (t.1)) e r) in
      let (q, own) = Row-find (λ x. x.id == id) s f in
      elim (Bool-cases (a.id == id)) [
        | inl t ↦
            let one : a ≡ node =
              v a node w q ((==_iff a.id id).0 t ∙ sym ((==_iff node.id id).0 own)) in
            subst (λ x. IsWithin x (returned_to x.id cs)) (sym (k ∙ rw t refl))
              (subst (λ x. IsWithin (one_more x) (returned_to x.id cs)) (sym one)
                (omega (arith, room)))
        | inr g ↦ subst (λ x. IsWithin x (returned_to x.id cs)) (sym (k ∙ rw g refl)) (h a w)
      ]
]
step-Fits (hold id) cs s v h n r =
    let (a, w, k) = Row-update_where (λ x. x.id == id) one_more s r in
    let old = h a w in
    elim (Bool-cases (a.id == id)) [
      | inl t ↦
          let back : (id == a.id) ≡ true = (==_iff id a.id).1 (sym ((==_iff a.id id).0 t)) in
          let stands : n ≡ one_more a = k ∙ rw t refl in
          let more : returned_to a.id (hold id ∷ cs) ≡ 1 + returned_to a.id cs = rw back refl in
          subst (λ x. IsWithin x (returned_to x.id (hold id ∷ cs))) (sym stands)
            (subst (λ y. IsWithin (one_more a) y) (sym more) (omega (arith, old)))
      | inr g ↦
          let stands : n ≡ a = k ∙ rw g refl in
          subst (λ x. IsWithin x (returned_to x.id (hold id ∷ cs))) (sym stands)
            (omega (arith, old))
    ]
step-Fits (release id) cs s v h n r =
    let (a, w, k) = Row-update_where (λ x. x.id == id) one_less s r in
    let old = h a w in
    elim (Bool-cases (a.id == id)) [
      | inl t ↦
          let stands : n ≡ one_less a = k ∙ rw t refl in
          subst (λ x. IsWithin x (returned_to x.id cs)) (sym stands) (omega (arith, old))
      | inr g ↦
          let stands : n ≡ a = k ∙ rw g refl in
          subst (λ x. IsWithin x (returned_to x.id cs)) (sym stands) old
    ]

-- A Node is never over-booked by reservations: through any calls, starting with every counter
-- within its capacity, a counter exceeds the capacity by at most the parcels that came back to it.
pub capacity-bound :
    (cs : List NodeCall) (s : List NodeRow)
    → IsKeyed s
    → ((n : NodeRow) → Row n s → n.current_count ≤ n.capacity)
    → (n : NodeRow) → Row n (run_nodes cs s)
    → n.current_count ≤ n.capacity + returned_to n.id cs
unfolding run_nodes returned_to Fits
capacity-bound [] s v h n r = omega (arith, h n r)
capacity-bound (c ∷ cs) s v h n r =
    step-Fits c cs (run_nodes cs s) (run-IsKeyed cs s v) (capacity-bound cs s v h) n r

undone :
    (k : ℕ) (xs : List NodeRow)
    → update_where (λ n. n.id == k) one_less (update_where (λ n. n.id == k) one_more xs) ≡ xs
undone k [] = refl
undone k (x ∷ xs) = elim (Bool-cases (x.id == k)) [
  | inl t ↦
      let back : one_less (one_more x) ≡ x =
        ap (λ c. record x { current_count = c }) (omega arith) in
      rw (t, t, undone k xs) (ap (λ y. y ∷ xs) back)
  | inr f ↦ rw (f, f, undone k xs) refl
]

-- Reserving a slot and releasing it leaves every Node as it was.
pub reserve-release :
    (id : ℕ) (s s' : List NodeRow)
    → reserve_capacity_slot id s ≡ (ok true, s')
    → release_capacity_slot id s' ≡ (ok tt, s)
unfolding release_capacity_slot
reserve-release id s s' ran = elim (reserve-cases id s) [
  | inl (e, _) ↦ cc
  | inr (node, _, inl (e, _)) ↦ cc
  | inr (node, _, inr (e, _)) ↦
      let same : update_where (λ n. n.id == id) one_more s ≡ s' = cc in
      ap (λ t. (ok tt, t)) (ap (update_where (λ n. n.id == id) one_less) (sym same) ∙ undone id s)
]
