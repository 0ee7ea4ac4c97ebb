-- ===== src/Base/Sort.antt =====
-- `Array.prototype.sort` by a comparison, as a stable sort, and the search in a sorted list.
use mathlib.Core.Path.{◌≡◌, refl, subst, ap}
use mathlib.Core.Bool.{Bool, true, false}
use mathlib.Core.Logic.{◌⊎◌, inl, inr}
use mathlib.Core.Option.{none, some}
use mathlib.Core.List.{List, [], ◌∷◌}
use locoomo_api.Base.Tests.{if◌then◌else◌, Bool-cases}
use locoomo_api.Base.Lists.{Row, here, there, find}

-- `le a b` is `compare(a, b) <= 0`.
module _ {A : Type 0} (le : A → A → Bool) where
  abbrev pub insert : A → List A → List A
  insert x [] = x ∷ []
  insert x (y ∷ ys) = let rest = insert x ys in if le x y then x ∷ y ∷ ys else y ∷ rest

  abbrev pub sort : List A → List A
  sort [] = []
  sort (x ∷ xs) = insert x (sort xs)

  abbrev IsSorted : List A → Type 0
  IsSorted [] = Unit
  IsSorted (x ∷ xs) = ((b : A) → Row b xs → le x b ≡ true) × IsSorted xs

  Row-insert : (x : A) (ys : List A) {b : A} → Row b (insert x ys) → (b ≡ x) ⊎ Row b ys
  Row-insert x [] (here e) = inl e
  Row-insert x [] (there r) = elim r [ ]
  Row-insert x (y ∷ ys) {b} r = elim (Bool-cases (le x y)) [
    | inl t ↦
        let r' : Row b (x ∷ y ∷ ys) = subst (λ zs. Row b zs) (rw t refl) r in
        elim r' [ here e ↦ inl e | there q ↦ inr q ]
    | inr f ↦
        let r' : Row b (y ∷ insert x ys) = subst (λ zs. Row b zs) (rw f refl) r in
        elim r' [
          | here e ↦ inr (here e)
          | there q ↦ elim (Row-insert x ys q) [ inl e ↦ inl e | inr w ↦ inr (there w) ]
        ]
  ]

  insert-new : (x : A) (ys : List A) → Row x (insert x ys)
  insert-new x [] = here refl
  insert-new x (y ∷ ys) = elim (Bool-cases (le x y)) [
    | inl t ↦ rw t (here refl)
    | inr f ↦ rw f (there (insert-new x ys))
  ]

  insert-old : (x : A) (ys : List A) {b : A} → Row b ys → Row b (insert x ys)
  insert-old x [] r = elim r [ ]
  insert-old x (y ∷ ys) {b} r = elim (Bool-cases (le x y)) [
    | inl t ↦ rw t (there r)
    | inr f ↦ rw f (elim r [ here e ↦ here e | there q ↦ there (insert-old x ys q) ])
  ]

  pub Row-sort : (xs : List A) {b : A} → Row b (sort xs) → Row b xs
  Row-sort [] r = r
  Row-sort (x ∷ xs) r = elim (Row-insert x (sort xs) r) [
    | inl e ↦ here e
    | inr q ↦ there (Row-sort xs q)
  ]

  sort-Row : (xs : List A) {b : A} → Row b xs → Row b (sort xs)
  sort-Row [] r = r
  sort-Row (x ∷ xs) {b} (here e) = rw e (insert-new x (sort xs))
  sort-Row (x ∷ xs) (there r) = insert-old x (sort xs) (sort-Row xs r)

  module _ (total : (a b : A) → le a b ≡ false → le b a ≡ true)
      (trans : (a b c : A) → le a b ≡ true → le b c ≡ true → le a c ≡ true) where
    insert-IsSorted : (x : A) (ys : List A) → IsSorted ys → IsSorted (insert x ys)
    insert-IsSorted x [] s = (λ b r. elim r [ ], tt)
    insert-IsSorted x (y ∷ ys) s = elim (Bool-cases (le x y)) [
      | inl t ↦ rw t (λ b r. elim r [ here e ↦ rw e t | there q ↦ trans x y b t (s.0 b q) ], s)
      | inr f ↦ rw f (
        λ b r. elim (Row-insert x ys r) [ inl e ↦ rw e (total x y f) | inr q ↦ s.0 b q ],
        insert-IsSorted x ys (s.1),
      )
    ]

    sort-IsSorted : (xs : List A) → IsSorted (sort xs)
    sort-IsSorted [] = tt
    sort-IsSorted (x ∷ xs) = insert-IsSorted x (sort xs) (sort-IsSorted xs)

    first_found :
        (p : A → Bool) (xs : List A)
        → IsSorted xs
        → ((find p xs ≡ none) × ((b : A) → Row b xs → p b ≡ false))
          ⊎ ((a : A) × (find p xs ≡ some a)
              × Row a xs
              × (p a ≡ true)
              × ((b : A) → Row b xs → p b ≡ true → (b ≡ a) ⊎ (le a b ≡ true)))
    first_found p [] s = inl (refl, λ b r. elim r [ ])
    first_found p (x ∷ xs) s = elim (Bool-cases (p x)) [
      | inl t ↦
          inr (
            x,
            rw t refl,
            here refl,
            t,
            λ b r h. elim r [ here e ↦ inl e | there q ↦ inr (s.0 b q) ],
          )
      | inr f ↦ elim (first_found p xs (s.1)) [
        | inl (e, fails) ↦
            inl (rw (f, e) refl, λ b r. elim r [ here k ↦ rw k f | there q ↦ fails b q ])
        | inr (a, e, r, t, low) ↦ inr (
          a,
          rw (f, e) refl,
          there r,
          t,
          λ b w h. elim w [ here k ↦ inl (cc (ap p k)) | there q ↦ low b q h ],
        )
      ]
    ]

    -- The search of a sorted list finds the first in the order among those that pass, or says
    -- that none passes.
    pub find-sort :
        (p : A → Bool) (xs : List A)
        → ((find p (sort xs) ≡ none) × ((b : A) → Row b xs → p b ≡ false))
          ⊎ ((a : A) × (find p (sort xs) ≡ some a)
              × Row a xs
              × (p a ≡ true)
              × ((b : A) → Row b xs → p b ≡ true → (b ≡ a) ⊎ (le a b ≡ true)))
    find-sort p xs = elim (first_found p (sort xs) (sort-IsSorted xs)) [
      | inl (e, fails) ↦ inl (e, λ b r. fails b (sort-Row xs r))
      | inr (a, e, r, t, low) ↦ inr (a, e, Row-sort xs r, t, λ b w. low b (sort-Row xs w))
    ]
