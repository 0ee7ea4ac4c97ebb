-- ===== src/Base/Lists.antt =====
-- Lists as database tables: measuring, searching, `UPDATE ... WHERE`, and a predicate on all rows.
use Prim.Native.Nat.{ℕ, zero, suc, ◌+◌}
use mathlib.Core.Path.{◌≡◌, refl, ap, sym, subst, ◌∙◌}
use mathlib.Core.Bool.{Bool, true, false, ◌&&◌, ◌||◌}
use mathlib.Core.Logic.{◌⊎◌, inl, inr}
use mathlib.Core.Option.{Option, none, some}
use mathlib.Core.List.{List, [], ◌∷◌, ◌++◌, map}
use native.Mathlib.Omega.{arith}
use locoomo_api.Base.Tests.{if◌then◌else◌, Bool-cases}

module _ {ℓ} {A : Type ℓ} where
  abbrev pub length : List A → ℕ
  length [] = 0
  length (_ ∷ xs) = suc (length xs)

  abbrev pub head? : List A → Option A
  head? [] = none
  head? (x ∷ _) = some x

  -- `xs.find(p)`
  abbrev pub find : (A → Bool) → List A → Option A
  find p [] = none
  find p (x ∷ xs) = if p x then some x else find p xs

  -- `xs.some(p)`
  abbrev pub any : (A → Bool) → List A → Bool
  any p [] = false
  any p (x ∷ xs) = p x || any p xs

  -- `xs.every(p)`
  abbrev pub all : (A → Bool) → List A → Bool
  all p [] = true
  all p (x ∷ xs) = p x && all p xs

  -- The rows that a WHERE clause keeps.
  abbrev pub where_rows : (A → Bool) → List A → List A
  where_rows p [] = []
  where_rows p (x ∷ xs) = let rest = where_rows p xs in if p x then x ∷ rest else rest

  -- `SELECT COUNT(*) ... WHERE p`
  abbrev pub count_where : (A → Bool) → List A → ℕ
  count_where p [] = 0
  count_where p (x ∷ xs) = (if p x then 1 else 0) + count_where p xs

  abbrev pub get_elem? : List A → ℕ → Option A
  get_elem? [] i = none
  get_elem? (x ∷ _) zero = some x
  get_elem? (_ ∷ xs) (suc i) = get_elem? xs i

  abbrev pub take : ℕ → List A → List A
  take zero _ = []
  take (suc n) [] = []
  take (suc n) (x ∷ xs) = x ∷ take n xs

  abbrev pub drop : ℕ → List A → List A
  drop zero xs = xs
  drop (suc n) [] = []
  drop (suc n) (_ ∷ xs) = drop n xs

  -- `UPDATE ... SET f WHERE p`
  abbrev pub update_where : (A → Bool) → (A → A) → List A → List A
  update_where p f [] = []
  update_where p f (x ∷ xs) = (if p x then f x else x) ∷ update_where p f xs

abbrev pub All {ℓ κ} : {A : Type ℓ} → (A → Type κ) → List A → Type κ
All P [] = Unit
All P (x ∷ xs) = P x × All P xs

-- A row of a table, by its place.
pub data Row {ℓ} {A : Type ℓ} (a : A) : List A → Type ℓ where
  here : {x : A} {xs : List A} → a ≡ x → Row a (x ∷ xs)
  there : {x : A} {xs : List A} → Row a xs → Row a (x ∷ xs)

module _ {ℓ κ} {A : Type ℓ} (P : A → Type κ) where
  pub All-Row : {a : A} {xs : List A} → All P xs → Row a xs → P a
  All-Row h (here e) = rw e h.0
  All-Row h (there r) = All-Row h.1 r

  pub All-of_Row : (xs : List A) → ((a : A) → Row a xs → P a) → All P xs
  All-of_Row [] h = tt
  All-of_Row (x ∷ xs) h = (h x (here refl), All-of_Row xs (λ a r. h a (there r)))

module _ {ℓ} {A : Type ℓ} where
  -- Where a row of an updated table comes from.
  pub Row-update_where :
      (p : A → Bool) (f : A → A) {b : A} (xs : List A)
      → Row b (update_where p f xs)
      → (a : A) × Row a xs × (b ≡ (if p a then f a else a))
  Row-update_where p f [] r = elim r [ ]
  Row-update_where p f (x ∷ xs) (here e) = (x, here refl, e)
  Row-update_where p f (x ∷ xs) (there r) =
      let (a, q, e) = Row-update_where p f xs r in (a, there q, e)

  -- A row is still there after an update, as the update leaves it.
  pub Row-update_where_of_Row :
      (p : A → Bool) (f : A → A) {a : A} {xs : List A}
      → Row a xs
      → Row (if p a then f a else a) (update_where p f xs)
  Row-update_where_of_Row p f (here e) = here (ap (λ a. if p a then f a else a) e)
  Row-update_where_of_Row p f (there r) = there (Row-update_where_of_Row p f r)

  pub Row-find : (p : A → Bool) (xs : List A) {a : A} → find p xs ≡ some a → Row a xs × (p a ≡ true)
  Row-find p [] e = cc
  Row-find p (x ∷ xs) {a} e = elim (Bool-cases (p x)) [
    | inl t ↦ let same : a ≡ x = ground arith in (here same, rw same t)
    | inr f ↦ let (r, h) = Row-find p xs (ground arith) in (there r, h)
  ]

  -- The first row of UPDATE ... RETURNING.
  pub Row-head?-map {κ} :
      {B : Type κ} (p : A → Bool) (f : A → B) (xs : List A) {b : B}
      → head? (map f (where_rows p xs)) ≡ some b
      → (a : A) × Row a xs × (p a ≡ true) × (b ≡ f a)
  Row-head?-map p f [] e = cc
  Row-head?-map p f (x ∷ xs) {b} e = elim (Bool-cases (p x)) [
    | inl t ↦ (x, here refl, t, ground arith)
    | inr n ↦ let (a, r, h, k) = Row-head?-map p f xs (ground arith) in (a, there r, h, k)
  ]

  pub Row-append_one : (xs : List A) {x b : A} → Row b (xs ++ x ∷ []) → Row b xs ⊎ (b ≡ x)
  Row-append_one [] (here e) = inr e
  Row-append_one [] (there r) = elim r [ ]
  Row-append_one (y ∷ xs) (here e) = inl (here e)
  Row-append_one (y ∷ xs) (there r) = elim (Row-append_one xs r) [
    | inl q ↦ inl (there q)
    | inr e ↦ inr e
  ]

  -- A test that no row passes.
  pub any-Row : (p : A → Bool) {xs : List A} {a : A} → any p xs ≡ false → Row a xs → p a ≡ false
  any-Row p {xs = []} h r = elim r [ ]
  any-Row p {xs = x ∷ xs} h (here e) = rw e (ground (arith, h))
  any-Row p {xs = x ∷ xs} h (there r) = any-Row p {xs = xs} (ground (arith, h)) r

  pub where_rows-none :
      (p : A → Bool) (xs : List A) → ((a : A) → Row a xs → p a ≡ false) → where_rows p xs ≡ []
  where_rows-none p [] h = refl
  where_rows-none p (x ∷ xs) h = rw (h x (here refl)) (where_rows-none p xs (λ a r. h a (there r)))

  -- The rows kept by a WHERE clause.
  pub Row-where_rows :
      (p : A → Bool) (xs : List A) {b : A} → Row b (where_rows p xs) → Row b xs × (p b ≡ true)
  Row-where_rows p [] r = elim r [ ]
  Row-where_rows p (x ∷ xs) {b} r = elim (Bool-cases (p x)) [
    | inl t ↦
        let r' : Row b (x ∷ where_rows p xs) = subst (λ zs. Row b zs) (rw t refl) r in
        elim r' [
          | here e ↦ (here e, rw e t)
          | there q ↦ let (w, h) = Row-where_rows p xs q in (there w, h)
        ]
    | inr f ↦
        let r' : Row b (where_rows p xs) = subst (λ zs. Row b zs) (rw f refl) r in
        let (w, h) = Row-where_rows p xs r' in (there w, h)
  ]

  pub where_rows-Row :
      (p : A → Bool) (xs : List A) {b : A} → Row b xs → p b ≡ true → Row b (where_rows p xs)
  where_rows-Row p [] r h = elim r [ ]
  where_rows-Row p (x ∷ xs) (here e) h = let t : p x ≡ true = sym (ap p e) ∙ h in rw t (here e)
  where_rows-Row p (x ∷ xs) {b} (there r) h = elim (Bool-cases (p x)) [
    | inl t ↦ rw t (there (where_rows-Row p xs r h))
    | inr f ↦ rw f (where_rows-Row p xs r h)
  ]

pub Row-take : {A : Type 0} (n : ℕ) (xs : List A) {b : A} → Row b (take n xs) → Row b xs
Row-take zero xs r = elim r [ ]
Row-take (suc n) [] r = elim r [ ]
Row-take (suc n) (x ∷ xs) (here e) = here e
Row-take (suc n) (x ∷ xs) (there r) = there (Row-take n xs r)

pub Row-map :
    {A B : Type 0} (f : A → B) (xs : List A) {b : B}
    → Row b (map f xs)
    → (a : A) × Row a xs × (b ≡ f a)
Row-map f [] r = elim r [ ]
Row-map f (x ∷ xs) (here e) = (x, here refl, e)
Row-map f (x ∷ xs) (there r) = let (a, q, e) = Row-map f xs r in (a, there q, e)

pub map-Row : {A B : Type 0} (f : A → B) {a : A} {xs : List A} → Row a xs → Row (f a) (map f xs)
map-Row f (here e) = here (ap f e)
map-Row f (there r) = there (map-Row f r)

pub Row-append_old : {A : Type 0} {b : A} (xs : List A) (x : A) → Row b xs → Row b (xs ++ x ∷ [])
Row-append_old xs x (here e) = here e
Row-append_old (y ∷ xs) x (there r) = there (Row-append_old xs x r)

pub Row-append_new : {A : Type 0} (xs : List A) (x : A) → Row x (xs ++ x ∷ [])
Row-append_new [] x = here refl
Row-append_new (y ∷ ys) x = there (Row-append_new ys x)

pub find-none :
    {A : Type 0} (p : A → Bool) (xs : List A) {a : A} → find p xs ≡ none → Row a xs → p a ≡ false
find-none p [] e r = elim r [ ]
find-none p (x ∷ xs) e (here same) = elim (Bool-cases (p x)) [
  | inl t ↦ ground arith
  | inr f ↦ ap p same ∙ f
]
find-none p (x ∷ xs) e (there r) = find-none p xs (ground arith) r

-- A search that a save does not blind finds what the save leaves.
pub find-update_where :
    {A : Type 0} (p q : A → Bool) (f : A → A) (xs : List A) {a : A}
    → ((b : A) → p (f b) ≡ p b)
    → find p xs ≡ some a
    → find p (update_where q f xs) ≡ some (if q a then f a else a)
find-update_where p q f [] keeps e = cc
find-update_where p q f (x ∷ xs) {a} keeps e =
    let same : p (if q x then f x else x) ≡ p x = elim (Bool-cases (q x)) [
      | inl t ↦ rw t (keeps x)
      | inr n ↦ rw n refl
    ] in
    elim (Bool-cases (p x)) [
      | inl t ↦
          let own : x ≡ a = ground arith in
          rw (same ∙ t) (ap (λ b. some (if q b then f b else b)) own)
      | inr n ↦ rw (same ∙ n) (find-update_where p q f xs keeps (ground arith))
    ]

pub find-append :
    {A : Type 0} (p : A → Bool) (xs ys : List A) {a : A}
    → find p xs ≡ some a
    → find p (xs ++ ys) ≡ some a
find-append p [] ys e = cc
find-append p (x ∷ xs) ys e = elim (Bool-cases (p x)) [
  | inl t ↦ rw t (ground arith)
  | inr n ↦ rw n (find-append p xs ys (ground arith))
]

pub update_where-append :
    {A : Type 0} (p : A → Bool) (f : A → A) (xs : List A) (y : A)
    → update_where p f (xs ++ y ∷ []) ≡ update_where p f xs ++ (if p y then f y else y) ∷ []
update_where-append p f [] y = refl
update_where-append p f (x ∷ xs) y =
    ap (λ zs. (if p x then f x else x) ∷ zs) (update_where-append p f xs y)

pub find-where_rows :
    {A : Type 0} (p q : A → Bool) (xs : List A) {a : A}
    → find p xs ≡ some a
    → q a ≡ true
    → find p (where_rows q xs) ≡ some a
find-where_rows p q [] e h = cc
find-where_rows p q (x ∷ xs) {a} e h = elim (Bool-cases (p x)) [
  | inl t ↦
      let own : x ≡ a = ground arith in
      let kept : q x ≡ true = ap q own ∙ h in rw (kept, t) (ap some own)
  | inr n ↦
      let rest = find-where_rows p q xs (ground arith) h in
      elim (Bool-cases (q x)) [ inl k ↦ rw (k, n) rest | inr k ↦ rw k rest ]
]
