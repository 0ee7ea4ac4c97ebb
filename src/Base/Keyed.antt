-- ===== src/Base/Keyed.antt =====
-- Tables with a key: no two rows have the same one.
use Prim.Native.Nat.{ℕ, ◌+◌}
use mathlib.Core.Path.{◌≡◌, refl, ap, sym, subst, ◌∙◌}
use mathlib.Core.Bool.{Bool, true, false}
use mathlib.Core.Logic.{◌⊎◌, inl, inr}
use mathlib.Core.Option.{some}
use mathlib.Core.List.{List, [], ◌∷◌, ◌++◌}
use native.Mathlib.Omega.{arith}
use locoomo_api.Base.Tests.{if◌then◌else◌, Bool-cases, ◌==◌, ==_iff}
use locoomo_api.Base.Lists.{
  any, find, count_where, update_where, Row, here, there, Row-update_where, Row-update_where_of_Row,
  any-Row,
}

-- What a row adds to a count.
abbrev pub one_if : Bool → ℕ
one_if b = if b then 1 else 0

module _ {A : Type 0} where
  pub any-none :
      (p : A → Bool) (xs : List A) → ((a : A) → Row a xs → p a ≡ false) → any p xs ≡ false
  any-none p [] h = refl
  any-none p (x ∷ xs) h = rw (h x (here refl)) (any-none p xs (λ a r. h a (there r)))

  pub any-append_one :
      (p : A → Bool) (xs : List A) (x : A)
      → any p xs ≡ false
      → p x ≡ false
      → any p (xs ++ x ∷ []) ≡ false
  any-append_one p [] x h k = rw k refl
  any-append_one p (y ∷ ys) x h k =
      let f : p y ≡ false = any-Row p {xs = y ∷ ys} h (here refl) in
      rw f (any-append_one p ys x (subst (λ b. (if b then true else any p ys) ≡ false) f (h' f)) k)
    where
      h' : p y ≡ false → (if p y then true else any p ys) ≡ false
      h' f = ground (arith, h)

  pub count_where-append_one :
      (p : A → Bool) (xs : List A) (x : A)
      → count_where p (xs ++ x ∷ []) ≡ count_where p xs + one_if (p x)
  count_where-append_one p [] x = omega arith
  count_where-append_one p (y ∷ ys) x = omega (arith, count_where-append_one p ys x)

module _ {A : Type 0} (key : A → ℕ) where
  abbrev pub IsDistinct : List A → Type 0
  IsDistinct [] = Unit
  IsDistinct (x ∷ xs) = (any (λ a. key a == key x) xs ≡ false) × IsDistinct xs

  -- `repo.save(x)` of a row that is in the table.
  abbrev pub put : ℕ → A → List A → List A
  put k x xs = update_where (λ a. key a == k) (λ _. x) xs

  apart : (a x : A) (xs : List A) → IsDistinct (x ∷ xs) → Row a xs → (key a == key x) ≡ false
  apart a x xs d r = any-Row (λ b. key b == key x) {xs = xs} (d.0) r

  pub Row-one :
      {a b : A} (xs : List A) → IsDistinct xs → Row a xs → Row b xs → key a ≡ key b → a ≡ b
  Row-one [] d r q e = elim r [ ]
  Row-one (x ∷ xs) d (here f) (here g) e = f ∙ sym g
  Row-one {a} {b} (x ∷ xs) d (here f) (there q) e =
      let h = apart b x xs d q in let g = ap key f in ground (arith, h, g, e)
  Row-one {a} {b} (x ∷ xs) d (there r) (here g) e =
      let h = apart a x xs d r in let f = ap key g in ground (arith, h, f, e)
  Row-one (x ∷ xs) d (there r) (there q) e = Row-one xs (d.1) r q e

  pub any-update :
      (p : A → Bool) (f : A → A) (k : ℕ)
      → ((a : A) → p a ≡ true → key (f a) ≡ key a)
      → (xs : List A) → any (λ a. key a == k) (update_where p f xs) ≡ any (λ a. key a == k) xs
  any-update p f k keeps [] = refl
  any-update p f k keeps (x ∷ xs) = elim (Bool-cases (p x)) [
    | inl t ↦ rw (t, keeps x t, any-update p f k keeps xs) refl
    | inr g ↦ rw (g, any-update p f k keeps xs) refl
  ]

  -- An update that keeps the keys keeps them distinct.
  pub update-IsDistinct :
      (p : A → Bool) (f : A → A)
      → ((a : A) → p a ≡ true → key (f a) ≡ key a)
      → (xs : List A) → IsDistinct xs
      → IsDistinct (update_where p f xs)
  update-IsDistinct p f keeps [] d = tt
  update-IsDistinct p f keeps (x ∷ xs) d = (
    any-update p f (key (if p x then f x else x)) keeps xs
        ∙ ap (λ k. any (λ a. key a == k) xs) (same x)
        ∙ d.0,
    update-IsDistinct p f keeps xs (d.1),
  )
    where
      same : (a : A) → key (if p a then f a else a) ≡ key a
      same a = elim (Bool-cases (p a)) [ inl t ↦ rw t (keeps a t) | inr g ↦ rw g refl ]

  pub put-IsDistinct :
      (k : ℕ) (x : A) → key x ≡ k → (xs : List A) → IsDistinct xs → IsDistinct (put k x xs)
  put-IsDistinct k x e xs d =
      update-IsDistinct (λ a. key a == k) (λ _. x) (λ a h. e ∙ sym ((==_iff (key a) k).0 h)) xs d

  pub append-IsDistinct :
      (xs : List A) (x : A)
      → IsDistinct xs
      → ((a : A) → Row a xs → (key x == key a) ≡ false)
      → IsDistinct (xs ++ x ∷ [])
  append-IsDistinct [] x d h = (refl, tt)
  append-IsDistinct (y ∷ ys) x d h = (
    any-append_one (λ a. key a == key y) ys x (d.0) (h y (here refl)),
    append-IsDistinct ys x (d.1) (λ a r. h a (there r)),
  )

  -- The rows after a save.
  pub Row-put :
      (k : ℕ) (x : A) (xs : List A) {b : A}
      → Row b (put k x xs)
      → (b ≡ x) ⊎ (Row b xs × ((key b == k) ≡ false))
  Row-put k x xs {b} r =
      let (a, q, e) = Row-update_where (λ a. key a == k) (λ _. x) xs r in
      elim (Bool-cases (key a == k)) [
        | inl t ↦ let stands : b ≡ x = e ∙ rw t refl in inl stands
        | inr f ↦
            let stands : b ≡ a = e ∙ rw f refl in
            inr (subst (λ c. Row c xs × ((key c == k) ≡ false)) (sym stands) (q, f))
      ]

  pub put-new : (x : A) {i : A} (xs : List A) → Row i xs → Row x (put (key i) x xs)
  put-new x {i} xs r =
      let own : (key i == key i) ≡ true = (==_iff (key i) (key i)).1 refl in
      let stands : (if key i == key i then x else i) ≡ x = rw own refl in
      subst (λ c. Row c (put (key i) x xs)) stands
        (Row-update_where_of_Row (λ a. key a == key i) (λ _. x) r)

  pub put-other :
      (k : ℕ) (x : A) {a : A} (xs : List A) → Row a xs → (key a == k) ≡ false → Row a (put k x xs)
  put-other k x {a} xs r f =
      let stands : (if key a == k then x else a) ≡ a = rw f refl in
      subst (λ c. Row c (put k x xs)) stands (Row-update_where_of_Row (λ b. key b == k) (λ _. x) r)

  put-none : (k : ℕ) (x : A) (xs : List A) → any (λ a. key a == k) xs ≡ false → put k x xs ≡ xs
  put-none k x [] h = refl
  put-none k x (y ∷ ys) h =
      let f : (key y == k) ≡ false = any-Row (λ a. key a == k) {xs = y ∷ ys} h (here refl) in
      let rest : any (λ a. key a == k) ys ≡ false = ground (arith, h) in
      rw f (ap (λ zs. y ∷ zs) (put-none k x ys rest))

  -- A save moves a count by what the row that it replaces and the new one add to it.
  pub count_where-put :
      (p : A → Bool) (x : A) {i : A} (xs : List A)
      → IsDistinct xs
      → Row i xs
      → count_where p (put (key i) x xs) + one_if (p i) ≡ count_where p xs + one_if (p x)
  count_where-put p x [] d r = elim r [ ]
  count_where-put p x {i} (y ∷ ys) d (here e) =
      let own : (key y == key i) ≡ true = (==_iff (key y) (key i)).1 (sym (ap key e)) in
      let rest : put (key i) x ys ≡ ys =
        put-none (key i) x ys (ap (λ k. any (λ a. key a == k) ys) (ap key e) ∙ d.0) in
      let old : one_if (p i) ≡ one_if (p y) = ap (λ a. one_if (p a)) e in
      rw (own, rest, old) (omega arith)
  count_where-put p x {i} (y ∷ ys) d (there r) =
      let h = apart i y ys d r in
      let other : (key y == key i) ≡ false = ground (arith, h) in
      let rest = count_where-put p x ys (d.1) r in rw other (omega (arith, rest))

-- An update that no test of a count sees.
pub count_where-update :
    {A : Type 0} (p q : A → Bool) (f : A → A)
    → ((a : A) → p (f a) ≡ p a)
    → (xs : List A) → count_where p (update_where q f xs) ≡ count_where p xs
count_where-update p q f keeps [] = refl
count_where-update p q f keeps (x ∷ xs) = elim (Bool-cases (q x)) [
  | inl t ↦ rw (t, keeps x, count_where-update p q f keeps xs) refl
  | inr n ↦ rw (n, count_where-update p q f keeps xs) refl
]

-- An UPDATE of one row is a save of what becomes of it.
pub update-put :
    {A : Type 0} (key : A → ℕ) (k : ℕ) (f : A → A) (x : A) (xs : List A)
    → ((a : A) → Row a xs → key a ≡ k → f a ≡ x)
    → update_where (λ a. key a == k) f xs ≡ put key k x xs
update-put key k f x [] h = refl
update-put key k f x (y ∷ ys) h = elim (Bool-cases (key y == k)) [
  | inl t ↦
      rw
        (
          t,
          h y (here refl) ((==_iff (key y) k).0 t),
          update-put key k f x ys (λ a r. h a (there r)),
        )
        refl
  | inr n ↦ rw (n, update-put key k f x ys (λ a r. h a (there r))) refl
]

pub count_where-none :
    {A : Type 0} (p : A → Bool) (xs : List A) → any p xs ≡ false → count_where p xs ≡ 0
count_where-none p [] h = refl
count_where-none p (x ∷ xs) h =
    let f : p x ≡ false = any-Row p {xs = x ∷ xs} h (here refl) in
    let rest : any p xs ≡ false = any-none p xs (λ a r. any-Row p {xs = x ∷ xs} h (there r)) in
    rw (f, count_where-none p xs rest) refl

-- A search that found a row finds what it is saved as, if it looks for that too.
pub find-put :
    {A : Type 0} (key : A → ℕ) (p : A → Bool) (x : A) {a : A} (xs : List A)
    → find p xs ≡ some a
    → p x ≡ true
    → find p (put key (key a) x xs) ≡ some x
find-put key p x [] e h = cc
find-put key p x {a} (y ∷ ys) e h = elim (Bool-cases (key y == key a)) [
  | inl t ↦ rw (t, h) refl
  | inr n ↦ elim (Bool-cases (p y)) [
    | inl t ↦
        let own : y ≡ a = ground arith in
        let same : (key y == key a) ≡ true = (==_iff (key y) (key a)).1 (ap key own) in cc
    | inr f ↦ rw (n, f) (find-put key p x ys (ground arith) h)
  ]
]
