-- ===== src/Orders/Shelf.antt =====
-- `placeOnShelf`'s subquery: the lowest number that no parcel at the Node carries always exists.
use locoomo_api.Base.{
  ℕ, zero, suc, ◌+◌, ◌≤◌, ◌<◌, ◌≡◌, refl, Bool, false, not, Option, none, some, List, [], ◌∷◌,
  arith, if◌then◌else◌, inl, inr, Bool-cases, Option-cases, opt_is, any, where_rows, count_where,
  ◌||◌,
}
use locoomo_api.Orders.{Order, generate_series, sql_min, keep_min, is_on_shelf, lowest_free_shelf}

abbrev free : (ℕ → Bool) → ℕ → ℕ → List ℕ
free used k n = where_rows (λ i. not (used i)) (generate_series k n)

-- How many of `k`, `k + 1`, … `k + n - 1` are used.
abbrev hits : (ℕ → Bool) → ℕ → ℕ → ℕ
hits used k zero = 0
hits used k (suc n) = (if used k then 1 else 0) + hits used (suc k) n

sql_min-free_ge : (used : ℕ → Bool) (k n : ℕ) {m : ℕ} → sql_min (free used k n) ≡ some m → k ≤ m
sql_min-free_ge used k zero e = cc
sql_min-free_ge used k (suc n) {m} e = elim (Option-cases (sql_min (free used (suc k) n))) [
  | inl all_used ↦ ground arith
  | inr (i, e') ↦ ground (arith, sql_min-free_ge used (suc k) n e')
]

keep_min_first : (used : ℕ → Bool) (k n : ℕ) → keep_min (sql_min (free used (suc k) n)) k ≡ some k
keep_min_first used k n = elim (Option-cases (sql_min (free used (suc k) n))) [
  | inl all_used ↦ rw all_used
  | inr (i, e) ↦ rw e (ground (arith, sql_min-free_ge used (suc k) n e))
]

-- Among `n` numbers of which fewer than `n` are used, the minimum of the free ones exists.
sql_min-free :
    (used : ℕ → Bool) (k n : ℕ)
    → hits used k n < n
    → (m : ℕ) × (sql_min (free used k n) ≡ some m)
      × (used m ≡ false)
      × (k ≤ m)
      × (m < k + n)
      × ((i : ℕ) → k ≤ i → used i ≡ false → m ≤ i)
sql_min-free used k zero h = absurd (omega arith)
sql_min-free used k (suc n) h = elim (Bool-cases (used k)) [
  | inl taken ↦
      let (m, e, f, low, high, least) = sql_min-free used (suc k) n (ground arith) in
      (m, rw taken e, f, omega arith, omega arith, λ i p q. least i (ground (arith, taken, q)) q)
  | inr unused ↦
      (k, rw unused (keep_min_first used k n), unused, omega arith, omega arith, λ i p q. p)
]

hits-or :
    (p q r : ℕ → Bool) (k n : ℕ)
    → ((i : ℕ) → r i ≡ (p i || q i))
    → hits r k n ≤ hits p k n + hits q k n
hits-or p q r k zero h = omega arith
hits-or p q r k (suc n) h = ground (arith, h k, hits-or p q r (suc k) n h)

hits-opt_is_lt : (a k n : ℕ) → a < k → hits (λ i. opt_is (some a) i) k n ≡ 0
hits-opt_is_lt a k zero h = refl
hits-opt_is_lt a k (suc n) h = ground (arith, hits-opt_is_lt a (suc k) n)

-- A number is one of at most one place.
hits-opt_is : (o : Option ℕ) (k n : ℕ) → hits (λ i. opt_is o i) k n ≤ 1
hits-opt_is o k zero = omega arith
hits-opt_is none k (suc n) = ground (arith, hits-opt_is none (suc k) n)
hits-opt_is (some a) k (suc n) =
    ground (arith, hits-opt_is (some a) (suc k) n, hits-opt_is_lt a (suc k) n)

hits-none : (k n : ℕ) → hits (λ i. false) k n ≤ 0
hits-none k zero = omega arith
hits-none k (suc n) = omega (arith, hits-none (suc k) n)

hits-is_on_shelf :
    (node_id k n : ℕ) (o : Order)
    → hits (λ i. is_on_shelf node_id i o) k n ≤ (if opt_is o.shelf_node_id node_id then 1 else 0)
hits-is_on_shelf node_id k n o = elim (Bool-cases (opt_is o.shelf_node_id node_id)) [
  | inl at ↦ rw at (hits-opt_is o.shelf_number k n)
  | inr away ↦ rw away (hits-none k n)
]

-- Each parcel at the Node takes at most one number.
hits-any :
    (node_id k n : ℕ) (orders : List Order)
    → hits (λ i. any (is_on_shelf node_id i) orders) k n
      ≤ count_where (λ o. opt_is o.shelf_node_id node_id) orders
hits-any node_id k n [] = hits-none k n
hits-any node_id k n (o ∷ os) = omega (
  arith,
  hits-or (λ i. is_on_shelf node_id i o) (λ i. any (is_on_shelf node_id i) os)
      (λ i. any (is_on_shelf node_id i) (o ∷ os)) k n (λ i. refl),
  hits-is_on_shelf node_id k n o,
  hits-any node_id k n os,
)

-- The subquery never yields NULL: its answer is the least number from 1 on that no parcel at the
-- Node carries, and it is at most one more than the number of parcels there.
pub lowest_free_shelf_lem :
    (node_id : ℕ) (orders : List Order)
    → (n : ℕ) × (lowest_free_shelf node_id orders ≡ some n)
      × (any (is_on_shelf node_id n) orders ≡ false)
      × (1 ≤ n)
      × (n ≤ count_where (λ o. opt_is o.shelf_node_id node_id) orders + 1)
      × ((i : ℕ) → 1 ≤ i → any (is_on_shelf node_id i) orders ≡ false → n ≤ i)
unfolding lowest_free_shelf
lowest_free_shelf_lem node_id orders =
    let count = count_where (λ o. opt_is o.shelf_node_id node_id) orders in
    let (n, e, f, low, high, least) =
      sql_min-free (λ i. any (is_on_shelf node_id i) orders) 1 (count + 1)
        (omega (arith, hits-any node_id 1 (count + 1) orders)) in
    (n, e, f, low, omega arith, least)
