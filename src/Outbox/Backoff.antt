-- ===== src/Outbox/Backoff.antt =====
-- The waits between the attempts at an outbox event.
use locoomo_api.Base.{ℕ, zero, suc, ◌*◌, ◌-◌, ◌^◌, ◌≤◌, ◌≡◌, min, arith}
use locoomo_api.Outbox.{compute_backoff_ms}

one_at_least : (n : ℕ) → 1 ≤ 2 ^ n
one_at_least zero = omega arith
one_at_least (suc n) = let h = one_at_least n in omega arith

between :
    (b : ℕ)
    → 1 ≤ b
    → (30000 ≤ min (30000 * b) 900000)
      × (min (30000 * b) 900000 ≤ 900000)
      × (min (30000 * b) 900000 ≤ min (30000 * (2 * b)) 900000)
between b h = (omega arith, omega arith, omega arith)

doubles : (n : ℕ) → 2 ^ suc n ≡ 2 * 2 ^ n
doubles n = omega arith

-- A later failure never has a shorter wait, and each wait is between half a minute and a quarter of
-- an hour.
pub compute_backoff_ms-bounds :
    (attempts : ℕ)
    → (30000 ≤ compute_backoff_ms (suc attempts))
      × (compute_backoff_ms (suc attempts) ≤ 900000)
      × (compute_backoff_ms (suc attempts) ≤ compute_backoff_ms (suc (suc attempts)))
unfolding compute_backoff_ms
compute_backoff_ms-bounds attempts =
    let (low, high, up) = between (2 ^ attempts) (one_at_least attempts) in
    let d = doubles attempts in
    let here : suc attempts - 1 ≡ attempts = omega arith in
    let next : suc (suc attempts) - 1 ≡ suc attempts = omega arith in
    rw (here, next, d) (low, high, up)
