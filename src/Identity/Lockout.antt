-- ===== src/Identity/Lockout.antt =====
-- Guessing at the password of an account.
use locoomo_api.Base.{
  ℕ, suc, ◌+◌, ◌*◌, ◌≤◌, ◌<◌, ◌≡◌, refl, sym, ap, ◌∙◌, subst, Bool, true, false, none, some, List,
  [], ◌∷◌, ◌==◌, leb, find, put, find-put, inl, inr, ◌⊎◌, Bool-cases, Row-find, arith, length, All,
}
use locoomo_api.Effect.{err, invalid_credentials}
use locoomo_api.Outbox.{Text}
use locoomo_api.Identity.{User, Accounts, Platform, id_of}
use locoomo_api.Identity.Password.{verify_password}
use locoomo_api.Identity.Sessions.{
  is_locked, failed_once_more, register_failed_attempt, check_password, login_as, login,
}

-- A time, the token that would be given out, and a password.
abbrev pub Guess : Type 0
Guess = ℕ × ℕ × Text

module _ (w : Platform) (email : ℕ) where
  -- Logins one after the other.
  unfoldable pub logins : List Guess → Accounts → Accounts
  logins [] s = s
  logins ((now, raw, password) ∷ rest) s = logins rest ((login w now raw email password s).1)

  abbrev of_email : User → Bool
  of_email u = u.email == w.lower email

  -- Not before `from`, and not the password.
  abbrev pub IsMiss : ℕ → Text → Guess → Type 0
  IsMiss from password_hash (now, raw, password) =
      (from ≤ now) × (verify_password w.scrypt password password_hash ≡ false)

  while_locked :
      (now raw : ℕ) (password : Text) (s : Accounts) (user : User) (h : Text)
      → find of_email s.users ≡ some user
      → user.password_hash ≡ some h
      → is_locked now user.locked_until ≡ true
      → login w now raw email password s ≡ (err invalid_credentials, s)
  unfolding login
  while_locked now raw password s user h e k locked =
      ap (λ o. login_as w now raw password o s) e
      ∙ ap (λ o. check_password w now raw password user o s) k
      ∙ rw locked refl

  missed :
      (now raw : ℕ) (password : Text) (s : Accounts) (user : User) (h : Text)
      → find of_email s.users ≡ some user
      → user.password_hash ≡ some h
      → is_locked now user.locked_until ≡ false
      → verify_password w.scrypt password h ≡ false
      → login w now raw email password s ≡ (
        err invalid_credentials,
        record s { users = put id_of user.id (failed_once_more now user) s.users },
      )
  unfolding login register_failed_attempt
  missed now raw password s user h e k free wrong =
      ap (λ o. login_as w now raw password o s) e
      ∙ ap (λ o. check_password w now raw password user o s) k
      ∙ rw (free, wrong) refl

  -- After `n` wrong passwords: each has counted, or the account is locked.
  abbrev Held : ℕ → ℕ → User → Type 0
  Held from n user =
      ((user.locked_until ≡ none)
        × ((n ≡ 0) ⊎ ((n ≤ user.failed_login_attempts) × (user.failed_login_attempts < 5))))
      ⊎ ((until : ℕ) × (user.locked_until ≡ some until)
          × (from + 15 * 60000 ≤ until)
          × (5 ≤ user.failed_login_attempts))

  counted :
      (from n now : ℕ) (user : User)
      → from ≤ now
      → is_locked now user.locked_until ≡ false
      → Held from n user
      → Held from (suc n) (failed_once_more now user)
  counted from n now user late free (inl (unlocked, many)) =
      elim (Bool-cases (leb 5 (user.failed_login_attempts + 1))) [
        | inl t ↦ inr (now + 15 * 60000, rw t refl, omega (arith, late), (ground (arith, t)))
        | inr f ↦
            let few : user.failed_login_attempts + 1 < 5 = ground (arith, f) in
            inl (
              rw f unlocked,
              inr (elim many [
                | inl z ↦ (omega (arith, z), few)
                | inr (le, _) ↦ (omega (arith, le), few)
              ]),
            )
      ]
  counted from n now user late free (inr (until, e, le, five)) =
      let t : leb 5 (user.failed_login_attempts + 1) ≡ true = ground (arith, five) in
      inr (now + 15 * 60000, rw t refl, omega (arith, late), omega (arith, five))

  -- The account as the passwords leave it.
  abbrev HeldAt : ℕ → ℕ → Text → Accounts → Type 0
  HeldAt from n h s =
      (user : User) × (find of_email s.users ≡ some user)
      × (user.password_hash ≡ some h)
      × Held from n user

  locked_held :
      (from n now : ℕ) (user : User)
      → is_locked now user.locked_until ≡ true
      → Held from n user
      → Held from (suc n) user
  locked_held from n now user t (inl (unlocked, _)) =
      let bad : is_locked now user.locked_until ≡ false = ap (is_locked now) unlocked in cc
  locked_held from n now user t (inr held) = inr held

  logins-Held :
      (from n : ℕ) (h : Text) (gs : List Guess) (s : Accounts)
      → HeldAt from n h s
      → All (IsMiss from h) gs
      → HeldAt from (length gs + n) h (logins gs s)
  unfolding logins
  logins-Held from n h [] s held misses =
      let same : n ≡ 0 + n = omega arith in subst (λ j. HeldAt from j h s) same held
  logins-Held from n h ((now, raw, password) ∷ gs) s (user, e, k, held) misses =
      let (late, wrong) = misses.0 in
      let state : HeldAt from (suc n) h ((login w now raw email password s).1) =
        elim (Bool-cases (is_locked now user.locked_until)) [
          | inl t ↦
              subst (λ o. HeldAt from (suc n) h (o.1))
                (sym (while_locked now raw password s user h e k t))
                (user, e, k, locked_held from n now user t held)
          | inr f ↦
              let x = failed_once_more now user in
              subst (λ o. HeldAt from (suc n) h (o.1))
                (sym (missed now raw password s user h e k f wrong))
                (
                  x,
                  find-put id_of of_email x s.users e (Row-find of_email s.users e).1,
                  k,
                  counted from n now user late f held,
                )
        ] in
      let rest =
        logins-Held from (suc n) h gs ((login w now raw email password s).1) state (misses.1) in
      subst (λ j. HeldAt from j h (logins gs ((login w now raw email password s).1))) (omega arith)
        rest

  -- After five wrong passwords or more in a row for an account that was not locked, none of them
  -- before the time `from`, the account is locked until a quarter of an hour past `from` at least:
  -- until then any login is refused, with the right password too, and changes nothing.
  pub login-locks :
      (from : ℕ) (s : Accounts) (user : User) (h : Text) (gs : List Guess)
      → find of_email s.users ≡ some user
      → user.password_hash ≡ some h
      → user.locked_until ≡ none
      → All (IsMiss from h) gs
      → 5 ≤ length gs
      → (now raw : ℕ) (password : Text) → now < from + 15 * 60000
      → login w now raw email password (logins gs s) ≡ (err invalid_credentials, logins gs s)
  login-locks from s user h gs e k unlocked misses many now raw password soon =
      let (user', e', k', held) =
        logins-Held from 0 h gs s (user, e, k, inl (unlocked, inl refl)) misses in
      while_locked now raw password (logins gs s) user' h e' k' (locked user' held)
    where
      locked : (u : User) → Held from (length gs + 0) u → is_locked now u.locked_until ≡ true
      locked u (inl (_, inl z)) = absurd (omega (arith, z, many))
      locked u (inl (_, inr (le, few))) = absurd (omega (arith, le, few, many))
      locked u (inr (until, e2, le, _)) = ap (is_locked now) e2 ∙ ground (arith, le, soon)
