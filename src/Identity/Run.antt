-- ===== src/Identity/Run.antt =====
-- The services of src/modules/identity take the steps of Identity.Live.
use locoomo_api.Base.{
  ◌+◌, ◌*◌, ⊤, ℕ, suc, ◌≡◌, refl, sym, ap, ◌∙◌, subst, Bool, true, Option, none, some, [], ◌∷◌,
  ◌==◌, ltb, any, find, is_none, if◌then◌else◌, inl, inr, ◌⊎◌, ◌++◌, Bool-cases, Row, Row-find,
  update_where, arith,
}
use locoomo_api.Effect.{pure, or_throw, ◌>>=◌, throw_if, >>=_quiet, type_error, account_suspended}
use locoomo_api.Outbox.{Text}
use locoomo_api.Identity.{
  User, RefreshToken, Accounts, Identity, Platform, is_suspended, save_user, new_token,
}
use locoomo_api.Identity.Password.{verify_password}
use locoomo_api.Identity.Sessions.{
  password_reset_token_ttl_minutes, IssuedSession, insert_refresh_token, new_refresh_token,
  create_session, issue_session, issued_session, enter, forgiven, has_failures, check_password,
  login_as, login, is_locked, register_failed_attempt, check_token, rotate, refresh_with, refresh,
  logout, insert_reset_token, revoked,
}
use locoomo_api.Identity.SignUp.{insert_verification_token, insert_invite_token}
use locoomo_api.Identity.Live.{Steps, done, ended, drawn, begun, rotated, is_live, link_added}
use locoomo_api.Identity.Sequence.{>>=-Steps, throwing-Steps}

module _ (w : Platform) (now : ℕ) where
  pub verification-Steps :
      (raw user_id : ℕ) (s : Accounts) → Steps s ((insert_verification_token w now raw user_id s).1)
  unfolding insert_verification_token
  verification-Steps raw user_id s =
      elim (Bool-cases (any (λ t. t.token_hash == w.hash_token raw) s.verification_tokens)) [
        | inl t ↦ rw t done
        | inr f ↦ rw f done
      ]

  pub invite_token-Steps :
      (raw user_id : ℕ) (s : Accounts) → Steps s ((insert_invite_token w now raw user_id s).1)
  unfolding insert_invite_token
  invite_token-Steps raw user_id s =
      elim (Bool-cases (any (λ t. t.token_hash == w.hash_token raw) s.invite_tokens)) [
        | inl t ↦ rw t done
        | inr f ↦ rw f done
      ]

  pub reset_token-Steps :
      (raw user_id : ℕ) (s : Accounts) → Steps s ((insert_reset_token w now raw user_id s).1)
  unfolding insert_reset_token
  reset_token-Steps raw user_id s =
      elim (Bool-cases (any (λ t. t.token_hash == w.hash_token raw) s.reset_tokens)) [
        | inl t ↦ rw t done
        | inr f ↦ rw f (
            link_added
              (new_token s.next_id user_id (w.hash_token raw)
                (now + password_reset_token_ttl_minutes * 60000))
              done)
      ]

  -- A token that is made for a session is appended, or refused for its hash.
  create-cases :
      (raw : ℕ) (user : User) (family_id : ℕ) (s : Accounts)
      → ((create_session w now raw user family_id s).1 ≡ s)
        ⊎ ((create_session w now raw user family_id s).1 ≡ record s {
          refresh_tokens =
              s.refresh_tokens ++ new_refresh_token w now raw family_id user s.next_id ∷ [];
          next_id = suc s.next_id;
        })
  unfolding create_session insert_refresh_token
  create-cases raw user family_id s =
      let same =
        >>=_quiet (insert_refresh_token (new_refresh_token w now raw family_id user))
          (λ _. pure (issued_session w now raw user)) s (λ a t. refl) in
      elim (Bool-cases (any (λ t. t.token_hash == w.hash_token raw) s.refresh_tokens)) [
        | inl t ↦ inl (same ∙ rw t refl)
        | inr f ↦ inr (same ∙ rw f refl)
      ]

  pub issue-Steps :
      (raw : ℕ) (user : User) (s : Accounts) → Steps s ((issue_session w now raw user s).1)
  unfolding issue_session
  issue-Steps raw user s =
      let t : Accounts = record s { next_family_id = suc s.next_family_id } in
      elim (create-cases raw user s.next_family_id t) [
        | inl e ↦ subst (λ u. Steps s u) (sym e) (drawn done)
        | inr e ↦
            subst (λ u. Steps s u) (sym e)
              (begun (new_refresh_token w now raw s.next_family_id user s.next_id) refl done)
      ]

  rotate-Steps :
      (raw : ℕ) (stored : RefreshToken) (user : User) (s : Accounts)
      → Row stored s.refresh_tokens
      → is_none stored.revoked_at ≡ true
      → Steps s ((rotate w now raw stored user s).1)
  unfolding rotate
  rotate-Steps raw stored user s r live =
      let p : RefreshToken → Bool = λ t. t.id == stored.id in
      let t : Accounts = record s {
        refresh_tokens = update_where p (revoked now) s.refresh_tokens;
      } in
      let own : is_live stored.family_id stored ≡ true = ground (arith, live) in
      let same =
        >>=_quiet (create_session w now raw user stored.family_id) (λ session. pure (user, session))
          t (λ a u. refl) in
      elim (create-cases raw user stored.family_id t) [
        | inl e ↦ subst (λ u. Steps s u) (sym (same ∙ e)) (ended p now done)
        | inr e ↦
            subst (λ u. Steps s u) (sym (same ∙ e))
              (rotated stored (new_refresh_token w now raw stored.family_id user s.next_id) now r
                own done)
      ]

  enter-Steps : (raw : ℕ) (user : User) (s : Accounts) → Steps s ((enter w now raw user s).1)
  unfolding enter
  enter-Steps raw user s =
      let last : Identity (User × IssuedSession) =
        issue_session w now raw (forgiven user) >>= λ session. pure (forgiven user, session) in
      let rest : Identity (User × IssuedSession) =
        throw_if (is_suspended user.status) account_suspended >>= λ _. last in
      let go : (t : Accounts) → Steps t ((rest t).1) = λ t.
        throwing-Steps (is_suspended user.status) account_suspended (λ _. last) t
          (>>=-Steps (issue_session w now raw (forgiven user))
            (λ session. pure (forgiven user, session)) t (issue-Steps raw (forgiven user) t)
            (λ a u ran. done)) in
      let clean : Identity ⊤ = if has_failures user then save_user (forgiven user) else pure tt in
      >>=-Steps clean (λ _. rest) s
        (elim (Bool-cases (has_failures user)) [ inl t ↦ rw t done | inr f ↦ rw f done ])
        (λ a t ran. go t)

  check_password-Steps :
      (raw : ℕ) (password : Text) (user : User) (h : Option Text) (s : Accounts)
      → Steps s ((check_password w now raw password user h s).1)
  unfolding register_failed_attempt
  check_password-Steps raw password user none s = done
  check_password-Steps raw password user (some h) s =
      elim (Bool-cases (is_locked now user.locked_until)) [
        | inl t ↦ rw t done
        | inr f ↦ elim (Bool-cases (verify_password w.scrypt password h)) [
          | inl y ↦ rw (f, y) (enter-Steps raw user s)
          | inr n ↦ rw (f, n) done
        ]
      ]

  pub login-Steps :
      (raw email : ℕ) (password : Text) (s : Accounts)
      → Steps s ((login w now raw email password s).1)
  unfolding login
  login-Steps raw email password s = go (find (λ u. u.email == w.lower email) s.users)
    where
      go : (o : Option User) → Steps s ((login_as w now raw password o s).1)
      go none = done
      go (some user) = check_password-Steps raw password user user.password_hash s

  -- What is read of a token that is not revoked writes nothing.
  pub check_token-quiet :
      (stored : RefreshToken) (s : Accounts) → ((check_token w now stored none s).1) ≡ s
  unfolding check_token
  check_token-quiet stored s = elim (Bool-cases (ltb stored.expires_at now)) [
    | inl t ↦ rw t refl
    | inr f ↦ rw f (go (find (λ u. u.id == stored.user_id) s.users))
  ]
    where
      go :
          (o : Option User)
          → (((or_throw o type_error >>= λ user.
                throw_if (is_suspended user.status) account_suspended >>= λ _. pure user)
              s).1)
            ≡ s
      go none = refl
      go (some user) = elim (Bool-cases (is_suspended user.status)) [
        | inl t ↦ rw t refl
        | inr f ↦ rw f refl
      ]

  pub refresh-Steps : (raw token : ℕ) (s : Accounts) → Steps s ((refresh w now raw token s).1)
  unfolding refresh check_token
  refresh-Steps raw token s =
      go (find mine s.refresh_tokens) (λ t e. (Row-find mine s.refresh_tokens e).0)
    where
      mine : RefreshToken → Bool
      mine t = t.token_hash == w.hash_token token

      by :
          (stored : RefreshToken) (o : Option ℕ)
          → stored.revoked_at ≡ o
          → Row stored s.refresh_tokens
          → Steps s (((check_token w now stored o >>= rotate w now raw stored) s).1)
      by stored (some at) e r = ended (λ t. t.family_id == stored.family_id) now done
      by stored none e r =
          let same = check_token-quiet stored s in
          >>=-Steps (check_token w now stored none) (rotate w now raw stored) s
            (subst (λ t. Steps s t) (sym same) done)
            (λ user t ran.
              let t_is : t ≡ s = ap (λ o. o.1) (sym ran) ∙ same in
              rotate-Steps raw stored user t (subst (λ x. Row stored x.refresh_tokens) (sym t_is) r)
                (rw e refl))

      go :
          (o : Option RefreshToken)
          → ((t : RefreshToken) → o ≡ some t → Row t s.refresh_tokens)
          → Steps s ((refresh_with w now raw o s).1)
      go none h = done
      go (some stored) h = by stored stored.revoked_at refl (h stored refl)

  pub logout-Steps : (token : Option ℕ) (s : Accounts) → Steps s ((logout w now token s).1)
  unfolding logout
  logout-Steps none s = done
  logout-Steps (some token) s = ended (λ t. t.token_hash == w.hash_token token) now done
