-- ===== src/Identity/Sessions.antt =====
-- login-user, token-issuance, refresh-session, logout-user, request- and confirm-password-reset.service.ts
-- of src/modules/identity/application. Only the two resets run in a transaction.
use locoomo_api.Base.{
  ⊤, ℕ, suc, ◌+◌, ◌*◌, Bool, false, not, ◌&&◌, ◌||◌, Option, none, some, List, [], ◌∷◌, ◌++◌, ◌==◌,
  ltb, leb, find, any, is_none, where_rows, update_where, if◌then◌else◌,
}
use locoomo_api.Effect.{
  pure, throw, throw_if, gets, or_throw, ok, err, transaction, ◌>>=◌, ◌>>◌, modify, type_error,
  unique_violation, invalid_credentials, account_suspended, invalid_refresh_token,
  invalid_reset_token,
}
use locoomo_api.Outbox.{Text}
use locoomo_api.Identity.{
  User, RefreshToken, OneTimeToken, Identity, Platform, is_suspended, save_user, new_token,
  enqueue_email,
}
use locoomo_api.Identity.Password.{hash_password, verify_password}

abbrev max_failed_login_attempts : ℕ
max_failed_login_attempts = 5

abbrev lockout_duration_minutes : ℕ
lockout_duration_minutes = 15

abbrev access_token_ttl_seconds : ℕ
access_token_ttl_seconds = 15 * 60

abbrev refresh_token_ttl_days : ℕ
refresh_token_ttl_days = 30

abbrev pub password_reset_token_ttl_minutes : ℕ
password_reset_token_ttl_minutes = 30

pub record IssuedSession : Type 0 where
  pub access_token : ℕ
  pub refresh_token : ℕ
  pub access_token_expires_in_seconds : ℕ
  pub refresh_token_expires_at : ℕ

-- INSERT INTO refresh_tokens, whose `tokenHash` is unique.
unfoldable pub insert_refresh_token : (ℕ → RefreshToken) → Identity ⊤
insert_refresh_token make s =
    let token = make s.next_id in
    if any (λ t. t.token_hash == token.token_hash) s.refresh_tokens
    then (err unique_violation, s)
    else (
      ok tt,
      record s { refresh_tokens = s.refresh_tokens ++ token ∷ []; next_id = suc s.next_id },
    )

-- A family's id for a login.
abbrev draw_family_id : Identity ℕ
draw_family_id s = (ok s.next_family_id, record s { next_family_id = suc s.next_family_id })

abbrev pub new_refresh_token : Platform → ℕ → ℕ → ℕ → User → ℕ → RefreshToken
new_refresh_token w now raw family_id user id = record {
  id = id;
  user_id = user.id;
  token_hash = w.hash_token raw;
  family_id = family_id;
  expires_at = now + refresh_token_ttl_days * 86400000;
  revoked_at = none;
}

abbrev pub issued_session : Platform → ℕ → ℕ → User → IssuedSession
issued_session w now raw user = record {
  access_token = w.sign user.id user.role;
  refresh_token = raw;
  access_token_expires_in_seconds = access_token_ttl_seconds;
  refresh_token_expires_at = now + refresh_token_ttl_days * 86400000;
}

-- `user.lockedUntil && user.lockedUntil > now`
abbrev pub is_locked : ℕ → Option ℕ → Bool
is_locked now none = false
is_locked now (some until) = ltb now until

abbrev pub failed_once_more : ℕ → User → User
failed_once_more now user = record user {
  failed_login_attempts = user.failed_login_attempts + 1;
  locked_until =
      if leb max_failed_login_attempts (user.failed_login_attempts + 1)
      then some (now + lockout_duration_minutes * 60000)
      else user.locked_until;
}

abbrev pub has_failures : User → Bool
has_failures user = ltb 0 user.failed_login_attempts || not (is_none user.locked_until)

-- What a right password makes of the user.
abbrev pub forgiven : User → User
forgiven user =
    if has_failures user
    then record user { failed_login_attempts = 0; locked_until = none }
    else user

abbrev pub revoked : ℕ → RefreshToken → RefreshToken
revoked now t = record t { revoked_at = some now }

-- `update(RefreshTokenEntity, p, { revokedAt: now })`
abbrev revoke_where : (RefreshToken → Bool) → ℕ → Identity ⊤
revoke_where p now =
    modify λ s. record s { refresh_tokens = update_where p (revoked now) s.refresh_tokens }

abbrev pub is_over : ℕ → OneTimeToken → Bool
is_over now t = not (is_none t.used_at) || ltb t.expires_at now

abbrev pub use_token : ℕ → OneTimeToken → OneTimeToken
use_token now t = record t { used_at = some now }

module _ (w : Platform) (now : ℕ) where
  unfoldable pub create_session : ℕ → User → ℕ → Identity IssuedSession
  create_session raw user family_id = do
    insert_refresh_token (new_refresh_token w now raw family_id user)
    pure (issued_session w now raw user)

  unfoldable pub issue_session : ℕ → User → Identity IssuedSession
  issue_session raw user = draw_family_id >>= create_session raw user

  unfoldable pub enter : ℕ → User → Identity (User × IssuedSession)
  enter raw user = do
    if has_failures user then save_user (forgiven user) else pure tt
    throw_if (is_suspended user.status) account_suspended
    session ← issue_session raw (forgiven user)
    pure (forgiven user, session)

  unfoldable pub register_failed_attempt : User → Identity ⊤
  register_failed_attempt user = save_user (failed_once_more now user)

  abbrev pub check_password : ℕ → Text → User → Option Text → Identity (User × IssuedSession)
  check_password raw password user none = throw invalid_credentials
  check_password raw password user (some password_hash) =
      if is_locked now user.locked_until
      then throw invalid_credentials
      else if verify_password w.scrypt password password_hash
      then enter raw user
      else (register_failed_attempt user >> throw invalid_credentials)

  abbrev pub login_as : ℕ → Text → Option User → Identity (User × IssuedSession)
  login_as raw password none = throw invalid_credentials
  login_as raw password (some user) = check_password raw password user user.password_hash

  unfoldable pub login : ℕ → ℕ → Text → Identity (User × IssuedSession)
  login raw email password =
      gets (λ s. find (λ u. u.email == w.lower email) s.users) >>= login_as raw password

  -- What `refresh` reads: the token with its user, if it may be rotated.
  unfoldable pub check_token : RefreshToken → Option ℕ → Identity User
  check_token stored (some _) = do
    revoke_where (λ t. t.family_id == stored.family_id) now
    throw invalid_refresh_token
  check_token stored none = do
    owner ← gets (λ s. find (λ u. u.id == stored.user_id) s.users)
    throw_if (ltb stored.expires_at now) invalid_refresh_token
    user ← or_throw owner type_error
    throw_if (is_suspended user.status) account_suspended
    pure user

  -- What it writes then.
  unfoldable pub rotate : ℕ → RefreshToken → User → Identity (User × IssuedSession)
  rotate raw stored user = do
    revoke_where (λ t. t.id == stored.id) now
    session ← create_session raw user stored.family_id
    pure (user, session)

  abbrev pub refresh_with : ℕ → Option RefreshToken → Identity (User × IssuedSession)
  refresh_with raw none = throw invalid_refresh_token
  refresh_with raw (some stored) = check_token stored stored.revoked_at >>= rotate raw stored

  unfoldable pub refresh : ℕ → ℕ → Identity (User × IssuedSession)
  refresh raw token =
      gets (λ s. find (λ t. t.token_hash == w.hash_token token) s.refresh_tokens)
      >>= refresh_with raw

  unfoldable pub logout : Option ℕ → Identity ⊤
  logout none = pure tt
  logout (some token) = revoke_where (λ t. t.token_hash == w.hash_token token) now

  -- INSERT INTO password_reset_tokens, whose `tokenHash` is unique.
  unfoldable pub insert_reset_token : ℕ → ℕ → Identity ⊤
  insert_reset_token raw user_id s =
      if any (λ t. t.token_hash == w.hash_token raw) s.reset_tokens
      then (err unique_violation, s)
      else (
        ok tt,
        record s {
          reset_tokens =
              s.reset_tokens
              ++ new_token s.next_id user_id (w.hash_token raw)
                  (now + password_reset_token_ttl_minutes * 60000)
                ∷ [];
          next_id = suc s.next_id;
        },
      )

  abbrev pub is_unused_of : ℕ → OneTimeToken → Bool
  is_unused_of user_id t = t.user_id == user_id && is_none t.used_at

  unfoldable pub send_reset : ℕ → (ℕ → Text) → User → Identity ⊤
  send_reset raw message user = transaction (do
    modify (λ s. record s {
      reset_tokens = where_rows (λ t. not (is_unused_of user.id t)) s.reset_tokens;
    })
    insert_reset_token raw user.id
    enqueue_email now (message user.email))

  abbrev pub request_for : ℕ → (ℕ → Text) → Option User → Identity ⊤
  request_for raw message none = pure tt
  request_for raw message (some user) =
      if is_none user.password_hash then pure tt else send_reset raw message user

  unfoldable pub request_reset : ℕ → (ℕ → Text) → ℕ → Identity ⊤
  request_reset raw message email =
      gets (λ s. find (λ u. u.email == w.lower email) s.users) >>= request_for raw message

  abbrev pub new_password : Text → User → User
  new_password password_hash user = record user {
    password_hash = some password_hash;
    failed_login_attempts = 0;
    locked_until = none;
  }

  -- The transaction; `owner` is the user read with the token.
  unfoldable pub reset : List ℕ → (ℕ → Text) → Text → OneTimeToken → Option User → Identity ⊤
  reset salt message password stored owner = transaction (do
    modify (λ s. record s {
      reset_tokens = update_where (λ t. t.id == stored.id) (use_token now) s.reset_tokens;
      users =
          update_where (λ u. u.id == stored.user_id)
            (new_password (hash_password w.scrypt salt password)) s.users;
    })
    revoke_where (λ t. t.user_id == stored.user_id) now
    user ← or_throw owner type_error
    enqueue_email now (message user.email))

  abbrev pub confirm_with : List ℕ → (ℕ → Text) → Text → Option OneTimeToken → Identity ⊤
  confirm_with salt message password none = throw invalid_reset_token
  confirm_with salt message password (some stored) =
      if is_over now stored
      then throw invalid_reset_token
      else (gets (λ s. find (λ u. u.id == stored.user_id) s.users)
          >>= reset salt message password stored)

  unfoldable pub confirm_reset : List ℕ → (ℕ → Text) → ℕ → Text → Identity ⊤
  confirm_reset salt message token password =
      gets (λ s. find (λ t. t.token_hash == w.hash_token token) s.reset_tokens)
      >>= confirm_with salt message password
