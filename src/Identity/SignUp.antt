-- ===== src/Identity/SignUp.antt =====
-- register-user, verify-email, invite-user, confirm-invite, activate-user and my-profile.service.ts
-- of src/modules/identity/application.
use locoomo_api.Base.{
  ⊤, ℕ, suc, ◌+◌, ◌*◌, Option, none, some, List, [], ◌∷◌, ◌++◌, ◌==◌, find, any, or_else,
  update_where, if◌then◌else◌,
}
use locoomo_api.Effect.{
  Error, pure, throw, throw_if, gets, or_throw, ok, err, transaction, ◌>>=◌, ◌>>◌, modify,
  unique_violation, email_already_registered, invalid_verification_token, invalid_invite_token,
  entity_not_found,
}
use locoomo_api.Outbox.{Text}
use locoomo_api.Identity.{
  User, UserRole, consumer, node_operator, rider, node_staff, UserStatus, invited, pending_review,
  active, OneTimeToken, Identity, Platform, save_user, insert_user, new_token, enqueue_email,
}
use locoomo_api.Identity.Password.{hash_password}
use locoomo_api.Identity.Sessions.{is_over, use_token}

-- An account is for one of these roles ready at once, or waits for Admin.

abbrev pub initial_status : UserRole → UserStatus
initial_status node_operator = pending_review
initial_status rider = pending_review
initial_status _ = active

-- `catch` of a unique violation.
abbrev pub taken : Error → Error
taken unique_violation = email_already_registered
taken e = e

abbrev pub as_taken : {A : Type 0} → Identity A → Identity A
as_taken m s = let (r, t) = m s in elim r [ ok a ↦ (ok a, t) | err e ↦ (err (taken e), t) ]

pub record RegisterDto : Type 0 where
  pub first_name : Text
  pub last_name : Text
  pub email : ℕ
  pub password : Text
  pub role : Option UserRole

pub record InviteFields : Type 0 where
  pub first_name : Text
  pub last_name : Text
  pub email : ℕ
  pub phone : Text
  pub role : UserRole

-- The lengths in days and hours of the two kinds of links.
abbrev email_verification_token_ttl_hours : ℕ
email_verification_token_ttl_hours = 24

abbrev invite_token_ttl_days : ℕ
invite_token_ttl_days = 7

unfoldable pub activate : ℕ → Identity ⊤
activate user_id = modify λ s. record s {
  users = update_where (λ u. u.id == user_id) (λ u. record u { status = active }) s.users;
}

unfoldable pub update_mine : ℕ → Text → Identity User
update_mine user_id phone = do
  found ← gets (λ s. find (λ u. u.id == user_id) s.users)
  user ← or_throw found entity_not_found
  save_user (record user { phone = some phone })
  pure (record user { phone = some phone })

module _ (w : Platform) (now : ℕ) where
  unfoldable pub insert_verification_token : ℕ → ℕ → Identity ⊤
  insert_verification_token raw user_id s =
      if any (λ t. t.token_hash == w.hash_token raw) s.verification_tokens
      then (err unique_violation, s)
      else (
        ok tt,
        record s {
          verification_tokens =
              s.verification_tokens
              ++ new_token s.next_id user_id (w.hash_token raw)
                  (now + email_verification_token_ttl_hours * 3600000)
                ∷ [];
          next_id = suc s.next_id;
        },
      )

  unfoldable pub insert_invite_token : ℕ → ℕ → Identity ⊤
  insert_invite_token raw user_id s =
      if any (λ t. t.token_hash == w.hash_token raw) s.invite_tokens
      then (err unique_violation, s)
      else (
        ok tt,
        record s {
          invite_tokens =
              s.invite_tokens
              ++ new_token s.next_id user_id (w.hash_token raw)
                  (now + invite_token_ttl_days * 86400000)
                ∷ [];
          next_id = suc s.next_id;
        },
      )

  abbrev pub registered_user : List ℕ → RegisterDto → ℕ → User
  registered_user salt dto id =
      let role = or_else dto.role consumer in
      record {
        id = id;
        email = w.lower dto.email;
        password_hash = some (hash_password w.scrypt salt dto.password);
        first_name = dto.first_name;
        last_name = dto.last_name;
        phone = none;
        google_id = none;
        role = role;
        status = initial_status role;
        consent_accepted_at = some now;
        email_verified_at = none;
        failed_login_attempts = 0;
        locked_until = none;
      }

  abbrev pub throw_if_taken : ℕ → Identity ⊤
  throw_if_taken email = do
    taken ← gets (λ s. any (λ u. u.email == email) s.users)
    throw_if taken email_already_registered

  unfoldable pub register : List ℕ → ℕ → (ℕ → Text) → RegisterDto → Identity User
  register salt raw message dto = do
    throw_if_taken (w.lower dto.email)
    as_taken (
        transaction (do
          user ← insert_user (registered_user salt dto)
          insert_verification_token raw user.id
          enqueue_email now (message user.email)
          pure user))

  abbrev pub verify_with : Option OneTimeToken → Identity ⊤
  verify_with none = throw invalid_verification_token
  verify_with (some stored) =
      if is_over now stored
      then throw invalid_verification_token
      else modify (λ s. record s {
        verification_tokens =
            update_where (λ t. t.id == stored.id) (use_token now) s.verification_tokens;
        users =
            update_where (λ u. u.id == stored.user_id)
              (λ u. record u { email_verified_at = some now }) s.users;
      })

  unfoldable pub verify_email : ℕ → Identity ⊤
  verify_email token =
      gets (λ s. find (λ t. t.token_hash == w.hash_token token) s.verification_tokens)
      >>= verify_with

  abbrev pub invited_user : InviteFields → ℕ → User
  invited_user fields id = record {
    id = id;
    email = fields.email;
    password_hash = none;
    first_name = fields.first_name;
    last_name = fields.last_name;
    phone = some fields.phone;
    google_id = none;
    role = fields.role;
    status = invited;
    consent_accepted_at = none;
    email_verified_at = none;
    failed_login_attempts = 0;
    locked_until = none;
  }

  unfoldable pub create_invite : ℕ → (ℕ → Text) → InviteFields → Identity User
  create_invite raw message fields = do
    user ← insert_user (invited_user fields)
    insert_invite_token raw user.id
    enqueue_email now (message user.email)
    pure user

  abbrev pub with_email : ℕ → InviteFields → InviteFields
  with_email email fields = record fields { email = email }

  unfoldable pub invite : ℕ → (ℕ → Text) → InviteFields → Identity User
  invite raw message dto = do
    throw_if_taken (w.lower dto.email)
    as_taken (transaction (create_invite raw message (with_email (w.lower dto.email) dto)))

  abbrev pub staff_fields : ℕ → InviteFields → InviteFields
  staff_fields email fields = record fields { email = email; role = node_staff }

  -- Within the caller's transaction.
  unfoldable pub invite_node_staff : ℕ → (ℕ → Text) → InviteFields → Identity User
  invite_node_staff raw message fields = do
    throw_if_taken (w.lower fields.email)
    as_taken (
        create_invite raw message
          (record fields { email = w.lower fields.email; role = node_staff }))

  abbrev pub accepted : Text → User → User
  accepted password_hash user = record user {
    password_hash = some password_hash;
    status = active;
    consent_accepted_at = some now;
    email_verified_at = some now;
  }

  abbrev pub accept_with : List ℕ → Text → Option OneTimeToken → Identity ⊤
  accept_with salt password none = throw invalid_invite_token
  accept_with salt password (some stored) =
      if is_over now stored
      then throw invalid_invite_token
      else modify (λ s. record s {
        invite_tokens = update_where (λ t. t.id == stored.id) (use_token now) s.invite_tokens;
        users =
            update_where (λ u. u.id == stored.user_id)
              (accepted (hash_password w.scrypt salt password)) s.users;
      })

  unfoldable pub confirm_invite : List ℕ → ℕ → Text → Identity ⊤
  confirm_invite salt token password =
      gets (λ s. find (λ t. t.token_hash == w.hash_token token) s.invite_tokens)
      >>= accept_with salt password
