-- ===== src/Identity/Entries.antt =====
-- The services of Identity.SignUp and Identity.Google, and the password reset, take the steps of
-- Identity.Live.
use locoomo_api.Base.{
  arith, ⊤, ℕ, Bool, not, Option, none, some, List, ◌==◌, any, find, is_none, opt_is, or_else, inl,
  inr, Bool-cases, where_rows,
}
use locoomo_api.Effect.{
  pure, or_throw, modify, transaction, ◌>>=◌, ◌>>◌, account_suspended, invalid_google_token,
  entity_not_found, email_already_registered, consent_required,
}
use locoomo_api.Outbox.{Text}
use locoomo_api.Identity.{
  User, UserRole, OneTimeToken, Accounts, Identity, Platform, is_suspended, save_user, insert_user,
  enqueue_email,
}
use locoomo_api.Identity.Sessions.{
  IssuedSession, issue_session, insert_reset_token, is_unused_of, send_reset, request_for,
  request_reset, reset, confirm_with, confirm_reset, is_over,
}
use locoomo_api.Identity.SignUp.{
  invite_node_staff, staff_fields, RegisterDto, InviteFields, insert_verification_token,
  insert_invite_token, registered_user, register, verify_with, verify_email, create_invite,
  invited_user, with_email, invite, accept_with, confirm_invite, update_mine, as_taken,
  throw_if_taken,
}
use locoomo_api.Identity.Google.{
  GoogleIdentity, google_login, google_user, resolve_name, sign_up, google_new, authenticate,
}
use locoomo_api.Identity.Sequence.{
  >>=-Steps, transaction-Steps, as_taken-Steps, throwing-Steps, or_throw-Steps, insert_user-Steps,
}
use locoomo_api.Identity.Live.{Steps, done, ended, link_used, links_dropped}
use locoomo_api.Identity.Run.{
  verification-Steps, invite_token-Steps, reset_token-Steps, issue-Steps,
}

pub profile-Steps :
    (user_id : ℕ) (phone : Text) (s : Accounts) → Steps s ((update_mine user_id phone s).1)
unfolding update_mine
profile-Steps user_id phone s =
    or_throw-Steps (find (λ u. u.id == user_id) s.users) entity_not_found
      (λ user.
        save_user (record user { phone = some phone }) >> pure (record user { phone = some phone }))
      s (λ user. done)

module _ (w : Platform) (now : ℕ) where
  pub request-Steps :
      (raw : ℕ) (message : ℕ → Text) (email : ℕ) (s : Accounts)
      → Steps s ((request_reset w now raw message email s).1)
  unfolding request_reset send_reset
  request-Steps raw message email s = go (find (λ u. u.email == w.lower email) s.users)
    where
      go : (o : Option User) → Steps s ((request_for w now raw message o s).1)
      go none = done
      go (some user) = elim (Bool-cases (is_none user.password_hash)) [
        | inl t ↦ rw t done
        | inr f ↦
            let clear : Identity ⊤ = modify (λ s. record s {
              reset_tokens = where_rows (λ t. not (is_unused_of w now user.id t)) s.reset_tokens;
            }) in
            let tell : Identity ⊤ = enqueue_email now (message user.email) in
            rw f (
              transaction-Steps (clear >> (insert_reset_token w now raw user.id >> tell)) s (
                >>=-Steps clear (λ _. insert_reset_token w now raw user.id >> tell) s
                  (links_dropped (λ t. not (is_unused_of w now user.id t))
                    (λ l used. ground (arith, used)) done)
                  (λ a t ran.
                    >>=-Steps (insert_reset_token w now raw user.id) (λ _. tell) t
                      (reset_token-Steps w now raw user.id t) (λ b u went. done))))
      ]

  pub confirm-Steps :
      (salt : List ℕ) (message : ℕ → Text) (token : ℕ) (password : Text) (s : Accounts)
      → Steps s ((confirm_reset w now salt message token password s).1)
  unfolding confirm_reset reset
  confirm-Steps salt message token password s =
      go (find (λ t. t.token_hash == w.hash_token token) s.reset_tokens)
    where
      end :
          (stored : OneTimeToken) (o : Option User)
          → Steps s ((reset w now salt message password stored o s).1)
      end stored none = done
      end stored (some user) =
          link_used (λ t. t.id == stored.id) now (ended (λ t. t.user_id == stored.user_id) now done)

      go : (o : Option OneTimeToken) → Steps s ((confirm_with w now salt message password o s).1)
      go none = done
      go (some stored) = elim (Bool-cases (is_over now stored)) [
        | inl t ↦ rw t done
        | inr f ↦ rw f (end stored (find (λ u. u.id == stored.user_id) s.users))
      ]

  free-Steps :
      {B : Type 0} (email : ℕ) (f : ⊤ → Identity B) (s : Accounts)
      → Steps s ((f tt s).1)
      → Steps s (((throw_if_taken w now email >>= f) s).1)
  free-Steps email f s h =
      throwing-Steps (any (λ u. u.email == email) s.users) email_already_registered f s h

  -- A user is inserted, then a token, then an e-mail is sent.
  account-Steps :
      (make : ℕ → User) (token : ℕ → Identity ⊤) (message : ℕ → Text)
      → ((id : ℕ) → (t : Accounts) → Steps t ((token id t).1))
      → (s : Accounts)
      → Steps s (
          ((insert_user make >>= λ user.
          token user.id >> (enqueue_email now (message user.email) >> pure user))
            s).1)
  account-Steps make token message h s =
      >>=-Steps (insert_user make)
        (λ user. token user.id >> (enqueue_email now (message user.email) >> pure user)) s
        (insert_user-Steps make s)
        (λ user t ran.
          >>=-Steps (token user.id) (λ _. enqueue_email now (message user.email) >> pure user) t
            (h user.id t) (λ a u went. done))

  pub register-Steps :
      (salt : List ℕ) (raw : ℕ) (message : ℕ → Text) (dto : RegisterDto) (s : Accounts)
      → Steps s ((register w now salt raw message dto s).1)
  unfolding register
  register-Steps salt raw message dto s =
      let body : Identity User = insert_user (registered_user w now salt dto) >>= λ user.
      insert_verification_token w now raw user.id
      >> (enqueue_email now (message user.email) >> pure user) in
      free-Steps (w.lower dto.email) (λ _. as_taken (transaction body)) s
        (as_taken-Steps (transaction body) s (
          transaction-Steps body s (
            account-Steps (registered_user w now salt dto) (insert_verification_token w now raw)
              message (λ id t. verification-Steps w now raw id t) s)))

  pub invite-Steps :
      (raw : ℕ) (message : ℕ → Text) (dto : InviteFields) (s : Accounts)
      → Steps s ((invite w now raw message dto s).1)
  unfolding invite create_invite
  invite-Steps raw message dto s =
      let body : Identity User =
        create_invite w now raw message (with_email w now (w.lower dto.email) dto) in
      free-Steps (w.lower dto.email) (λ _. as_taken (transaction body)) s
        (as_taken-Steps (transaction body) s (
          transaction-Steps body s (
            account-Steps (invited_user w now (with_email w now (w.lower dto.email) dto))
              (insert_invite_token w now raw) message (λ id t. invite_token-Steps w now raw id t)
              s)))

  pub staff-Steps :
      (raw : ℕ) (message : ℕ → Text) (fields : InviteFields) (s : Accounts)
      → Steps s ((transaction (invite_node_staff w now raw message fields) s).1)
  unfolding invite_node_staff create_invite
  staff-Steps raw message fields s =
      let body : Identity User =
        create_invite w now raw message (staff_fields w now (w.lower fields.email) fields) in
      transaction-Steps (invite_node_staff w now raw message fields) s (
        free-Steps (w.lower fields.email) (λ _. as_taken body) s
          (as_taken-Steps body s (
            account-Steps (invited_user w now (staff_fields w now (w.lower fields.email) fields))
              (insert_invite_token w now raw) message (λ id t. invite_token-Steps w now raw id t)
              s)))

  pub verify-Steps : (token : ℕ) (s : Accounts) → Steps s ((verify_email w now token s).1)
  unfolding verify_email
  verify-Steps token s = go (find (λ t. t.token_hash == w.hash_token token) s.verification_tokens)
    where
      go : (o : Option OneTimeToken) → Steps s ((verify_with w now o s).1)
      go none = done
      go (some stored) = elim (Bool-cases (is_over now stored)) [
        | inl t ↦ rw t done
        | inr f ↦ rw f done
      ]

  pub accept-Steps :
      (salt : List ℕ) (token : ℕ) (password : Text) (s : Accounts)
      → Steps s ((confirm_invite w now salt token password s).1)
  unfolding confirm_invite
  accept-Steps salt token password s =
      go (find (λ t. t.token_hash == w.hash_token token) s.invite_tokens)
    where
      go : (o : Option OneTimeToken) → Steps s ((accept_with w now salt password o s).1)
      go none = done
      go (some stored) = elim (Bool-cases (is_over now stored)) [
        | inl t ↦ rw t done
        | inr f ↦ rw f done
      ]

  abbrev with_session : ℕ → User → Identity (User × IssuedSession)
  with_session raw user = do session ← issue_session w now raw user; pure (user, session)

  session-Steps : (raw : ℕ) (user : User) (s : Accounts) → Steps s ((with_session raw user s).1)
  session-Steps raw user s =
      >>=-Steps (issue_session w now raw user) (λ session. pure (user, session)) s
        (issue-Steps w now raw user s) (λ a t ran. done)

  sign_up-Steps :
      (raw : ℕ) (consent : Bool) (role : Option UserRole) (who : GoogleIdentity) (email : ℕ)
      (s : Accounts)
      → Steps s ((sign_up w now raw consent role who email s).1)
  unfolding sign_up
  sign_up-Steps raw consent role who email s =
      let body : Text × Text → Identity (User × IssuedSession) = λ name.
        insert_user (google_user w now who email (or_else role UserRole.consumer) name) >>= λ user.
        with_session raw user in
      throwing-Steps (not consent) consent_required
        (λ _.
          or_throw (resolve_name w now who) invalid_google_token >>= λ name. as_taken (body name))
        s
        (or_throw-Steps (resolve_name w now who) invalid_google_token (λ name. as_taken (body name))
          s
          (λ name. as_taken-Steps (body name) s (
            >>=-Steps
              (insert_user (google_user w now who email (or_else role UserRole.consumer) name))
              (λ user. with_session raw user) s
              (insert_user-Steps (google_user w now who email (or_else role UserRole.consumer) name)
                s)
              (λ user t ran. session-Steps raw user t))))

  pub google-Steps :
      (raw : ℕ) (consent : Bool) (role : Option UserRole) (verified : Option GoogleIdentity)
      (s : Accounts)
      → Steps s ((authenticate w now raw consent role verified s).1)
  unfolding authenticate google_login
  google-Steps raw consent role none s = done
  google-Steps raw consent role (some who) s = elim (Bool-cases (not who.email_verified)) [
    | inl t ↦ rw t done
    | inr f ↦ rw f (go (find (λ u. opt_is u.google_id who.sub) s.users))
  ]
    where
      go : (o : Option User) → Steps s ((google_new w now raw consent role who o s).1)
      go (some user) =
          throwing-Steps (is_suspended user.status) account_suspended (λ _. with_session raw user) s
            (session-Steps raw user s)
      go none =
          free-Steps (w.lower who.email)
            (λ _. sign_up w now raw consent role who (w.lower who.email)) s
            (sign_up-Steps raw consent role who (w.lower who.email) s)
