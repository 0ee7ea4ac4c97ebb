-- ===== src/Identity.antt =====
-- src/modules/identity: the tables of users and of their tokens. E-mail addresses, Google's account
-- ids, raw tokens and their hashes are only compared, so they are numbers.
pub mod Sequence
pub mod Entries
pub mod Google
pub mod Password
pub mod Sessions
pub mod SignUp
pub mod Live
pub mod Spent
pub mod Run
pub mod Calls
pub mod Rotation
pub mod Race
pub mod Lockout
pub mod Reset
mod Tests
use locoomo_api.Base.{
  ⊤, ℕ, suc, Bool, true, false, ◌||◌, Option, none, some, List, [], ◌∷◌, ◌++◌, ◌==◌, opt_is, any,
  put, if◌then◌else◌,
}
use locoomo_api.Effect.{Action, ok, err, modify, unique_violation}
use locoomo_api.Outbox.{Text, OutboxTable, enqueue}

pub data UserRole : Type 0 where
  consumer node_operator rider admin node_staff : UserRole

pub data UserStatus : Type 0 where
  invited pending_review active suspended : UserStatus

abbrev pub is_suspended : UserStatus → Bool
is_suspended suspended = true
is_suspended _ = false

pub record User : Type 0 where
  pub id : ℕ
  pub email : ℕ
  pub password_hash : Option Text
  pub first_name : Text
  pub last_name : Text
  pub phone : Option Text
  pub google_id : Option ℕ
  pub role : UserRole
  pub status : UserStatus
  pub consent_accepted_at : Option ℕ
  pub email_verified_at : Option ℕ
  pub failed_login_attempts : ℕ
  pub locked_until : Option ℕ

pub record RefreshToken : Type 0 where
  pub id : ℕ
  pub user_id : ℕ
  pub token_hash : ℕ
  pub family_id : ℕ
  pub expires_at : ℕ
  pub revoked_at : Option ℕ

-- A row of password_reset_tokens, invite_tokens or email_verification_tokens.
pub record OneTimeToken : Type 0 where
  pub id : ℕ
  pub user_id : ℕ
  pub token_hash : ℕ
  pub expires_at : ℕ
  pub used_at : Option ℕ

-- `next_id` and `next_family_id` stand for gen_random_uuid() and randomUUID().
pub record Accounts : Type 0 where
  pub users : List User
  pub refresh_tokens : List RefreshToken
  pub reset_tokens : List OneTimeToken
  pub invite_tokens : List OneTimeToken
  pub verification_tokens : List OneTimeToken
  pub outbox : OutboxTable
  pub next_id : ℕ
  pub next_family_id : ℕ

abbrev pub Identity : Type 0 → Type 0
Identity A = Action Accounts A

-- What the services use of the platform: `toLowerCase`, SHA-256, scrypt, the signature of an access
-- token, and `name.trim().split(/\s+/)`.
pub record Platform : Type 0 where
  pub lower : ℕ → ℕ
  pub hash_token : ℕ → ℕ
  pub scrypt : Text → List ℕ → ℕ → List ℕ
  pub sign : ℕ → UserRole → ℕ
  pub words : Text → List Text

abbrev pub id_of : User → ℕ
id_of u = u.id

-- `users.save(user)` of a user that is in the table.
abbrev pub save_user : User → Identity ⊤
save_user user = modify λ s. record s { users = put id_of user.id user s.users }

abbrev same_google : Option ℕ → Option ℕ → Bool
same_google none _ = false
same_google (some g) other = opt_is other g

-- The unique indexes on `email` and `googleId`.
abbrev pub clashes : User → User → Bool
clashes new old = old.email == new.email || same_google new.google_id old.google_id

-- INSERT INTO users, with the id that the database draws.
unfoldable pub insert_user : (ℕ → User) → Identity User
insert_user make s =
    let user = make s.next_id in
    if any (clashes user) s.users
    then (err unique_violation, s)
    else (ok user, record s { users = s.users ++ user ∷ []; next_id = suc s.next_id })

abbrev pub new_token : ℕ → ℕ → ℕ → ℕ → OneTimeToken
new_token id user_id token_hash expires_at = record {
  id = id;
  user_id = user_id;
  token_hash = token_hash;
  expires_at = expires_at;
  used_at = none;
}

abbrev pub send_email : ℕ
send_email = 0

abbrev pub enqueue_email : ℕ → Text → Identity ⊤
enqueue_email now payload =
    modify λ s. record s { outbox = enqueue now send_email payload s.outbox }
