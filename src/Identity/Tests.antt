-- ===== src/Identity/Tests.antt =====
-- Runs of the services of src/modules/identity.
use locoomo_api.Base.{
  ℕ, zero, suc, ◌≤◌, ◌≡◌, refl, ap, true, false, none, some, List, [], ◌∷◌, arith, find,
  count_where, is_none, Row, here, there, All,
}
use locoomo_api.Effect.{ok, err, invalid_refresh_token, invalid_credentials, invalid_reset_token}
use locoomo_api.Outbox.{Text}
use locoomo_api.Identity.{
  User, consumer, active, RefreshToken, OneTimeToken, Accounts, Platform, new_token,
}
use locoomo_api.Identity.Password.{
  hash_password, verify_password, verify_parts, same_bytes, key_length, from_hex, hex_value,
  until_colon, verify_password-hash_password,
}
use locoomo_api.Identity.Sessions.{
  IssuedSession, login, refresh, check_token, rotate, create_session, insert_refresh_token,
  confirm_reset, reset,
}
use locoomo_api.Identity.Live.{IsSound, is_live}
use locoomo_api.Identity.Calls.{Call, run, one_live_token, refreshed, logged_in}
use locoomo_api.Identity.Spent.{has_hash, is_link}
use locoomo_api.Identity.Rotation.{refresh-once}
use locoomo_api.Identity.Lockout.{Guess, IsMiss, logins, login-locks}
use locoomo_api.Identity.Reset.{confirm_reset-ends}

abbrev fill : ℕ → Text → List ℕ
fill zero p = []
fill (suc n) [] = 0 ∷ fill n []
fill (suc n) (c ∷ cs) = c ∷ fill n cs

-- A key is the password, filled up with zeros.
abbrev platform : Platform
platform = record {
  lower = λ e. e;
  hash_token = λ t. t;
  scrypt = λ p salt n. fill n p;
  sign = λ id role. id;
  words = λ t. t ∷ [];
}

-- The password is "a".
abbrev user : User
user = record {
  id = 1;
  email = 7;
  password_hash = some (b'0' ∷ b'5' ∷ b':' ∷ b'6' ∷ b'1' ∷ []);
  first_name = b'A' ∷ [];
  last_name = b'B' ∷ [];
  phone = none;
  google_id = none;
  role = consumer;
  status = active;
  consent_accepted_at = some 1;
  email_verified_at = none;
  failed_login_attempts = 0;
  locked_until = none;
}

abbrev token : RefreshToken
token = record {
  id = 2;
  user_id = 1;
  token_hash = 11;
  family_id = 0;
  expires_at = 5000;
  revoked_at = none;
}

abbrev link : OneTimeToken
link = new_token 3 1 20 900

abbrev accounts : Accounts
accounts = record {
  users = user ∷ [];
  refresh_tokens = token ∷ [];
  reset_tokens = link ∷ [];
  invite_tokens = [];
  verification_tokens = [];
  outbox = record { outbox_events = []; next_id = 0 };
  next_id = 4;
  next_family_id = 1;
}

accounts-IsSound : IsSound accounts.refresh_tokens accounts.next_family_id
accounts-IsSound = record {
  single = λ k. ground arith;
  below = λ t r. elim r [
    | here e ↦ let h = ap (λ x. x.family_id) e in omega (arith, h)
    | there q ↦ elim q [ ]
  ];
}

abbrev some_calls : List Call
some_calls = refreshed 300 14 13 ∷ logged_in 200 13 7 (b'a' ∷ []) ∷ refreshed 100 12 11 ∷ []

one_live_token_example :
    count_where (is_live 0) (run platform some_calls accounts).refresh_tokens ≤ 1
one_live_token_example = one_live_token platform some_calls accounts accounts-IsSound 0

abbrev new_session : User × IssuedSession
new_session = (
  user,
  record {
    access_token = 1;
    refresh_token = 12;
    access_token_expires_in_seconds = 900;
    refresh_token_expires_at = 2592000100;
  },
)

abbrev rotated_accounts : Accounts
rotated_accounts = record accounts {
  refresh_tokens =
      record token { revoked_at = some 100 }
      ∷ record {
        id = 4;
        user_id = 1;
        token_hash = 12;
        family_id = 0;
        expires_at = 2592000100;
        revoked_at = none;
      }
      ∷ [];
  next_id = 5;
}

refresh_run : refresh platform 100 12 11 accounts ≡ (ok new_session, rotated_accounts)
unfolding refresh check_token rotate create_session insert_refresh_token
refresh_run = refl

-- The new token is rotated in its turn, and the user logs in elsewhere, before the old one comes back.
abbrev in_between : List Call
in_between = logged_in 140 14 7 (b'a' ∷ []) ∷ refreshed 130 13 12 ∷ []

refresh-once_example :
    (stored : RefreshToken) × (find (has_hash 11) accounts.refresh_tokens ≡ some stored)
    × ((refresh platform 150 15 11 (run platform in_between rotated_accounts)).0
        ≡ err invalid_refresh_token)
    × ((cs : List Call)
        → count_where
            (is_live stored.family_id)
            (run platform cs
              (refresh platform 150 15 11
                (run platform in_between rotated_accounts)).1).refresh_tokens
          ≡ 0)
refresh-once_example =
    refresh-once platform 100 12 11 accounts new_session rotated_accounts accounts-IsSound
      refresh_run in_between 150 15

abbrev wrong : ℕ → Guess
wrong now = (now, 30, b'b' ∷ [])

wrong_password :
    verify_password platform.scrypt (b'b' ∷ []) (b'0' ∷ b'5' ∷ b':' ∷ b'6' ∷ b'1' ∷ []) ≡ false
unfolding verify_password verify_parts until_colon from_hex hex_value
wrong_password = refl

right_password :
    verify_password platform.scrypt (b'a' ∷ []) (b'0' ∷ b'5' ∷ b':' ∷ b'6' ∷ b'1' ∷ []) ≡ true
unfolding verify_password verify_parts until_colon from_hex hex_value
right_password = refl

abbrev guessed : List Guess
guessed = wrong 100 ∷ wrong 101 ∷ wrong 102 ∷ wrong 103 ∷ wrong 104 ∷ []

misses : All (IsMiss platform 7 100 (b'0' ∷ b'5' ∷ b':' ∷ b'6' ∷ b'1' ∷ [])) guessed
misses = (
  (omega arith, wrong_password),
  (
    (omega arith, wrong_password),
    (
      (omega arith, wrong_password),
      ((omega arith, wrong_password), ((omega arith, wrong_password), tt)),
    ),
  ),
)

login-locks_example :
    login platform 200 31 7 (b'a' ∷ []) (logins platform 7 guessed accounts)
    ≡ (err invalid_credentials, logins platform 7 guessed accounts)
login-locks_example =
    login-locks platform 7 100 accounts user (b'0' ∷ b'5' ∷ b':' ∷ b'6' ∷ b'1' ∷ []) guessed refl
      refl refl misses (omega arith) 200 31 (b'a' ∷ []) (omega arith)

abbrev after_reset : Accounts
after_reset = (confirm_reset platform 500 (9 ∷ []) (λ e. e ∷ []) 20 (b'c' ∷ []) accounts).1

reset_run :
    confirm_reset platform 500 (9 ∷ []) (λ e. e ∷ []) 20 (b'c' ∷ []) accounts ≡ (ok tt, after_reset)
unfolding confirm_reset reset
reset_run = refl

confirm_reset-ends_example :
    (stored : OneTimeToken) × (find (is_link 20) accounts.reset_tokens ≡ some stored)
    × ((r : RefreshToken)
        → Row r after_reset.refresh_tokens
        → r.user_id ≡ stored.user_id
        → is_none r.revoked_at ≡ false)
    × ((u : User)
        → Row u after_reset.users
        → u.id ≡ stored.user_id
        → (u.password_hash ≡ some (hash_password platform.scrypt (9 ∷ []) (b'c' ∷ [])))
          × (u.failed_login_attempts ≡ 0)
          × (u.locked_until ≡ none))
    × ((cs : List Call) (later : ℕ) (other : List ℕ) (text : ℕ → Text) (typed : Text)
        → confirm_reset platform later other text 20 typed (run platform cs after_reset)
          ≡ (err invalid_reset_token, run platform cs after_reset))
confirm_reset-ends_example =
    confirm_reset-ends platform 500 (9 ∷ []) (λ e. e ∷ []) 20 (b'c' ∷ []) accounts after_reset
      reset_run

verify_password-hash_password_example :
    (verify_password platform.scrypt
        (b'b' ∷ [])
        (hash_password platform.scrypt (9 ∷ []) (b'a' ∷ []))
      ≡ same_bytes
          (platform.scrypt (b'b' ∷ []) (9 ∷ []) key_length)
          (platform.scrypt (b'a' ∷ []) (9 ∷ []) key_length))
    × (verify_password platform.scrypt
          (b'a' ∷ [])
          (hash_password platform.scrypt (9 ∷ []) (b'a' ∷ []))
        ≡ true)
verify_password-hash_password_example =
    verify_password-hash_password platform.scrypt (9 ∷ []) (b'a' ∷ []) (b'b' ∷ []) (omega arith)
      (omega arith) (omega arith) refl
