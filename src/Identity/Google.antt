-- ===== src/Identity/Google.antt =====
-- google-auth.service.ts of src/modules/identity/application.
use locoomo_api.Base.{
  ℕ, Bool, true, false, not, ◌&&◌, Option, none, some, List, [], ◌∷◌, ◌++◌, find, opt_is, or_else,
  if◌then◌else◌,
}
use locoomo_api.Effect.{
  pure, throw, throw_if, gets, or_throw, ◌>>=◌, ◌>>◌, account_suspended, invalid_google_token,
  consent_required,
}
use locoomo_api.Outbox.{Text}
use locoomo_api.Identity.{User, UserRole, consumer, Identity, Platform, is_suspended, insert_user}
use locoomo_api.Identity.Sessions.{IssuedSession, issue_session}
-- An account is for one of these roles ready at once, or waits for Admin.
use locoomo_api.Identity.SignUp.{as_taken, throw_if_taken, initial_status}

-- What the verifier of Google's id tokens answers.
pub record GoogleIdentity : Type 0 where
  pub sub : ℕ
  pub email : ℕ
  pub email_verified : Bool
  pub given_name : Text
  pub family_name : Text
  pub name : Text

abbrev pub is_empty : {A : Type 0} → List A → Bool
is_empty [] = true
is_empty _ = false

-- `words.join(' ')`
abbrev join : List Text → Text
join [] = []
join (x ∷ []) = x
join (x ∷ xs) = x ++ (b' ' ∷ join xs)

abbrev from_words : List Text → Option (Text × Text)
from_words (first ∷ (second ∷ rest)) = some (first, join (second ∷ rest))
from_words _ = none

module _ (w : Platform) (now : ℕ) where
  unfoldable pub google_login : ℕ → User → Identity (User × IssuedSession)
  google_login raw user = do
    throw_if (is_suspended user.status) account_suspended
    session ← issue_session w now raw user
    pure (user, session)

  unfoldable pub resolve_name : GoogleIdentity → Option (Text × Text)
  resolve_name who =
      if not (is_empty who.given_name) && not (is_empty who.family_name)
      then some (who.given_name, who.family_name)
      else if is_empty who.name
      then none
      else from_words (w.words who.name)

  abbrev pub google_user : GoogleIdentity → ℕ → UserRole → Text × Text → ℕ → User
  google_user who email role name id = record {
    id = id;
    email = email;
    password_hash = none;
    first_name = name.0;
    last_name = name.1;
    phone = none;
    google_id = some who.sub;
    role = role;
    status = initial_status role;
    consent_accepted_at = some now;
    email_verified_at = some now;
    failed_login_attempts = 0;
    locked_until = none;
  }

  -- The `try` holds the session too.
  unfoldable pub sign_up :
      ℕ → Bool → Option UserRole → GoogleIdentity → ℕ → Identity (User × IssuedSession)
  sign_up raw consent role who email = do
    throw_if (not consent) consent_required
    name ← or_throw (resolve_name who) invalid_google_token
    as_taken (do
      user ← insert_user (google_user who email (or_else role consumer) name)
      session ← issue_session w now raw user
      pure (user, session))

  abbrev pub google_new :
      ℕ → Bool → Option UserRole → GoogleIdentity → Option User → Identity (User × IssuedSession)
  google_new raw consent role who (some user) = google_login raw user
  google_new raw consent role who none = do
    throw_if_taken w now (w.lower who.email)
    sign_up raw consent role who (w.lower who.email)

  abbrev google_with :
      ℕ → Bool → Option UserRole → Option GoogleIdentity → Identity (User × IssuedSession)
  google_with raw consent role none = throw invalid_google_token
  google_with raw consent role (some who) =
      if not who.email_verified
      then throw invalid_google_token
      else (gets (λ s. find (λ u. opt_is u.google_id who.sub) s.users)
          >>= google_new raw consent role who)

  -- `verified` is the verifier's answer to the id token.
  unfoldable pub authenticate :
      ℕ → Bool → Option UserRole → Option GoogleIdentity → Identity (User × IssuedSession)
  authenticate raw consent role verified = google_with raw consent role verified
