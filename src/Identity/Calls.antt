-- ===== src/Identity/Calls.antt =====
-- Calls of the services of src/modules/identity, in any order: a family of refresh tokens has one
-- that is good at most, and once it has none it has none for ever.
use locoomo_api.Base.{ℕ, ◌≤◌, Bool, Option, List, [], ◌∷◌, count_where}
use locoomo_api.Outbox.{Text}
use locoomo_api.Identity.{UserRole, Accounts, Platform}
use locoomo_api.Identity.Sessions.{login, refresh, logout, request_reset, confirm_reset}
use locoomo_api.Effect.{transaction}
use locoomo_api.Identity.SignUp.{
  invite_node_staff, RegisterDto, InviteFields, register, verify_email, invite, confirm_invite,
  activate, update_mine,
}
use locoomo_api.Identity.Google.{GoogleIdentity, authenticate}
use locoomo_api.Identity.Live.{Steps, TokenSteps-trans, TokenSteps-IsSound, IsSound, done, is_live}
use locoomo_api.Identity.Run.{login-Steps, refresh-Steps, logout-Steps}
use locoomo_api.Identity.Entries.{
  staff-Steps, request-Steps, confirm-Steps, register-Steps, invite-Steps, verify-Steps,
  accept-Steps, profile-Steps, google-Steps,
}

-- One call, with what it is told and draws.
pub data Call : Type 0 where
  logged_in : ℕ → ℕ → ℕ → Text → Call
  refreshed : ℕ → ℕ → ℕ → Call
  logged_out : ℕ → Option ℕ → Call
  reset_requested : ℕ → ℕ → (ℕ → Text) → ℕ → Call
  reset_confirmed : ℕ → List ℕ → (ℕ → Text) → ℕ → Text → Call
  registered : ℕ → List ℕ → ℕ → (ℕ → Text) → RegisterDto → Call
  email_verified : ℕ → ℕ → Call
  invited : ℕ → ℕ → (ℕ → Text) → InviteFields → Call
  staff_invited : ℕ → ℕ → (ℕ → Text) → InviteFields → Call
  invite_accepted : ℕ → List ℕ → ℕ → Text → Call
  activated : ℕ → Call
  phone_given : ℕ → Text → Call
  google_used : ℕ → ℕ → Bool → Option UserRole → Option GoogleIdentity → Call

module _ (w : Platform) where
  unfoldable pub after : Call → Accounts → Accounts
  after (logged_in now raw email password) s = (login w now raw email password s).1
  after (refreshed now raw token) s = (refresh w now raw token s).1
  after (logged_out now token) s = (logout w now token s).1
  after (reset_requested now raw message email) s = (request_reset w now raw message email s).1
  after (reset_confirmed now salt message token password) s =
      (confirm_reset w now salt message token password s).1
  after (registered now salt raw message dto) s = (register w now salt raw message dto s).1
  after (email_verified now token) s = (verify_email w now token s).1
  after (invited now raw message dto) s = (invite w now raw message dto s).1
  after (staff_invited now raw message fields) s =
      (transaction (invite_node_staff w now raw message fields) s).1
  after (invite_accepted now salt token password) s = (confirm_invite w now salt token password s).1
  after (activated user_id) s = (activate user_id s).1
  after (phone_given user_id phone) s = (update_mine user_id phone s).1
  after (google_used now raw consent role verified) s =
      (authenticate w now raw consent role verified s).1

  -- The last call stands first.
  unfoldable pub run : List Call → Accounts → Accounts
  run [] s = s
  run (c ∷ cs) s = after c (run cs s)

  after-Steps : (c : Call) (s : Accounts) → Steps s (after c s)
  unfolding after activate
  after-Steps (logged_in now raw email password) s = login-Steps w now raw email password s
  after-Steps (refreshed now raw token) s = refresh-Steps w now raw token s
  after-Steps (logged_out now token) s = logout-Steps w now token s
  after-Steps (reset_requested now raw message email) s = request-Steps w now raw message email s
  after-Steps (reset_confirmed now salt message token password) s =
      confirm-Steps w now salt message token password s
  after-Steps (registered now salt raw message dto) s = register-Steps w now salt raw message dto s
  after-Steps (email_verified now token) s = verify-Steps w now token s
  after-Steps (invited now raw message dto) s = invite-Steps w now raw message dto s
  after-Steps (staff_invited now raw message fields) s = staff-Steps w now raw message fields s
  after-Steps (invite_accepted now salt token password) s = accept-Steps w now salt token password s
  after-Steps (activated user_id) s = done
  after-Steps (phone_given user_id phone) s = profile-Steps user_id phone s
  after-Steps (google_used now raw consent role verified) s =
      google-Steps w now raw consent role verified s

  pub run-Steps : (cs : List Call) (s : Accounts) → Steps s (run cs s)
  unfolding run
  run-Steps [] s = done
  run-Steps (c ∷ cs) s = TokenSteps-trans (run-Steps cs s) (after-Steps c (run cs s))

  -- Through any calls, each of them run to its end before the next, a family of refresh tokens has one
  -- token that is not revoked at most, if that holds at the start and families are drawn anew.
  pub one_live_token :
      (cs : List Call) (s : Accounts)
      → IsSound s.refresh_tokens s.next_family_id
      → (family_id : ℕ) → count_where (is_live family_id) (run cs s).refresh_tokens ≤ 1
  one_live_token cs s v family_id = (TokenSteps-IsSound (run-Steps cs s) v).single family_id
