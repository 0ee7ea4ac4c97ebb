-- ===== src/Identity/Race.antt =====
-- Two requests to refresh-session.service.ts whose reads both come before their writes.
use locoomo_api.Base.{
  ℕ, suc, ◌≡◌, refl, sym, ◌∙◌, false, Option, none, some, [], ◌∷◌, ◌++◌, ◌==◌, ltb, find,
  update_where, inl, inr,
}
use locoomo_api.Effect.{run-cases, >>=_err, >>=_ok, pure, throw, gets, ◌>>=◌, invalid_refresh_token}
use locoomo_api.Identity.{User, RefreshToken, Accounts, Identity, Platform, is_suspended}
use locoomo_api.Identity.Sessions.{
  IssuedSession, new_refresh_token, check_token, rotate, refresh, refresh_with, revoked,
}
use locoomo_api.Identity.Spent.{has_hash}

module _ (w : Platform) where
  abbrev begin_with : ℕ → Option RefreshToken → Identity (RefreshToken × User)
  begin_with now none = throw invalid_refresh_token
  begin_with now (some stored) =
      check_token w now stored stored.revoked_at >>= λ user. pure (stored, user)

  -- What a request reads, up to its first write.
  unfoldable pub begin_refresh : ℕ → ℕ → Identity (RefreshToken × User)
  begin_refresh now token =
      gets (λ s. find (has_hash (w.hash_token token)) s.refresh_tokens) >>= begin_with now

  abbrev pub end_refresh : ℕ → ℕ → RefreshToken × User → Identity (User × IssuedSession)
  end_refresh now raw (stored, user) = rotate w now raw stored user

  -- The reads of both requests, then the writes of the one and of the other.
  unfoldable pub race :
      ℕ → ℕ → ℕ → ℕ → ℕ → Identity ((User × IssuedSession) × (User × IssuedSession))
  race now later raw other token = do
    first ← begin_refresh now token
    second ← begin_refresh later token
    x ← end_refresh now raw first
    y ← end_refresh later other second
    pure (x, y)

  -- A request on its own is its reads and then its writes.
  refresh-phases :
      (now raw token : ℕ) (s : Accounts)
      → refresh w now raw token s ≡ (begin_refresh now token >>= end_refresh now raw) s
  unfolding refresh begin_refresh
  refresh-phases now raw token s = go (find (has_hash (w.hash_token token)) s.refresh_tokens)
    where
      go :
          (o : Option RefreshToken)
          → refresh_with w now raw o s ≡ (begin_with now o >>= end_refresh now raw) s
      go none = refl
      go (some stored) =
          let m = check_token w now stored stored.revoked_at in
          elim (run-cases (m s)) [
            | inl (e, t, ran) ↦
                >>=_err m (rotate w now raw stored) s ran
                ∙ sym (
                    >>=_err (begin_with now (some stored)) (end_refresh now raw) s
                      (>>=_err m (λ user. pure (stored, user)) s ran))
            | inr (user, t, ran) ↦
                >>=_ok m (rotate w now raw stored) s ran
                ∙ sym (
                    >>=_ok (begin_with now (some stored)) (end_refresh now raw) s
                      (>>=_ok m (λ u. pure (stored, u)) s ran))
          ]

  -- A token that may be rotated.
  pub record IsGood (now token : ℕ) (stored : RefreshToken) (user : User) (s : Accounts)
      : Type 0 where
    pub found : find (has_hash (w.hash_token token)) s.refresh_tokens ≡ some stored
    pub not_revoked : stored.revoked_at ≡ none
    pub in_time : ltb stored.expires_at now ≡ false
    pub owner : find (λ u. u.id == stored.user_id) s.users ≡ some user
    pub not_suspended : is_suspended user.status ≡ false

  abbrev rotated_state : ℕ → ℕ → RefreshToken → User → Accounts → Accounts
  rotated_state now raw stored user s = record s {
    refresh_tokens =
        update_where (λ a. a.id == stored.id) (revoked now) s.refresh_tokens
        ++ new_refresh_token w now raw stored.family_id user s.next_id ∷ [];
    next_id = suc s.next_id;
  }
