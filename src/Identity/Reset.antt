-- ===== src/Identity/Reset.antt =====
-- What a confirmed password reset does.
use locoomo_api.Base.{
  ℕ, ◌≡◌, refl, sym, ap, ◌∙◌, subst, Bool, true, false, none, some, List, ◌==◌, find, is_none,
  update_where, inl, inr, Bool-cases, Option-cases, Row, Row-update_where, ==_iff,
  find-update_where,
}
use locoomo_api.Effect.{ok, err, type_error, invalid_reset_token}
use locoomo_api.Outbox.{Text, enqueue}
use locoomo_api.Identity.{User, RefreshToken, OneTimeToken, Accounts, Platform, send_email}
use locoomo_api.Identity.Password.{hash_password}
use locoomo_api.Identity.Sessions.{
  reset, confirm_with, confirm_reset, is_over, revoked, use_token, new_password,
}
use locoomo_api.Identity.Spent.{IsUsed, TokenSteps-IsUsed}
use locoomo_api.Identity.Calls.{Call, run, run-Steps}

module _ (w : Platform) where
  abbrev with_hash : ℕ → OneTimeToken → Bool
  with_hash token t = t.token_hash == w.hash_token token

  abbrev after_reset : ℕ → List ℕ → (ℕ → Text) → Text → OneTimeToken → User → Accounts → Accounts
  after_reset now salt message password stored user s = record s {
    reset_tokens = update_where (λ t. t.id == stored.id) (use_token now) s.reset_tokens;
    users =
        update_where (λ u. u.id == stored.user_id)
          (new_password w now (hash_password w.scrypt salt password)) s.users;
    refresh_tokens = update_where (λ t. t.user_id == stored.user_id) (revoked now) s.refresh_tokens;
    outbox = enqueue now send_email (message user.email) s.outbox;
  }

  -- A reset that goes through.
  confirmed :
      (now : ℕ) (salt : List ℕ) (message : ℕ → Text) (token : ℕ) (password : Text) (s t : Accounts)
      → confirm_reset w now salt message token password s ≡ (ok tt, t)
      → (stored : OneTimeToken) × (user : User) × (find (with_hash token) s.reset_tokens
          ≡ some stored)
        × (t ≡ after_reset now salt message password stored user s)
  unfolding confirm_reset reset
  confirmed now salt message token password s t ran =
      elim (Option-cases (find (with_hash token) s.reset_tokens)) [
        | inl e ↦
            let bad : confirm_reset w now salt message token password s
                ≡ (err invalid_reset_token, s) =
              ap (λ o. confirm_with w now salt message password o s) e in
            cc
        | inr (stored, e) ↦
            let start = ap (λ o. confirm_with w now salt message password o s) e in
            elim (Bool-cases (is_over now stored)) [
              | inl y ↦
                  let bad : confirm_reset w now salt message token password s
                      ≡ (err invalid_reset_token, s) =
                    start ∙ rw y refl in
                  cc
              | inr n ↦
                  let go : confirm_with w now salt message password (some stored) s
                      ≡ reset w now salt message password stored
                          (find (λ u. u.id == stored.user_id) s.users) s =
                    rw n refl in
                  elim (Option-cases (find (λ u. u.id == stored.user_id) s.users)) [
                    | inl z ↦
                        let bad =
                          start ∙ go ∙ ap (λ o. reset w now salt message password stored o s) z in
                        let thrown : reset w now salt message password stored none s
                            ≡ (err type_error, s) =
                          refl in
                        cc
                    | inr (user, z) ↦
                        let good =
                          start ∙ go ∙ ap (λ o. reset w now salt message password stored o s) z in
                        let done : reset w now salt message password stored (some user) s
                            ≡ (ok tt, after_reset now salt message password stored user s) =
                          refl in
                        (stored, user, e, ap (λ o. o.1) (sym ran ∙ good ∙ done))
                  ]
            ]
      ]

  used-refused :
      (now : ℕ) (salt : List ℕ) (message : ℕ → Text) (token : ℕ) (password : Text) (s : Accounts)
      → IsUsed (w.hash_token token) s.reset_tokens
      → confirm_reset w now salt message token password s ≡ (err invalid_reset_token, s)
  unfolding confirm_reset
  used-refused now salt message token password s (l, e, r) =
      let start : confirm_reset w now salt message token password s
          ≡ confirm_with w now salt message password (some l) s =
        ap (λ o. confirm_with w now salt message password o s) e in
      start ∙ rw r refl

  -- A reset that goes through is made with a link of the table: it ends every session of that link's
  -- user, gives that account the new password and no lock, and uses the link up: through any calls
  -- after that, each over before the next begins, the link is refused at any time and whatever is typed, and nothing changes then.
  pub confirm_reset-ends :
      (now : ℕ) (salt : List ℕ) (message : ℕ → Text) (token : ℕ) (password : Text) (s t : Accounts)
      → confirm_reset w now salt message token password s ≡ (ok tt, t)
      → (stored : OneTimeToken) × (find (with_hash token) s.reset_tokens ≡ some stored)
        × ((r : RefreshToken)
            → Row r t.refresh_tokens
            → r.user_id ≡ stored.user_id
            → is_none r.revoked_at ≡ false)
        × ((u : User)
            → Row u t.users
            → u.id ≡ stored.user_id
            → (u.password_hash ≡ some (hash_password w.scrypt salt password))
              × (u.failed_login_attempts ≡ 0)
              × (u.locked_until ≡ none))
        × ((cs : List Call) (later : ℕ) (other : List ℕ) (text : ℕ → Text) (typed : Text)
            → confirm_reset w later other text token typed (run w cs t)
              ≡ (err invalid_reset_token, run w cs t))
  confirm_reset-ends now salt message token password s t ran =
      let (stored, user, e, left) = confirmed now salt message token password s t ran in
      let own : (stored.id == stored.id) ≡ true = (==_iff stored.id stored.id).1 refl in
      let spent : find (with_hash token) t.reset_tokens ≡ some (use_token now stored) =
        ap (λ u. find (with_hash token) u.reset_tokens) left
        ∙ find-update_where (with_hash token) (λ a. a.id == stored.id) (use_token now)
            s.reset_tokens (λ b. refl) e
        ∙ rw own refl in
      (
        stored,
        e,
        λ r row same.
            ended now stored.user_id s.refresh_tokens r same
              (subst (λ u. Row r u.refresh_tokens) left row),
        λ u row same.
            renewed now stored.user_id (hash_password w.scrypt salt password) s.users u same
              (subst (λ v. Row u v.users) left row),
        λ cs later other text typed. used-refused later other text token typed (run w cs t) (
            TokenSteps-IsUsed (w.hash_token token) (run-Steps w cs t)
              (use_token now stored, spent, refl)),
      )
    where
      ended :
          (now k : ℕ) (ts : List RefreshToken) (r : RefreshToken)
          → r.user_id ≡ k
          → Row r (update_where (λ a. a.user_id == k) (revoked now) ts)
          → is_none r.revoked_at ≡ false
      ended now k ts r same row =
          let (a, q, e) = Row-update_where (λ a. a.user_id == k) (revoked now) ts row in
          elim (Bool-cases (a.user_id == k)) [
            | inl y ↦
                let stands : r ≡ revoked now a = e ∙ rw y refl in
                ap (λ x. is_none x.revoked_at) stands
            | inr n ↦
                let stands : r ≡ a = e ∙ rw n refl in
                let hit : (a.user_id == k) ≡ true =
                  (==_iff a.user_id k).1 (sym (ap (λ x. x.user_id) stands) ∙ same) in
                cc
          ]

      renewed :
          (now k : ℕ) (h : Text) (us : List User) (u : User)
          → u.id ≡ k
          → Row u (update_where (λ a. a.id == k) (new_password w now h) us)
          → (u.password_hash ≡ some h) × (u.failed_login_attempts ≡ 0) × (u.locked_until ≡ none)
      renewed now k h us u same row =
          let (a, q, e) = Row-update_where (λ a. a.id == k) (new_password w now h) us row in
          elim (Bool-cases (a.id == k)) [
            | inl y ↦
                let stands : u ≡ new_password w now h a = e ∙ rw y refl in
                (
                  ap (λ x. x.password_hash) stands,
                  ap (λ x. x.failed_login_attempts) stands,
                  ap (λ x. x.locked_until) stands,
                )
            | inr n ↦
                let stands : u ≡ a = e ∙ rw n refl in
                let hit : (a.id == k) ≡ true =
                  (==_iff a.id k).1 (sym (ap (λ x. x.id) stands) ∙ same) in
                cc
          ]
