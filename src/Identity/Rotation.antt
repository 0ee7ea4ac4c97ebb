-- ===== src/Identity/Rotation.antt =====
-- Refresh tokens are good for one refresh; one that is presented again is taken for stolen.
use locoomo_api.Base.{
  ℕ, suc, ◌≡◌, refl, sym, ap, ◌∙◌, subst, none, some, List, [], ◌∷◌, ◌++◌, ◌==◌, any, find, inl,
  inr, Bool-cases, Option-cases, Row-find, count_where, update_where, is_none, true, ==_iff,
  find-update_where, find-append,
}
use locoomo_api.Effect.{ok, err, pure, ◌>>=◌, >>=-eq-ok, unique_violation, invalid_refresh_token}
use locoomo_api.Identity.{User, RefreshToken, Accounts, Platform}
use locoomo_api.Identity.Sessions.{
  IssuedSession, insert_refresh_token, new_refresh_token, create_session, issued_session,
  check_token, rotate, refresh_with, refresh, revoked,
}
use locoomo_api.Identity.Live.{IsSound, is_live, revoking-all, TokenSteps-dead, TokenSteps-IsSound}
use locoomo_api.Identity.Run.{check_token-quiet, refresh-Steps}
use locoomo_api.Identity.Spent.{has_hash, IsSpent, TokenSteps-IsSpent}
use locoomo_api.Identity.Calls.{Call, run, run-Steps}

module _ (w : Platform) where
  -- A token that is revoked is refused, and its family with it.
  replayed :
      (now raw token : ℕ) (s : Accounts) (stored : RefreshToken) (at : ℕ)
      → find (has_hash (w.hash_token token)) s.refresh_tokens ≡ some stored
      → stored.revoked_at ≡ some at
      → refresh w now raw token s ≡ (
        err invalid_refresh_token,
        record s {
          refresh_tokens =
              update_where (λ t. t.family_id == stored.family_id) (revoked now) s.refresh_tokens;
        },
      )
  unfolding refresh check_token
  replayed now raw token s stored at e r =
      let start : refresh w now raw token s ≡ refresh_with w now raw (some stored) s =
        ap (λ o. refresh_with w now raw o s) e in
      let next : refresh_with w now raw (some stored) s
          ≡ (check_token w now stored (some at) >>= rotate w now raw stored) s =
        ap (λ o. (check_token w now stored o >>= rotate w now raw stored) s) r in
      start ∙ next

  -- Presenting a revoked token again is refused and ends its family: through any calls after that, no
  -- token of the family is good, whoever holds it.
  replay-ends :
      (now raw token : ℕ) (s : Accounts) (stored : RefreshToken) (at : ℕ)
      → IsSound s.refresh_tokens s.next_family_id
      → find (has_hash (w.hash_token token)) s.refresh_tokens ≡ some stored
      → stored.revoked_at ≡ some at
      → ((refresh w now raw token s).0 ≡ err invalid_refresh_token)
        × ((cs : List Call)
            → count_where
                (is_live stored.family_id)
                (run w cs (refresh w now raw token s).1).refresh_tokens
              ≡ 0)
  replay-ends now raw token s stored at v e r =
      let ran = replayed now raw token s stored at e r in
      (
        ap (λ o. o.0) ran,
        λ cs.
            subst (λ o. count_where (is_live stored.family_id) (run w cs (o.1)).refresh_tokens ≡ 0)
              (sym ran)
              (TokenSteps-dead stored.family_id (run-Steps w cs _)
                (v.below stored (Row-find (has_hash (w.hash_token token)) s.refresh_tokens e).0)
                (revoking-all stored.family_id now s.refresh_tokens)),
      )

  -- What a session that is created leaves.
  created :
      (now raw : ℕ) (user : User) (k : ℕ) (s : Accounts) {x : IssuedSession} {t : Accounts}
      → create_session w now raw user k s ≡ (ok x, t)
      → t ≡ record s {
        refresh_tokens = s.refresh_tokens ++ new_refresh_token w now raw k user s.next_id ∷ [];
        next_id = suc s.next_id;
      }
  unfolding create_session insert_refresh_token
  created now raw user k s {x} {t} e =
      elim (Bool-cases (any (has_hash (w.hash_token raw)) s.refresh_tokens)) [
        | inl y ↦
            let (a, u, first, _) =
              >>=-eq-ok (insert_refresh_token (new_refresh_token w now raw k user))
                (λ _. pure (issued_session w now raw user)) s e in
            let bad : insert_refresh_token (new_refresh_token w now raw k user) s
                ≡ (err unique_violation, s) =
              rw y refl in
            cc
        | inr n ↦
            let (a, u, first, second) =
              >>=-eq-ok (insert_refresh_token (new_refresh_token w now raw k user))
                (λ _. pure (issued_session w now raw user)) s e in
            let good : insert_refresh_token (new_refresh_token w now raw k user) s ≡ (
              ok tt,
              record s {
                refresh_tokens =
                    s.refresh_tokens ++ new_refresh_token w now raw k user s.next_id ∷ [];
                next_id = suc s.next_id;
              },
            ) =
              rw n refl in
            ap (λ o. o.1) (sym second) ∙ ap (λ o. o.1) (sym first) ∙ ap (λ o. o.1) good
      ]

  -- What a rotation leaves.
  rotation :
      (now raw : ℕ) (stored : RefreshToken) (user : User) (s : Accounts) {x : User × IssuedSession}
      {t : Accounts}
      → rotate w now raw stored user s ≡ (ok x, t)
      → t ≡ record s {
        refresh_tokens =
            update_where (λ a. a.id == stored.id) (revoked now) s.refresh_tokens
            ++ new_refresh_token w now raw stored.family_id user s.next_id ∷ [];
        next_id = suc s.next_id;
      }
  unfolding rotate
  rotation now raw stored user s {x} {t} e =
      let s' : Accounts = record s {
        refresh_tokens = update_where (λ a. a.id == stored.id) (revoked now) s.refresh_tokens;
      } in
      let (a, u, first, second) =
        >>=-eq-ok (create_session w now raw user stored.family_id) (λ x. pure (user, x)) s' e in
      ap (λ o. o.1) (sym second) ∙ created now raw user stored.family_id s' first

  abbrev rotated_state : ℕ → ℕ → RefreshToken → User → Accounts → Accounts
  rotated_state now raw stored user s = record s {
    refresh_tokens =
        update_where (λ a. a.id == stored.id) (revoked now) s.refresh_tokens
        ++ new_refresh_token w now raw stored.family_id user s.next_id ∷ [];
    next_id = suc s.next_id;
  }

  -- A refresh that succeeds is a rotation of a good token.
  refresh-rotation :
      (now raw token : ℕ) (s : Accounts) {x : User × IssuedSession} {t : Accounts}
      → refresh w now raw token s ≡ (ok x, t)
      → (stored : RefreshToken) × (user : User) × (find
            (has_hash (w.hash_token token))
            s.refresh_tokens
          ≡ some stored)
        × (t ≡ rotated_state now raw stored user s)
  unfolding refresh check_token
  refresh-rotation now raw token s {x} {t} ran =
      elim (Option-cases (find (has_hash (w.hash_token token)) s.refresh_tokens)) [
        | inl e ↦
            let bad : refresh w now raw token s ≡ (err invalid_refresh_token, s) =
              ap (λ o. refresh_with w now raw o s) e in
            cc
        | inr (stored, e) ↦ elim (Option-cases stored.revoked_at) [
          | inr (at, r) ↦ let bad = replayed now raw token s stored at e r in cc
          | inl r ↦
              let start : refresh w now raw token s ≡ refresh_with w now raw (some stored) s =
                ap (λ o. refresh_with w now raw o s) e in
              let next : refresh_with w now raw (some stored) s
                  ≡ (check_token w now stored none >>= rotate w now raw stored) s =
                ap (λ o. (check_token w now stored o >>= rotate w now raw stored) s) r in
              let (user, u, first, second) =
                >>=-eq-ok (check_token w now stored none) (rotate w now raw stored) s
                  (sym (start ∙ next) ∙ ran) in
              let same : u ≡ s = ap (λ o. o.1) (sym first) ∙ check_token-quiet w now stored s in
              (
                stored,
                user,
                e,
                rotation now raw stored user s
                    (subst (λ v. rotate w now raw stored user v ≡ (ok x, t)) same second),
              )
        ]
      ]

  -- The token of an IsSpent row ends its family when it is presented.
  spent-ends :
      (now raw token k : ℕ) (s : Accounts)
      → IsSound s.refresh_tokens s.next_family_id
      → IsSpent (w.hash_token token) k s.refresh_tokens
      → ((refresh w now raw token s).0 ≡ err invalid_refresh_token)
        × ((cs : List Call)
            → count_where (is_live k) (run w cs (refresh w now raw token s).1).refresh_tokens ≡ 0)
  spent-ends now raw token k s v (row, e, same, gone) = elim (Option-cases row.revoked_at) [
    | inl n ↦ let bad : is_none row.revoked_at ≡ true = ap is_none n in cc
    | inr (at, r) ↦
        let (refused, dead) = replay-ends now raw token s row at v e r in
        (
          refused,
          λ cs.
              subst
                (λ j.
                  count_where (is_live j) (run w cs (refresh w now raw token s).1).refresh_tokens
                  ≡ 0)
                same (dead cs),
        )
  ]

  -- A refresh token is good for one refresh, if each call is over before the next begins, and if at the
  -- start each family has one good token at most and families are drawn anew: after that refresh and
  -- any calls that follow it, which may rotate the family further, presenting the token
  -- again is refused, and from then on, through any calls, no token of its family is good: neither the
  -- one that the refresh gave out nor any that came of it.
  pub refresh-once :
      (now raw token : ℕ) (s : Accounts) (x : User × IssuedSession) (t : Accounts)
      → IsSound s.refresh_tokens s.next_family_id
      → refresh w now raw token s ≡ (ok x, t)
      → (between : List Call) (later other : ℕ)
      → (stored : RefreshToken) × (find (has_hash (w.hash_token token)) s.refresh_tokens
          ≡ some stored)
        × ((refresh w later other token (run w between t)).0 ≡ err invalid_refresh_token)
        × ((cs : List Call)
            → count_where
                (is_live stored.family_id)
                (run w cs (refresh w later other token (run w between t)).1).refresh_tokens
              ≡ 0)
  refresh-once now raw token s x t v ran between later other =
      let h = w.hash_token token in
      let (stored, user, e, left) = refresh-rotation now raw token s ran in
      let rest = new_refresh_token w now raw stored.family_id user s.next_id ∷ [] in
      let found : find (has_hash h) t.refresh_tokens ≡ some (revoked now stored) =
        ap (λ u. find (has_hash h) u.refresh_tokens) left
        ∙ find-append (has_hash h)
            (update_where (λ a. a.id == stored.id) (revoked now) s.refresh_tokens) rest
            (find-update_where (has_hash h) (λ a. a.id == stored.id) (revoked now) s.refresh_tokens
                (λ b. refl) e
              ∙ rw ((==_iff stored.id stored.id).1 refl) refl) in
      let spent : IsSpent h stored.family_id t.refresh_tokens =
        (revoked now stored, found, refl, refl) in
      let steps = run-Steps w between t in
      let sound : IsSound t.refresh_tokens t.next_family_id =
        subst (λ u. IsSound u.refresh_tokens u.next_family_id) (ap (λ o. o.1) ran)
          (TokenSteps-IsSound (refresh-Steps w now raw token s) v) in
      let (refused, dead) =
        spent-ends later other token stored.family_id (run w between t)
          (TokenSteps-IsSound steps sound) (TokenSteps-IsSpent h stored.family_id steps spent) in
      (stored, e, refused, dead)
