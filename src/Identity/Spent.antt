-- ===== src/Identity/Spent.antt =====
-- A token that is spent, be it a refresh token or the link of a password reset, stays spent through any
-- steps of Identity.Live.
use locoomo_api.Base.{
  ℕ, ◌≡◌, refl, ◌∙◌, Bool, false, some, List, [], ◌∷◌, ◌++◌, ◌==◌, find, is_none, update_where, inl,
  inr, Bool-cases, find-update_where, find-append, find-where_rows,
}
use locoomo_api.Identity.{RefreshToken, OneTimeToken}
use locoomo_api.Identity.Sessions.{revoked, use_token}
use locoomo_api.Identity.Live.{
  TokenSteps, done, ended, drawn, begun, rotated, link_used, link_added, links_dropped,
}

abbrev pub has_hash : ℕ → RefreshToken → Bool
has_hash h t = t.token_hash == h

abbrev pub is_link : ℕ → OneTimeToken → Bool
is_link h l = l.token_hash == h

-- The token of this hash is of the family `k`, and revoked.
abbrev pub IsSpent : ℕ → ℕ → List RefreshToken → Type 0
IsSpent h k ts =
    (t : RefreshToken) × (find (has_hash h) ts ≡ some t)
    × (t.family_id ≡ k)
    × (is_none t.revoked_at ≡ false)

abbrev pub IsUsed : ℕ → List OneTimeToken → Type 0
IsUsed h ls = (l : OneTimeToken) × (find (is_link h) ls ≡ some l) × (is_none l.used_at ≡ false)

pub revoking-IsSpent :
    (h k : ℕ) (p : RefreshToken → Bool) (now : ℕ) (ts : List RefreshToken)
    → IsSpent h k ts
    → IsSpent h k (update_where p (revoked now) ts)
revoking-IsSpent h k p now ts (t, e, same, r) =
    let found = find-update_where (has_hash h) p (revoked now) ts (λ b. refl) e in
    elim (Bool-cases (p t)) [
      | inl y ↦ (revoked now t, found ∙ rw y refl, same, refl)
      | inr n ↦ (t, found ∙ rw n refl, same, r)
    ]

pub adding-IsSpent :
    (h k : ℕ) (ts : List RefreshToken) (new : RefreshToken)
    → IsSpent h k ts
    → IsSpent h k (ts ++ new ∷ [])
adding-IsSpent h k ts new (t, e, same, r) = (t, find-append (has_hash h) ts (new ∷ []) e, same, r)

pub TokenSteps-IsSpent :
    {ts us : List RefreshToken} {n m : ℕ} {ls ks : List OneTimeToken} (h k : ℕ)
    → TokenSteps ts n ls us m ks
    → IsSpent h k ts
    → IsSpent h k us
TokenSteps-IsSpent h k done v = v
TokenSteps-IsSpent {ts} h k (ended p now l) v =
    TokenSteps-IsSpent h k l (revoking-IsSpent h k p now ts v)
TokenSteps-IsSpent h k (drawn l) v = TokenSteps-IsSpent h k l v
TokenSteps-IsSpent {ts} h k (begun new e l) v =
    TokenSteps-IsSpent h k l (adding-IsSpent h k ts new v)
TokenSteps-IsSpent {ts} h k (rotated old new now r live l) v = TokenSteps-IsSpent h k l (
    adding-IsSpent h k (update_where (λ t. t.id == old.id) (revoked now) ts) new
      (revoking-IsSpent h k (λ t. t.id == old.id) now ts v))
TokenSteps-IsSpent h k (link_used p now l) v = TokenSteps-IsSpent h k l v
TokenSteps-IsSpent h k (link_added new l) v = TokenSteps-IsSpent h k l v
TokenSteps-IsSpent h k (links_dropped q keeps l) v = TokenSteps-IsSpent h k l v

using-IsUsed :
    (h : ℕ) (p : OneTimeToken → Bool) (now : ℕ) (ls : List OneTimeToken)
    → IsUsed h ls
    → IsUsed h (update_where p (use_token now) ls)
using-IsUsed h p now ls (l, e, r) =
    let found = find-update_where (is_link h) p (use_token now) ls (λ b. refl) e in
    elim (Bool-cases (p l)) [
      | inl y ↦ (use_token now l, found ∙ rw y refl, refl)
      | inr n ↦ (l, found ∙ rw n refl, r)
    ]

pub TokenSteps-IsUsed :
    {ts us : List RefreshToken} {n m : ℕ} {ls ks : List OneTimeToken} (h : ℕ)
    → TokenSteps ts n ls us m ks
    → IsUsed h ls
    → IsUsed h ks
TokenSteps-IsUsed h done v = v
TokenSteps-IsUsed h (ended p now l) v = TokenSteps-IsUsed h l v
TokenSteps-IsUsed h (drawn l) v = TokenSteps-IsUsed h l v
TokenSteps-IsUsed h (begun new e l) v = TokenSteps-IsUsed h l v
TokenSteps-IsUsed h (rotated old new now r live l) v = TokenSteps-IsUsed h l v
TokenSteps-IsUsed {ls} h (link_used p now l) v = TokenSteps-IsUsed h l (using-IsUsed h p now ls v)
TokenSteps-IsUsed {ls} h (link_added new l) (x, e, r) =
    TokenSteps-IsUsed h l (x, find-append (is_link h) ls (new ∷ []) e, r)
TokenSteps-IsUsed {ls} h (links_dropped q keeps l) (x, e, r) =
    TokenSteps-IsUsed h l (x, find-where_rows (is_link h) q ls e (keeps x r), r)
