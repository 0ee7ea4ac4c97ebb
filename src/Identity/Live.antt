-- ===== src/Identity/Live.antt =====
-- What the services may do to refresh_tokens, as a step relation.
use locoomo_api.Base.{
  where_rows, ℕ, suc, ◌≤◌, ◌<◌, ◌≡◌, refl, sym, ap, ◌∙◌, Bool, true, false, ◌&&◌, List, [], ◌∷◌,
  ◌++◌, ◌==◌, count_where, update_where, Row, here, there, inl, inr, Bool-cases, ==_iff, arith,
  is_none, one_if, count_where-append_one, if◌then◌else◌, Row-append_one, Row-update_where,
}
use locoomo_api.Identity.{RefreshToken, OneTimeToken, Accounts}
use locoomo_api.Identity.Sessions.{revoked, use_token}

-- A token of the family that is not revoked.
abbrev pub is_live : ℕ → RefreshToken → Bool
is_live family_id t = t.family_id == family_id && is_none t.revoked_at

-- `ts` and `n` are the refresh tokens and the next family, `ls` the links of password resets.
pub data TokenSteps
    : List RefreshToken
      → ℕ
      → List OneTimeToken
      → List RefreshToken
      → ℕ
      → List OneTimeToken
      → Type 0 where
  done : {ts : List RefreshToken} {n : ℕ} {ls : List OneTimeToken} → TokenSteps ts n ls ts n ls
  ended :
      {ts us : List RefreshToken} {n m : ℕ} {ls ks : List OneTimeToken} (p : RefreshToken → Bool)
      (now : ℕ)
      → TokenSteps (update_where p (revoked now) ts) n ls us m ks
      → TokenSteps ts n ls us m ks
  drawn :
      {ts us : List RefreshToken} {n m : ℕ} {ls ks : List OneTimeToken}
      → TokenSteps ts (suc n) ls us m ks
      → TokenSteps ts n ls us m ks
  begun :
      {ts us : List RefreshToken} {n m : ℕ} {ls ks : List OneTimeToken} (new : RefreshToken)
      → new.family_id ≡ n
      → TokenSteps (ts ++ new ∷ []) (suc n) ls us m ks
      → TokenSteps ts n ls us m ks
  rotated :
      {ts us : List RefreshToken} {n m : ℕ} {ls ks : List OneTimeToken} (old new : RefreshToken)
      (now : ℕ)
      → Row old ts
      → is_live new.family_id old ≡ true
      → TokenSteps (update_where (λ t. t.id == old.id) (revoked now) ts ++ new ∷ []) n ls us m ks
      → TokenSteps ts n ls us m ks
  link_used :
      {ts us : List RefreshToken} {n m : ℕ} {ls ks : List OneTimeToken} (p : OneTimeToken → Bool)
      (now : ℕ)
      → TokenSteps ts n (update_where p (use_token now) ls) us m ks
      → TokenSteps ts n ls us m ks
  link_added :
      {ts us : List RefreshToken} {n m : ℕ} {ls ks : List OneTimeToken} (new : OneTimeToken)
      → TokenSteps ts n (ls ++ new ∷ []) us m ks
      → TokenSteps ts n ls us m ks
  links_dropped :
      {ts us : List RefreshToken} {n m : ℕ} {ls ks : List OneTimeToken} (q : OneTimeToken → Bool)
      → ((l : OneTimeToken) → is_none l.used_at ≡ false → q l ≡ true)
      → TokenSteps ts n (where_rows q ls) us m ks
      → TokenSteps ts n ls us m ks

pub TokenSteps-trans :
    {a b c : List RefreshToken} {i j k : ℕ} {x y z : List OneTimeToken}
    → TokenSteps a i x b j y
    → TokenSteps b j y c k z
    → TokenSteps a i x c k z
TokenSteps-trans done r = r
TokenSteps-trans (ended p now l) r = ended p now (TokenSteps-trans l r)
TokenSteps-trans (drawn l) r = drawn (TokenSteps-trans l r)
TokenSteps-trans (begun new e l) r = begun new e (TokenSteps-trans l r)
TokenSteps-trans (rotated old new now w h l) r = rotated old new now w h (TokenSteps-trans l r)
TokenSteps-trans (link_used p now l) r = link_used p now (TokenSteps-trans l r)
TokenSteps-trans (link_added new l) r = link_added new (TokenSteps-trans l r)
TokenSteps-trans (links_dropped q h l) r = links_dropped q h (TokenSteps-trans l r)

abbrev pub Steps : Accounts → Accounts → Type 0
Steps s t =
    TokenSteps s.refresh_tokens s.next_family_id s.reset_tokens t.refresh_tokens t.next_family_id
      t.reset_tokens

-- A family has one token that is good at most, and new families are new.
pub record IsSound (ts : List RefreshToken) (n : ℕ) : Type 0 where
  pub single : (family_id : ℕ) → count_where (is_live family_id) ts ≤ 1
  pub below : (t : RefreshToken) → Row t ts → t.family_id < n

revoked-less :
    (k now : ℕ) (t : RefreshToken) (b : Bool)
    → one_if (is_live k (if b then revoked now t else t)) ≤ one_if (is_live k t)
revoked-less k now t b = ground arith

-- A revocation brings no token back.
revoking-le :
    (k : ℕ) (p : RefreshToken → Bool) (now : ℕ) (ts : List RefreshToken)
    → count_where (is_live k) (update_where p (revoked now) ts) ≤ count_where (is_live k) ts
revoking-le k p now [] = omega arith
revoking-le k p now (t ∷ ts) = omega (arith, revoking-le k p now ts, revoked-less k now t (p t))

-- It takes away a token that it is about.
revoking-lt :
    (k : ℕ) (p : RefreshToken → Bool) (now : ℕ) (ts : List RefreshToken) {old : RefreshToken}
    → Row old ts
    → p old ≡ true
    → is_live k old ≡ true
    → count_where (is_live k) (update_where p (revoked now) ts) < count_where (is_live k) ts
revoking-lt k p now [] r h l = elim r [ ]
revoking-lt k p now (t ∷ ts) {old} (here e) h l =
    let hit : p t ≡ true = ap p (sym e) ∙ h in
    let live : is_live k t ≡ true = ap (is_live k) (sym e) ∙ l in
    let dead : is_live k (revoked now t) ≡ false = ground arith in
    let rest = revoking-le k p now ts in rw (hit, live, dead) (omega (arith, rest))
revoking-lt k p now (t ∷ ts) {old} (there r) h l =
    omega (arith, revoking-lt k p now ts r h l, revoked-less k now t (p t))

-- A revocation of a whole family leaves none of it.
pub revoking-all :
    (k now : ℕ) (ts : List RefreshToken)
    → count_where (is_live k) (update_where (λ t. t.family_id == k) (revoked now) ts) ≡ 0
revoking-all k now [] = refl
revoking-all k now (t ∷ ts) =
    let dead : one_if (is_live k (if t.family_id == k then revoked now t else t)) ≡ 0 =
      ground arith in
    omega (arith, revoking-all k now ts, dead)

revoking-below :
    (p : RefreshToken → Bool) (now : ℕ) (ts : List RefreshToken) (n : ℕ)
    → ((t : RefreshToken) → Row t ts → t.family_id < n)
    → (t : RefreshToken) → Row t (update_where p (revoked now) ts)
    → t.family_id < n
revoking-below p now ts n h t r =
    let (a, q, e) = Row-update_where p (revoked now) ts r in
    let below = h a q in
    let same : t.family_id ≡ a.family_id = ap (λ x. x.family_id) e ∙ keeps a (p a) in
    omega (arith, below, same)
  where
    keeps : (a : RefreshToken) (b : Bool) → (if b then revoked now a else a).family_id ≡ a.family_id
    keeps a b = ground arith

ended-IsSound :
    {ts : List RefreshToken} {n : ℕ} (p : RefreshToken → Bool) (now : ℕ)
    → IsSound ts n
    → IsSound (update_where p (revoked now) ts) n
ended-IsSound {ts} {n} p now v = record {
  single = λ k. omega (arith, revoking-le k p now ts, v.single k);
  below = revoking-below p now ts n v.below;
}

-- A row is appended to a family that has no good token.
appended-IsSound :
    {ts : List RefreshToken} {n m : ℕ} (new : RefreshToken)
    → n ≤ m
    → new.family_id < m
    → count_where (is_live new.family_id) ts ≡ 0
    → IsSound ts n
    → IsSound (ts ++ new ∷ []) m
appended-IsSound {ts} {n} {m} new le small free v = record {
  single = λ k.
      let total = count_where-append_one (is_live k) ts new in
      let one = v.single k in
      elim (Bool-cases (new.family_id == k)) [
        | inl t ↦
            let same = (==_iff new.family_id k).0 t in
            let none_before : count_where (is_live k) ts ≡ 0 =
              ap (λ j. count_where (is_live j) ts) (sym same) ∙ free in
            let small : one_if (is_live k new) ≤ 1 = ground arith in
            omega (arith, total, none_before, small)
        | inr f ↦
            let nothing_more : one_if (is_live k new) ≡ 0 = ground (arith, f) in
            omega (arith, total, one, nothing_more)
      ];
  below = λ t r. elim (Row-append_one ts r) [
    | inl q ↦ let h = v.below t q in omega (arith, h, le)
    | inr e ↦ let h = ap (λ x. x.family_id) e in omega (arith, h, small)
  ];
}

-- No row is of a family that is still to be drawn.
fresh_none :
    (k : ℕ) (ts : List RefreshToken)
    → ((t : RefreshToken) → Row t ts → t.family_id < k)
    → count_where (is_live k) ts ≡ 0
fresh_none k [] h = refl
fresh_none k (t ∷ ts) h =
    let lt = h t (here refl) in
    let other : (t.family_id == k) ≡ false = ground arith in
    let dead : one_if (is_live k t) ≡ 0 = ground (arith, other) in
    omega (arith, fresh_none k ts (λ a r. h a (there r)), dead)

rotated-IsSound :
    {ts : List RefreshToken} {n : ℕ} (old new : RefreshToken) (now : ℕ)
    → Row old ts
    → is_live new.family_id old ≡ true
    → IsSound ts n
    → IsSound (update_where (λ t. t.id == old.id) (revoked now) ts ++ new ∷ []) n
rotated-IsSound {ts} {n} old new now r live v =
    let own : (old.id == old.id) ≡ true = (==_iff old.id old.id).1 refl in
    let fewer = revoking-lt new.family_id (λ t. t.id == old.id) now ts r own live in
    let one = v.single new.family_id in
    let below = v.below old r in
    let same : old.family_id ≡ new.family_id = ground (arith, live) in
    appended-IsSound new (omega arith) (omega (arith, below, same)) (omega (arith, fewer, one))
      (ended-IsSound (λ t. t.id == old.id) now v)

pub TokenSteps-IsSound :
    {ts us : List RefreshToken} {n m : ℕ} {ls ks : List OneTimeToken}
    → TokenSteps ts n ls us m ks
    → IsSound ts n
    → IsSound us m
TokenSteps-IsSound done v = v
TokenSteps-IsSound (ended p now l) v = TokenSteps-IsSound l (ended-IsSound p now v)
TokenSteps-IsSound {ts} {n} (drawn l) v =
    TokenSteps-IsSound l
      (record { single = v.single; below = λ t r. let h = v.below t r in omega (arith, h) })
TokenSteps-IsSound {ts} {n} (begun new e l) v = TokenSteps-IsSound l (
    appended-IsSound new (omega arith) (omega (arith, e))
      (ap (λ k. count_where (is_live k) ts) e ∙ fresh_none n ts v.below) v)
TokenSteps-IsSound (rotated old new now r live l) v =
    TokenSteps-IsSound l (rotated-IsSound old new now r live v)
TokenSteps-IsSound (link_used p now l) v = TokenSteps-IsSound l v
TokenSteps-IsSound (link_added new l) v = TokenSteps-IsSound l v
TokenSteps-IsSound (links_dropped q h l) v = TokenSteps-IsSound l v

counts_live :
    (k : ℕ) (ts : List RefreshToken) {old : RefreshToken}
    → Row old ts
    → is_live k old ≡ true
    → 0 < count_where (is_live k) ts
counts_live k ts r live = omega (arith, revoking-lt k (λ _. true) 0 ts r refl live)

-- A family that has no good token has none for ever.
pub TokenSteps-dead :
    {ts us : List RefreshToken} {n m : ℕ} {ls ks : List OneTimeToken} (k : ℕ)
    → TokenSteps ts n ls us m ks
    → k < n
    → count_where (is_live k) ts ≡ 0
    → count_where (is_live k) us ≡ 0
TokenSteps-dead k done lt h = h
TokenSteps-dead {ts} k (ended p now l) lt h =
    TokenSteps-dead k l lt (omega (arith, revoking-le k p now ts, h))
TokenSteps-dead k (drawn l) lt h = TokenSteps-dead k l (omega arith) h
TokenSteps-dead {ts} {n} k (begun new e l) lt h =
    let other : (new.family_id == k) ≡ false = ground arith in
    let nothing : one_if (is_live k new) ≡ 0 = ground (arith, other) in
    TokenSteps-dead k l (omega arith)
      (omega (arith, count_where-append_one (is_live k) ts new, nothing, h))
TokenSteps-dead {ts} k (rotated old new now r live l) lt h =
    let fewer = revoking-le k (λ t. t.id == old.id) now ts in
    let nothing : one_if (is_live k new) ≡ 0 = elim (Bool-cases (new.family_id == k)) [
      | inr f ↦ ground (arith, f)
      | inl t ↦
          let same = (==_iff new.family_id k).0 t in
          let there_is = counts_live k ts r (ap (λ j. is_live j old) (sym same) ∙ live) in
          absurd (omega (arith, there_is, h))
    ] in
    TokenSteps-dead k l lt (
      omega (
        arith,
        count_where-append_one (is_live k) (update_where (λ t. t.id == old.id) (revoked now) ts)
            new,
        nothing,
        fewer,
        h,
      ))
TokenSteps-dead k (link_used p now l) lt h = TokenSteps-dead k l lt h
TokenSteps-dead k (link_added new l) lt h = TokenSteps-dead k l lt h
TokenSteps-dead k (links_dropped q h' l) lt h = TokenSteps-dead k l lt h
