-- ===== src/Orders/Code/RoundTrip.antt =====
-- A tracking code that was generated is read back as itself.
use locoomo_api.Base.{
  ℕ, zero, suc, ◌<◌, ◌≡◌, refl, ap, sym, ◌∙◌, subst, Bool, true, false, not, ◌&&◌, ◌||◌, Option,
  none, some, [], ◌∷◌, ◌==◌, ==_iff, length, arith, all, any, get_elem?, leb,
}
use locoomo_api.Orders.Rows.{Text}
use locoomo_api.Orders.Code.{
  alphabet, canonical, generate_tracking_code, is_space, trim, fold_case, track_segment,
  is_separator, squeeze, strip_prefix, look_alike, in_alphabet, tracking_code,
  normalize_tracking_code, read_body, normalize_read, from_url,
}

and_left : (a b : Bool) → (a && b) ≡ true → a ≡ true
and_left true b h = refl
and_left false b h = cc

and_right : (a b : Bool) → (a && b) ≡ true → b ≡ true
and_right true b h = h
and_right false b h = cc

at_some :
    (xs : Text) (p : ℕ → Bool) (d : ℕ)
    → d < length xs
    → all p xs ≡ true
    → (c : ℕ) × (get_elem? xs d ≡ some c) × (p c ≡ true)
at_some [] p d h k = absurd (omega arith)
at_some (x ∷ xs) p zero h k = (x, refl, and_left (p x) (all p xs) k)
at_some (x ∷ xs) p (suc d) h k = at_some xs p d (omega arith) (and_right (p x) (all p xs) k)

-- A character that upper-casing may change: a small ASCII letter, or none of ASCII.
abbrev pub may_change : ℕ → Bool
may_change c = leb 128 c || (leb b'a' c && leb c b'z')

-- What the reading relies on, of one character.
record IsPlain (c : ℕ) : Type 0 where
  space : is_space c ≡ false
  separator : is_separator c ≡ false
  slash : (fold_case c == b'/') ≡ false
  read : look_alike c ≡ c
  known : in_alphabet c ≡ true
  caseless : may_change c ≡ false

is_plain : ℕ → Bool
is_plain c =
    not (is_space c)
    && not (is_separator c)
    && not (fold_case c == b'/')
    && look_alike c == c
    && in_alphabet c
    && not (may_change c)

all_six :
    (a b c d e f : Bool)
    → (not a && not b && not c && d && e && not f) ≡ true
    → (a ≡ false) × (b ≡ false) × (c ≡ false) × (d ≡ true) × (e ≡ true) × (f ≡ false)
all_six a b c d e f h =
    (ground arith, ground arith, ground arith, ground arith, ground arith, ground arith)

is_plain-IsPlain : (c : ℕ) → is_plain c ≡ true → IsPlain c
unfolding is_plain
is_plain-IsPlain c h =
    let (h1, h2, h3, h4, h5, h6) =
      all_six (is_space c) (is_separator c) (fold_case c == b'/') (look_alike c == c)
        (in_alphabet c) (may_change c) h in
    record {
      space = h1;
      separator = h2;
      slash = h3;
      read = (==_iff (look_alike c) c).0 h4;
      known = h5;
      caseless = h6;
    }

drawn-IsPlain : (d : ℕ) → d < 32 → (c : ℕ) × (get_elem? alphabet d ≡ some c) × IsPlain c
unfolding is_plain
drawn-IsPlain d h =
    let (c, e, k) = at_some alphabet is_plain d h refl in (c, e, is_plain-IsPlain c k)

-- The text of the code, by its characters.
abbrev spelled : ℕ → ℕ → ℕ → ℕ → ℕ → ℕ → ℕ → ℕ → Text
spelled a b c d e f g h = canonical (a ∷ b ∷ c ∷ d ∷ e ∷ f ∷ g ∷ h ∷ [])

module _ {a b c d e f g h : ℕ} (pa : IsPlain a) (pb : IsPlain b) (pc : IsPlain c) (pd : IsPlain d)
    (pe : IsPlain e) (pf : IsPlain f) (pg : IsPlain g) (ph : IsPlain h) where
  trim-spelled : trim (spelled a b c d e f g h) ≡ spelled a b c d e f g h
  trim-spelled = rw ph.space refl

  track-spelled : track_segment (spelled a b c d e f g h) ≡ none
  track-spelled =
      rw (pa.slash, pb.slash, pc.slash, pd.slash, pe.slash, pf.slash, pg.slash, ph.slash) refl

  squeeze-spelled :
      squeeze (spelled a b c d e f g h) ≡ b'L' ∷ b'C' ∷ b'M' ∷ a ∷ b ∷ c ∷ d ∷ e ∷ f ∷ g ∷ h ∷ []
  squeeze-spelled =
      rw
        (
          pa.separator, pb.separator, pc.separator, pd.separator, pe.separator, pf.separator,
          pg.separator, ph.separator,
        )
        refl

  body-spelled :
      read_body (a ∷ b ∷ c ∷ d ∷ e ∷ f ∷ g ∷ h ∷ []) ≡ tracking_code (spelled a b c d e f g h)
  body-spelled =
      rw (pa.read, pb.read, pc.read, pd.read, pe.read, pf.read, pg.read, ph.read)
        (rw (pa.known, pb.known, pc.known, pd.known, pe.known, pf.known, pg.known, ph.known) refl)

  normalize-spelled :
      (upper : Text → Text) (decode : Text → Option Text)
      → upper (spelled a b c d e f g h) ≡ spelled a b c d e f g h
      → normalize_tracking_code upper decode (spelled a b c d e f g h)
        ≡ tracking_code (spelled a b c d e f g h)
  unfolding normalize_tracking_code
  normalize-spelled upper decode same =
      let text = spelled a b c d e f g h in
      ap (λ s. normalize_read upper decode (from_url upper decode s)) trim-spelled
      ∙ ap
          (λ o. normalize_read upper decode (elim o [ none ↦ some text | some part ↦ decode part ]))
          track-spelled
      ∙ (ap (λ s. read_body (strip_prefix (squeeze s))) same
          ∙ ap (λ s. read_body (strip_prefix s)) squeeze-spelled
          ∙ body-spelled)

  caseless-spelled : any may_change (spelled a b c d e f g h) ≡ false
  caseless-spelled =
      rw
        (
          pa.caseless, pb.caseless, pc.caseless, pd.caseless, pe.caseless, pf.caseless, pg.caseless,
          ph.caseless,
        )
        refl

-- Every code that is generated is read back as itself: whatever the eight random numbers below 32,
-- if upper-casing leaves a text alone that is of ASCII without small letters.
pub normalize_tracking_code-generate_tracking_code :
    (upper : Text → Text) (decode : Text → Option Text)
    → ((s : Text) → any may_change s ≡ false → upper s ≡ s)
    → (draw : ℕ → ℕ) → ((i : ℕ) → draw i < 32)
    → normalize_tracking_code upper decode (generate_tracking_code draw)
      ≡ tracking_code (generate_tracking_code draw)
unfolding generate_tracking_code
normalize_tracking_code-generate_tracking_code upper decode leaves draw small =
    let (a, ea, pa) = drawn-IsPlain (draw 0) (small 0) in
    let (b, eb, pb) = drawn-IsPlain (draw 1) (small 1) in
    let (c, ec, pc) = drawn-IsPlain (draw 2) (small 2) in
    let (d, ed, pd) = drawn-IsPlain (draw 3) (small 3) in
    let (e, ee, pe) = drawn-IsPlain (draw 4) (small 4) in
    let (f, ef, pf) = drawn-IsPlain (draw 5) (small 5) in
    let (g, eg, pg) = drawn-IsPlain (draw 6) (small 6) in
    let (h, eh, ph) = drawn-IsPlain (draw 7) (small 7) in
    let text : generate_tracking_code draw ≡ spelled a b c d e f g h =
      rw (ea, eb, ec, ed, ee, ef, eg, eh) refl in
    let fixed = leaves (spelled a b c d e f g h) (caseless-spelled pa pb pc pd pe pf pg ph) in
    subst (λ t. normalize_tracking_code upper decode t ≡ tracking_code t) (sym text)
      (normalize-spelled pa pb pc pd pe pf pg ph upper decode fixed)
