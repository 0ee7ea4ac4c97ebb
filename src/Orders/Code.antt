-- ===== src/Orders/Code.antt =====
-- src/modules/orders/domain/tracking-code.ts. A text is the list of its UTF-16 code units. The
-- platform's `toUpperCase` and `decodeURIComponent` are parameters; `none` is a thrown URIError.
pub mod RoundTrip
use Prim.Native.Char.{code}
use Prim.Native.String.{String}
use mathlib.Core.List.{reverse}
use locoomo_api.Base.{
  ℕ, zero, suc, ◌+◌, Bool, true, false, not, ◌&&◌, ◌||◌, Option, none, some, [], ◌∷◌, ◌++◌, map,
  ◌==◌, leb, if◌then◌else◌, any, all, length, where_rows, take, drop, get_elem?,
}
use locoomo_api.Orders.Rows.{Text}

abbrev pub codes : String → Text
codes String.[] = []
codes (String.◌∷◌ c s) = code c ∷ codes s

abbrev pub alphabet : Text
alphabet = codes "0123456789ABCDEFGHJKMNPQRSTVWXYZ"

abbrev pub prefix : Text
prefix = codes "LCM"

-- `ALPHABET[i]` joined to a text, where undefined is spelled out.
abbrev char_text : Option ℕ → Text
char_text none = codes "undefined"
char_text (some c) = c ∷ []

-- The loop of `generateTrackingCode`; `draw i` is the i-th call of `randomInt(32)`.
generate_from : (ℕ → ℕ) → ℕ → ℕ → Text → Text
generate_from draw i zero body = body
generate_from draw i (suc n) body =
    generate_from draw (suc i) n (body ++ char_text (get_elem? alphabet (draw i)))

-- `${PREFIX}-${code.slice(0, 4)}-${code.slice(4)}`
abbrev pub canonical : Text → Text
canonical body = prefix ++ (b'-' ∷ take 4 body ++ (b'-' ∷ drop 4 body))

unfoldable pub generate_tracking_code : (ℕ → ℕ) → Text
unfolding generate_from
generate_tracking_code draw = canonical (generate_from draw 0 8 [])

-- The characters that `trim` removes and `\s` matches.
abbrev pub is_space : ℕ → Bool
is_space c =
    (leb 9 c && leb c 13)
    || c == 32
    || c == 0xa0
    || c == 0x1680
    || (leb 0x2000 c && leb c 0x200a)
    || c == 0x2028
    || c == 0x2029
    || c == 0x202f
    || c == 0x205f
    || c == 0x3000
    || c == 0xfeff

abbrev pub drop_space : Text → Text
drop_space [] = []
drop_space (c ∷ s) = let rest = drop_space s in if is_space c then rest else c ∷ s

abbrev pub trim : Text → Text
trim s = reverse (drop_space (reverse (drop_space s)))

-- Without the `u` flag, `/i` folds the ASCII letters alone into ASCII letters.
abbrev pub fold_case : ℕ → ℕ
fold_case c = if leb b'A' c && leb c b'Z' then c + 32 else c

-- `pattern`, in either case, at the start of the text: what follows it.
abbrev pub strip_fold : Text → Text → Option Text
strip_fold [] s = some s
strip_fold (p ∷ ps) [] = none
strip_fold (p ∷ ps) (c ∷ s) = let rest = strip_fold ps s in if fold_case c == p then rest else none

-- `[^/?#]+` at the start of the text.
abbrev pub is_path_end : ℕ → Bool
is_path_end c = c == b'/' || c == b'?' || c == b'#'

abbrev pub segment : Text → Text
segment [] = []
segment (c ∷ s) = let rest = segment s in if is_path_end c then [] else c ∷ rest

abbrev non_empty : Option Text → Option Text
non_empty none = none
non_empty (some []) = none
non_empty (some (c ∷ s)) = some (c ∷ s)

abbrev or_later : Option Text → Option Text → Option Text
or_later none later = later
or_later (some s) later = some s

abbrev captured : Option Text → Option Text
captured none = none
captured (some rest) = non_empty (some (segment rest))

-- `/\/track\/([^/?#]+)/i.exec(value)`: the group of the leftmost match.
abbrev pub track_segment : Text → Option Text
track_segment [] = none
track_segment (c ∷ s) = or_later (captured (strip_fold (codes "/track/") (c ∷ s))) (track_segment s)

abbrev pub is_separator : ℕ → Bool
is_separator c = is_space c || c == b'-' || c == b'_' || c == b'.'

abbrev pub squeeze : Text → Text
squeeze = where_rows (λ c. not (is_separator c))

abbrev pub starts_with : Text → Text → Bool
starts_with [] s = true
starts_with (p ∷ ps) [] = false
starts_with (p ∷ ps) (c ∷ s) = c == p && starts_with ps s

abbrev pub strip_prefix : Text → Text
strip_prefix s = if length s == 11 && starts_with prefix s then drop 3 s else s

-- O is read as 0, I and L as 1.
abbrev pub look_alike : ℕ → ℕ
look_alike c = if c == b'O' then b'0' else if c == b'I' || c == b'L' then b'1' else c

abbrev pub in_alphabet : ℕ → Bool
in_alphabet c = any (λ a. a == c) alphabet

pub data Normalized : Type 0 where
  tracking_code : Text → Normalized
  null uri_error : Normalized

-- What follows the removal of separators and prefix.
abbrev pub read_body : Text → Normalized
read_body stripped =
    let body = map look_alike stripped in
    if not (length stripped == 8)
    then null
    else if not (all in_alphabet body)
    then null
    else tracking_code (canonical body)

module _ (to_upper_case : Text → Text) (decode_uri_component : Text → Option Text) where
  abbrev pub from_url : Text → Option Text
  from_url s = elim (track_segment s) [ none ↦ some s | some part ↦ decode_uri_component part ]

  -- What follows the decoding.
  abbrev pub normalize_value : Text → Normalized
  normalize_value value = read_body (strip_prefix (squeeze (to_upper_case value)))

  abbrev pub normalize_read : Option Text → Normalized
  normalize_read none = uri_error
  normalize_read (some value) = normalize_value value

  unfoldable pub normalize_tracking_code : Text → Normalized
  normalize_tracking_code input = normalize_read (from_url (trim input))
