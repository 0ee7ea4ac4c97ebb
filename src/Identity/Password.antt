-- ===== src/Identity/Password.antt =====
-- src/modules/identity/domain/password-hasher.ts. Texts are lists of code units; `scrypt` is Node's.
use locoomo_api.Base.{
  ℕ, ◌+◌, ◌-◌, ◌*◌, ◌/◌, ◌%◌, ◌<◌, ◌≡◌, refl, ap, Bool, true, false, ◌&&◌, Option, none, some, List,
  [], ◌∷◌, ◌++◌, ◌==◌, ltb, leb, if◌then◌else◌, length, All, arith,
}
use locoomo_api.Outbox.{Text}

abbrev pub key_length : ℕ
key_length = 64

-- One digit of `toString('hex')`.
unfoldable pub hex_digit : ℕ → ℕ
hex_digit d = if ltb d 10 then b'0' + d else (b'a' - 10) + d

unfoldable pub to_hex : List ℕ → Text
to_hex [] = []
to_hex (x ∷ xs) = hex_digit (x / 16) ∷ (hex_digit (x % 16) ∷ to_hex xs)

unfoldable pub hex_value : ℕ → Option ℕ
hex_value c =
    if leb b'0' c && leb c b'9'
    then some (c - b'0')
    else if leb b'a' c && leb c b'f'
    then some (c - b'a' + 10)
    else if leb b'A' c && leb c b'F'
    then some (c - b'A' + 10)
    else none

abbrev pub with_byte : Option ℕ → Option ℕ → List ℕ → List ℕ
with_byte (some high) (some low) rest = (high * 16 + low) ∷ rest
with_byte _ _ rest = []

-- `Buffer.from(text, 'hex')`, which ends at the first pair that is not of two digits.
unfoldable pub from_hex : Text → List ℕ
from_hex (high ∷ (low ∷ cs)) =
    let rest = from_hex cs in with_byte (hex_value high) (hex_value low) rest
from_hex _ = []

-- `storedHash.split(':')`: what stands before the first colon, and what stands between it and the
-- second one, if there is one.
unfoldable pub until_colon : Text → Text × Option Text
until_colon [] = ([], none)
until_colon (c ∷ cs) =
    let (word, rest) = until_colon cs in if c == b':' then ([], some cs) else (c ∷ word, rest)

abbrev pub second_part : Option Text → Text
second_part none = []
second_part (some rest) = (until_colon rest).0

abbrev pub same_bytes : List ℕ → List ℕ → Bool
same_bytes [] [] = true
same_bytes (x ∷ xs) (y ∷ ys) = x == y && same_bytes xs ys
same_bytes _ _ = false

abbrev pub is_empty : Text → Bool
is_empty [] = true
is_empty _ = false

module _ (scrypt : Text → List ℕ → ℕ → List ℕ) where
  unfoldable pub hash_password : List ℕ → Text → Text
  hash_password salt plain = to_hex salt ++ (b':' ∷ to_hex (scrypt plain salt key_length))

  unfoldable pub verify_parts : Text → Text → Text → Bool
  verify_parts plain salt_hex key_hex =
      if is_empty salt_hex
      then false
      else if is_empty key_hex
      then false
      else (let stored_key = from_hex key_hex in
          same_bytes (scrypt plain (from_hex salt_hex) (length stored_key)) stored_key)

  unfoldable pub verify_password : Text → Text → Bool
  verify_password plain stored_hash =
      let (salt_hex, rest) = until_colon stored_hash in
      verify_parts plain salt_hex (second_part rest)

digit_back : (d : ℕ) → d < 16 → hex_value (hex_digit d) ≡ some d
unfolding hex_value hex_digit
digit_back d h = ground arith

digit_no_colon : (d : ℕ) → d < 16 → (hex_digit d == b':') ≡ false
unfolding hex_digit
digit_no_colon d h = ground arith

from_hex-to_hex : (xs : List ℕ) → All (λ x. x < 256) xs → from_hex (to_hex xs) ≡ xs
unfolding from_hex to_hex
from_hex-to_hex [] h = refl
from_hex-to_hex (x ∷ xs) h =
    let byte = h.0 in
    let whole : x / 16 * 16 + x % 16 ≡ x = omega arith in
    rw
      (
        digit_back (x / 16) (omega arith),
        digit_back (x % 16) (omega arith),
        from_hex-to_hex xs (h.1),
        whole,
      )
      refl

until_colon-to_hex :
    (xs : List ℕ) (rest : Text)
    → All (λ x. x < 256) xs
    → until_colon (to_hex xs ++ (b':' ∷ rest)) ≡ (to_hex xs, some rest)
unfolding until_colon to_hex
until_colon-to_hex [] rest h = refl
until_colon-to_hex (x ∷ xs) rest h =
    let byte = h.0 in
    rw
      (
        until_colon-to_hex xs rest (h.1),
        digit_no_colon (x / 16) (omega arith),
        digit_no_colon (x % 16) (omega arith),
      )
      refl

until_colon-hex_only :
    (xs : List ℕ) → All (λ x. x < 256) xs → until_colon (to_hex xs) ≡ (to_hex xs, none)
unfolding until_colon to_hex
until_colon-hex_only [] h = refl
until_colon-hex_only (x ∷ xs) h =
    let byte = h.0 in
    rw
      (
        until_colon-hex_only xs (h.1),
        digit_no_colon (x / 16) (omega arith),
        digit_no_colon (x % 16) (omega arith),
      )
      refl

not_empty : (xs : List ℕ) → 0 < length xs → is_empty (to_hex xs) ≡ false
unfolding to_hex
not_empty [] h = absurd (omega arith)
not_empty (x ∷ xs) h = refl

same_bytes_refl : (xs : List ℕ) → same_bytes xs xs ≡ true
same_bytes_refl [] = refl
same_bytes_refl (x ∷ xs) = ground (arith, same_bytes_refl xs)

module _ (scrypt : Text → List ℕ → ℕ → List ℕ) where
  -- What is stored for a password is taken apart into the salt and the key that it was made of; so a
  -- password is accepted just when its key under that salt is the stored one, and the password itself
  -- is: if the salt is not empty, and scrypt gives bytes, as many as it is asked for.
  pub verify_password-hash_password :
      (salt : List ℕ) (plain typed : Text)
      → 0 < length salt
      → All (λ x. x < 256) salt
      → All (λ x. x < 256) (scrypt plain salt key_length)
      → length (scrypt plain salt key_length) ≡ key_length
      → (verify_password scrypt typed (hash_password scrypt salt plain)
          ≡ same_bytes (scrypt typed salt key_length) (scrypt plain salt key_length))
        × (verify_password scrypt plain (hash_password scrypt salt plain) ≡ true)
  unfolding verify_password hash_password verify_parts
  verify_password-hash_password salt plain typed some_salt salt_bytes key_bytes key_size =
      let key = scrypt plain salt key_length in
      let parts = until_colon-to_hex salt (to_hex key) salt_bytes in
      let last : second_part (some (to_hex key)) ≡ to_hex key =
        ap (λ o. o.0) (until_colon-hex_only key key_bytes) in
      let some_key : is_empty (to_hex key) ≡ false = not_empty key (omega (arith, key_size)) in
      let salt_back = from_hex-to_hex salt salt_bytes in
      let key_back = from_hex-to_hex key key_bytes in
      (
        rw (parts, last, not_empty salt some_salt, some_key, salt_back, key_back, key_size) refl,
        rw (parts, last, not_empty salt some_salt, some_key, salt_back, key_back, key_size)
            (same_bytes_refl key),
      )
