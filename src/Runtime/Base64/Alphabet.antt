-- ===== src/Runtime/Base64/Alphabet.antt =====
-- The alphabet of RFC 4648, section 5, and its encoding of bytes, next to the tables of Base64.c.
use tyr.Prelude.{
  ℕ, suc, ◌+◌, ◌-◌, ◌*◌, ◌/◌, ◌%◌, ◌<◌, ◌≡◌, refl, List, [], ◌∷◌, arith, ltb, ◌==◌, length,
  if◌then◌else◌,
}
use tyr.Runtime.Base64.{b64_index_to_char, b64_char_to_index}

-- A to Z, a to z, 0 to 9, minus and underscore.
abbrev pub alphabet : ℕ → ℕ
alphabet i =
    if ltb i 26
    then b'A' + i
    else if ltb i 52
    then b'a' + (i - 26)
    else if ltb i 62
    then b'0' + (i - 52)
    else if i == 62
    then b'-'
    else b'_'

-- The encoding: three bytes to four characters, and padding at the end.
unfoldable pub base64url : List ℕ → List ℕ
base64url [] = []
base64url (a ∷ []) = alphabet (a / 4) ∷ alphabet (a % 4 * 16) ∷ b'=' ∷ b'=' ∷ []
base64url (a ∷ b ∷ []) =
    alphabet (a / 4) ∷ alphabet (a % 4 * 16 + b / 16) ∷ alphabet (b % 16 * 4) ∷ b'=' ∷ []
base64url (a ∷ b ∷ c ∷ bs) =
    alphabet (a / 4)
    ∷ alphabet (a % 4 * 16 + b / 16)
    ∷ alphabet (b % 16 * 4 + c / 64)
    ∷ alphabet (c % 64)
    ∷ base64url bs

-- `b64_index_to_char` is the alphabet, with the padding at 64.
pub b64_index_to_char-alphabet : (i : ℕ) → i < 64 → b64_index_to_char i ≡ alphabet i
unfolding b64_index_to_char
b64_index_to_char-alphabet i h = ground arith

pub b64_index_to_char-pad : b64_index_to_char 64 ≡ b'='
unfolding b64_index_to_char
b64_index_to_char-pad = refl

pub b64_char_to_index-alphabet : (i : ℕ) → i < 64 → b64_char_to_index (alphabet i) ≡ i
unfolding b64_char_to_index
b64_char_to_index-alphabet i h = ground arith

pub b64_char_to_index-pad : b64_char_to_index b'=' ≡ 64
unfolding b64_char_to_index
b64_char_to_index-pad = refl

-- The groups of three bytes, and the bytes that the last one lacks.
abbrev pub rounds : List ℕ → ℕ
rounds [] = 0
rounds (a ∷ []) = 1
rounds (a ∷ b ∷ []) = 1
rounds (a ∷ b ∷ c ∷ bs) = suc (rounds bs)

abbrev pub pad : List ℕ → ℕ
pad [] = 0
pad (a ∷ []) = 2
pad (a ∷ b ∷ []) = 1
pad (a ∷ b ∷ c ∷ bs) = pad bs

pub rounds-pad : (bs : List ℕ) → (3 * rounds bs ≡ length bs + pad bs) × (pad bs < 3)
rounds-pad [] = (refl, omega arith)
rounds-pad (a ∷ []) = (refl, omega arith)
rounds-pad (a ∷ b ∷ []) = (refl, omega arith)
rounds-pad (a ∷ b ∷ c ∷ bs) = let ih = rounds-pad bs in (omega (arith, ih.0), ih.1)

pub length-base64url : (bs : List ℕ) → length (base64url bs) ≡ 4 * rounds bs
unfolding base64url
length-base64url [] = refl
length-base64url (a ∷ []) = refl
length-base64url (a ∷ b ∷ []) = refl
length-base64url (a ∷ b ∷ c ∷ bs) = omega (arith, length-base64url bs)
