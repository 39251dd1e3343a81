-- ===== src/Commands/Base64.antt =====
-- `base64.StdEncoding` of Go, for what request/command.go gives it: bytes to encode, and a text without
-- line breaks to decode.
use iss_com_multipaxos.Prelude.{
  ℕ, ◌+◌, ◌-◌, ◌*◌, ◌/◌, ◌%◌, ◌<◌, ◌≡◌, refl, false, ◌&&◌, Option, none, some, List, [], ◌∷◌, ◌++◌,
  leb, ltb, ◌==◌, if◌then◌else◌, length, any, All, arith, ◌>>=◌,
}
use iss_com_multipaxos.Commands.Text.{is_space, IsWord}

-- The character of a value below 64.
unfoldable pub sextet_char : ℕ → ℕ
sextet_char v =
    if ltb v 26
    then v + 65
    else if ltb v 52
    then v + 71
    else if ltb v 62
    then v - 4
    else if v == 62
    then 43
    else 47

unfoldable pub char_sextet : ℕ → Option ℕ
char_sextet c =
    if leb 65 c && leb c 90
    then some (c - 65)
    else if leb 97 c && leb c 122
    then some (c - 71)
    else if leb 48 c && leb c 57
    then some (c + 4)
    else if c == 43
    then some 62
    else if c == 47
    then some 63
    else none

unfoldable pub encode_to_string : List ℕ → List ℕ
unfolding sextet_char
encode_to_string [] = []
encode_to_string (a ∷ []) = sextet_char (a / 4) ∷ sextet_char (a % 4 * 16) ∷ 61 ∷ 61 ∷ []
encode_to_string (a ∷ b ∷ []) =
    sextet_char (a / 4) ∷ sextet_char (a % 4 * 16 + b / 16) ∷ sextet_char (b % 16 * 4) ∷ 61 ∷ []
encode_to_string (a ∷ b ∷ c ∷ s) =
    sextet_char (a / 4)
    ∷ sextet_char (a % 4 * 16 + b / 16)
    ∷ sextet_char (b % 16 * 4 + c / 64)
    ∷ sextet_char (c % 64)
    ∷ encode_to_string s

-- The bytes of four characters; 61 is the padding.
unfoldable pub decode_quantum : ℕ → ℕ → ℕ → ℕ → Option (List ℕ)
unfolding char_sextet
decode_quantum a b c d = do
  u ← char_sextet a
  v ← char_sextet b
  if d == 61 && c == 61 then some ((u * 4 + v / 16) ∷ []) else do
    w ← char_sextet c
    if d == 61 then some ((u * 4 + v / 16) ∷ (v % 16 * 16 + w / 4) ∷ []) else do
      x ← char_sextet d
      some ((u * 4 + v / 16) ∷ (v % 16 * 16 + w / 4) ∷ (w % 4 * 64 + x) ∷ [])

-- Padding ends the text.
unfoldable pub decode_string : List ℕ → Option (List ℕ)
unfolding decode_quantum
decode_string [] = some []
decode_string (a ∷ b ∷ c ∷ d ∷ s) = do
  bytes ← decode_quantum a b c d
  rest ← decode_string s
  if d == 61 && ltb 0 (length s) then none else some (bytes ++ rest)
decode_string _ = none

char_sextet-sextet_char : (v : ℕ) → v < 64 → char_sextet (sextet_char v) ≡ some v
unfolding char_sextet sextet_char
char_sextet-sextet_char v h = ground arith

sextet_char-ne :
    (v : ℕ) → v < 64 → (sextet_char v == 61 ≡ false) × (is_space (sextet_char v) ≡ false)
unfolding sextet_char is_space
sextet_char-ne v h = (ground arith, ground arith)

decode_quantum-full :
    (a b c : ℕ)
    → a < 256
    → b < 256
    → c < 256
    → decode_quantum
        (sextet_char (a / 4))
        (sextet_char (a % 4 * 16 + b / 16))
        (sextet_char (b % 16 * 4 + c / 64))
        (sextet_char (c % 64))
      ≡ some (a ∷ b ∷ c ∷ [])
unfolding decode_quantum
decode_quantum-full a b c p q r =
    rw
      (
        char_sextet-sextet_char (a / 4) (omega arith),
        char_sextet-sextet_char (a % 4 * 16 + b / 16) (omega arith),
        char_sextet-sextet_char (b % 16 * 4 + c / 64) (omega arith),
        char_sextet-sextet_char (c % 64) (omega arith),
        (sextet_char-ne (c % 64) (omega arith)).0,
      )
      (ground arith)

abbrev pub IsBytes : List ℕ → Type 0
IsBytes v = All (λ b. b < 256) v

pub decode_string-encode_to_string :
    (v : List ℕ) → IsBytes v → decode_string (encode_to_string v) ≡ some v
unfolding decode_string encode_to_string decode_quantum
decode_string-encode_to_string [] h = refl
decode_string-encode_to_string (a ∷ []) h =
    rw
      (
        char_sextet-sextet_char (a / 4) (omega (arith, h.0)),
        char_sextet-sextet_char (a % 4 * 16) (omega arith),
      )
      (ground arith)
decode_string-encode_to_string (a ∷ b ∷ []) h =
    rw
      (
        char_sextet-sextet_char (a / 4) (omega (arith, h.0)),
        char_sextet-sextet_char (a % 4 * 16 + b / 16) (omega (arith, h.1.0)),
        (sextet_char-ne (b % 16 * 4) (omega arith)).0,
        char_sextet-sextet_char (b % 16 * 4) (omega arith),
      )
      (ground (arith, h.0, h.1.0))
decode_string-encode_to_string (a ∷ b ∷ c ∷ s) h =
    rw
      (
        decode_quantum-full a b c h.0 h.1.0 h.1.1.0,
        decode_string-encode_to_string s h.1.1.1,
        (sextet_char-ne (c % 64) (omega arith)).0,
      )
      refl

padding : is_space 61 ≡ false
unfolding is_space
padding = refl

plain-encode_to_string : (v : List ℕ) → IsBytes v → any is_space (encode_to_string v) ≡ false
unfolding any encode_to_string
plain-encode_to_string [] h = refl
plain-encode_to_string (a ∷ []) h =
    rw
      (
        (sextet_char-ne (a / 4) (omega (arith, h.0))).1,
        (sextet_char-ne (a % 4 * 16) (omega arith)).1,
        padding,
      )
      refl
plain-encode_to_string (a ∷ b ∷ []) h =
    rw
      (
        (sextet_char-ne (a / 4) (omega (arith, h.0))).1,
        (sextet_char-ne (a % 4 * 16 + b / 16) (omega (arith, h.1.0))).1,
        (sextet_char-ne (b % 16 * 4) (omega arith)).1,
        padding,
      )
      refl
plain-encode_to_string (a ∷ b ∷ c ∷ s) h =
    rw
      (
        (sextet_char-ne (a / 4) (omega (arith, h.0))).1,
        (sextet_char-ne (a % 4 * 16 + b / 16) (omega (arith, h.1.0))).1,
        (sextet_char-ne (b % 16 * 4 + c / 64) (omega (arith, h.1.1.0))).1,
        (sextet_char-ne (c % 64) (omega arith)).1,
      )
      (plain-encode_to_string s h.1.1.1)

pub encode_to_string-IsWord : (v : List ℕ) → IsBytes v → 0 < length v → IsWord (encode_to_string v)
unfolding encode_to_string
encode_to_string-IsWord [] h p = absurd (omega arith)
encode_to_string-IsWord (a ∷ []) h p = (omega arith, plain-encode_to_string (a ∷ []) h)
encode_to_string-IsWord (a ∷ b ∷ []) h p = (omega arith, plain-encode_to_string (a ∷ b ∷ []) h)
encode_to_string-IsWord (a ∷ b ∷ c ∷ s) h p =
    (omega arith, plain-encode_to_string (a ∷ b ∷ c ∷ s) h)
