-- ===== src/Commands/Decimals.antt =====
-- What request/command.go uses of Go's `strconv`: decimal numbers of a machine word. A parse is `none`
-- for either error of the source, a syntax or a range error.
use iss_com_multipaxos.Prelude.{
  ℕ, zero, suc, ◌+◌, ◌-◌, ◌*◌, ◌/◌, ◌%◌, ◌^◌, ◌≤◌, ◌<◌, ◌≡◌, ap, ◌∙◌, Bool, true, false, ◌&&◌,
  Option, none, some, List, [], ◌∷◌, ◌++◌, leb, ltb, ◌==◌, if◌then◌else◌, length, length-append,
  any, any-append, arith, Bool-cases, inl, inr,
}
use iss_com_multipaxos.Commands.Text.{is_space, IsWord}

-- The number `pos n`, or `-(n + 1)`.
pub data ℤ : Type 0 where
  pos : ℕ → ℤ
  negsuc : ℕ → ℤ

-- The digits of `n`, which has at most `fuel` of them after the first.
unfoldable pub digits : ℕ → ℕ → List ℕ
digits zero n = (48 + n % 10) ∷ []
digits (suc fuel) n =
    let rest = digits fuel (n / 10) in
    if ltb n 10 then (48 + n % 10) ∷ [] else rest ++ (48 + n % 10) ∷ []

unfoldable pub format_uint : ℕ → List ℕ
unfolding digits
format_uint n = digits n n

unfoldable pub format_int : ℤ → List ℕ
unfolding format_uint
format_int (ℤ.pos n) = format_uint n
format_int (ℤ.negsuc n) = 45 ∷ format_uint (n + 1)

unfoldable pub is_digit : ℕ → Bool
is_digit c = leb 48 c && leb c 57

unfoldable pub digits_value : ℕ → List ℕ → Option ℕ
unfolding is_digit
digits_value acc [] = some acc
digits_value acc (c ∷ s) =
    let rest = digits_value (acc * 10 + (c - 48)) s in if is_digit c then rest else none

-- `strconv.ParseUint(s, 10, bits)`
unfoldable pub parse_uint : ℕ → List ℕ → Option ℕ
unfolding digits_value
parse_uint bits [] = none
parse_uint bits (c ∷ s) = elim (digits_value 0 (c ∷ s)) [
  | none ↦ none
  | some n ↦ if ltb n (2 ^ bits) then some n else none
]

-- The sign goes on a magnitude that fits.
unfoldable pub with_sign : ℕ → Bool → Option ℕ → Option ℤ
with_sign bits neg none = none
with_sign bits false (some n) = if ltb n (2 ^ (bits - 1)) then some (ℤ.pos n) else none
with_sign bits true (some zero) = some (ℤ.pos 0)
with_sign bits true (some (suc n)) = if ltb n (2 ^ (bits - 1)) then some (ℤ.negsuc n) else none

-- `strconv.ParseInt(s, 10, bits)`
unfoldable pub parse_int : ℕ → List ℕ → Option ℤ
unfolding parse_uint with_sign
parse_int bits [] = none
parse_int bits (c ∷ s) =
    if c == 43
    then with_sign bits false (parse_uint bits s)
    else if c == 45
    then with_sign bits true (parse_uint bits s)
    else with_sign bits false (parse_uint bits (c ∷ s))

digits_value-append :
    (acc d : ℕ) (s : List ℕ) (n : ℕ)
    → d < 10
    → digits_value acc s ≡ some n
    → digits_value acc (s ++ (48 + d) ∷ []) ≡ some (n * 10 + d)
unfolding digits_value is_digit
digits_value-append acc d [] n a h = ground arith
digits_value-append acc d (c ∷ s) n a h =
    ground (arith, digits_value-append (acc * 10 + (c - 48)) d s n a)

digits_value-digits : (f n : ℕ) → n ≤ f → digits_value 0 (digits f n) ≡ some n
unfolding digits digits_value is_digit
digits_value-digits zero n h = ground arith
digits_value-digits (suc f) n h = elim (Bool-cases (ltb n 10)) [
  | inl e ↦ rw e (ground arith)
  | inr e ↦ rw e (
      digits_value-append 0 (n % 10) (digits f (n / 10)) (n / 10) (omega arith)
        (digits_value-digits f (n / 10) (ground arith))
      ∙ ap some (omega arith))
]

parse_uint_of :
    (bits n : ℕ) (s : List ℕ)
    → 0 < length s
    → n < 2 ^ bits
    → digits_value 0 s ≡ some n
    → parse_uint bits s ≡ some n
unfolding parse_uint
parse_uint_of bits n [] p h e = absurd (omega arith)
parse_uint_of bits n (c ∷ s) p h e = rw (e, parse_uint) (ground arith)

length-digits : (f n : ℕ) → 0 < length (digits f n)
unfolding digits
length-digits zero n = omega arith
length-digits (suc f) n = elim (Bool-cases (ltb n 10)) [
  | inl e ↦ rw e (omega arith)
  | inr e ↦ rw e (omega (arith, length-append (digits f (n / 10)) ((48 + n % 10) ∷ [])))
]

pub parse_uint-format_uint : (bits n : ℕ) → n < 2 ^ bits → parse_uint bits (format_uint n) ≡ some n
unfolding format_uint
parse_uint-format_uint bits n h =
    parse_uint_of bits n (digits n n) (length-digits n n) h (digits_value-digits n n (omega arith))

-- What a format writes has digits only.
plain-digits : (f n : ℕ) → any is_space (digits f n) ≡ false
unfolding digits is_space any
plain-digits zero n = ground arith
plain-digits (suc f) n = elim (Bool-cases (ltb n 10)) [
  | inl e ↦ rw e (ground arith)
  | inr e ↦
      rw (e, any-append is_space (digits f (n / 10)) ((48 + n % 10) ∷ []), plain-digits f (n / 10))
        (ground arith)
]

pub format_uint-IsWord : (n : ℕ) → IsWord (format_uint n)
unfolding format_uint
format_uint-IsWord n = (length-digits n n, plain-digits n n)

-- The numbers of a signed word.
abbrev pub Fits : ℕ → ℤ → Type 0
Fits bits (ℤ.pos n) = n < 2 ^ (bits - 1)
Fits bits (ℤ.negsuc n) = n < 2 ^ (bits - 1)

first_digit : (c : ℕ) (s : List ℕ) (n : ℕ) → digits_value 0 (c ∷ s) ≡ some n → is_digit c ≡ true
unfolding digits_value
first_digit c s n e = ground arith

-- A digit is not taken for a sign.
not_sign : (c d : ℕ) → is_digit c ≡ true → d < 48 → c == d ≡ false
unfolding is_digit
not_sign c d h l = ground arith

parse_int_of :
    (n : ℕ) (s : List ℕ)
    → 0 < length s
    → n < 2 ^ 63
    → digits_value 0 s ≡ some n
    → parse_int 64 s ≡ some (ℤ.pos n)
unfolding parse_int with_sign
parse_int_of n [] p h e = absurd (omega arith)
parse_int_of n (c ∷ s) p h e =
    let digit : is_digit c ≡ true = first_digit c s n e in
    let no_plus : c == 43 ≡ false = not_sign c 43 digit (omega arith) in
    let no_minus : c == 45 ≡ false = not_sign c 45 digit (omega arith) in
    rw (no_plus, no_minus, parse_uint_of 64 n (c ∷ s) p (omega arith) e) (ground arith)

pub parse_int-format_int : (a : ℤ) → Fits 64 a → parse_int 64 (format_int a) ≡ some a
unfolding parse_int format_int with_sign format_uint
parse_int-format_int (ℤ.pos n) h =
    parse_int_of n (digits n n) (length-digits n n) h (digits_value-digits n n (omega arith))
parse_int-format_int (ℤ.negsuc n) h =
    rw (parse_uint-format_uint 64 (n + 1) (omega arith)) (ground arith)

pub format_int-IsWord : (a : ℤ) → IsWord (format_int a)
unfolding format_int any is_space
format_int-IsWord (ℤ.pos n) = format_uint-IsWord n
format_int-IsWord (ℤ.negsuc n) = (omega arith, ground (arith, (format_uint-IsWord (n + 1)).1))
