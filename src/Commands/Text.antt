-- ===== src/Commands/Text.antt =====
-- What request/command.go uses of Go's `strings`: comparison, and the fields between spaces.
use Prim.Native.Char.{code}
use Prim.Native.String.{String}
use iss_com_multipaxos.Prelude.{
  ℕ, ◌<◌, ◌≡◌, refl, Bool, true, false, ◌&&◌, ◌||◌, List, [], ◌∷◌, ◌++◌, leb, ◌==◌, if◌then◌else◌,
  length, any, arith, append-nil,
}

-- The code points of a text.
abbrev pub codes : String → List ℕ
codes String.[] = []
codes (String.◌∷◌ c s) = code c ∷ codes s

unfoldable pub eq_text : List ℕ → List ℕ → Bool
eq_text [] [] = true
eq_text [] (d ∷ t) = false
eq_text (c ∷ s) [] = false
eq_text (c ∷ s) (d ∷ t) = c == d && eq_text s t

-- `unicode.IsSpace`
unfoldable pub is_space : ℕ → Bool
is_space c =
    leb 9 c && leb c 13
    || c == 32
    || c == 0x85
    || c == 0xA0
    || c == 0x1680
    || leb 0x2000 c && leb c 0x200A
    || c == 0x2028
    || c == 0x2029
    || c == 0x202F
    || c == 0x205F
    || c == 0x3000

unfoldable pub cons_word : List ℕ → List (List ℕ) → List (List ℕ)
cons_word [] ws = ws
cons_word (c ∷ w) ws = (c ∷ w) ∷ ws

-- The text up to the first space, and the fields after it.
unfoldable pub split_word : List ℕ → List ℕ × List (List ℕ)
split_word [] = ([], [])
split_word (c ∷ s) =
    let (w, ws) = split_word s in if is_space c then ([], cons_word w ws) else (c ∷ w, ws)

-- `strings.Fields`
unfoldable pub fields : List ℕ → List (List ℕ)
fields s = let (w, ws) = split_word s in cons_word w ws

-- A text that is a field of its own.
abbrev pub IsWord : List ℕ → Type 0
IsWord w = (0 < length w) × (any is_space w ≡ false)

split_word-append :
    (w s : List ℕ)
    → any is_space w ≡ false
    → split_word (w ++ s) ≡ (w ++ (split_word s).0, (split_word s).1)
unfolding split_word any
split_word-append [] s h = refl
split_word-append (c ∷ w) s h = ground (arith, split_word-append w s)

cons_word-IsWord : (w : List ℕ) (ws : List (List ℕ)) → IsWord w → cons_word w ws ≡ w ∷ ws
unfolding cons_word
cons_word-IsWord [] ws h = absurd (omega (arith, h.0))
cons_word-IsWord (c ∷ w) ws h = refl

-- A word and a space before a text come out as its first field.
pub fields-word : (w s : List ℕ) → IsWord w → fields (w ++ 32 ∷ s) ≡ w ∷ fields s
unfolding fields split_word is_space
fields-word w s h =
    cc (split_word-append w (32 ∷ s) h.1, append-nil w, cons_word-IsWord w (fields s) h)

pub fields-last_word : (w : List ℕ) → IsWord w → fields w ≡ w ∷ []
unfolding fields split_word
fields-last_word w h = cc (split_word-append w [] h.1, append-nil w, cons_word-IsWord w [] h)
