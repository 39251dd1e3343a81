-- ===== src/Prelude/Lists.antt =====
-- Lists measured by native numbers, tests on them, and sets of numbers as lists without repeats.
use Prim.Native.Nat.{ℕ, zero, suc, ◌+◌, ◌≤◌, ◌<◌}
use mathlib.Core.Path.{◌≡◌, refl}
use mathlib.Core.Bool.{Bool, false, not, ◌&&◌, ◌||◌}
use mathlib.Core.Logic.{inl, inr}
use mathlib.Core.Option.{Option, none, some}
use mathlib.Core.List.{List, [], ◌∷◌, ◌++◌}
use native.Mathlib.Omega.{arith}
use iss_com_multipaxos.Prelude.Tests.{◌==◌, if◌then◌else◌, Bool-cases}

module _ {ℓ} {A : Type ℓ} where
  abbrev pub length : List A → ℕ
  length [] = 0
  length (x ∷ xs) = suc (length xs)

  pub length-append : (xs ys : List A) → length (xs ++ ys) ≡ length xs + length ys
  length-append [] ys = omega arith
  length-append (x ∷ xs) ys = omega (arith, length-append xs ys)

  -- Some entry passes the test.
  unfoldable pub any : (A → Bool) → List A → Bool
  any p [] = false
  any p (x ∷ xs) = p x || any p xs

  abbrev pub All {κ} : (A → Type κ) → List A → Type κ
  All P [] = Unit
  All P (x ∷ xs) = P x × All P xs

  pub All-append {κ} : (P : A → Type κ) (xs ys : List A) → All P xs → All P ys → All P (xs ++ ys)
  All-append P [] ys hx hy = hy
  All-append P (x ∷ xs) ys hx hy = (hx.0, All-append P xs ys hx.1 hy)

  pub any-append : (p : A → Bool) (xs ys : List A) → any p (xs ++ ys) ≡ (any p xs || any p ys)
  unfolding any
  any-append p [] ys = refl
  any-append p (x ∷ xs) ys = ground (arith, any-append p xs ys)

unfoldable pub contains : ℕ → List ℕ → Bool
contains k [] = false
contains k (x ∷ xs) = x == k || contains k xs

-- `m[k] = true` of a Go set: an element that is there already changes nothing.
unfoldable pub add_member : ℕ → List ℕ → List ℕ
unfolding contains
add_member k xs = if contains k xs then xs else k ∷ xs

-- `delete(m, k)` of a Go set.
unfoldable pub remove_member : ℕ → List ℕ → List ℕ
remove_member k [] = []
remove_member k (x ∷ xs) = let rest = remove_member k xs in if x == k then rest else x ∷ rest

pub contains-add_member :
    (j k : ℕ) (xs : List ℕ) → contains j (add_member k xs) ≡ (k == j || contains j xs)
unfolding add_member
contains-add_member j k xs = elim (Bool-cases (contains k xs)) [
  | inl e ↦ rw e (elim (Bool-cases (k == j)) [ inl f ↦ ground arith | inr f ↦ rw f ])
  | inr e ↦ rw e
]

pub contains-remove_member :
    (j k : ℕ) (xs : List ℕ) → contains j (remove_member k xs) ≡ (not (k == j) && contains j xs)
unfolding contains remove_member
contains-remove_member j k [] = ground arith
contains-remove_member j k (x ∷ xs) = ground (arith, contains-remove_member j k xs)

module _ {ℓ} {A : Type ℓ} where
  abbrev pub get_elem? : List A → ℕ → Option A
  get_elem? [] i = none
  get_elem? (x ∷ xs) zero = some x
  get_elem? (x ∷ xs) (suc i) = get_elem? xs i

  abbrev pub drop : ℕ → List A → List A
  drop zero xs = xs
  drop (suc n) [] = []
  drop (suc n) (x ∷ xs) = drop n xs

  abbrev pub take : ℕ → List A → List A
  take zero xs = []
  take (suc n) [] = []
  take (suc n) (x ∷ xs) = x ∷ take n xs

  pub drop-get_elem? :
      (i : ℕ) (xs : List A) {x : A} → get_elem? xs i ≡ some x → drop i xs ≡ x ∷ drop (suc i) xs
  drop-get_elem? zero [] h = cc
  drop-get_elem? zero (y ∷ xs) h = cc
  drop-get_elem? (suc i) [] h = cc
  drop-get_elem? (suc i) (y ∷ xs) h = drop-get_elem? i xs h

  pub get_elem?-lt : (i : ℕ) (xs : List A) {x : A} → get_elem? xs i ≡ some x → i < length xs
  get_elem?-lt zero [] h = cc
  get_elem?-lt zero (y ∷ xs) h = omega arith
  get_elem?-lt (suc i) [] h = cc
  get_elem?-lt (suc i) (y ∷ xs) h = omega (arith, get_elem?-lt i xs h)

  pub drop-append : (i : ℕ) (xs ys : List A) → i ≤ length xs → drop i (xs ++ ys) ≡ drop i xs ++ ys
  drop-append zero xs ys h = refl
  drop-append (suc i) [] ys h = absurd (omega arith)
  drop-append (suc i) (x ∷ xs) ys h = drop-append i xs ys (omega arith)
