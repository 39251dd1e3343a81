-- ===== src/Prelude/Quorum.antt =====
-- Two sets of members that are together more than all members have one in common.
use Prim.Native.Nat.{ℕ, ◌+◌, ◌≤◌, ◌<◌}
use mathlib.Core.Path.{◌≡◌, refl}
use mathlib.Core.Bool.{true, false, ◌||◌}
use mathlib.Core.Logic.{inl, inr}
use mathlib.Core.List.{List, [], ◌∷◌, ◌++◌}
use native.Mathlib.Omega.{arith}
use iss_com_multipaxos.Prelude.Tests.{Bool-cases}
use iss_com_multipaxos.Prelude.Lists.{
  length, length-append, any, All, All-append, contains, remove_member, contains-remove_member,
}

abbrev pub IsDistinct : List ℕ → Type 0
IsDistinct [] = Unit
IsDistinct (x ∷ xs) = (contains x xs ≡ false) × IsDistinct xs

abbrev pub IsWithin : List ℕ → List ℕ → Type 0
IsWithin ms xs = All (λ x. contains x ms ≡ true) xs

length-remove_member : (x : ℕ) (ms : List ℕ) → length (remove_member x ms) ≤ length ms
unfolding remove_member
length-remove_member x [] = omega arith
length-remove_member x (m ∷ ms) = ground (arith, length-remove_member x ms)

pub length-remove_member_there :
    (x : ℕ) (ms : List ℕ) → contains x ms ≡ true → length (remove_member x ms) < length ms
unfolding remove_member contains
length-remove_member_there x [] h = cc
length-remove_member_there x (m ∷ ms) h =
    ground (arith, length-remove_member_there x ms, length-remove_member x ms)

IsWithin-remove_member :
    (x : ℕ) (ms xs : List ℕ)
    → contains x xs ≡ false
    → IsWithin ms xs
    → IsWithin (remove_member x ms) xs
unfolding contains
IsWithin-remove_member x ms [] n w = tt
IsWithin-remove_member x ms (y ∷ ys) n w = (
  ground (arith, contains-remove_member y x ms, w.0),
  IsWithin-remove_member x ms ys (ground arith) w.1,
)

pub length-IsWithin : (xs ms : List ℕ) → IsDistinct xs → IsWithin ms xs → length xs ≤ length ms
length-IsWithin [] ms d w = omega arith
length-IsWithin (x ∷ xs) ms d w = omega (
  arith,
  length-IsWithin xs (remove_member x ms) d.1 (IsWithin-remove_member x ms xs d.0 w.1),
  length-remove_member_there x ms w.0,
)

pub contains-append :
    (x : ℕ) (xs ys : List ℕ) → contains x (xs ++ ys) ≡ (contains x xs || contains x ys)
unfolding contains
contains-append x [] ys = refl
contains-append x (z ∷ zs) ys = ground (arith, contains-append x zs ys)

pub IsDistinct-append :
    (xs ys : List ℕ)
    → IsDistinct xs
    → IsDistinct ys
    → any (λ n. contains n ys) xs ≡ false
    → IsDistinct (xs ++ ys)
unfolding any
IsDistinct-append [] ys d e n = e
IsDistinct-append (x ∷ xs) ys d e n =
    (ground (arith, contains-append x xs ys, d.0), IsDistinct-append xs ys d.1 e (ground arith))

common :
    (xs ys : List ℕ)
    → any (λ n. contains n ys) xs ≡ true
    → (n : ℕ) × (contains n xs ≡ true) × (contains n ys ≡ true)
unfolding any contains
common [] ys h = absurd (cc)
common (x ∷ xs) ys h = elim (Bool-cases (contains x ys)) [
  | inl e ↦ (x, ground arith, e)
  | inr e ↦ let (n, a, b) = common xs ys (ground arith) in (n, ground arith, b)
]

pub sets_meet :
    (ms xs ys : List ℕ)
    → IsDistinct xs
    → IsDistinct ys
    → IsWithin ms xs
    → IsWithin ms ys
    → length ms < length xs + length ys
    → (n : ℕ) × (contains n xs ≡ true) × (contains n ys ≡ true)
sets_meet ms xs ys d e w v h = elim (Bool-cases (any (λ n. contains n ys) xs)) [
  | inl p ↦ common xs ys p
  | inr p ↦ absurd (
      omega (
        arith,
        length-IsWithin (xs ++ ys) ms (IsDistinct-append xs ys d e p)
            (All-append (λ x. contains x ms ≡ true) xs ys w v),
        length-append xs ys,
      ))
]
