-- ===== src/Prelude/Maps.antt =====
-- A Go map with numbers for keys, as an association list.
use Prim.Native.Nat.{ℕ, zero, suc, ◌+◌, ◌≤◌, ◌<◌}
use mathlib.Core.Path.{◌≡◌}
use mathlib.Core.Bool.{true}
use mathlib.Core.List.{List, [], ◌∷◌}
use mathlib.Core.Option.{Option, none, some}
use native.Mathlib.Omega.{arith}
use iss_com_multipaxos.Prelude.Tests.{◌==◌, if◌then◌else◌, is_some}
use iss_com_multipaxos.Prelude.Lists.{length}

abbrev pub Map {ℓ} : Type ℓ → Type ℓ
Map V = List (ℕ × V)

module _ {ℓ} {V : Type ℓ} where
  unfoldable pub lookup : ℕ → Map V → Option V
  lookup k [] = none
  lookup k ((j, v) ∷ m) = if j == k then some v else lookup k m

  unfoldable pub insert : ℕ → V → Map V → Map V
  insert k v [] = (k, v) ∷ []
  insert k v ((j, w) ∷ m) = if j == k then (k, v) ∷ m else (j, w) ∷ insert k v m

  unfoldable pub erase : ℕ → Map V → Map V
  erase k [] = []
  erase k ((j, w) ∷ m) = let rest = erase k m in if j == k then rest else (j, w) ∷ rest

  pub lookup-insert :
      (j k : ℕ) (v : V) (m : Map V)
      → lookup j (insert k v m) ≡ (if k == j then some v else lookup j m)
  unfolding lookup insert
  lookup-insert j k v [] = ground arith
  lookup-insert j k v ((i, w) ∷ m) = ground (arith, lookup-insert j k v m)

  pub lookup-erase :
      (j k : ℕ) (m : Map V) → lookup j (erase k m) ≡ (if k == j then none else lookup j m)
  unfolding lookup erase
  lookup-erase j k [] = ground arith
  lookup-erase j k ((i, w) ∷ m) = ground (arith, lookup-erase j k m)

  pub length-erase-le : (k : ℕ) (m : Map V) → length (erase k m) ≤ length m
  unfolding erase
  length-erase-le k [] = omega arith
  length-erase-le k ((i, w) ∷ m) = ground (arith, length-erase-le k m)

  -- Removing a key that is there shortens the list.
  pub length-erase-lt :
      (k : ℕ) (m : Map V) → is_some (lookup k m) ≡ true → length (erase k m) < length m
  unfolding lookup erase
  length-erase-lt k [] h = ground arith
  length-erase-lt k ((i, w) ∷ m) h = ground (arith, length-erase-le k m, length-erase-lt k m)

  -- A map has at least as many entries as a run of consecutive keys that it holds.
  pub run_from-le :
      (n p : ℕ) (m : Map V)
      → ((k : ℕ) → p ≤ k → k < p + n → is_some (lookup k m) ≡ true)
      → n ≤ length m
  run_from-le zero p m h = omega arith
  run_from-le (suc n) p m h = omega (
    arith,
    length-erase-lt (p + n) m (h (p + n) (omega arith) (omega arith)),
    run_from-le n p (erase (p + n) m) (λ k a b. ground (arith, lookup-erase k (p + n) m, h k)),
  )

  pub run_of_keys-le :
      (n p : ℕ) (m : Map V)
      → ((k : ℕ) → p < k → k ≤ p + n → is_some (lookup k m) ≡ true)
      → n ≤ length m
  run_of_keys-le n p m h = run_from-le n (p + 1) m (λ k a b. h k (omega arith) (omega arith))
