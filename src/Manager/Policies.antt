-- ===== src/Manager/Policies.antt =====
-- What the choice of leaders guarantees, mirbft/manager/leaderpolicies.go.
use iss_com_multipaxos.Prelude.{
  ℕ, zero, suc, ◌+◌, ◌-◌, ◌≤◌, ◌≡◌, refl, false, inl, inr, List, [], ◌∷◌, ◌++◌, ltb, if◌then◌else◌,
  length, drop, contains, IsDistinct, IsWithin, length-IsWithin, arith, Bool-cases,
}
use iss_com_multipaxos.Manager.{blacklist_update, blacklist_leaders}

length-drop : (n : ℕ) (xs : List ℕ) → length (drop n xs) ≡ length xs - n
length-drop zero xs = omega arith
length-drop (suc n) [] = omega arith
length-drop (suc n) (x ∷ xs) = omega (arith, length-drop n xs)

-- The list of banned nodes after some suspects.
unfoldable pub blacklist_run : ℕ → List ℕ → List ℕ → List ℕ
unfolding blacklist_update
blacklist_run faults [] banned = banned
blacklist_run faults (s ∷ ss) banned = blacklist_run faults ss (blacklist_update faults s banned)

length-blacklist_update : (f s : ℕ) (banned : List ℕ) → length (blacklist_update f s banned) ≤ f
unfolding blacklist_update
length-blacklist_update f s banned = elim (Bool-cases (ltb f (length (banned ++ s ∷ [])))) [
  | inl e ↦ rw e (ground (arith, length-drop (length (banned ++ s ∷ []) - f) (banned ++ s ∷ [])))
  | inr e ↦ rw e (ground arith)
]

length-blacklist_run :
    (f : ℕ) (ss banned : List ℕ) → length banned ≤ f → length (blacklist_run f ss banned) ≤ f
unfolding blacklist_run
length-blacklist_run f [] banned h = h
length-blacklist_run f (s ∷ ss) banned h =
    length-blacklist_run f ss (blacklist_update f s banned) (length-blacklist_update f s banned)

-- The nodes that are banned.
banned_of : List ℕ → List ℕ → List ℕ
banned_of banned [] = []
banned_of banned (x ∷ xs) =
    let rest = banned_of banned xs in if contains x banned then x ∷ rest else rest

length-banned_of :
    (banned xs : List ℕ)
    → length (blacklist_leaders banned xs) + length (banned_of banned xs) ≡ length xs
unfolding blacklist_leaders banned_of
length-banned_of banned [] = omega arith
length-banned_of banned (x ∷ xs) = elim (Bool-cases (contains x banned)) [
  | inl e ↦ rw e (omega (arith, length-banned_of banned xs))
  | inr e ↦ rw e (omega (arith, length-banned_of banned xs))
]

contains-banned_of :
    (y : ℕ) (banned xs : List ℕ) → contains y xs ≡ false → contains y (banned_of banned xs) ≡ false
unfolding banned_of contains
contains-banned_of y banned [] h = refl
contains-banned_of y banned (x ∷ xs) h = ground (arith, contains-banned_of y banned xs)

banned_of-IsDistinct : (banned xs : List ℕ) → IsDistinct xs → IsDistinct (banned_of banned xs)
unfolding banned_of
banned_of-IsDistinct banned [] d = tt
banned_of-IsDistinct banned (x ∷ xs) d = elim (Bool-cases (contains x banned)) [
  | inl e ↦ rw e (contains-banned_of x banned xs d.0, banned_of-IsDistinct banned xs d.1)
  | inr e ↦ rw e (banned_of-IsDistinct banned xs d.1)
]

banned_of-IsWithin : (banned xs : List ℕ) → IsWithin banned (banned_of banned xs)
unfolding banned_of
banned_of-IsWithin banned [] = tt
banned_of-IsWithin banned (x ∷ xs) = elim (Bool-cases (contains x banned)) [
  | inl e ↦ rw e (e, banned_of-IsWithin banned xs)
  | inr e ↦ rw e (banned_of-IsWithin banned xs)
]

-- Whoever has been suspected, the blacklist leaves at least as many leaders as there are nodes less
-- those that may fail, if no node is listed twice.
pub blacklist_leaders-enough :
    (faults : ℕ) (suspects nodes : List ℕ)
    → IsDistinct nodes
    → length nodes ≤ length (blacklist_leaders (blacklist_run faults suspects []) nodes) + faults
blacklist_leaders-enough faults suspects nodes d =
    let banned : List ℕ = blacklist_run faults suspects [] in
    omega (
      arith,
      length-banned_of banned nodes,
      length-IsWithin (banned_of banned nodes) banned (banned_of-IsDistinct banned nodes d)
          (banned_of-IsWithin banned nodes),
      length-blacklist_run faults suspects [] (omega arith),
    )
