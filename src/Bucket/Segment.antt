-- ===== src/Bucket/Segment.antt =====
-- Stretches of the doubly linked list of mirbft/request/bucket.go.
use iss_com_multipaxos.Prelude.{
  ℕ, ◌≡◌, refl, sym, subst, ap, ◌∙◌, true, false, Option, some, inl, inr, List, [], ◌∷◌, ◌++◌, ◌==◌,
  contains, IsDistinct, arith, Bool-cases, ==_iff,
}
use iss_com_multipaxos.Bucket.{set}

-- The requests `xs` one after the other: the first is behind `f`, with `p` before it, and the last is
-- behind `l`, with `n` after it.
abbrev pub IsSegment :
    (ℕ → Option ℕ) → (ℕ → Option ℕ) → Option ℕ → Option ℕ → List ℕ → Option ℕ → Option ℕ → Type 0
IsSegment nx pv p f [] l n = (f ≡ n) × (l ≡ p)
IsSegment nx pv p f (x ∷ xs) l n =
    (f ≡ some x) × (pv x ≡ p) × IsSegment nx pv (some x) (nx x) xs l n

pub set_same : (r : ℕ) (v : Option ℕ) (f : ℕ → Option ℕ) → set r v f r ≡ v
unfolding set
set_same r v f = ground arith

pub set_other : (r j : ℕ) (v : Option ℕ) (f : ℕ → Option ℕ) → r == j ≡ false → set r v f j ≡ f j
unfolding set
set_other r j v f h = rw h refl

-- Links of other requests do not matter.
pub IsSegment-frame :
    (nx pv nx' pv' : ℕ → Option ℕ) (p f : Option ℕ) (xs : List ℕ) (l n : Option ℕ)
    → ((y : ℕ) → contains y xs ≡ true → (nx' y ≡ nx y) × (pv' y ≡ pv y))
    → IsSegment nx pv p f xs l n
    → IsSegment nx' pv' p f xs l n
unfolding contains
IsSegment-frame nx pv nx' pv' p f [] l n h s = s
IsSegment-frame nx pv nx' pv' p f (x ∷ xs) l n h s =
    let (a, b) = h x (ground arith) in
    (
      s.0,
      b ∙ s.1,
      subst (λ k. IsSegment nx' pv' (some x) k xs l n) (sym a)
          (IsSegment-frame nx pv nx' pv' (some x) (nx x) xs l n (λ y c. h y (ground arith)) s.2),
    )

pub IsSegment-split :
    (nx pv : ℕ → Option ℕ) (p f : Option ℕ) (xs ys : List ℕ) (l n : Option ℕ)
    → IsSegment nx pv p f (xs ++ ys) l n
    → (q : Option ℕ) × (m : Option ℕ) × IsSegment nx pv p f xs q m × IsSegment nx pv q m ys l n
IsSegment-split nx pv p f [] ys l n s = (p, f, (refl, refl), s)
IsSegment-split nx pv p f (x ∷ xs) ys l n s =
    let (q, m, a, b) = IsSegment-split nx pv (some x) (nx x) xs ys l n s.2 in
    (q, m, (s.0, s.1, a), b)

pub IsSegment-join :
    (nx pv : ℕ → Option ℕ) (p f : Option ℕ) (xs ys : List ℕ) (q m l n : Option ℕ)
    → IsSegment nx pv p f xs q m
    → IsSegment nx pv q m ys l n
    → IsSegment nx pv p f (xs ++ ys) l n
IsSegment-join nx pv p f [] ys q m l n a b =
    subst (λ k. IsSegment nx pv p k ys l n) (sym a.0)
      (subst (λ k. IsSegment nx pv k m ys l n) a.1 b)
IsSegment-join nx pv p f (x ∷ xs) ys q m l n a b =
    (a.0, a.1, IsSegment-join nx pv (some x) (nx x) xs ys q m l n a.2 b)

-- The last of a stretch that is not empty.
pub IsSegment-last :
    (nx pv : ℕ → Option ℕ) (p f : Option ℕ) (x : ℕ) (xs : List ℕ) (l n : Option ℕ)
    → IsSegment nx pv p f (x ∷ xs) l n
    → (q : ℕ) × (l ≡ some q) × (contains q (x ∷ xs) ≡ true)
unfolding contains
IsSegment-last nx pv p f x [] l n s = (x, s.2.1, ground arith)
IsSegment-last nx pv p f x (y ∷ ys) l n s =
    let (q, e, c) = IsSegment-last nx pv (some x) (nx x) y ys l n s.2 in (q, e, ground arith)

pub contains-ne :
    (x y : ℕ) (xs : List ℕ) → contains x xs ≡ false → contains y xs ≡ true → x == y ≡ false
contains-ne x y xs a b = elim (Bool-cases (x == y)) [
  | inl e ↦ absurd (true_false (sym b ∙ ap (λ k. contains k xs) (sym ((==_iff x y).0 e)) ∙ a))
  | inr e ↦ e
]
  where
    true_false : true ≡ false → ⊥
    true_false e = cc

-- What comes after the last request is set.
pub IsSegment-set_next :
    (nx pv : ℕ → Option ℕ) (p f : Option ℕ) (x : ℕ) (xs : List ℕ) (q : ℕ) (n m : Option ℕ)
    → IsDistinct (x ∷ xs)
    → IsSegment nx pv p f (x ∷ xs) (some q) n
    → IsSegment (set q m nx) pv p f (x ∷ xs) (some q) m
IsSegment-set_next nx pv p f x [] q n m d s =
    let e : x ≡ q = ground (arith, s.2.1) in
    (s.0, s.1, (subst (λ k. set q m nx k ≡ m) (sym e) (set_same q m nx), s.2.1))
IsSegment-set_next nx pv p f x (y ∷ ys) q n m d s =
    let (k, e, c) = IsSegment-last nx pv (some x) (nx x) y ys (some q) n s.2 in
    let same : k ≡ q = ground (arith, e) in
    let off : q == x ≡ false = ground (arith, contains-ne x k (y ∷ ys) d.0 c) in
    (
      s.0,
      s.1,
      subst (λ j. IsSegment (set q m nx) pv (some x) j (y ∷ ys) (some q) m)
          (sym (set_other q x m nx off))
          (IsSegment-set_next nx pv (some x) (nx x) y ys q n m d.1 s.2),
    )

-- What comes before the first request is set.
pub IsSegment-set_prev :
    (nx pv : ℕ → Option ℕ) (p f p' : Option ℕ) (x : ℕ) (xs : List ℕ) (l n : Option ℕ)
    → IsDistinct (x ∷ xs)
    → IsSegment nx pv p f (x ∷ xs) l n
    → IsSegment nx (set x p' pv) p' f (x ∷ xs) l n
IsSegment-set_prev nx pv p f p' x xs l n d s = (
  s.0,
  set_same x p' pv,
  IsSegment-frame nx pv nx (set x p' pv) (some x) (nx x) xs l n
      (λ y c. (refl, set_other x y p' pv (contains-ne x y xs d.0 c))) s.2,
)
