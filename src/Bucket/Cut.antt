-- ===== src/Bucket/Cut.antt =====
-- A list of requests without repeats, around one of its members.
use iss_com_multipaxos.Prelude.{
  ℕ, ◌≡◌, refl, subst, ap, true, false, inl, inr, List, [], ◌∷◌, ◌++◌, ◌==◌, contains,
  contains-append, remove_member, IsDistinct, arith, Bool-cases, ==_iff,
}

-- A list that is cut at one of its members.
pub cut_at :
    (r : ℕ) (xs : List ℕ)
    → contains r xs ≡ true
    → (ys : List ℕ) × (zs : List ℕ) × (xs ≡ ys ++ r ∷ zs)
unfolding contains
cut_at r [] h = absurd (cc)
cut_at r (x ∷ xs) h = elim (Bool-cases (x == r)) [
  | inl e ↦ ([], xs, ap (λ k. k ∷ xs) ((==_iff x r).0 e))
  | inr e ↦ let (ys, zs, q) = cut_at r xs (ground arith) in (x ∷ ys, zs, ap (λ k. x ∷ k) q)
]

-- The parts of a list without repeats.
pub record Parts (ys : List ℕ) (r : ℕ) (zs : List ℕ) : Type 0 where
  pub before : contains r ys ≡ false
  pub after : contains r zs ≡ false
  pub left : IsDistinct ys
  pub right : IsDistinct zs
  pub apart : (y : ℕ) → contains y ys ≡ true → contains y zs ≡ false

pub IsDistinct-Parts :
    (ys : List ℕ) (r : ℕ) (zs : List ℕ) → IsDistinct (ys ++ r ∷ zs) → Parts ys r zs
unfolding contains
IsDistinct-Parts [] r zs d = record {
  before = refl;
  after = d.0;
  left = tt;
  right = d.1;
  apart = λ y h. absurd (cc);
}
IsDistinct-Parts (a ∷ ys) r zs d =
    let p = IsDistinct-Parts ys r zs d.1 in
    let off = contains-append a ys (r ∷ zs) in
    record {
      before = ground (arith, p.before, off, d.0);
      after = p.after;
      left = (ground (arith, off, d.0), p.left);
      right = p.right;
      apart = λ y h. elim (Bool-cases (a == y)) [
        | inl e ↦ subst (λ k. contains k zs ≡ false) ((==_iff a y).0 e) (ground (arith, off, d.0))
        | inr e ↦ p.apart y (ground arith)
      ];
    }

pub IsDistinct-rest :
    (ys : List ℕ) (r : ℕ) (zs : List ℕ) → IsDistinct (ys ++ r ∷ zs) → IsDistinct (ys ++ zs)
unfolding contains
IsDistinct-rest [] r zs d = d.1
IsDistinct-rest (a ∷ ys) r zs d = (
  ground (arith, contains-append a ys (r ∷ zs), contains-append a ys zs, d.0),
  IsDistinct-rest ys r zs d.1,
)

pub remove_member-none : (r : ℕ) (xs : List ℕ) → contains r xs ≡ false → remove_member r xs ≡ xs
unfolding contains remove_member
remove_member-none r [] h = refl
remove_member-none r (x ∷ xs) h = ground (arith, remove_member-none r xs)

pub remove_member-cut :
    (ys : List ℕ) (r : ℕ) (zs : List ℕ)
    → contains r ys ≡ false
    → contains r zs ≡ false
    → remove_member r (ys ++ r ∷ zs) ≡ ys ++ zs
unfolding contains remove_member
remove_member-cut [] r zs h k = ground (arith, remove_member-none r zs k)
remove_member-cut (a ∷ ys) r zs h k = ground (arith, remove_member-cut ys r zs)
