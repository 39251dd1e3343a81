-- ===== src/Bucket/Unlink.antt =====
-- The two branches of `removeNoLock` in mirbft/request/bucket.go, on the stretches of the list on both
-- sides of a request.
use iss_com_multipaxos.Prelude.{
  ℕ, suc, ◌≡◌, refl, sym, subst, ◌∙◌, true, false, Option, none, some, inl, inr, List, [], ◌∷◌,
  ◌++◌, ◌==◌, length, contains, arith, Bool-cases,
}
use iss_com_multipaxos.Bucket.{Bucket, set, unlink_next, unlink_prev}
use iss_com_multipaxos.Bucket.Segment.{
  IsSegment, set_other, IsSegment-frame, IsSegment-last, contains-ne, IsSegment-set_next,
  IsSegment-set_prev,
}
use iss_com_multipaxos.Bucket.Cut.{Parts}

-- The stretches on both sides of a request `r`, with what follows the first and comes before the second.
pub record Sides (b : Bucket) (r : ℕ) (ys zs : List ℕ) (q m p n : Option ℕ) : Type 0 where
  pub lefts : IsSegment b.next b.prev none b.first_request ys q m
  pub rights : IsSegment b.next b.prev p n zs b.last_request none
  pub free :
      (y : ℕ)
      → r == y ≡ false
      → contains y ys ≡ false
      → contains y zs ≡ false
      → (b.next y ≡ none) × (b.prev y ≡ none)
  pub size : b.num_requests ≡ suc (length (ys ++ zs))

unlink_next-none :
    (r : ℕ) (b : Bucket) → b.next r ≡ none → unlink_next r b ≡ record b { last_request = b.prev r }
unfolding unlink_next
unlink_next-none r b e = rw (e, unlink_next) refl

unlink_next-some :
    (r n : ℕ) (b : Bucket)
    → b.next r ≡ some n
    → unlink_next r b ≡ record b { prev = set n (b.prev r) b.prev }
unfolding unlink_next
unlink_next-some r n b e = rw (e, unlink_next) refl

unlink_prev-none :
    (r : ℕ) (b : Bucket) → b.prev r ≡ none → unlink_prev r b ≡ record b { first_request = b.next r }
unfolding unlink_prev
unlink_prev-none r b e = rw (e, unlink_prev) refl

unlink_prev-some :
    (r p : ℕ) (b : Bucket)
    → b.prev r ≡ some p
    → unlink_prev r b ≡ record b { next = set p (b.next r) b.next }
unfolding unlink_prev
unlink_prev-some r p b e = rw (e, unlink_prev) refl

head_apart : (r z : ℕ) (ys zs : List ℕ) → Parts ys r (z ∷ zs) → contains z ys ≡ false
unfolding contains
head_apart r z ys zs p = elim (Bool-cases (contains z ys)) [
  | inl h ↦ let c = p.apart z h in absurd (ground (arith, c))
  | inr h ↦ h
]

head_after : (r z : ℕ) (ys zs : List ℕ) → Parts ys r (z ∷ zs) → z == r ≡ false
unfolding contains
head_after r z ys zs p = let c = p.after in ground (arith, c)

pub head_ne : (z y : ℕ) (zs : List ℕ) → contains y (z ∷ zs) ≡ false → z == y ≡ false
unfolding contains
head_ne z y zs h = ground arith

pub member_ne :
    (k z : ℕ) (xs : List ℕ) → contains k xs ≡ true → contains z xs ≡ false → k == z ≡ false
member_ne k z xs c h = elim (Bool-cases (k == z)) [
  | inl e ↦ let f = contains-ne z k xs h c in absurd (ground arith)
  | inr e ↦ e
]

-- After the branch on `Next`, the second stretch has the request before `r` in front of it.
pub unlink_next-Sides :
    (r : ℕ) (b : Bucket) (ys zs : List ℕ) (q : Option ℕ)
    → Parts ys r zs
    → b.prev r ≡ q
    → Sides b r ys zs q (some r) (some r) (b.next r)
    → Sides (unlink_next r b) r ys zs q (some r) q (b.next r)
      × ((unlink_next r b).prev r ≡ q)
      × ((unlink_next r b).next r ≡ b.next r)
unlink_next-Sides r b ys [] q p e s =
    subst
      (λ b'. Sides b' r ys [] q (some r) q (b.next r) × (b'.prev r ≡ q) × (b'.next r ≡ b.next r))
      (sym (unlink_next-none r b s.rights.0))
      (record { lefts = s.lefts; rights = (s.rights.0, e); free = s.free; size = s.size }, e, refl)
unlink_next-Sides r b ys (z ∷ zs) q p e s =
    subst
      (λ b'.
        Sides b' r ys (z ∷ zs) q (some r) q (b.next r) × (b'.prev r ≡ q) × (b'.next r ≡ b.next r))
      (sym (unlink_next-some r z b s.rights.0))
      (
        record {
          lefts =
              IsSegment-frame b.next b.prev b.next (set z (b.prev r) b.prev) none b.first_request ys
                q (some r)
                (λ y c. (
                  refl,
                  set_other z y (b.prev r) b.prev (contains-ne z y ys (head_apart r z ys zs p) c),
                ))
                s.lefts;
          rights =
              subst
                (λ k.
                  IsSegment b.next (set z (b.prev r) b.prev) k (b.next r) (z ∷ zs) b.last_request
                    none)
                e
                (IsSegment-set_prev b.next b.prev (some r) (b.next r) (b.prev r) z zs b.last_request
                  none p.right s.rights);
          free = λ y i j k. (
            (s.free y i j k).0,
            set_other z y (b.prev r) b.prev (head_ne z y zs k) ∙ (s.free y i j k).1,
          );
          size = s.size;
        },
        set_other z r (b.prev r) b.prev (head_after r z ys zs p) ∙ e,
        refl,
      )

-- After the branch on `Prev`, the first stretch has the request after `r` behind it.
pub unlink_prev-Sides :
    (r : ℕ) (b : Bucket) (ys zs : List ℕ) (q v : Option ℕ)
    → Parts ys r zs
    → b.prev r ≡ q
    → b.next r ≡ v
    → Sides b r ys zs q (some r) q v
    → Sides (unlink_prev r b) r ys zs q v q v
unlink_prev-Sides r b [] zs q v p e w s =
    subst (λ b'. Sides b' r [] zs q v q v) (sym (unlink_prev-none r b (e ∙ s.lefts.1)))
      (record { lefts = (w, s.lefts.1); rights = s.rights; free = s.free; size = s.size })
unlink_prev-Sides r b (y ∷ ys) zs q v p e w s =
    let (k, f, c) = IsSegment-last b.next b.prev none b.first_request y ys q (some r) s.lefts in
    let nx : ℕ → Option ℕ = set k (b.next r) b.next in
    subst (λ b'. Sides b' r (y ∷ ys) zs q v q v) (sym (unlink_prev-some r k b (e ∙ f)))
      (record {
        lefts =
            subst (λ j. IsSegment nx b.prev none b.first_request (y ∷ ys) j v) (sym f)
              (subst (λ j. IsSegment nx b.prev none b.first_request (y ∷ ys) (some k) j) w
                (IsSegment-set_next b.next b.prev none b.first_request y ys k (some r) (b.next r)
                  p.left
                  (subst (λ j. IsSegment b.next b.prev none b.first_request (y ∷ ys) j (some r)) f
                    s.lefts)));
        rights =
            IsSegment-frame b.next b.prev nx b.prev q v zs b.last_request none
              (λ z d. (set_other k z (b.next r) b.next (contains-ne k z zs (p.apart k c) d), refl))
              s.rights;
        free = λ z i j d. (
          set_other k z (b.next r) b.next (member_ne k z (y ∷ ys) c j) ∙ (s.free z i j d).0,
          (s.free z i j d).1,
        );
        size = s.size;
      })
