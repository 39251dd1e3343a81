-- ===== src/Bucket/Links.antt =====
-- The operations on the links of mirbft/request/bucket.go are operations on a list of requests.
use iss_com_multipaxos.Prelude.{
  ℕ, ◌≡◌, refl, subst, ◌∙◌, true, false, not, ◌||◌, Option, none, some, inl, inr, List, [], ◌∷◌,
  ◌++◌, ◌==◌, length, length-append, contains, contains-append, remove_member, IsDistinct, arith,
  Bool-cases, ==_iff,
}
use iss_com_multipaxos.Bucket.{
  Bucket, set, is_first, is_loose, unlink_next, unlink_prev, clear_links, remove_no_lock,
}
use iss_com_multipaxos.Bucket.Segment.{
  IsSegment, set_same, set_other, IsSegment-frame, IsSegment-split, IsSegment-join, IsSegment-last,
  contains-ne,
}
use iss_com_multipaxos.Bucket.Cut.{
  cut_at, Parts, IsDistinct-Parts, IsDistinct-rest, remove_member-none, remove_member-cut,
}
use iss_com_multipaxos.Bucket.Unlink.{Sides, unlink_next-Sides, unlink_prev-Sides}

-- The bucket holds the requests `xs` in this order, and no other request has a link.
pub record Holds (b : Bucket) (xs : List ℕ) : Type 0 where
  pub chain : IsSegment b.next b.prev none b.first_request xs b.last_request none
  pub distinct : IsDistinct xs
  pub count : b.num_requests ≡ length xs
  pub loose : (r : ℕ) → contains r xs ≡ false → (b.next r ≡ none) × (b.prev r ≡ none)

clear_links-Holds :
    (r : ℕ) (b : Bucket) (ys zs : List ℕ) (q v : Option ℕ)
    → Parts ys r zs
    → IsDistinct (ys ++ zs)
    → Sides b r ys zs q v q v
    → Holds (clear_links r b) (ys ++ zs)
unfolding clear_links
clear_links-Holds r b ys zs q v p d s =
    let nx : ℕ → Option ℕ = set r none b.next in
    let pv : ℕ → Option ℕ = set r none b.prev in
    record {
      chain =
          IsSegment-join nx pv none b.first_request ys zs q v b.last_request none
            (IsSegment-frame b.next b.prev nx pv none b.first_request ys q v
              (λ y c. (
                set_other r y none b.next (contains-ne r y ys p.before c),
                set_other r y none b.prev (contains-ne r y ys p.before c),
              ))
              s.lefts)
            (IsSegment-frame b.next b.prev nx pv q v zs b.last_request none
              (λ y c. (
                set_other r y none b.next (contains-ne r y zs p.after c),
                set_other r y none b.prev (contains-ne r y zs p.after c),
              ))
              s.rights);
      distinct = d;
      count = omega (arith, s.size);
      loose = λ y c. elim (Bool-cases (r == y)) [
        | inl e ↦
            let same : r ≡ y = (==_iff r y).0 e in
            (
              subst (λ j. nx j ≡ none) same (set_same r none b.next),
              subst (λ j. pv j ≡ none) same (set_same r none b.prev),
            )
        | inr e ↦
            let off = contains-append y ys zs in
            let f = s.free y e (ground arith) (ground arith) in
            (set_other r y none b.next e ∙ f.0, set_other r y none b.prev e ∙ f.1)
      ];
    }

outside :
    (r y : ℕ) (ys zs : List ℕ)
    → r == y ≡ false
    → contains y ys ≡ false
    → contains y zs ≡ false
    → (contains y ys || contains y (r ∷ zs)) ≡ false
unfolding contains
outside r y ys zs i j k = ground arith

-- The first request of a bucket is one that it holds.
first-contains :
    (r : ℕ) (b : Bucket) (xs : List ℕ) → Holds b xs → contains r xs ≡ false → is_first r b ≡ false
unfolding is_first contains
first-contains r b [] h c = rw (h.chain.0) refl
first-contains r b (x ∷ xs) h c = rw (h.chain.0) (ground arith)

pub not_member-loose :
    (r : ℕ) (b : Bucket) (xs : List ℕ) → Holds b xs → contains r xs ≡ false → is_loose r b ≡ true
unfolding is_loose
not_member-loose r b xs h c = rw (first-contains r b xs h c, (h.loose r c).0, (h.loose r c).1) refl

stays :
    (r : ℕ) (b : Bucket) (xs : List ℕ)
    → Holds b xs
    → contains r xs ≡ false
    → Holds (remove_no_lock r b) xs
unfolding remove_no_lock
stays r b xs h c = rw (not_member-loose r b xs h c) h

-- A request that the bucket holds is not taken for one that is in no bucket.
pub member-not_loose :
    (r : ℕ) (b : Bucket) (ys zs : List ℕ) → Holds b (ys ++ r ∷ zs) → is_loose r b ≡ false
unfolding is_loose is_first
member-not_loose r b [] zs h = let e = h.chain.0 in rw (e, (==_iff r r).1 refl) (ground arith)
member-not_loose r b (y ∷ ys) zs h =
    let (q, m, l, rest) =
      IsSegment-split b.next b.prev none b.first_request (y ∷ ys) (r ∷ zs) b.last_request none
        h.chain in
    let (k, e, c) = IsSegment-last b.next b.prev none b.first_request y ys q m l in
    let f : b.prev r ≡ some k = rest.1 ∙ e in ground arith

remove_no_lock-cut :
    (r : ℕ) (b : Bucket) (ys zs : List ℕ)
    → Holds b (ys ++ r ∷ zs)
    → Holds (remove_no_lock r b) (ys ++ zs)
unfolding remove_no_lock
remove_no_lock-cut r b ys zs h =
    let p = IsDistinct-Parts ys r zs h.distinct in
    let (q, m, l, rest) =
      IsSegment-split b.next b.prev none b.first_request ys (r ∷ zs) b.last_request none h.chain in
    let s0 : Sides b r ys zs q (some r) (some r) (b.next r) = record {
      lefts = subst (λ j. IsSegment b.next b.prev none b.first_request ys q j) rest.0 l;
      rights = rest.2;
      free = λ y i j k. h.loose y (rw (contains-append y ys (r ∷ zs)) (outside r y ys zs i j k));
      size = omega (arith, h.count, length-append ys (r ∷ zs), length-append ys zs);
    } in
    let (s1, e, w) = unlink_next-Sides r b ys zs q p rest.1 s0 in
    rw (member-not_loose r b ys zs h) (
      clear_links-Holds r (unlink_prev r (unlink_next r b)) ys zs q (b.next r) p
        (IsDistinct-rest ys r zs h.distinct)
        (unlink_prev-Sides r (unlink_next r b) ys zs q (b.next r) p e w s1))

-- Removing a request from the links removes it from the list.
pub remove_no_lock-Holds :
    (r : ℕ) (b : Bucket) (xs : List ℕ)
    → Holds b xs
    → Holds (remove_no_lock r b) (remove_member r xs)
remove_no_lock-Holds r b xs h = elim (Bool-cases (contains r xs)) [
  | inl c ↦
      let (ys, zs, e) = cut_at r xs c in
      let h' : Holds b (ys ++ r ∷ zs) = subst (Holds b) e h in
      let p = IsDistinct-Parts ys r zs h'.distinct in
      rw (e, remove_member-cut ys r zs p.before p.after) (remove_no_lock-cut r b ys zs h')
  | inr c ↦ rw (remove_member-none r xs c) (stays r b xs h c)
]

pub is_loose-contains :
    (r : ℕ) (b : Bucket) (xs : List ℕ) → Holds b xs → is_loose r b ≡ not (contains r xs)
is_loose-contains r b xs h = elim (Bool-cases (contains r xs)) [
  | inl c ↦
      let (ys, zs, e) = cut_at r xs c in
      rw (c, member-not_loose r b ys zs (subst (Holds b) e h)) refl
  | inr c ↦ rw (c, not_member-loose r b xs h c) refl
]
