-- ===== src/Bucket/Ends.antt =====
-- Requests that are put at the ends of a bucket of mirbft/request/bucket.go, and cut from its start.
use iss_com_multipaxos.Prelude.{
  ℕ, zero, suc, ◌+◌, ◌≡◌, refl, sym, subst, ap, ◌∙◌, true, false, Option, none, some, inl, inr,
  List, [], ◌∷◌, ◌++◌, ◌==◌, length-append, contains, contains-append, remove_member, IsDistinct,
  arith, Bool-cases, Option-cases, ==_iff, append-nil, append_assoc, take, drop,
}
use iss_com_multipaxos.Bucket.{
  Bucket, set, is_loose, link_last, append, link_first, remove_no_lock, remove_first, remove_all,
  unlink_next, unlink_prev, clear_links,
}
use iss_com_multipaxos.Bucket.Segment.{
  IsSegment, set_same, set_other, IsSegment-frame, IsSegment-join, IsSegment-last, contains-ne,
  IsSegment-set_next, IsSegment-set_prev,
}
use iss_com_multipaxos.Bucket.Cut.{remove_member-none}
use iss_com_multipaxos.Bucket.Unlink.{head_ne, member_ne}
use iss_com_multipaxos.Bucket.Links.{Holds, remove_no_lock-Holds}

-- A request alone in a bucket that was empty.
abbrev alone : ℕ → Bucket → Bucket
alone r b = record b {
  first_request = some r;
  last_request = some r;
  num_requests = b.num_requests + 1;
}

alone-Holds : (r : ℕ) (b : Bucket) → Holds b [] → Holds (alone r b) (r ∷ [])
unfolding contains
alone-Holds r b h = record {
  chain = (refl, (h.loose r refl).1, ((h.loose r refl).0, refl));
  distinct = (refl, tt);
  count = omega (arith, h.count);
  loose = λ y c. h.loose y refl;
}

abbrev after_last : ℕ → ℕ → Bucket → Bucket
after_last l r b = record b {
  next = set l (some r) b.next;
  prev = set r (some l) b.prev;
  last_request = some r;
  num_requests = b.num_requests + 1;
}

abbrev before_first : ℕ → ℕ → Bucket → Bucket
before_first f r b = record b {
  prev = set f (some r) b.prev;
  next = set r (some f) b.next;
  first_request = some r;
  num_requests = b.num_requests + 1;
}

IsDistinct-snoc :
    (r : ℕ) (xs : List ℕ) → IsDistinct xs → contains r xs ≡ false → IsDistinct (xs ++ r ∷ [])
unfolding contains
IsDistinct-snoc r [] d c = (refl, tt)
IsDistinct-snoc r (x ∷ xs) d c =
    (ground (arith, contains-append x xs (r ∷ []), d.0), IsDistinct-snoc r xs d.1 (ground arith))

not_in_append :
    (y : ℕ) (xs ys : List ℕ)
    → contains y (xs ++ ys) ≡ false
    → (contains y xs ≡ false) × (contains y ys ≡ false)
not_in_append y xs ys d = let e = contains-append y xs ys in (ground arith, ground arith)

not_in_tail : (y z : ℕ) (zs : List ℕ) → contains y (z ∷ zs) ≡ false → contains y zs ≡ false
unfolding contains
not_in_tail y z zs h = ground arith

after_last-Holds :
    (l r x : ℕ) (xs : List ℕ) (b : Bucket)
    → Holds b (x ∷ xs)
    → contains r (x ∷ xs) ≡ false
    → b.last_request ≡ some l
    → contains l (x ∷ xs) ≡ true
    → Holds (after_last l r b) ((x ∷ xs) ++ r ∷ [])
after_last-Holds l r x xs b h c e m =
    let nx : ℕ → Option ℕ = set l (some r) b.next in
    let pv : ℕ → Option ℕ = set r (some l) b.prev in
    let off : l == r ≡ false = member_ne l r (x ∷ xs) m c in
    record {
      chain =
          IsSegment-join nx pv none b.first_request (x ∷ xs) (r ∷ []) (some l) (some r) (some r)
            none
            (IsSegment-frame nx b.prev nx pv none b.first_request (x ∷ xs) (some l) (some r)
              (λ y d. (refl, set_other r y (some l) b.prev (contains-ne r y (x ∷ xs) c d)))
              (IsSegment-set_next b.next b.prev none b.first_request x xs l none (some r) h.distinct
                (subst (λ j. IsSegment b.next b.prev none b.first_request (x ∷ xs) j none) e
                  h.chain)))
            (
              refl,
              set_same r (some l) b.prev,
              (set_other l r (some r) b.next off ∙ (h.loose r c).0, refl),
            );
      distinct = IsDistinct-snoc r (x ∷ xs) h.distinct c;
      count = omega (arith, h.count, length-append (x ∷ xs) (r ∷ []));
      loose = λ y d.
          let (i, j) = not_in_append y (x ∷ xs) (r ∷ []) d in
          (
            set_other l y (some r) b.next (member_ne l y (x ∷ xs) m i) ∙ (h.loose y i).0,
            set_other r y (some l) b.prev (head_ne r y [] j) ∙ (h.loose y i).1,
          );
    }

before_first-Holds :
    (r x : ℕ) (xs : List ℕ) (b : Bucket)
    → Holds b (x ∷ xs)
    → contains r (x ∷ xs) ≡ false
    → Holds (before_first x r b) (r ∷ x ∷ xs)
before_first-Holds r x xs b h c =
    let nx : ℕ → Option ℕ = set r (some x) b.next in
    let pv : ℕ → Option ℕ = set x (some r) b.prev in
    record {
      chain = (
        refl,
        set_other x r (some r) b.prev (head_ne x r xs c) ∙ (h.loose r c).1,
        subst (λ j. IsSegment nx pv (some r) j (x ∷ xs) b.last_request none)
            (sym (set_same r (some x) b.next))
            (IsSegment-frame b.next pv nx pv (some r) (some x) (x ∷ xs) b.last_request none
              (λ y d. (set_other r y (some x) b.next (contains-ne r y (x ∷ xs) c d), refl))
              (subst (λ j. IsSegment b.next pv (some r) j (x ∷ xs) b.last_request none) h.chain.0
                (IsSegment-set_prev b.next b.prev none b.first_request (some r) x xs b.last_request
                  none h.distinct h.chain))),
      );
      distinct = (c, h.distinct);
      count = omega (arith, h.count);
      loose = λ y d.
          let i : contains y (x ∷ xs) ≡ false = not_in_tail y r (x ∷ xs) d in
          (
            set_other r y (some x) b.next (head_ne r y (x ∷ xs) d) ∙ (h.loose y i).0,
            set_other x y (some r) b.prev (head_ne x y xs i) ∙ (h.loose y i).1,
          );
    }

link_last-filled :
    (r f l : ℕ) (b : Bucket)
    → b.first_request ≡ some f
    → b.last_request ≡ some l
    → link_last r b ≡ some (after_last l r b)
unfolding link_last
link_last-filled r f l b e g =
    subst
      (λ o.
        (elim o [
          | none ↦ some (alone r b)
          | some f' ↦ elim b.last_request [ none ↦ none | some l' ↦ some (after_last l' r b) ]
        ])
        ≡ some (after_last l r b))
      (sym e)
      (subst
        (λ o.
          (elim o [ none ↦ none | some l' ↦ some (after_last l' r b) ]) ≡ some (after_last l r b))
        (sym g) refl)

-- A request that the bucket does not hold goes to the end.
pub append-Holds :
    (r : ℕ) (b : Bucket) (xs : List ℕ)
    → Holds b xs
    → contains r xs ≡ false
    → (b' : Bucket) × (append r b ≡ some b')
      × Holds b' (xs ++ r ∷ [])
      × (b'.req_index ≡ b.req_index)
unfolding append link_last
append-Holds r b [] h c = (
  alone r b,
  rw ((h.loose r c).0, (h.loose r c).1, h.chain.0, link_last) refl,
  alone-Holds r b h,
  refl,
)
append-Holds r b (x ∷ xs) h c =
    let (l, e, m) =
      IsSegment-last b.next b.prev none b.first_request x xs b.last_request none h.chain in
    (
      after_last l r b,
      rw ((h.loose r c).0, (h.loose r c).1) (link_last-filled r x l b h.chain.0 e),
      after_last-Holds l r x xs b h c e m,
      refl,
    )

-- Or to the start.
pub link_first-Holds :
    (r : ℕ) (b : Bucket) (xs : List ℕ)
    → Holds b xs
    → contains r xs ≡ false
    → Holds (link_first r b) (r ∷ xs) × ((link_first r b).req_index ≡ b.req_index)
unfolding link_first
link_first-Holds r b [] h c = rw (h.chain.0, link_first) (alone-Holds r b h, refl)
link_first-Holds r b (x ∷ xs) h c =
    rw (h.chain.0, link_first) (before_first-Holds r x xs b h c, refl)

-- A removal leaves the index as it is.
pub remove_no_lock-req_index : (r : ℕ) (b : Bucket) → (remove_no_lock r b).req_index ≡ b.req_index
unfolding remove_no_lock clear_links
remove_no_lock-req_index r b = elim (Bool-cases (is_loose r b)) [
  | inl e ↦ rw e refl
  | inr e ↦ rw e (unlink_prev-req_index r (unlink_next r b) ∙ unlink_next-req_index r b)
]
  where
    unlink_next-req_index : (r : ℕ) (b : Bucket) → (unlink_next r b).req_index ≡ b.req_index
    unlink_next-req_index r b = elim (Option-cases (b.next r)) [
      | inl e ↦ rw (e, unlink_next) refl
      | inr (n, e) ↦ rw (e, unlink_next) refl
    ]

    unlink_prev-req_index : (r : ℕ) (b : Bucket) → (unlink_prev r b).req_index ≡ b.req_index
    unlink_prev-req_index r b = elim (Option-cases (b.prev r)) [
      | inl e ↦ rw (e, unlink_prev) refl
      | inr (n, e) ↦ rw (e, unlink_prev) refl
    ]

-- The list without some requests.
abbrev pub remove_members : List ℕ → List ℕ → List ℕ
remove_members [] xs = xs
remove_members (r ∷ rs) xs = remove_members rs (remove_member r xs)

pub remove_all-Holds :
    (rs : List ℕ) (b : Bucket) (xs : List ℕ)
    → Holds b xs
    → Holds (remove_all rs b) (remove_members rs xs) × ((remove_all rs b).req_index ≡ b.req_index)
unfolding remove_all
remove_all-Holds [] b xs h = (h, refl)
remove_all-Holds (r ∷ rs) b xs h =
    let (a, e) =
      remove_all-Holds rs (remove_no_lock r b) (remove_member r xs)
        (remove_no_lock-Holds r b xs h) in
    (a, e ∙ remove_no_lock-req_index r b)

remove_member-first : (x : ℕ) (xs : List ℕ) → contains x xs ≡ false → remove_member x (x ∷ xs) ≡ xs
unfolding remove_member
remove_member-first x xs c = rw ((==_iff x x).1 refl) (remove_member-none x xs c)

nothing_left :
    (n : ℕ) (b : Bucket) (dest : List ℕ)
    → b.num_requests ≡ 0
    → remove_first (suc n) dest b ≡ some (b, dest ++ [])
unfolding remove_first
nothing_left n b dest e =
    let z : b.num_requests == 0 ≡ true = ground arith in
    rw z (ap (λ d. some (b, d)) (sym (append-nil dest)))

-- The requests that are cut are the first ones, in order; the loop never finds a nil pointer.
pub remove_first-Holds :
    (n : ℕ) (dest : List ℕ) (b : Bucket) (xs : List ℕ)
    → Holds b xs
    → (b' : Bucket) × (remove_first n dest b ≡ some (b', dest ++ take n xs))
      × Holds b' (drop n xs)
      × (b'.req_index ≡ b.req_index)
unfolding remove_first
remove_first-Holds zero dest b xs h = (b, ap (λ d. some (b, d)) (sym (append-nil dest)), h, refl)
remove_first-Holds (suc n) dest b [] h = (b, nothing_left n b dest h.count, h, refl)
remove_first-Holds (suc n) dest b (x ∷ xs) h =
    let h' : Holds (remove_no_lock x b) xs =
      subst (Holds (remove_no_lock x b)) (remove_member-first x xs h.distinct.0)
        (remove_no_lock-Holds x b (x ∷ xs) h) in
    let (b', e, k, i) = remove_first-Holds n (dest ++ x ∷ []) (remove_no_lock x b) xs h' in
    let filled : b.num_requests == 0 ≡ false = ground (arith, h.count) in
    (
      b',
      rw (filled, h.chain.0) (e ∙ ap (λ d. some (b', d)) (append_assoc dest (x ∷ []) (take n xs))),
      k,
      i ∙ remove_no_lock-req_index x b,
    )
