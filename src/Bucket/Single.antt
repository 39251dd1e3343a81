-- ===== src/Bucket/Single.antt =====
-- `RemoveFirstSingleGroup` of mirbft/request/bucket.go, which removes from the list that it walks along.
use iss_com_multipaxos.Prelude.{
  ℕ, zero, suc, ◌≤◌, ◌≡◌, sym, subst, ◌∙◌, Bool, Option, none, some, inl, inr, List, [], ◌∷◌, ◌++◌,
  leb, if◌then◌else◌, length, append-nil, append_assoc, arith, Bool-cases,
}
use iss_com_multipaxos.Bucket.{Bucket, Request, remove_no_lock}
use iss_com_multipaxos.Bucket.Segment.{IsSegment, IsSegment-split}
use iss_com_multipaxos.Bucket.Cut.{IsDistinct-Parts, remove_member-cut}
use iss_com_multipaxos.Bucket.Links.{Holds, remove_no_lock-Holds}
use iss_com_multipaxos.Bucket.Search.{single_loop, remove_first_single_group}

abbrev head? : List ℕ → Option ℕ
head? [] = none
head? (x ∷ xs) = some x

head-segment :
    (nx pv : ℕ → Option ℕ) (p f l : Option ℕ) (xs : List ℕ)
    → IsSegment nx pv p f xs l none
    → f ≡ head? xs
head-segment nx pv p f l [] s = s.0
head-segment nx pv p f l (x ∷ xs) s = s.0

module _ (request_of : ℕ → Request) where
  abbrev single : ℕ → Bool
  single r = leb (length (request_of r).msg.touched_groups) 1

  -- The first requests of one group, and what they leave.
  abbrev pub taken : ℕ → List ℕ → List ℕ
  taken n [] = []
  taken zero (x ∷ xs) = []
  taken (suc n) (x ∷ xs) = if single x then x ∷ taken n xs else taken (suc n) xs

  abbrev pub kept : ℕ → List ℕ → List ℕ
  kept n [] = []
  kept zero (x ∷ xs) = x ∷ xs
  kept (suc n) (x ∷ xs) = if single x then kept n xs else x ∷ kept (suc n) xs

  -- What the walk leaves from `xs` on, behind the requests that it has passed.
  Walked : Bucket × List ℕ → ℕ → List ℕ → List ℕ → List ℕ → Type 0
  Walked w n dest done xs = (w.1 ≡ dest ++ taken n xs) × Holds w.0 (done ++ kept n xs)

  next-head :
      (b : Bucket) (done : List ℕ) (x : ℕ) (xs : List ℕ)
      → Holds b (done ++ x ∷ xs)
      → b.next x ≡ head? xs
  next-head b done x xs h =
      let (q, m, l, rest) =
        IsSegment-split b.next b.prev none b.first_request done (x ∷ xs) b.last_request none
          h.chain in
      head-segment b.next b.prev (some x) (b.next x) b.last_request xs rest.2

  single_loop-Walked :
      (fuel n : ℕ) (dest : List ℕ) (b : Bucket) (done xs : List ℕ)
      → length xs ≤ fuel
      → Holds b (done ++ xs)
      → Walked (single_loop request_of fuel n (head? xs) dest b) n dest done xs
  unfolding single_loop Walked
  single_loop-Walked zero n dest b done [] q h = (sym (append-nil dest), h)
  single_loop-Walked zero n dest b done (x ∷ xs) q h = absurd (omega arith)
  single_loop-Walked (suc fuel) zero dest b done [] q h = (sym (append-nil dest), h)
  single_loop-Walked (suc fuel) zero dest b done (x ∷ xs) q h = (sym (append-nil dest), h)
  single_loop-Walked (suc fuel) (suc n) dest b done [] q h = (sym (append-nil dest), h)
  single_loop-Walked (suc fuel) (suc n) dest b done (x ∷ xs) q h = elim (Bool-cases (single x)) [
    | inl e ↦
        let p = IsDistinct-Parts done x xs h.distinct in
        let h' : Holds (remove_no_lock x b) (done ++ xs) =
          subst (Holds (remove_no_lock x b)) (remove_member-cut done x xs p.before p.after)
            (remove_no_lock-Holds x b (done ++ x ∷ xs) h) in
        let (a, k) =
          subst
            (λ o.
              Walked (single_loop request_of fuel n o (dest ++ x ∷ []) (remove_no_lock x b)) n
                (dest ++ x ∷ []) done xs)
            (sym (next-head b done x xs h))
            (single_loop-Walked fuel n (dest ++ x ∷ []) (remove_no_lock x b) done xs (omega arith)
              h') in
        rw e (a ∙ append_assoc dest (x ∷ []) (taken n xs), k)
    | inr e ↦
        let h' : Holds b ((done ++ x ∷ []) ++ xs) =
          subst (Holds b) (sym (append_assoc done (x ∷ []) xs)) h in
        let (a, k) =
          subst
            (λ o.
              Walked (single_loop request_of fuel (suc n) o dest b) (suc n) dest (done ++ x ∷ [])
                xs)
            (sym (next-head b done x xs h))
            (single_loop-Walked fuel (suc n) dest b (done ++ x ∷ []) xs (omega arith) h') in
        rw e (a, subst (Holds _) (append_assoc done (x ∷ []) (kept (suc n) xs)) k)
  ]

  -- The requests that are cut are the first ones of one group, in order, and the bucket keeps the others
  -- in theirs.
  pub remove_first_single_group-Holds :
      (n : ℕ) (dest : List ℕ) (b : Bucket) (xs : List ℕ)
      → Holds b xs
      → ((remove_first_single_group request_of n dest b).1 ≡ dest ++ taken n xs)
        × Holds (remove_first_single_group request_of n dest b).0 (kept n xs)
  unfolding remove_first_single_group Walked
  remove_first_single_group-Holds n dest b xs h =
      subst (λ o. Walked (single_loop request_of b.num_requests n o dest b) n dest [] xs)
        (sym (head-segment b.next b.prev none b.first_request b.last_request xs h.chain))
        (single_loop-Walked b.num_requests n dest b [] xs (omega (arith, h.count)) h)
