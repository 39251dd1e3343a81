-- ===== src/Manager/Buckets.antt =====
-- `assignBuckets` of mirbft/manager/mirmanager.go: who gets a bucket.
use iss_com_multipaxos.Prelude.{
  ℕ, suc, ◌+◌, ◌-◌, ◌*◌, ◌/◌, ◌%◌, ◌≤◌, ◌<◌, ◌≡◌, refl, sym, subst, ap, ◌∙◌, Bool, true, false, not,
  ◌&&◌, ◌||◌, Option, none, some, inl, inr, List, [], ◌∷◌, ◌==◌, if◌then◌else◌, is_some, length,
  contains, contains-append, IsDistinct, All, arith, Bool-cases, Option-cases, ==_iff,
}
use native.Mathlib.Nat.{mod-lt, div-add-mod, suc-mul, mul_comm, mod-add-mod}
use iss_com_multipaxos.Manager.{
  Config, every_nth, init_buckets, init_buckets_of, extra_buckets, extra_of, sort_numbers,
  assign_buckets,
}
use iss_com_multipaxos.Manager.Segments.{same_truth, mod-add_multiple}
use iss_com_multipaxos.Manager.Turns.{
  every_nth-has, every_nth-only, div-le, rest_moves, or_false, differ, contains-sort_numbers,
  get_elem?-member, get_elem?-there, contains-extra_of, length-sort_numbers, All-of, member-differs,
}

module _ (c : Config) (epoch b : ℕ) (some_node : 0 < length c.all_nodes)
    (in_range : b < c.num_buckets) where
  abbrev n : ℕ
  n = length c.all_nodes

  -- The node at this index is the first to get the bucket.
  abbrev matches : ℕ → Bool
  matches idx = (idx + epoch) % n == b % n

  contains-init_buckets : (idx : ℕ) → contains b (init_buckets c epoch idx) ≡ matches idx
  unfolding init_buckets
  contains-init_buckets idx = same_truth _ _ only has
    where
      only :
          contains b (every_nth c.num_buckets ((idx + epoch) % n) n c.num_buckets) ≡ true
          → matches idx ≡ true
      only h =
          let (k, e, l) = every_nth-only c.num_buckets ((idx + epoch) % n) n c.num_buckets b h in
          let f : b % n ≡ (idx + epoch) % n =
            ap (λ x. x % n) e
            ∙ mod-add_multiple ((idx + epoch) % n) k n (mod-lt (idx + epoch) some_node) in
          (==_iff ((idx + epoch) % n) (b % n)).1 (sym f)

      has :
          matches idx ≡ true
          → contains b (every_nth c.num_buckets ((idx + epoch) % n) n c.num_buckets) ≡ true
      has h =
          let f : (idx + epoch) % n ≡ b % n = (==_iff ((idx + epoch) % n) (b % n)).0 h in
          let back : (idx + epoch) % n + b / n * n ≡ b =
            omega (arith, f, div-add-mod b n, mul_comm n (b / n)) in
          subst
            (λ x. contains x (every_nth c.num_buckets ((idx + epoch) % n) n c.num_buckets) ≡ true)
            back
            (every_nth-has c.num_buckets ((idx + epoch) % n) n c.num_buckets (b / n)
              (omega (arith, div-le b n some_node)) (omega (arith, back)))

  -- The node that gets the bucket first.
  home : ℕ → List ℕ → Option ℕ
  home idx [] = none
  home idx (x ∷ xs) = let rest = home (idx + 1) xs in if matches idx then some x else rest

  abbrev is_node : Option ℕ → ℕ → Bool
  is_node none l = false
  is_node (some x) l = x == l

  home_elsewhere :
      (idx l : ℕ) (xs : List ℕ) → contains l xs ≡ false → is_node (home idx xs) l ≡ false
  unfolding home contains
  home_elsewhere idx l [] h = refl
  home_elsewhere idx l (x ∷ xs) h = elim (Bool-cases (matches idx)) [
    | inl e ↦ rw e (ground arith)
    | inr e ↦ rw e (home_elsewhere (idx + 1) l xs (ground arith))
  ]

  -- Two indices less than a round apart do not both match.
  matches_once : (i d : ℕ) → 0 < d → d < n → matches i ≡ true → matches (i + d) ≡ false
  matches_once i d p q h = elim (Bool-cases (matches (i + d))) [
    | inl f ↦
        let first : (i + epoch) % n ≡ b % n = (==_iff ((i + epoch) % n) (b % n)).0 h in
        let second : (i + d + epoch) % n ≡ b % n = (==_iff ((i + d + epoch) % n) (b % n)).0 f in
        let turn : i + epoch + d ≡ i + d + epoch = omega arith in
        absurd (rest_moves (i + epoch) d n p q (ap (λ x. x % n) turn ∙ second ∙ sym first))
    | inr f ↦ f
  ]

  home_once :
      (idx d : ℕ) (xs : List ℕ)
      → 0 < d
      → d + length xs ≤ n
      → matches idx ≡ true
      → home (idx + d) xs ≡ none
  unfolding home
  home_once idx d [] p q h = refl
  home_once idx d (x ∷ xs) p q h =
      let next : idx + (d + 1) ≡ idx + d + 1 = omega arith in
      rw (matches_once idx d p (omega arith) h) (
        subst (λ k. home k xs ≡ none) next (home_once idx (d + 1) xs (omega arith) (omega arith) h))

  -- What a node has at first is the bucket, if the node is its home.
  contains-init_buckets_of :
      (l idx : ℕ) (xs : List ℕ)
      → IsDistinct xs
      → length xs ≤ n
      → contains b (init_buckets_of c epoch l idx xs) ≡ is_node (home idx xs) l
  unfolding init_buckets_of home contains
  contains-init_buckets_of l idx [] d q = refl
  contains-init_buckets_of l idx (x ∷ xs) d q = elim (Bool-cases (x == l)) [
    | inl e ↦
        let off : contains l xs ≡ false =
          subst (λ y. contains y xs ≡ false) ((==_iff x l).0 e) d.0 in
        elim (Bool-cases (matches idx)) [
          | inl f ↦ rw (e, contains-init_buckets idx, f, e) refl
          | inr f ↦ rw (e, contains-init_buckets idx, f) (sym (home_elsewhere (idx + 1) l xs off))
        ]
    | inr e ↦ elim (Bool-cases (matches idx)) [
      | inl f ↦
          rw (e, f)
            (contains-init_buckets_of l (idx + 1) xs d.1 (omega arith)
              ∙ ap (λ o. is_node o l) (home_once idx 1 xs (omega arith) (omega arith) f)
              ∙ sym e)
      | inr f ↦ rw (e, f) (contains-init_buckets_of l (idx + 1) xs d.1 (omega arith))
    ]
  ]

  abbrev is_extra : Option ℕ → List ℕ → Bool
  is_extra none leaders = false
  is_extra (some x) leaders = not (contains x leaders)

  -- It is left over if its home leads nothing.
  contains-extra_buckets :
      (leaders : List ℕ) (idx : ℕ) (xs : List ℕ)
      → length xs ≤ n
      → contains b (extra_buckets c epoch leaders idx xs) ≡ is_extra (home idx xs) leaders
  unfolding extra_buckets home contains
  contains-extra_buckets leaders idx [] q = refl
  contains-extra_buckets leaders idx (x ∷ xs) q =
      let rest = contains-extra_buckets leaders (idx + 1) xs (omega arith) in
      elim (Bool-cases (contains x leaders)) [
        | inl e ↦ elim (Bool-cases (matches idx)) [
          | inl f ↦
              rw (e, f)
                (rest
                  ∙ ap (λ o. is_extra o leaders) (home_once idx 1 xs (omega arith) (omega arith) f)
                  ∙ ap not (sym e))
          | inr f ↦ rw (e, f) rest
        ]
        | inr e ↦
            rw
              (
                e,
                contains-append b (init_buckets c epoch idx)
                    (extra_buckets c epoch leaders (idx + 1) xs),
                contains-init_buckets idx,
                rest,
              )
              (elim (Bool-cases (matches idx)) [
                | inl f ↦ rw f (ap not (sym e))
                | inr f ↦ rw f refl
              ])
      ]

  home-some :
      (idx i : ℕ) (xs : List ℕ)
      → idx ≤ i
      → i < idx + length xs
      → matches i ≡ true
      → is_some (home idx xs) ≡ true
  unfolding home
  home-some idx i [] p q h = absurd (omega arith)
  home-some idx i (x ∷ xs) p q h = elim (Bool-cases (matches idx)) [
    | inl f ↦ rw f refl
    | inr f ↦ elim (Bool-cases (idx == i)) [
      | inl g ↦
          let same : idx ≡ i = (==_iff idx i).0 g in
          absurd (differ (matches idx) f (subst (λ k. matches k ≡ true) (sym same) h))
      | inr g ↦ rw f (home-some (idx + 1) i xs (ground arith) (omega arith) h)
    ]
  ]

  -- Some node is the home of the bucket.
  home_there : is_some (home 0 c.all_nodes) ≡ true
  home_there =
      let i : ℕ = (b % n + n - epoch % n) % n in
      let up : b % n + n - epoch % n + epoch ≡ b % n + suc (epoch / n) * n = omega (
        arith,
        mod-lt epoch some_node,
        suc-mul (epoch / n) n,
        mul_comm n (epoch / n),
        div-add-mod epoch n,
      ) in
      home-some 0 i c.all_nodes (omega arith)
        (omega (arith, mod-lt (b % n + n - epoch % n) some_node))
        ((==_iff ((i + epoch) % n) (b % n)).1 (
          mod-add-mod (b % n + n - epoch % n) n epoch
          ∙ ap (λ x. x % n) up
          ∙ mod-add_multiple (b % n) (suc (epoch / n)) n (mod-lt b some_node)))

-- If there is a leader and the ids of the nodes are distinct, then each bucket has exactly one leader
-- that gets it: among the leaders, those that get it are those equal to one of them.
pub assign_buckets_once :
    (c : Config) (epoch : ℕ) (leaders : List ℕ) (b : ℕ)
    → 0 < length leaders
    → 0 < length c.all_nodes
    → IsDistinct c.all_nodes
    → b < c.num_buckets
    → (owner : ℕ) × (contains owner leaders ≡ true)
      × All (λ l. contains b (assign_buckets c epoch leaders l) ≡ (owner == l)) leaders
unfolding assign_buckets
assign_buckets_once c epoch leaders b p s d r =
    let sorted : List ℕ = sort_numbers leaders in
    let (f, e) =
      get_elem?-there sorted ((b + epoch) % length sorted)
        (mod-lt (b + epoch) (omega (arith, length-sort_numbers leaders))) in
    let parts : (l : ℕ)
        → contains b (assign_buckets c epoch leaders l) ≡ (
            is_node c epoch b s r (home c epoch b s r 0 c.all_nodes) l
            || is_extra c epoch b s r (home c epoch b s r 0 c.all_nodes) leaders && f == l) =
      λ l.
        rw
          (
            contains-append b (init_buckets_of c epoch l 0 c.all_nodes)
                (extra_of epoch sorted l (extra_buckets c epoch leaders 0 c.all_nodes)),
            contains-init_buckets_of c epoch b s r l 0 c.all_nodes d (omega arith),
            contains-extra_of epoch sorted l b f (extra_buckets c epoch leaders 0 c.all_nodes) e,
            contains-extra_buckets c epoch b s r leaders 0 c.all_nodes (omega arith),
          )
          refl in
    elim (Option-cases (home c epoch b s r 0 c.all_nodes)) [
      | inl n ↦ absurd (
          differ (is_some (home c epoch b s r 0 c.all_nodes)) (ap is_some n)
            (home_there c epoch b s r))
      | inr (h, n) ↦ elim (Bool-cases (contains h leaders)) [
        | inl m ↦ (h, m, All-of _ leaders (λ l i. parts l ∙ rw (n, m) (or_false (h == l))))
        | inr m ↦ (
          f,
          sym (contains-sort_numbers f leaders)
              ∙ get_elem?-member sorted ((b + epoch) % length sorted) f e,
          All-of _ leaders (λ l i. parts l ∙ rw (n, member-differs h l leaders m i, m) refl),
        )
      ]
    ]
