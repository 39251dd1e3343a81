-- ===== src/Manager/Turns.antt =====
-- Steps through the buckets, and the leaders that take turns, for `assignBuckets` of
-- mirbft/manager/mirmanager.go.
use iss_com_multipaxos.Prelude.{
  ℕ, zero, suc, ◌+◌, ◌*◌, ◌/◌, ◌%◌, ◌≤◌, ◌<◌, ◌≡◌, refl, sym, subst, Bool, true, false, ◌&&◌, ◌||◌,
  some, inl, inr, List, [], ◌∷◌, ltb, leb, ◌==◌, length, contains, get_elem?, All, arith,
  Bool-cases, Option-cases, ==_iff,
}
use native.Mathlib.Nat.{div-add-mod, suc-mul, mul_comm, mul-le-mul_left, mul-le-mul_right, mul-one}
use iss_com_multipaxos.Manager.{every_nth, extra_of, sort_numbers, insert_number}
use iss_com_multipaxos.Manager.Segments.{or_true}

pub every_nth-has :
    (r b n num k : ℕ) → k < r → b + k * n < num → contains (b + k * n) (every_nth r b n num) ≡ true
unfolding every_nth contains
every_nth-has zero b n num k l h = absurd (omega arith)
every_nth-has (suc r) b n num zero l h = ground arith
every_nth-has (suc r) b n num (suc k) l h =
    let e : b + n + k * n ≡ b + suc k * n = omega (arith, suc-mul k n) in
    let low : ltb b num ≡ true = ground arith in
    let rest : contains (b + suc k * n) (every_nth r (b + n) n num) ≡ true =
      subst (λ x. contains x (every_nth r (b + n) n num) ≡ true) e
        (every_nth-has r (b + n) n num k (omega arith) (omega (arith, e))) in
    rw low
      (or_true (b == b + suc k * n) (contains (b + suc k * n) (every_nth r (b + n) n num)) rest)

pub every_nth-only :
    (r b n num x : ℕ)
    → contains x (every_nth r b n num) ≡ true
    → (k : ℕ) × (x ≡ b + k * n) × (x < num)
unfolding every_nth contains
every_nth-only zero b n num x h = absurd (cc)
every_nth-only (suc r) b n num x h = elim (Bool-cases (ltb b num)) [
  | inr e ↦ absurd (ground arith)
  | inl e ↦ elim (Bool-cases (b == x)) [
    | inl f ↦ (0, ground arith, ground arith)
    | inr f ↦
        let (k, g, l) = every_nth-only r (b + n) n num x (ground arith) in
        (suc k, omega (arith, suc-mul k n, g), l)
  ]
]

pub div-le : (b n : ℕ) → 0 < n → b / n ≤ b
div-le b n h = omega (
  arith,
  div-add-mod b n,
  mul-le-mul_left {m = 1} {n = n} (b / n) h,
  mul_comm n (b / n),
  mul-one (b / n),
)

-- Less than a round on, the rest is another.
pub rest_moves : (a d n : ℕ) → 0 < d → d < n → (a + d) % n ≡ a % n → ⊥
rest_moves a d n p q e = elim (Bool-cases (ltb (a / n) ((a + d) / n))) [
  | inl f ↦
      let m : suc (a / n) * n ≤ (a + d) / n * n = mul-le-mul_right n (ground arith) in
      omega (
        arith,
        m,
        suc-mul (a / n) n,
        mul_comm n (a / n),
        mul_comm n ((a + d) / n),
        div-add-mod a n,
        div-add-mod (a + d) n,
      )
  | inr f ↦
      let m : (a + d) / n * n ≤ a / n * n = mul-le-mul_right n (ground arith) in
      omega (
        arith,
        m,
        mul_comm n (a / n),
        mul_comm n ((a + d) / n),
        div-add-mod a n,
        div-add-mod (a + d) n,
      )
]

pub or_false : (a : Bool) → a || false ≡ a
or_false a = ground arith

pub differ : (a : Bool) → a ≡ false → a ≡ true → ⊥
differ a p q = cc

pub contains-insert_number :
    (y x : ℕ) (xs : List ℕ) → contains y (insert_number x xs) ≡ (x == y || contains y xs)
unfolding contains insert_number
contains-insert_number y x [] = refl
contains-insert_number y x (z ∷ zs) = ground (arith, contains-insert_number y x zs)

pub contains-sort_numbers : (y : ℕ) (xs : List ℕ) → contains y (sort_numbers xs) ≡ contains y xs
unfolding contains sort_numbers
contains-sort_numbers y [] = refl
contains-sort_numbers y (x ∷ xs) =
    ground (arith, contains-insert_number y x (sort_numbers xs), contains-sort_numbers y xs)

pub get_elem?-member : (xs : List ℕ) (i x : ℕ) → get_elem? xs i ≡ some x → contains x xs ≡ true
unfolding contains
get_elem?-member [] i x h = absurd (cc)
get_elem?-member (y ∷ ys) zero x h = ground arith
get_elem?-member (y ∷ ys) (suc i) x h = ground (arith, get_elem?-member ys i x h)

pub get_elem?-there : (xs : List ℕ) (i : ℕ) → i < length xs → (x : ℕ) × (get_elem? xs i ≡ some x)
get_elem?-there [] i h = absurd (omega arith)
get_elem?-there (x ∷ xs) zero h = (x, refl)
get_elem?-there (x ∷ xs) (suc i) h = get_elem?-there xs i (omega arith)

-- An extra bucket goes to the leader whose turn it is.
pub contains-extra_of :
    (epoch : ℕ) (sorted : List ℕ) (l b f : ℕ) (bs : List ℕ)
    → get_elem? sorted ((b + epoch) % length sorted) ≡ some f
    → contains b (extra_of epoch sorted l bs) ≡ (contains b bs && f == l)
unfolding extra_of contains
contains-extra_of epoch sorted l b f [] h = refl
contains-extra_of epoch sorted l b f (x ∷ bs) h =
    let rest = contains-extra_of epoch sorted l b f bs h in
    elim (Bool-cases (x == b)) [
      | inl e ↦
          let turn : get_elem? sorted ((x + epoch) % length sorted) ≡ some f =
            subst (λ y. get_elem? sorted ((y + epoch) % length sorted) ≡ some f)
              (sym ((==_iff x b).0 e)) h in
          rw (turn, extra_of)
            (elim (Bool-cases (f == l)) [
              | inl g ↦ rw (g, e) refl
              | inr g ↦ rw (g, e) (ground (arith, rest))
            ])
      | inr e ↦ elim (Option-cases (get_elem? sorted ((x + epoch) % length sorted))) [
        | inl o ↦ rw (o, extra_of, e) rest
        | inr (k, o) ↦
            rw (o, extra_of)
              (elim (Bool-cases (k == l)) [ inl g ↦ rw (g, e) rest | inr g ↦ rw (g, e) rest ])
      ]
    ]

pub length-insert_number : (x : ℕ) (xs : List ℕ) → length (insert_number x xs) ≡ suc (length xs)
unfolding insert_number
length-insert_number x [] = omega arith
length-insert_number x (y ∷ ys) = elim (Bool-cases (leb x y)) [
  | inl e ↦ rw e refl
  | inr e ↦ rw e (omega (arith, length-insert_number x ys))
]

pub length-sort_numbers : (xs : List ℕ) → length (sort_numbers xs) ≡ length xs
unfolding sort_numbers
length-sort_numbers [] = refl
length-sort_numbers (x ∷ xs) =
    omega (arith, length-insert_number x (sort_numbers xs), length-sort_numbers xs)

pub All-of : (P : ℕ → Type 0) (xs : List ℕ) → ((x : ℕ) → contains x xs ≡ true → P x) → All P xs
unfolding contains
All-of P [] h = tt
All-of P (x ∷ xs) h = (h x (ground arith), All-of P xs (λ y c. h y (ground arith)))

pub member-differs :
    (h l : ℕ) (leaders : List ℕ)
    → contains h leaders ≡ false
    → contains l leaders ≡ true
    → h == l ≡ false
member-differs h l leaders p q = elim (Bool-cases (h == l)) [
  | inl e ↦
      absurd (
        differ (contains l leaders) (subst (λ k. contains k leaders ≡ false) ((==_iff h l).0 e) p)
          q)
  | inr e ↦ e
]
