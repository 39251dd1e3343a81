-- ===== src/Manager/Segments.antt =====
-- The segments of an epoch share out its sequence numbers.
use iss_com_multipaxos.Prelude.{
  ℕ, zero, suc, ◌+◌, ◌-◌, ◌*◌, ◌/◌, ◌%◌, ◌≤◌, ◌<◌, ◌≡◌, refl, sym, subst, ap, ◌∙◌, Bool, true,
  false, ◌&&◌, ◌||◌, some, inl, inr, List, [], ◌∷◌, ltb, leb, ◌==◌, length, or_else, contains,
  get_elem?, arith, Bool-cases,
}
use native.Mathlib.Nat.{
  mod-lt, div-add-mod, suc-mul, mul_comm, mul-le-mul_right, add-mul-mod_self_right, mod-eq_of_lt,
}
use iss_com_multipaxos.Manager.{
  Config, Segment, skipping_sns, init_sns, epoch_length_for, segment_length_at, segment_for,
  segments_from, create_segments,
}

pub mod-add_multiple : (i k n : ℕ) → i < n → (i + k * n) % n ≡ i
mod-add_multiple i k n h = add-mul-mod_self_right i k n ∙ mod-eq_of_lt h

pub or_true : (a b : Bool) → b ≡ true → a || b ≡ true
or_true a b h = ground arith

-- The numbers of the list are those within its length, in steps of the distance.
skipping_sns-has : (len sn d k : ℕ) → k < len → contains (sn + k * d) (skipping_sns len sn d) ≡ true
unfolding skipping_sns contains
skipping_sns-has zero sn d k q = absurd (omega arith)
skipping_sns-has (suc len) sn d zero q = ground arith
skipping_sns-has (suc len) sn d (suc k) q =
    let e : sn + d + k * d ≡ sn + suc k * d = omega (arith, suc-mul k d) in
    let r : contains (sn + suc k * d) (skipping_sns len (sn + d) d) ≡ true =
      subst (λ x. contains x (skipping_sns len (sn + d) d) ≡ true) e
        (skipping_sns-has len (sn + d) d k (omega arith)) in
    or_true (sn == sn + suc k * d) (contains (sn + suc k * d) (skipping_sns len (sn + d) d)) r

skipping_sns-only :
    (len sn d x : ℕ)
    → contains x (skipping_sns len sn d) ≡ true
    → (k : ℕ) × (k < len) × (x ≡ sn + k * d)
unfolding skipping_sns contains
skipping_sns-only zero sn d x h = absurd (cc)
skipping_sns-only (suc len) sn d x h = elim (Bool-cases (sn == x)) [
  | inl e ↦ (0, omega arith, ground arith)
  | inr e ↦
      let (k, l, f) = skipping_sns-only len (sn + d) d x (ground arith) in
      (suc k, omega arith, omega (arith, suc-mul k d, f))
]

-- The multiples that the segment at index `i` has room for are those that stay in the epoch.
segment_length_at-fits : (len n i k : ℕ) → i < n → k < segment_length_at len n i → i + k * n < len
unfolding segment_length_at
segment_length_at-fits len n i k h l = elim (Bool-cases (ltb k (len / n))) [
  | inl e ↦
      let m : suc k * n ≤ len / n * n = mul-le-mul_right n (ground arith) in
      omega (arith, m, suc-mul k n, mul_comm n (len / n), div-add-mod len n)
  | inr e ↦
      let same : k ≡ len / n = ground arith in
      let short : i < len % n = ground arith in
      omega (arith, ap (λ x. x * n) same, mul_comm n (len / n), div-add-mod len n)
]

segment_length_at-room : (len n i k : ℕ) → i < n → i + k * n < len → k < segment_length_at len n i
unfolding segment_length_at
segment_length_at-room len n i k h l = elim (Bool-cases (ltb k (len / n))) [
  | inl e ↦ ground arith
  | inr e ↦ elim (Bool-cases (k == len / n)) [
    | inl f ↦
        let same : k ≡ len / n = ground arith in
        let short : i < len % n =
          omega (arith, ap (λ x. x * n) same, mul_comm n (len / n), div-add-mod len n) in
        ground arith
    | inr f ↦
        let above : suc (len / n) ≤ k = ground arith in
        let m : suc (len / n) * n ≤ k * n = mul-le-mul_right n above in
        absurd (
          omega (
            arith,
            m,
            suc-mul (len / n) n,
            mul_comm n (len / n),
            div-add-mod len n,
            mod-lt len {m = n} (omega arith),
          ))
  ]
]

pub same_truth : (a b : Bool) → (a ≡ true → b ≡ true) → (b ≡ true → a ≡ true) → a ≡ b
same_truth true b f g = sym (f refl)
same_truth false true f g = g refl
same_truth false false f g = refl

-- The numbers of a segment are those of the epoch that leave its index when divided.
contains-segment :
    (len n i offset x : ℕ)
    → i < n
    → contains x (skipping_sns (segment_length_at len n i) (offset + i) n)
      ≡ (leb offset x && ltb x (offset + len) && (x - offset) % n == i)
contains-segment len n i offset x h = same_truth _ _ only has
  where
    only :
        contains x (skipping_sns (segment_length_at len n i) (offset + i) n) ≡ true
        → leb offset x && ltb x (offset + len) && (x - offset) % n == i ≡ true
    only c =
        let (k, l, e) = skipping_sns-only (segment_length_at len n i) (offset + i) n x c in
        let fits : i + k * n < len = segment_length_at-fits len n i k h l in
        let back : x - offset ≡ i + k * n = omega (arith, e) in
        let rest : (x - offset) % n ≡ i = ap (λ y. y % n) back ∙ mod-add_multiple i k n h in
        ground (arith, e)

    has :
        leb offset x && ltb x (offset + len) && (x - offset) % n == i ≡ true
        → contains x (skipping_sns (segment_length_at len n i) (offset + i) n) ≡ true
    has c =
        let k : ℕ = (x - offset) / n in
        let low : offset ≤ x = ground arith in
        let high : x < offset + len = ground arith in
        let rest : (x - offset) % n ≡ i = ground arith in
        let back : x ≡ offset + i + k * n =
          omega (arith, div-add-mod (x - offset) n, mul_comm n k) in
        subst (λ y. contains y (skipping_sns (segment_length_at len n i) (offset + i) n) ≡ true)
          (sym back)
          (skipping_sns-has (segment_length_at len n i) (offset + i) n k
            (segment_length_at-room len n i k h (omega arith)))

segments_from-get :
    (c : Config) (epoch : ℕ) (leaders : List ℕ) (offset next_id j : ℕ) (xs : List ℕ) (i leader : ℕ)
    (s : Segment)
    → get_elem? (segments_from c epoch leaders offset next_id j xs) i ≡ some (leader, s)
    → (i < length xs)
      × (get_elem? xs i ≡ some leader)
      × (s ≡ segment_for c epoch leaders offset next_id (j + i) leader)
unfolding segments_from
segments_from-get c epoch leaders offset next_id j [] i leader s h = absurd (cc)
segments_from-get c epoch leaders offset next_id j (x ∷ xs) zero leader s h =
    let same : x ≡ leader = ap (λ o. (or_else {A = ℕ × Segment} o (leader, s)).0) h in
    let start : j ≡ j + 0 = omega arith in
    (
      omega arith,
      ap some same,
      sym (ap (λ o. (or_else {A = ℕ × Segment} o (leader, s)).1) h)
          ∙ ap (λ k. segment_for c epoch leaders offset next_id k x) start
          ∙ ap (λ y. segment_for c epoch leaders offset next_id (j + 0) y) same,
    )
segments_from-get c epoch leaders offset next_id j (x ∷ xs) (suc i) leader s h =
    let (l, g, e) = segments_from-get c epoch leaders offset next_id (j + 1) xs i leader s h in
    let next : j + 1 + i ≡ j + suc i = omega arith in
    (omega arith, g, e ∙ ap (λ k. segment_for c epoch leaders offset next_id k leader) next)

seq_nos-segment_for :
    (c : Config) (epoch : ℕ) (leaders : List ℕ) (offset next_id i leader x : ℕ)
    → i < length leaders
    → contains x (segment_for c epoch leaders offset next_id i leader).seq_nos ≡ (
        leb offset x
        && ltb x (offset + epoch_length_for c leaders)
        && (x - offset) % length leaders == i)
unfolding segment_for init_sns
seq_nos-segment_for c epoch leaders offset next_id i leader x l =
    contains-segment (epoch_length_for c leaders) (length leaders) i offset x l

-- The segment of the leader at index `i` has just those sequence numbers of the epoch, from `offset` on,
-- whose distance from it leaves the rest `i` when divided by the number of leaders. So each number of the
-- epoch is in one segment.
pub create_segments-seq_nos :
    (c : Config) (epoch : ℕ) (leaders : List ℕ) (offset next_id i leader : ℕ) (s : Segment) (x : ℕ)
    → get_elem? (create_segments c epoch leaders offset next_id).0 i ≡ some (leader, s)
    → contains x s.seq_nos ≡ (
        leb offset x
        && ltb x (offset + epoch_length_for c leaders)
        && (x - offset) % length leaders == i)
unfolding create_segments
create_segments-seq_nos c epoch leaders offset next_id i leader s x h =
    let (l, g, e) = segments_from-get c epoch leaders offset next_id 0 leaders i leader s h in
    let start : 0 + i ≡ i = omega arith in
    rw (e, start) (seq_nos-segment_for c epoch leaders offset next_id i leader x l)
