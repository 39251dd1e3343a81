-- ===== src/Groups/Slots.antt =====
-- The data groups share out the sequence numbers: none is of two groups, and none is left over.
use iss_com_multipaxos.Prelude.{
  ℕ, zero, suc, ◌+◌, ◌-◌, ◌*◌, ◌/◌, ◌%◌, ◌≤◌, ◌<◌, ◌≡◌, ◌≢◌, refl, sym, ◌∙◌, ap, subst, true, false,
  not, ◌&&◌, some, All, IsDistinct, List, [], ◌∷◌, ltb, leb, ◌==◌, is_some, length, contains,
  get_elem?, get_elem?-lt, lookup, ◌||◌, arith, inl, inr, Bool-cases, Option-cases, ==_iff,
}
use native.Mathlib.Nat.{mod-lt, div-add-mod, mul-suc}
use iss_com_multipaxos.Groups.{
  AtomicMulticast, insert_sorted, get_defined_groups, drop_sequencer, data_groups, find_index,
  get_data_group_index, group_sn,
}

contains-insert_sorted :
    (g h : ℕ) (xs : List ℕ) → contains g (insert_sorted h xs) ≡ (h == g || contains g xs)
unfolding contains insert_sorted
contains-insert_sorted g h [] = refl
contains-insert_sorted g h (x ∷ xs) = ground (arith, contains-insert_sorted g h xs)

contains-get_defined_groups :
    (g : ℕ) (am : AtomicMulticast) → contains g (get_defined_groups am) ≡ is_some (lookup g am)
unfolding contains get_defined_groups lookup
contains-get_defined_groups g [] = refl
contains-get_defined_groups g ((h, ms) ∷ am) =
    ground
      (arith, contains-insert_sorted g h (get_defined_groups am), contains-get_defined_groups g am)

-- No element is followed by a smaller one.
abbrev pub IsSorted : List ℕ → Type 0
IsSorted [] = Unit
IsSorted (x ∷ xs) = All (λ y. x ≤ y) xs × IsSorted xs

All-le : (g x : ℕ) (xs : List ℕ) → g ≤ x → All (λ y. x ≤ y) xs → All (λ y. g ≤ y) xs
All-le g x [] h a = tt
All-le g x (y ∷ ys) h a = (omega (arith, h, a.0), All-le g x ys h a.1)

All-insert_sorted :
    (x g : ℕ) (xs : List ℕ) → x ≤ g → All (λ y. x ≤ y) xs → All (λ y. x ≤ y) (insert_sorted g xs)
unfolding insert_sorted
All-insert_sorted x g [] h a = (h, tt)
All-insert_sorted x g (y ∷ ys) h a = elim (Bool-cases (leb g y)) [
  | inl e ↦ rw e (h, a)
  | inr e ↦ rw e (a.0, All-insert_sorted x g ys h a.1)
]

insert_sorted-IsSorted : (g : ℕ) (xs : List ℕ) → IsSorted xs → IsSorted (insert_sorted g xs)
unfolding insert_sorted
insert_sorted-IsSorted g [] a = (tt, tt)
insert_sorted-IsSorted g (x ∷ xs) a = elim (Bool-cases (leb g x)) [
  | inl e ↦ rw e ((ground arith, All-le g x xs (ground arith) a.0), a)
  | inr e ↦ rw e (All-insert_sorted x g xs (ground arith) a.0, insert_sorted-IsSorted g xs a.1)
]

get_defined_groups-IsSorted : (am : AtomicMulticast) → IsSorted (get_defined_groups am)
unfolding get_defined_groups
get_defined_groups-IsSorted [] = tt
get_defined_groups-IsSorted ((g, ms) ∷ am) =
    insert_sorted-IsSorted g (get_defined_groups am) (get_defined_groups-IsSorted am)

-- The groups listed are just those that are defined, and they are in ascending order.
pub get_defined_groups_lem :
    (g : ℕ) (am : AtomicMulticast)
    → (contains g (get_defined_groups am) ≡ is_some (lookup g am))
      × IsSorted (get_defined_groups am)
get_defined_groups_lem g am = (contains-get_defined_groups g am, get_defined_groups-IsSorted am)

get_elem?-find_index : (g i : ℕ) (xs : List ℕ) → find_index g xs ≡ some i → get_elem? xs i ≡ some g
unfolding find_index
get_elem?-find_index g i [] h = cc
get_elem?-find_index g i (x ∷ xs) h = elim (Bool-cases (x == g)) [
  | inl e ↦
      let z : 0 ≡ i = ground arith in
      let y : x ≡ g = (==_iff x g).0 e in subst (λ j. get_elem? (x ∷ xs) j ≡ some g) z (ap some y)
  | inr e ↦ elim (Option-cases (find_index g xs)) [
    | inl f ↦ absurd (ground arith)
    | inr (j, f) ↦
        let z : suc j ≡ i = ground arith in
        subst (λ k. get_elem? (x ∷ xs) k ≡ some g) z (get_elem?-find_index g j xs f)
  ]
]

mul_step : (k d n : ℕ) → (k + suc d) * n ≡ k * n + n + d * n
mul_step k d zero = omega arith
mul_step k d (suc n) =
    omega (arith, mul_step k d n, mul-suc (k + suc d) n, mul-suc k n, mul-suc d n)

slots_apart : (i j n k l : ℕ) → i < n → j < n → i ≢ j → i + k * n ≢ j + l * n
slots_apart i j n k l a b ne e = elim (Bool-cases (k == l)) [
  | inl f ↦ let q : k * n ≡ l * n = ap (λ x. x * n) ((==_iff k l).0 f) in ne (omega arith)
  | inr f ↦ elim (Bool-cases (ltb k l)) [
    | inl h ↦
        let q : l ≡ k + suc (l - k - 1) = ground arith in
        omega (arith, mul_step k (l - k - 1) n, ap (λ x. x * n) q)
    | inr h ↦
        let q : k ≡ l + suc (k - l - 1) = ground arith in
        omega (arith, mul_step l (k - l - 1) n, ap (λ x. x * n) q)
  ]
]

-- Two groups are not at one index.
index-ne :
    (g h i j : ℕ) (xs : List ℕ)
    → find_index g xs ≡ some i
    → find_index h xs ≡ some j
    → g ≢ h
    → i ≢ j
index-ne g h i j xs p q ne e =
    let a : get_elem? xs i ≡ some g = get_elem?-find_index g i xs p in
    let b : get_elem? xs j ≡ some h = get_elem?-find_index h j xs q in
    let c : get_elem? xs j ≡ some g = subst (λ k. get_elem? xs k ≡ some g) e a in ne (cc)

-- Two data groups never take the same sequence number, each at its index in the list of data
-- groups.
pub group_sn-apart :
    (am : AtomicMulticast) (g h i j n first k l : ℕ)
    → get_data_group_index g am ≡ (some i, n)
    → get_data_group_index h am ≡ (some j, n)
    → g ≢ h
    → group_sn first i n k ≢ group_sn first j n l
unfolding group_sn get_data_group_index
group_sn-apart am g h i j n first k l p q ne e =
    let a : find_index g (data_groups am) ≡ some i = ap (λ x. x.0) p in
    let b : find_index h (data_groups am) ≡ some j = ap (λ x. x.0) q in
    let m : length (data_groups am) ≡ n = ap (λ x. x.1) p in
    slots_apart i j n k l
      (omega
        (arith, m, get_elem?-lt i (data_groups am) (get_elem?-find_index g i (data_groups am) a)))
      (omega
        (arith, m, get_elem?-lt j (data_groups am) (get_elem?-find_index h j (data_groups am) b)))
      (index-ne g h i j (data_groups am) a b ne) (omega arith)

get_elem?-some : (i : ℕ) (xs : List ℕ) → i < length xs → (g : ℕ) × (get_elem? xs i ≡ some g)
get_elem?-some i [] h = absurd (omega arith)
get_elem?-some zero (x ∷ xs) h = (x, refl)
get_elem?-some (suc i) (x ∷ xs) h = get_elem?-some i xs (omega arith)

-- The groups of the map.
abbrev pub keys : AtomicMulticast → List ℕ
keys [] = []
keys ((g, ms) ∷ am) = g ∷ keys am

contains-keys :
    (g : ℕ) (am : AtomicMulticast) → contains g (get_defined_groups am) ≡ contains g (keys am)
unfolding contains get_defined_groups
contains-keys g [] = refl
contains-keys g ((h, ms) ∷ am) =
    ground (arith, contains-insert_sorted g h (get_defined_groups am), contains-keys g am)

insert_sorted-IsDistinct :
    (g : ℕ) (xs : List ℕ) → contains g xs ≡ false → IsDistinct xs → IsDistinct (insert_sorted g xs)
unfolding insert_sorted contains
insert_sorted-IsDistinct g [] h d = (refl, tt)
insert_sorted-IsDistinct g (x ∷ xs) h d = elim (Bool-cases (leb g x)) [
  | inl e ↦ rw e (h, d)
  | inr e ↦ rw e (
    ground (arith, contains-insert_sorted x g xs, d.0, h),
    insert_sorted-IsDistinct g xs (ground arith) d.1,
  )
]

get_defined_groups-IsDistinct :
    (am : AtomicMulticast) → IsDistinct (keys am) → IsDistinct (get_defined_groups am)
unfolding get_defined_groups
get_defined_groups-IsDistinct [] d = tt
get_defined_groups-IsDistinct ((g, ms) ∷ am) d =
    insert_sorted-IsDistinct g (get_defined_groups am) (contains-keys g am ∙ d.0)
      (get_defined_groups-IsDistinct am d.1)

contains-drop_sequencer :
    (g : ℕ) (xs : List ℕ) → contains g (drop_sequencer xs) ≡ (not (g == 0) && contains g xs)
unfolding contains drop_sequencer
contains-drop_sequencer g [] = ground arith
contains-drop_sequencer g (x ∷ xs) = ground (arith, contains-drop_sequencer g xs)

drop_sequencer-IsDistinct : (xs : List ℕ) → IsDistinct xs → IsDistinct (drop_sequencer xs)
unfolding drop_sequencer
drop_sequencer-IsDistinct [] d = tt
drop_sequencer-IsDistinct (x ∷ xs) d = elim (Bool-cases (x == 0)) [
  | inl e ↦ rw e (drop_sequencer-IsDistinct xs d.1)
  | inr e ↦
      rw e (ground (arith, contains-drop_sequencer x xs, d.0), drop_sequencer-IsDistinct xs d.1)
]

get_elem?-contains : (i g : ℕ) (xs : List ℕ) → get_elem? xs i ≡ some g → contains g xs ≡ true
unfolding contains
get_elem?-contains i g [] h = cc
get_elem?-contains zero g (x ∷ xs) h = ground arith
get_elem?-contains (suc i) g (x ∷ xs) h = ground (arith, get_elem?-contains i g xs h)

find_index-get_elem? :
    (i g : ℕ) (xs : List ℕ) → IsDistinct xs → get_elem? xs i ≡ some g → find_index g xs ≡ some i
unfolding find_index
find_index-get_elem? i g [] d h = cc
find_index-get_elem? zero g (x ∷ xs) d h = let e : (x == g) ≡ true = ground arith in rw e refl
find_index-get_elem? (suc i) g (x ∷ xs) d h = elim (Bool-cases (x == g)) [
  | inl e ↦
      let y : contains x xs ≡ true =
        subst (λ k. contains k xs ≡ true) (sym ((==_iff x g).0 e)) (get_elem?-contains i g xs h) in
      absurd (ground (arith, d.0))
  | inr e ↦
      let z : i + 1 ≡ suc i = omega arith in rw (e, find_index-get_elem? i g xs d.1 h) (ap some z)
]

-- If no group stands twice in the map and there is a data group, every sequence number from the first
-- one on is taken by one: a group that is defined and is not the sequencer's, at the index that
-- `GetDataGroupIndex` gives it.
pub group_sn_covers :
    (am : AtomicMulticast) (first sn : ℕ)
    → IsDistinct (keys am)
    → 0 < length (data_groups am)
    → first ≤ sn
    → (g : ℕ) × (i : ℕ) × (k : ℕ) × (get_data_group_index g am ≡ (some i, length (data_groups am)))
      × ((g == 0) ≡ false)
      × (is_some (lookup g am) ≡ true)
      × (group_sn first i (length (data_groups am)) k ≡ sn)
unfolding group_sn get_data_group_index
group_sn_covers am first sn d p q =
    let n : ℕ = length (data_groups am) in
    let i : ℕ = (sn - first) % n in
    let (g, e) = get_elem?-some i (data_groups am) (mod-lt (sn - first) p) in
    let c : (not (g == 0) && contains g (get_defined_groups am)) ≡ true =
      unfold data_groups in
      sym (contains-drop_sequencer g (get_defined_groups am)) ∙ get_elem?-contains i g _ e in
    (
      g,
      i,
      (sn - first) / n,
      ap (λ j. (j, n))
          (find_index-get_elem? i g (data_groups am)
            (unfold data_groups in
              drop_sequencer-IsDistinct (get_defined_groups am)
                (get_defined_groups-IsDistinct am d))
            e),
      ground (arith, c),
      ground (arith, c, contains-get_defined_groups g am),
      omega (arith, div-add-mod (sn - first) n),
    )
