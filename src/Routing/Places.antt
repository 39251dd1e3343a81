-- ===== src/Routing/Places.antt =====
-- The buckets of a group, mirbft/request/request.go.
use iss_com_multipaxos.Prelude.{
  ℕ, ◌+◌, ◌*◌, ◌%◌, ◌^◌, ◌≤◌, ◌<◌, ◌≡◌, ◌≢◌, refl, sym, ap, ◌∙◌, false, none, some, inl, inr, List,
  leb, ◌==◌, if◌then◌else◌, arith, Bool-cases, Option-cases,
}
use native.Mathlib.Nat.{mod-lt, mod-eq_of_lt, add-mul-mod_self_left}
use iss_com_multipaxos.Request.{ClientRequest}
use iss_com_multipaxos.Routing.{
  get_num_groups, get_bucket_nr, group_index, count_buckets, int32_rem,
}

group_index-lt : (n g : ℕ) → 0 < n → group_index n g < n
unfolding group_index
group_index-lt n g p = elim (Bool-cases (leb n g)) [
  | inl e ↦ rw e (mod-lt g p)
  | inr e ↦ rw e (ground arith)
]

num_groups_positive : (members : ℕ → List ℕ) → 0 < get_num_groups (some members)
unfolding get_num_groups
num_groups_positive members = omega arith

-- The bucket that the last test lets through.
place :
    (n ng g hash b : ℕ)
    → g < ng
    → ng ≤ n
    → (if leb n (g + ng * hash) then some g else some (g + ng * hash)) ≡ some b
    → (b < n) × (b % ng ≡ g)
place n ng g hash b p q e = elim (Bool-cases (leb n (g + ng * hash))) [
  | inl f ↦
      let same : g ≡ b = ground arith in (omega arith, ap (λ x. x % ng) (sym same) ∙ mod-eq_of_lt p)
  | inr f ↦
      let same : g + ng * hash ≡ b = ground arith in
      (ground arith, ap (λ x. x % ng) (sym same) ∙ add-mul-mod_self_left g ng hash ∙ mod-eq_of_lt p)
]

not_empty : (m n : ℕ) → 0 < m → m ≤ n → n == 0 ≡ false
not_empty m n p q = ground arith

get_bucket_nr-place :
    (members : ℕ → List ℕ) (n b : ℕ) (r : ClientRequest)
    → get_num_groups (some members) ≤ n
    → get_bucket_nr (some members) n r ≡ some b
    → (b < n)
      × (b % get_num_groups (some members) ≡ group_index (get_num_groups (some members)) r.group_id)
unfolding get_bucket_nr
get_bucket_nr-place members n b r q e =
    let ng : ℕ = get_num_groups (some members) in
    let g : ℕ = group_index ng r.group_id in
    let count : ℕ = count_buckets n g n ng in
    let up : 0 < ng = num_groups_positive members in
    let filled : n == 0 ≡ false = not_empty ng n up q in
    elim (Option-cases (int32_rem r.client_id r.client_sn (if count == 0 then 1 else count))) [
      | inl o ↦ absurd (nothing b (sym (rw (filled, o, get_bucket_nr) refl) ∙ e))
      | inr (hash, o) ↦
          place n ng g hash b (group_index-lt ng r.group_id up) q
            (sym (rw (filled, o, get_bucket_nr) refl) ∙ e)
    ]
  where
    nothing : (b : ℕ) → none ≡ some b → ⊥
    nothing b e = cc

buckets_apart :
    (members : ℕ → List ℕ) (n a b : ℕ) (r s : ClientRequest)
    → get_num_groups (some members) ≤ n
    → r.group_id < get_num_groups (some members)
    → s.group_id < get_num_groups (some members)
    → r.group_id ≢ s.group_id
    → get_bucket_nr (some members) n r ≡ some a
    → get_bucket_nr (some members) n s ≡ some b
    → (a < n) × (b < n) × (a ≢ b)
unfolding group_index
buckets_apart members n a b r s q u v ne e f =
    let ng : ℕ = get_num_groups (some members) in
    let (i, k) = get_bucket_nr-place members n a r q e in
    let (j, l) = get_bucket_nr-place members n b s q f in
    let first : leb ng r.group_id ≡ false = ground arith in
    let second : leb ng s.group_id ≡ false = ground arith in
    let own : (if leb ng r.group_id then r.group_id % ng else r.group_id) ≡ r.group_id =
      rw first refl in
    let other : (if leb ng s.group_id then s.group_id % ng else s.group_id) ≡ s.group_id =
      rw second refl in
    (i, j, λ same. ne (sym (k ∙ own) ∙ ap (λ x. x % ng) same ∙ l ∙ other))

-- A request whose sum of client id and number is not negative as an int32 has a bucket.
get_bucket_nr-some :
    (members : ℕ → List ℕ) (n : ℕ) (r : ClientRequest)
    → get_num_groups (some members) ≤ n
    → (r.client_id + r.client_sn) % 2 ^ 32 < 2 ^ 31
    → (b : ℕ) × (get_bucket_nr (some members) n r ≡ some b)
unfolding get_bucket_nr group_index
get_bucket_nr-some members n r q h =
    let ng : ℕ = get_num_groups (some members) in
    let g : ℕ = group_index ng r.group_id in
    let count : ℕ = count_buckets n g n ng in
    let m : ℕ = if count == 0 then 1 else count in
    let filled : n == 0 ≡ false = not_empty ng n (num_groups_positive members) q in
    let hash : ℕ = (r.client_id + r.client_sn) % 2 ^ 32 % m in
    let o : int32_rem r.client_id r.client_sn m ≡ some hash = unfold int32_rem in ground arith in
    elim (Bool-cases (leb n (g + ng * hash))) [
      | inl e ↦ (g, rw (filled, o, get_bucket_nr) (rw e refl))
      | inr e ↦ (g + ng * hash, rw (filled, o, get_bucket_nr) (rw e refl))
    ]

-- If there are at least as many buckets as groups, two requests of different groups, both below the
-- number of groups, whose sums of client id and number are not negative as int32, each have a bucket
-- that is there, and these are not the same.
pub get_bucket_nr_apart :
    (members : ℕ → List ℕ) (n : ℕ) (r s : ClientRequest)
    → get_num_groups (some members) ≤ n
    → r.group_id < get_num_groups (some members)
    → s.group_id < get_num_groups (some members)
    → r.group_id ≢ s.group_id
    → (r.client_id + r.client_sn) % 2 ^ 32 < 2 ^ 31
    → (s.client_id + s.client_sn) % 2 ^ 32 < 2 ^ 31
    → (a : ℕ) × (b : ℕ) × (get_bucket_nr (some members) n r ≡ some a)
      × (get_bucket_nr (some members) n s ≡ some b)
      × (a < n)
      × (b < n)
      × (a ≢ b)
get_bucket_nr_apart members n r s q u v ne h k =
    let (a, e) = get_bucket_nr-some members n r q h in
    let (b, f) = get_bucket_nr-some members n s q k in
    let (i, j, k) = buckets_apart members n a b r s q u v ne e f in (a, b, e, f, i, j, k)
