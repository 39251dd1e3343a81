-- ===== src/Routing.antt =====
-- Where a client request goes, mirbft/request/request.go: the groups that a payload touches
-- (ReplicaMapper) and the bucket of a request (GetBucketNr). `members` is the getter of group members
-- that the orderer injects.
pub mod Crc32
pub mod Places
use iss_com_multipaxos.Prelude.{
  ℕ, zero, suc, ◌+◌, ◌-◌, ◌*◌, ◌/◌, ◌%◌, ◌^◌, Bool, true, false, not, ◌&&◌, ◌||◌, Option, none,
  some, List, [], ◌∷◌, ◌++◌, ltb, leb, ◌==◌, if◌then◌else◌, length, contains, add_member, map,
}
use iss_com_multipaxos.Request.{ClientRequest}
use iss_com_multipaxos.Commands.Text.{codes, fields, eq_text}
use iss_com_multipaxos.Groups.{insert_sorted}
use iss_com_multipaxos.Routing.Crc32.{checksum_ieee}

-- The highest group below `g` that has members, 0 if there is none.
unfoldable pub max_group : (ℕ → List ℕ) → ℕ → ℕ
max_group members zero = 0
max_group members (suc g) =
    let rest = max_group members g in if ltb 0 (length (members g)) then g else rest

-- `none` is a getter that is not set.
unfoldable pub get_num_groups : Option (ℕ → List ℕ) → ℕ
unfolding max_group
get_num_groups none = 5
get_num_groups (some members) = max_group members 100 + 1

unfoldable pub get_num_data_groups : Option (ℕ → List ℕ) → ℕ
unfolding get_num_groups
get_num_data_groups members = get_num_groups members - 1

module _ (members : Option (ℕ → List ℕ)) where
  unfoldable pub key_to_group : List ℕ → ℕ
  unfolding checksum_ieee get_num_data_groups
  key_to_group key =
      if length key == 0
      then 1
      else (let n = get_num_data_groups members in
          1 + checksum_ieee key % (if ltb n 1 then 1 else n))

  -- `for g := from; g <= to; g++`, over the number of rounds left.
  unfoldable pub groups_from : ℕ → ℕ → List ℕ
  groups_from zero from = []
  groups_from (suc rounds) from = from ∷ groups_from rounds (from + 1)

  -- The list is in order as it is made.
  unfoldable pub range_to_groups : List ℕ → List ℕ → List ℕ
  unfolding key_to_group groups_from
  range_to_groups start end =
      let a = key_to_group start in
      let b = key_to_group end in
      if ltb b a then groups_from (a + 1 - b) b else groups_from (b + 1 - a) a

  unfoldable pub seen_groups : List (List ℕ) → List ℕ
  unfolding key_to_group add_member contains
  seen_groups [] = []
  seen_groups (k ∷ ks) = add_member (key_to_group k) (seen_groups ks)

  unfoldable pub sort_groups : List ℕ → List ℕ
  unfolding insert_sorted
  sort_groups [] = []
  sort_groups (g ∷ gs) = insert_sorted g (sort_groups gs)

  unfoldable pub keys_to_groups : List (List ℕ) → List ℕ
  unfolding seen_groups sort_groups
  keys_to_groups keys = sort_groups (seen_groups keys)

  -- `strings.Split(s, ",")`: the first part, and the others.
  unfoldable pub split_commas : List ℕ → List ℕ × List (List ℕ)
  split_commas [] = ([], [])
  split_commas (c ∷ s) =
      let (w, ws) = split_commas s in if c == b',' then ([], w ∷ ws) else (c ∷ w, ws)

  unfoldable pub is_verb : List ℕ → List (List ℕ) → Bool
  unfolding eq_text
  is_verb v [] = false
  is_verb v (w ∷ ws) = eq_text v w || is_verb v ws

  unfoldable pub one_key : List (List ℕ) → List ℕ
  unfolding key_to_group
  one_key [] = 1 ∷ []
  one_key (k ∷ ks) = key_to_group k ∷ []

  unfoldable pub two_keys : List (List ℕ) → List ℕ
  unfolding range_to_groups
  two_keys (a ∷ b ∷ ks) = range_to_groups a b
  two_keys _ = 1 ∷ []

  unfoldable pub all_keys : List (List ℕ) → List ℕ
  unfolding split_commas keys_to_groups
  all_keys [] = 1 ∷ []
  all_keys (k ∷ ks) = let (w, ws) = split_commas k in keys_to_groups (w ∷ ws)

  unfoldable pub map_verb : List ℕ → List (List ℕ) → List ℕ
  unfolding is_verb one_key two_keys all_keys
  map_verb verb parts =
      if is_verb verb (codes "GET" ∷ codes "PUT" ∷ codes "DELETE" ∷ [])
      then one_key parts
      else if eq_text verb (codes "RANGE")
      then two_keys parts
      else if eq_text verb (codes "TX")
      then all_keys parts
      else if is_verb verb (codes "APIPUT" ∷ codes "APIGET" ∷ codes "APIDELETE" ∷ [])
      then one_key parts
      else 1 ∷ []

  unfoldable pub replica_mapper : List ℕ → List ℕ
  unfolding map_verb fields
  replica_mapper payload = elim (fields payload) [
    | [] ↦ 1 ∷ []
    | verb ∷ parts ↦ map_verb verb parts
  ]

-- `for b := g; b < n; b += num_groups { maxOffset++ }`, over the number of rounds left.
unfoldable pub count_buckets : ℕ → ℕ → ℕ → ℕ → ℕ
count_buckets zero b n num_groups = 0
count_buckets (suc rounds) b n num_groups =
    let rest = count_buckets rounds (b + num_groups) n num_groups in if ltb b n then rest + 1 else 0

-- The remainder of the int32 sum, which wraps around; `none` if it is negative.
unfoldable pub int32_rem : ℕ → ℕ → ℕ → Option ℕ
int32_rem a b m =
    let s = (a + b) % 2 ^ 32 in
    if ltb s (2 ^ 31) then some (s % m) else if (2 ^ 32 - s) % m == 0 then some 0 else none

-- `g` after the two tests: a group that is too high is taken modulo the number of groups.
unfoldable pub group_index : ℕ → ℕ → ℕ
group_index num_groups g = if leb num_groups g then g % num_groups else g

-- Of `n` buckets; `none` for a negative number.
unfoldable pub get_bucket_nr : Option (ℕ → List ℕ) → ℕ → ClientRequest → Option ℕ
unfolding get_num_groups count_buckets int32_rem group_index
get_bucket_nr none n r = if n == 0 then some 0 else int32_rem r.client_id r.client_sn n
get_bucket_nr (some members) n r =
    if n == 0
    then some 0
    else (let num_groups = get_num_groups (some members) in
        let g = group_index num_groups r.group_id in
        let count = count_buckets n g n num_groups in
        elim (int32_rem r.client_id r.client_sn (if count == 0 then 1 else count)) [
          | none ↦ none
          | some hash ↦ let b = g + num_groups * hash in if leb n b then some g else some b
        ])
