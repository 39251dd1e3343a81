-- ===== src/Groups.antt =====
-- AtomicMulticast of mirbft/orderer/multipaxosgroup.go: which nodes are in which group, and the
-- sequence numbers that the data groups take in turn (`runSegment`, multipaxosorderer.go).
pub mod Slots
use iss_com_multipaxos.Prelude.{
  ℕ, zero, suc, ◌+◌, ◌*◌, ◌%◌, Bool, true, false, Option, none, some, List, [], ◌∷◌, ltb, leb, ◌==◌,
  if◌then◌else◌, is_some, or_else, length, contains, get_elem?, Map, lookup, insert, not,
}

-- `groups`: a group and its members.
abbrev pub AtomicMulticast : Type 0
AtomicMulticast = Map (List ℕ)

unfoldable pub new_atomic_multicast : List ℕ → AtomicMulticast
unfolding insert
new_atomic_multicast all_nodes = insert 0 all_nodes []

unfoldable pub define_group : ℕ → List ℕ → AtomicMulticast → AtomicMulticast
unfolding insert
define_group gid members am = insert gid members am

unfoldable pub get_group_members : ℕ → AtomicMulticast → Option (List ℕ)
unfolding lookup
get_group_members gid am = lookup gid am

unfoldable pub insert_sorted : ℕ → List ℕ → List ℕ
insert_sorted g [] = g ∷ []
insert_sorted g (x ∷ xs) = let rest = insert_sorted g xs in if leb g x then g ∷ x ∷ xs else x ∷ rest

-- The ids of the groups in ascending order.
unfoldable pub get_defined_groups : AtomicMulticast → List ℕ
unfolding insert_sorted
get_defined_groups [] = []
get_defined_groups ((g, members) ∷ am) = insert_sorted g (get_defined_groups am)

-- All groups but 0, the sequencer's.
unfoldable pub drop_sequencer : List ℕ → List ℕ
drop_sequencer [] = []
drop_sequencer (g ∷ gs) = let rest = drop_sequencer gs in if not (g == 0) then g ∷ rest else rest

unfoldable pub data_groups : AtomicMulticast → List ℕ
unfolding drop_sequencer get_defined_groups
data_groups am = drop_sequencer (get_defined_groups am)

unfoldable pub find_index : ℕ → List ℕ → Option ℕ
find_index g [] = none
find_index g (x ∷ xs) =
    let rest = find_index g xs in
    if x == g then some 0 else elim rest [ none ↦ none | some i ↦ some (i + 1) ]

-- The index of a data group, `none` for -1, and how many there are.
unfoldable pub get_data_group_index : ℕ → AtomicMulticast → Option ℕ × ℕ
unfolding find_index data_groups
get_data_group_index gid am = (find_index gid (data_groups am), length (data_groups am))

-- The groups of a file, in the order in which they come; `false` for the error of an empty group,
-- which leaves those before it defined.
unfoldable pub load_groups : List (ℕ × List ℕ) → AtomicMulticast → AtomicMulticast × Bool
unfolding define_group
load_groups [] am = (am, true)
load_groups ((gid, members) ∷ rest) am =
    if length members == 0 then (am, false) else load_groups rest (define_group gid members am)

unfoldable pub update_sequencer_group : List ℕ → AtomicMulticast → AtomicMulticast
unfolding insert
update_sequencer_group all_nodes am = if ltb 0 (length all_nodes) then insert 0 all_nodes am else am

unfoldable pub is_member : ℕ → ℕ → AtomicMulticast → Bool
unfolding get_group_members contains
is_member gid node am = contains node (or_else (get_group_members gid am) [])

-- The members in turn; `none` for -1, if there are none.
unfoldable pub get_group_leader_for_segment : ℕ → ℕ → AtomicMulticast → Option ℕ
unfolding get_group_members
get_group_leader_for_segment gid first_sn am =
    let members = or_else (get_group_members gid am) [] in
    if length members == 0 then none else get_elem? members (first_sn % length members)

-- `ahead(k)` of `runSegment` for the group at index `offset` of `num_groups`, from its first number.
unfoldable pub group_sn : ℕ → ℕ → ℕ → ℕ → ℕ
group_sn first_sn offset num_groups k = first_sn + offset + k * num_groups
