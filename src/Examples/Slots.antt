-- ===== src/Examples/Slots.antt =====
-- Two data groups beside the sequencer's.
use iss_com_multipaxos.Prelude.{
  ℕ, ◌<◌, ◌≡◌, ◌≢◌, refl, some, [], ◌∷◌, is_some, length, contains, IsDistinct, false, true, ◌==◌,
  lookup, insert, arith,
}
use iss_com_multipaxos.Groups.{
  AtomicMulticast, new_atomic_multicast, define_group, get_defined_groups, insert_sorted,
  data_groups, drop_sequencer, find_index, get_data_group_index, group_sn, load_groups,
  get_group_leader_for_segment, get_group_members,
}
use iss_com_multipaxos.Groups.Slots.{
  group_sn-apart, group_sn_covers, get_defined_groups_lem, IsSorted, keys,
}

abbrev loaded : AtomicMulticast
loaded =
    (load_groups ((7, 3 ∷ 4 ∷ []) ∷ (2, 1 ∷ 2 ∷ []) ∷ [])
      (new_atomic_multicast (1 ∷ 2 ∷ 3 ∷ 4 ∷ []))).0

loaded_groups : get_defined_groups loaded ≡ 0 ∷ 2 ∷ 7 ∷ []
unfolding get_defined_groups insert_sorted load_groups new_atomic_multicast define_group insert
loaded_groups = refl

index_of_two : get_data_group_index 2 loaded ≡ (some 0, 2)
unfolding get_data_group_index data_groups drop_sequencer find_index get_defined_groups
    insert_sorted load_groups new_atomic_multicast define_group insert
index_of_two = refl

index_of_seven : get_data_group_index 7 loaded ≡ (some 1, 2)
unfolding get_data_group_index data_groups drop_sequencer find_index get_defined_groups
    insert_sorted load_groups new_atomic_multicast define_group insert
index_of_seven = refl

leader_of_seven : get_group_leader_for_segment 7 5 loaded ≡ some 4
unfolding get_group_leader_for_segment get_group_members load_groups new_atomic_multicast
    define_group insert lookup
leader_of_seven = refl

two_groups : 0 < length (data_groups loaded)
unfolding data_groups drop_sequencer get_defined_groups insert_sorted load_groups
    new_atomic_multicast define_group insert
two_groups = omega arith

group_sn-apart_example : group_sn 10 0 2 3 ≢ group_sn 10 1 2 2
group_sn-apart_example =
    group_sn-apart loaded 2 7 0 1 2 10 3 2 index_of_two index_of_seven (omega arith)

loaded-keys : IsDistinct (keys loaded)
unfolding load_groups new_atomic_multicast define_group insert contains
loaded-keys = (refl, (refl, (refl, tt)))

group_sn_covers_example :
    (g : ℕ) × (i : ℕ) × (k : ℕ) × (get_data_group_index g loaded
      ≡ (some i, length (data_groups loaded)))
    × ((g == 0) ≡ false)
    × (is_some (lookup g loaded) ≡ true)
    × (group_sn 10 i (length (data_groups loaded)) k ≡ 17)
group_sn_covers_example = group_sn_covers loaded 10 17 loaded-keys two_groups (omega arith)

get_defined_groups_lem_example :
    (contains 7 (get_defined_groups loaded) ≡ is_some (lookup 7 loaded))
    × IsSorted (get_defined_groups loaded)
get_defined_groups_lem_example = get_defined_groups_lem 7 loaded
