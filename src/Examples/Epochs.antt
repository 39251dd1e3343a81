-- ===== src/Examples/Epochs.antt =====
-- Five nodes, three of which lead an epoch of eight sequence numbers.
use iss_com_multipaxos.Prelude.{
  ℕ, ◌+◌, ◌-◌, ◌%◌, ◌≤◌, ◌≡◌, refl, some, ◌&&◌, List, [], ◌∷◌, leb, ltb, ◌==◌, length, contains,
  map, get_elem?, IsDistinct, All, true, arith,
}
use iss_com_multipaxos.Manager.{
  Config, create_segments, segments_from, segment_for, init_sns, skipping_sns, segment_length_at,
  epoch_length_for, assign_buckets, init_buckets_of, init_buckets, every_nth, extra_of,
  extra_buckets, sort_numbers, insert_number, single_leader, blacklist_leaders, blacklist_update,
}
use iss_com_multipaxos.Manager.Segments.{create_segments-seq_nos}
use iss_com_multipaxos.Manager.Buckets.{assign_buckets_once}
use iss_com_multipaxos.Manager.Policies.{blacklist_run, blacklist_leaders-enough}

abbrev nodes : List ℕ
nodes = 0 ∷ 1 ∷ 2 ∷ 3 ∷ 4 ∷ []

abbrev config : Config
config = record {
  epoch_length = 8;
  segment_length = 0;
  batch_size = 100;
  num_buckets = 7;
  all_nodes = nodes;
  own = 2;
}

abbrev leaders : List ℕ
leaders = 0 ∷ 2 ∷ 3 ∷ []

sequence_numbers :
    map (λ s. s.1.seq_nos) (create_segments config 1 leaders 8 3).0
    ≡ (8 ∷ 11 ∷ 14 ∷ []) ∷ (9 ∷ 12 ∷ 15 ∷ []) ∷ (10 ∷ 13 ∷ []) ∷ []
unfolding create_segments segments_from segment_for init_sns skipping_sns segment_length_at
    epoch_length_for
sequence_numbers = refl

buckets_of_leaders :
    map (assign_buckets config 1 leaders) leaders
    ≡ (1 ∷ 6 ∷ 2 ∷ 5 ∷ []) ∷ (3 ∷ 0 ∷ []) ∷ (4 ∷ []) ∷ []
unfolding assign_buckets init_buckets_of init_buckets every_nth extra_of extra_buckets sort_numbers
    insert_number contains
buckets_of_leaders = refl

leader_in_turn : single_leader 7 nodes ≡ some 2
unfolding single_leader
leader_in_turn = refl

two_banned : blacklist_leaders (blacklist_run 1 (3 ∷ 1 ∷ []) []) nodes ≡ 0 ∷ 2 ∷ 3 ∷ 4 ∷ []
unfolding blacklist_leaders blacklist_run blacklist_update contains
two_banned = refl

second_segment :
    get_elem? (create_segments config 1 leaders 8 3).0 1
    ≡ some (2, segment_for config 1 leaders 8 3 1 2)
unfolding create_segments segments_from
second_segment = refl

create_segments-seq_nos_example :
    contains 12 (segment_for config 1 leaders 8 3 1 2).seq_nos
    ≡ (leb 8 12 && ltb 12 (8 + epoch_length_for config leaders) && (12 - 8) % length leaders == 1)
create_segments-seq_nos_example =
    create_segments-seq_nos config 1 leaders 8 3 1 2 (segment_for config 1 leaders 8 3 1 2) 12
      second_segment

nodes-IsDistinct : IsDistinct nodes
unfolding contains
nodes-IsDistinct = (refl, (refl, (refl, (refl, (refl, tt)))))

blacklist_leaders-enough_example :
    length nodes ≤ length (blacklist_leaders (blacklist_run 1 (3 ∷ 1 ∷ []) []) nodes) + 1
blacklist_leaders-enough_example = blacklist_leaders-enough 1 (3 ∷ 1 ∷ []) nodes nodes-IsDistinct

assign_buckets_once_example :
    (owner : ℕ) × (contains owner leaders ≡ true)
    × All (λ l. contains 5 (assign_buckets config 1 leaders l) ≡ (owner == l)) leaders
assign_buckets_once_example =
    assign_buckets_once config 1 leaders 5 (omega arith) (omega arith) nodes-IsDistinct
      (omega arith)
