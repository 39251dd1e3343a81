-- ===== src/Examples/Places.antt =====
-- Three data groups and twelve buckets.
use iss_com_multipaxos.Prelude.{
  ℕ, ◌<◌, ◌≡◌, ◌≢◌, refl, some, none, List, [], ◌∷◌, if◌then◌else◌, leb, arith,
}
use iss_com_multipaxos.Request.{ClientRequest}
use iss_com_multipaxos.Commands.Text.{codes, fields, split_word, cons_word, is_space, eq_text}
use iss_com_multipaxos.Routing.Crc32.{checksum_ieee, update_crc, shift_bits}
use iss_com_multipaxos.Routing.{
  max_group, get_num_groups, replica_mapper, map_verb, is_verb, get_bucket_nr, int32_rem,
  count_buckets, group_index,
}
use iss_com_multipaxos.Routing.Places.{get_bucket_nr_apart}

abbrev members : ℕ → List ℕ
members g = if leb g 3 then g ∷ [] else []

abbrev request : ℕ → ClientRequest
request g = record {
  client_id = 3;
  client_sn = 8;
  payload = [];
  group_id = g;
  touched_groups = [];
  gsn = 0;
}

check_value : checksum_ieee (codes "123456789") ≡ 0xCBF43926
unfolding checksum_ieee update_crc shift_bits
check_value = refl

groups_of_reads : replica_mapper (some members) (codes "PING x") ≡ 1 ∷ []
unfolding replica_mapper map_verb is_verb fields split_word cons_word is_space eq_text
groups_of_reads = refl

four_groups : get_num_groups (some members) ≡ 4
unfolding get_num_groups max_group
four_groups = refl

bucket_of_one : get_bucket_nr (some members) 12 (request 1) ≡ some 9
unfolding get_bucket_nr int32_rem count_buckets group_index get_num_groups max_group
bucket_of_one = refl

bucket_of_two : get_bucket_nr (some members) 12 (request 2) ≡ some 10
unfolding get_bucket_nr int32_rem count_buckets group_index get_num_groups max_group
bucket_of_two = refl

-- A client number near 2 ^ 31 makes the sum negative, and so the number of the bucket.
negative_bucket :
    get_bucket_nr (some members) 12 (record (request 1) { client_sn = 2147483646 }) ≡ none
unfolding get_bucket_nr int32_rem count_buckets group_index get_num_groups max_group
negative_bucket = refl

get_bucket_nr_apart_example :
    (a : ℕ) × (b : ℕ) × (get_bucket_nr (some members) 12 (request 1) ≡ some a)
    × (get_bucket_nr (some members) 12 (request 2) ≡ some b)
    × (a < 12)
    × (b < 12)
    × (a ≢ b)
unfolding get_num_groups max_group
get_bucket_nr_apart_example =
    get_bucket_nr_apart members 12 (request 1) (request 2) (omega arith) (omega arith) (omega arith)
      (omega arith) (omega arith) (omega arith)
