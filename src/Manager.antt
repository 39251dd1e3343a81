-- ===== src/Manager.antt =====
-- The manager of mirbft/manager: the segments of an epoch, the buckets of each leader
-- (mirmanager.go, skippingsegment.go, contiguoussegment.go), and the choice of leaders
-- (leaderpolicies.go).
pub mod Segments
pub mod Policies
pub mod Turns
pub mod Buckets
use iss_com_multipaxos.Prelude.{
  ℕ, zero, suc, ◌+◌, ◌-◌, ◌*◌, ◌/◌, ◌%◌, Bool, true, false, not, ◌&&◌, ◌||◌, Option, none, some,
  List, [], ◌∷◌, ◌++◌, ltb, leb, ◌==◌, if◌then◌else◌, is_some, or_else, length, contains, get_elem?,
  take, drop, Map, lookup, insert,
}

-- The numbers from `sn` on, each `distance` above the one before.
unfoldable pub skipping_sns : ℕ → ℕ → ℕ → List ℕ
skipping_sns zero sn distance = []
skipping_sns (suc len) sn distance = sn ∷ skipping_sns len (sn + distance) distance

-- SkippingSegment
pub record Segment : Type 0 where
  pub seg_id : ℕ
  pub sn_distance : ℕ
  pub seq_nos : List ℕ
  pub leaders : List ℕ
  pub followers : List ℕ
  pub sn_offset : ℕ
  pub sn_length : ℕ
  pub starts_after : Option ℕ  -- `none` is -1
  pub buckets : List ℕ
  pub batch_size : ℕ

-- `initSNs`
unfoldable pub init_sns : Segment → Segment
unfolding skipping_sns
init_sns s = record s { seq_nos = skipping_sns s.sn_length s.sn_offset s.sn_distance }

-- The settings `EpochLength`, `SegmentLength`, `BatchSize` and `NumBuckets`, the ids of the nodes, and
-- the node's own.
pub record Config : Type 0 where
  pub epoch_length : ℕ
  pub segment_length : ℕ
  pub batch_size : ℕ
  pub num_buckets : ℕ
  pub all_nodes : List ℕ
  pub own : ℕ

unfoldable pub epoch_length_for : Config → List ℕ → ℕ
epoch_length_for c leaders =
    if not (c.segment_length == 0) then c.segment_length * length leaders else c.epoch_length

-- The length of the segment at index `i`.
unfoldable pub segment_length_at : ℕ → ℕ → ℕ → ℕ
segment_length_at len n i = len / n + (if ltb i (len % n) then 1 else 0)

-- The index of the leader among the nodes; the last one if it is not there.
unfoldable pub leader_offset : ℕ → List ℕ → ℕ
leader_offset leader [] = 0
leader_offset leader (x ∷ []) = 0
leader_offset leader (x ∷ y ∷ xs) =
    let rest = leader_offset leader (y ∷ xs) in if x == leader then 0 else rest + 1

unfoldable pub insert_number : ℕ → List ℕ → List ℕ
insert_number x [] = x ∷ []
insert_number x (y ∷ ys) = let rest = insert_number x ys in if leb x y then x ∷ y ∷ ys else y ∷ rest

-- `sort.Slice` and `sort.Ints`
unfoldable pub sort_numbers : List ℕ → List ℕ
unfolding insert_number
sort_numbers [] = []
sort_numbers (x ∷ xs) = insert_number x (sort_numbers xs)

-- `for b := from; b < num_buckets; b += n`, over the number of rounds left.
unfoldable pub every_nth : ℕ → ℕ → ℕ → ℕ → List ℕ
every_nth zero b n num_buckets = []
every_nth (suc rounds) b n num_buckets =
    let rest = every_nth rounds (b + n) n num_buckets in if ltb b num_buckets then b ∷ rest else []

-- The first buckets of the node at index `idx`; no node has more than there are buckets.
unfoldable pub init_buckets : Config → ℕ → ℕ → List ℕ
unfolding every_nth
init_buckets c epoch idx =
    every_nth c.num_buckets ((idx + epoch) % length c.all_nodes) (length c.all_nodes) c.num_buckets

-- The buckets of the nodes from index `idx` on that are not leaders.
unfoldable pub extra_buckets : Config → ℕ → List ℕ → ℕ → List ℕ → List ℕ
unfolding init_buckets contains
extra_buckets c epoch leaders idx [] = []
extra_buckets c epoch leaders idx (x ∷ xs) =
    let rest = extra_buckets c epoch leaders (idx + 1) xs in
    if contains x leaders then rest else init_buckets c epoch idx ++ rest

-- `initBuckets[leaderID]`, nothing for an id that is no node's.
unfoldable pub init_buckets_of : Config → ℕ → ℕ → ℕ → List ℕ → List ℕ
unfolding init_buckets
init_buckets_of c epoch leader idx [] = []
init_buckets_of c epoch leader idx (x ∷ xs) =
    let rest = init_buckets_of c epoch leader (idx + 1) xs in
    if x == leader then init_buckets c epoch idx else rest

-- Of the extra buckets, those that the leader gets.
unfoldable pub extra_of : ℕ → List ℕ → ℕ → List ℕ → List ℕ
extra_of epoch sorted leader [] = []
extra_of epoch sorted leader (b ∷ bs) =
    let rest = extra_of epoch sorted leader bs in
    elim (get_elem? sorted ((b + epoch) % length sorted)) [
      | none ↦ rest
      | some l ↦ if l == leader then b ∷ rest else rest
    ]

-- `finalBuckets[leader]` of `assignBuckets`
unfoldable pub assign_buckets : Config → ℕ → List ℕ → ℕ → List ℕ
unfolding init_buckets_of extra_of extra_buckets sort_numbers
assign_buckets c epoch leaders leader =
    init_buckets_of c epoch leader 0 c.all_nodes
    ++ extra_of epoch (sort_numbers leaders) leader (extra_buckets c epoch leaders 0 c.all_nodes)

-- The segment of the leader at index `i`; the list of buckets is sorted by `NewBucketGroup`.
unfoldable pub segment_for : Config → ℕ → List ℕ → ℕ → ℕ → ℕ → ℕ → Segment
unfolding init_sns segment_length_at epoch_length_for leader_offset assign_buckets sort_numbers
segment_for c epoch leaders offset next_id i leader =
    let k = leader_offset leader c.all_nodes in
    init_sns (record {
      seg_id = next_id + i;
      sn_distance = length leaders;
      seq_nos = [];
      leaders = drop k c.all_nodes ++ take k c.all_nodes;
      followers = c.all_nodes;
      sn_offset = offset + i;
      sn_length = segment_length_at (epoch_length_for c leaders) (length leaders) i;
      starts_after = if offset == 0 then none else some (offset - 1);
      buckets = sort_numbers (assign_buckets c epoch leaders leader);
      batch_size = if leader == c.own then c.batch_size else 0;
    })

unfoldable pub segments_from : Config → ℕ → List ℕ → ℕ → ℕ → ℕ → List ℕ → List (ℕ × Segment)
unfolding segment_for
segments_from c epoch leaders offset next_id i [] = []
segments_from c epoch leaders offset next_id i (x ∷ xs) =
    (x, segment_for c epoch leaders offset next_id i x)
    ∷ segments_from c epoch leaders offset next_id (i + 1) xs

-- The segments by leader, in the order of the leaders, and the next segment id.
unfoldable pub create_segments : Config → ℕ → List ℕ → ℕ → ℕ → List (ℕ × Segment) × ℕ
unfolding segments_from
create_segments c epoch leaders offset next_id =
    (segments_from c epoch leaders offset next_id 0 leaders, next_id + length leaders)

-- `Simple`: the first nodes, as many as the ratio allows.
unfoldable pub simple_leaders : ℕ → List ℕ → List ℕ
simple_leaders ratio all_nodes = take (length all_nodes / ratio) all_nodes

-- `Single`: one node in turn; `none` if there is no node, where the source stops.
unfoldable pub single_leader : ℕ → List ℕ → Option ℕ
single_leader e all_nodes = get_elem? all_nodes (e % length all_nodes)

-- `Blacklist`: the last suspects, at most as many as may fail.
unfoldable pub blacklist_update : ℕ → ℕ → List ℕ → List ℕ
blacklist_update faults suspect banned =
    let banned' = banned ++ suspect ∷ [] in
    if ltb faults (length banned') then drop (length banned' - faults) banned' else banned'

unfoldable pub blacklist_leaders : List ℕ → List ℕ → List ℕ
unfolding contains
blacklist_leaders banned [] = []
blacklist_leaders banned (x ∷ xs) =
    let rest = blacklist_leaders banned xs in if contains x banned then rest else x ∷ rest
