-- ===== src/Sequencer/Meta.antt =====
-- META and skipped ranges at a node (mirbft/orderer/sequencer.go and sequencer_election.go).
use iss_com_multipaxos.Prelude.{
  ℕ, zero, suc, ◌+◌, ◌-◌, Bool, false, ◌&&◌, ◌||◌, Option, none, some, List, [], ◌∷◌, ◌++◌, ltb,
  ◌==◌, if◌then◌else◌, is_some, length, Map, lookup, insert, contains, add_member,
}
use iss_com_multipaxos.Sequencer.State.{
  Sequencer, Range, Message, Action, Result, on_meta, on_skip, send_others,
}
use iss_com_multipaxos.Sequencer.Ranges.{in_ranges, add_to_ranges, decode_ranges}

-- The first META of a GSN is kept, and told to the deliverers.
unfoldable pub register_metadata : ℕ → List ℕ → Sequencer → Result
register_metadata gsn groups s =
    if is_some (lookup gsn s.metadata)
    then (s, [])
    else (record s { metadata = insert gsn groups s.metadata }, on_meta gsn groups ∷ [])

unfoldable pub send_meta : ℕ → List ℕ → ℕ → List ℕ → List Action
unfolding send_others
send_meta own all_nodes gsn groups = send_others own (Message.meta_stream gsn groups) all_nodes

unfoldable pub publish_meta : ℕ → List ℕ → ℕ → List ℕ → Sequencer → Result
publish_meta own all_nodes gsn groups s =
    let s' = record s { published_meta = add_member gsn s.published_meta } in
    if contains gsn s.published_meta
    then (s, [])
    else if length groups == 0
    then (s', [])
    else let (s'', out) = register_metadata gsn groups s' in
      (s'', out ++ send_meta own all_nodes gsn groups)

unfoldable pub handle_meta_stream : ℕ → List ℕ → Sequencer → Result
handle_meta_stream gsn groups s =
    if ltb 0 gsn && ltb 0 (length groups) then register_metadata gsn groups s else (s, [])

-- `s.skipRanges[[2]uint64{from, to}]`
unfoldable pub has_range : ℕ → ℕ → List Range → Bool
has_range from to [] = false
has_range from to (r ∷ rs) = r.first == from && r.last == to || has_range from to rs

-- A range is entered once, and told to the deliverers when it is new.
unfoldable pub record_skip : ℕ → ℕ → Sequencer → Result
unfolding has_range
record_skip from to s =
    if from == 0 || ltb to from
    then (s, [])
    else if has_range from to s.skip_ranges
    then (s, [])
    else (
      record s { skip_ranges = record { first = from; last = to } ∷ s.skip_ranges },
      on_skip from to ∷ [],
    )

unfoldable pub publish_meta_skip : ℕ → List ℕ → ℕ → ℕ → Sequencer → Result
publish_meta_skip own all_nodes from to s =
    if from == 0 || ltb to from
    then (s, [])
    else let (s', out) = record_skip from to s in
      (s', out ++ send_others own (Message.meta_skip from to) all_nodes)

unfoldable pub handle_meta_skip : ℕ → ℕ → Sequencer → Result
handle_meta_skip from to s = record_skip from to s

-- The ranges that a heartbeat carries: `parseSkipSuffix` after `skipSuffix`.
unfoldable pub parse_skip_suffix : List Range → Sequencer → Result
parse_skip_suffix [] s = (s, [])
parse_skip_suffix (r ∷ rs) s =
    let (s', out) = record_skip r.first r.last s in
    let (s'', rest) = parse_skip_suffix rs s' in (s'', out ++ rest)

-- The greatest GSN whose META is known.
unfoldable pub max_key : Map (List ℕ) → ℕ
max_key [] = 0
max_key ((k, gs) ∷ m) = let rest = max_key m in if ltb rest k then k else rest

unfoldable pub max_meta_seen : Sequencer → ℕ
unfolding max_key
max_meta_seen s = max_key s.metadata

abbrev pub max_hole_scan : ℕ
max_hole_scan = 200000

-- `for g := from; g <= upto; g++`, over the number of rounds left.
unfoldable pub holes_loop : ℕ → ℕ → Sequencer → List Range → List Range
unfolding in_ranges add_to_ranges
holes_loop zero g s out = out
holes_loop (suc rounds) g s out = holes_loop rounds (g + 1) s (
    if is_some (lookup g s.metadata) || in_ranges s.skip_ranges g then out else add_to_ranges out g)

unfoldable pub meta_holes : ℕ → Sequencer → List Range
unfolding holes_loop
meta_holes upto s =
    let from : ℕ = if ltb max_hole_scan upto then upto - max_hole_scan + 1 else 1 in
    if upto == 0 then [] else holes_loop (upto + 1 - from) from s []

unfoldable pub is_skipped : ℕ → Sequencer → Bool
unfolding in_ranges
is_skipped gsn s = in_ranges s.skip_ranges gsn

-- `metaOf`: the groups of a GSN, if its META is known.
unfoldable pub meta_of : ℕ → Sequencer → Option (List ℕ)
meta_of gsn s = lookup gsn s.metadata

-- One range of `HandleMETAQuery`, over the number of GSNs left in it.
unfoldable pub republish_range : ℕ → List ℕ → ℕ → ℕ → Sequencer → List Action
unfolding send_meta meta_of
republish_range own all_nodes zero g s = []
republish_range own all_nodes (suc n) g s =
    let rest = republish_range own all_nodes n (g + 1) s in
    elim (meta_of g s) [ none ↦ rest | some groups ↦ send_meta own all_nodes g groups ++ rest ]

unfoldable pub republish : ℕ → List ℕ → List Range → Sequencer → List Action
unfolding republish_range
republish own all_nodes [] s = []
republish own all_nodes (r ∷ rs) s =
    republish_range own all_nodes (r.last + 1 - r.first) r.first s ++ republish own all_nodes rs s

unfoldable pub handle_meta_query : ℕ → List ℕ → List Range → Sequencer → Result
handle_meta_query own all_nodes rs s = (s, republish own all_nodes (decode_ranges rs) s)
