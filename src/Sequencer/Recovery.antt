-- ===== src/Sequencer/Recovery.antt =====
-- `recoverMetaHoles` of mirbft/orderer/sequencer_election.go: a new leader sends again the METAs that
-- it has, asks for the others, and after a wait declares skipped what nobody has.
use iss_com_multipaxos.Prelude.{
  ℕ, zero, suc, ◌+◌, ◌-◌, ◌&&◌, not, none, some, List, [], ◌∷◌, ◌++◌, ltb, ◌==◌, if◌then◌else◌,
  is_some, length,
}
use iss_com_multipaxos.Sequencer.State.{
  Sequencer, Range, Message, Action, Result, is_leader, broadcast_to_members,
}
use iss_com_multipaxos.Sequencer.Ranges.{add_to_ranges, encode_ranges}
use iss_com_multipaxos.Sequencer.Meta.{
  max_hole_scan, meta_of, is_skipped, publish_meta_skip, send_meta,
}

-- The keys of a set, in ascending order and each once.
unfoldable pub insert_gsn : ℕ → List ℕ → List ℕ
insert_gsn g [] = g ∷ []
insert_gsn g (x ∷ xs) =
    let rest = insert_gsn g xs in
    if g == x then x ∷ xs else if ltb g x then g ∷ x ∷ xs else x ∷ rest

-- `for g := r[0]; g <= r[1] && len(set) < maxHoleScan; g++ { set[g] = true }`
unfoldable pub collect_range : ℕ → ℕ → List ℕ → List ℕ
unfolding insert_gsn
collect_range zero g gsns = gsns
collect_range (suc rounds) g gsns =
    collect_range rounds (g + 1)
      (if ltb (length gsns) max_hole_scan then insert_gsn g gsns else gsns)

unfoldable pub collect : List Range → List ℕ → List ℕ
unfolding collect_range
collect [] gsns = gsns
collect (r ∷ rs) gsns = collect rs (collect_range (r.last + 1 - r.first) r.first gsns)

-- The known METAs are sent, and the others gathered in ranges.
unfoldable pub sort_holes : ℕ → List ℕ → List ℕ → Sequencer → List Range → List Action × List Range
unfolding meta_of is_skipped send_meta add_to_ranges
sort_holes own all_nodes [] s missing = ([], missing)
sort_holes own all_nodes (g ∷ gs) s missing =
    let missing' = if is_skipped g s then missing else add_to_ranges missing g in
    let (out, rest) =
      sort_holes own all_nodes gs s (if is_some (meta_of g s) then missing else missing') in
    (
      elim (meta_of g s) [ none ↦ out | some groups ↦ send_meta own all_nodes g groups ++ out ],
      rest,
    )

-- Up to the wait: what goes out, and what is missing.
unfoldable pub begin_recovery : ℕ → List ℕ → List Range → Sequencer → List Action × List Range
unfolding collect sort_holes broadcast_to_members encode_ranges
begin_recovery own all_nodes holes s =
    let (out, missing) = sort_holes own all_nodes (collect holes []) s [] in
    if length missing == 0
    then (out, [])
    else (out ++ broadcast_to_members own (Message.meta_query (encode_ranges missing)) s, missing)

-- The GSNs of a range that nobody has answered for.
unfoldable pub still_missing : ℕ → ℕ → Sequencer → List Range → List Range
unfolding meta_of is_skipped add_to_ranges
still_missing zero g s still = still
still_missing (suc rounds) g s still =
    still_missing rounds (g + 1) s
      (if not (is_some (meta_of g s)) && not (is_skipped g s) then add_to_ranges still g else still)

unfoldable pub still_missing_all : List Range → Sequencer → List Range → List Range
unfolding still_missing
still_missing_all [] s still = still
still_missing_all (r ∷ rs) s still =
    still_missing_all rs s (still_missing (r.last + 1 - r.first) r.first s still)

unfoldable pub skip_all : ℕ → List ℕ → List Range → Sequencer → Result
skip_all own all_nodes [] s = (s, [])
skip_all own all_nodes (r ∷ rs) s =
    let (s', out) = publish_meta_skip own all_nodes r.first r.last s in
    let (s'', rest) = skip_all own all_nodes rs s' in (s'', out ++ rest)

-- After the wait, if the node leads still.
unfoldable pub end_recovery : ℕ → List ℕ → List Range → Sequencer → Result
end_recovery own all_nodes missing s =
    if not (is_leader own s)
    then (s, [])
    else skip_all own all_nodes (still_missing_all missing s []) s
