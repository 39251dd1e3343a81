-- ===== src/Sequencer/Election.antt =====
-- Election of the sequencer's leader (mirbft/orderer/sequencer_election.go).
use iss_com_multipaxos.Prelude.{
  ℕ, ◌+◌, ◌-◌, ◌*◌, Bool, true, false, ◌&&◌, ◌||◌, not, Option, none, some, List, [], ◌∷◌, ◌++◌,
  ltb, leb, ◌==◌, if◌then◌else◌, length, add_member,
}
use iss_com_multipaxos.Sequencer.State.{
  Sequencer, follower, candidate, leading, Range, Message, Action, Result, send, arm_timer,
  stop_timer, lead_term, recover, is_leading, is_candidate, is_majority, broadcast_to_members,
  next_term,
}
use iss_com_multipaxos.Sequencer.Ranges.{encode_ranges, decode_ranges}
use iss_com_multipaxos.Sequencer.Meta.{
  max_meta_seen, meta_holes, parse_skip_suffix, publish_meta_skip,
}
use iss_com_multipaxos.Sequencer.Reserve.{request_reservation}

abbrev pub max : ℕ → ℕ → ℕ
max a b = if ltb a b then b else a

-- Milliseconds; `min_ms` is `SequencerElectionTimeoutMs`, and `jitter` the random draw.
unfoldable pub min_election_timeout : ℕ → ℕ
min_election_timeout min_ms = if min_ms == 0 then 500 else min_ms

unfoldable pub election_timeout_for : ℕ → ℕ → ℕ
unfolding min_election_timeout
election_timeout_for min_ms jitter = min_election_timeout min_ms + jitter

unfoldable pub startup_election_grace : ℕ → ℕ
unfolding min_election_timeout
startup_election_grace min_ms = max (10 * min_election_timeout min_ms) 5000

-- The node becomes a candidate of the next term, and begins with what it knows itself.
unfoldable pub start_election : ℕ → Sequencer → Result
unfolding max_meta_seen meta_holes broadcast_to_members next_term
start_election own s =
    let seen = max_meta_seen s in
    let s' = record s {
      term = next_term s.term;
      status = candidate;
      voted_for = some own;
      votes = own ∷ [];
      vote_max_accepted = s.accepted_up_to;
      vote_max_meta = seen;
      vote_holes = meta_holes seen s;
    } in
    if is_leading s.status
    then (s, [])
    else (s', arm_timer ∷ broadcast_to_members own (Message.vote_request s'.term own) s')

unfoldable pub on_election_timeout : ℕ → Sequencer → Result
unfolding next_term
on_election_timeout own s =
    let s' = record s { pre_vote_term = next_term s.term; pre_votes = some (own ∷ []) } in
    if is_leading s.status
    then (s, [])
    else if is_majority (own ∷ []) s'.members
    then (let (s'', out) = start_election own s' in (s'', arm_timer ∷ out))
    else (
      s',
      arm_timer ∷ broadcast_to_members own (Message.pre_vote_request s'.pre_vote_term own) s',
    )

unfoldable pub handle_pre_vote_request : ℕ → ℕ → ℕ → ℕ → Sequencer → Result
unfolding min_election_timeout
handle_pre_vote_request min_ms now term sender s =
    let granted =
      ltb s.term term
      && not (is_leading s.status)
      && leb (s.last_leader_contact + min_election_timeout min_ms) now in
    (s, send sender (Message.pre_vote_response term granted) ∷ [])

-- The set of pre-votes is `none` once it has served.
unfoldable pub count_pre_vote : ℕ → ℕ → List ℕ → Sequencer → Result
count_pre_vote own sender votes s =
    let votes' = add_member sender votes in
    if is_majority votes' s.members
    then start_election own (record s { pre_votes = none })
    else (record s { pre_votes = some votes' }, [])

unfoldable pub use_pre_vote : ℕ → ℕ → Option (List ℕ) → Sequencer → Result
use_pre_vote own sender none s = (s, [])
use_pre_vote own sender (some votes) s = count_pre_vote own sender votes s

unfoldable pub handle_pre_vote_response : ℕ → ℕ → Bool → ℕ → Sequencer → Result
unfolding next_term
handle_pre_vote_response own term granted sender s =
    if not granted
      || (is_leading s.status || not (term == s.pre_vote_term) || not (next_term s.term == term))
    then (s, [])
    else use_pre_vote own sender s.pre_votes s

-- The vote is free, or the candidate's already.
abbrev pub may_vote_for : Option ℕ → ℕ → Bool
may_vote_for none c = true
may_vote_for (some v) c = v == c

-- A later term is entered as a follower that has not voted.
unfoldable pub see_term : ℕ → Sequencer → Sequencer
see_term term s =
    if ltb s.term term then record s { term = term; voted_for = none; status = follower } else s

unfoldable pub grants : ℕ → ℕ → Sequencer → Bool
grants term cand s = term == s.term && may_vote_for s.voted_for cand

unfoldable pub vote_answer : Bool → Sequencer → Message
unfolding max_meta_seen meta_holes encode_ranges
vote_answer granted s =
    Message.vote_response s.term granted s.accepted_up_to (max_meta_seen s)
      (encode_ranges (meta_holes (max_meta_seen s) s))

unfoldable pub handle_vote_request : ℕ → ℕ → ℕ → Sequencer → Result
unfolding see_term grants vote_answer
handle_vote_request term cand sender s =
    let s' = see_term term s in
    if grants term cand s'
    then (let s'' = record s' { voted_for = some cand } in
        (s'', arm_timer ∷ send sender (vote_answer true s'') ∷ []))
    else (s', send sender (vote_answer false s') ∷ [])

-- The numbering goes on above the greatest mark that the voters reported, and what was left over
-- is declared skipped.
unfoldable pub resume_gsn_counter : ℕ → ℕ → List ℕ → Sequencer → Result
resume_gsn_counter own now all_nodes s =
    let max_acc = max s.vote_max_accepted s.accepted_up_to in
    let max_meta = max s.vote_max_meta (max_meta_seen s) in
    let old_next = s.next_gsn in
    let resume = max (max_acc + 1) old_next in
    let (s', asked) =
      request_reservation own now
        (record s { next_gsn = resume; confirmed_up_to = resume - 1; reserve_pending = 0 }) in
    let skip_from = max (max_meta + 1) old_next in
    let (s'', skipped) =
      if leb skip_from (resume - 1)
      then publish_meta_skip own all_nodes skip_from (resume - 1) s'
      else (s', []) in
    let holes = s''.vote_holes ++ meta_holes max_meta s'' in
    (s'', asked ++ (skipped ++ (if ltb 0 (length holes) then recover holes ∷ [] else [])))

-- A granted vote of this term is counted with what it reports.
unfoldable pub count_vote : ℕ → ℕ → ℕ → List Range → Sequencer → Sequencer
unfolding decode_ranges
count_vote sender accepted seen holes s = record s {
  votes = add_member sender s.votes;
  vote_max_accepted = max s.vote_max_accepted accepted;
  vote_max_meta = max s.vote_max_meta seen;
  vote_holes = s.vote_holes ++ decode_ranges holes;
}

unfoldable pub handle_vote_response :
    ℕ → ℕ → List ℕ → ℕ → Bool → ℕ → ℕ → List Range → ℕ → Sequencer → Result
handle_vote_response own now all_nodes term granted accepted seen holes sender s =
    let s' = count_vote sender accepted seen holes s in
    if ltb s.term term
    then (record s { term = term; status = follower; voted_for = none }, [])
    else if not (is_candidate s.status) || not (term == s.term) || not granted
    then (s, [])
    else if is_majority s'.votes s'.members
    then (let (s'', out) =
          resume_gsn_counter own now all_nodes
            (record s' { status = leading; leader = some own }) in
        (s'', stop_timer ∷ (out ++ lead_term s'.term ∷ [])))
    else (s', [])

-- A round of `leaderHeartbeatLoop`; nothing once the node does not lead that term.
unfoldable pub heartbeat_round : ℕ → ℕ → Sequencer → List Action
unfolding broadcast_to_members
heartbeat_round own term s =
    if is_leading s.status && s.term == term
    then broadcast_to_members own (Message.heartbeat term own s.skip_ranges) s
    else []

unfoldable pub handle_heartbeat : ℕ → ℕ → ℕ → List Range → Sequencer → Result
handle_heartbeat now term leader_id skips s =
    let (s', out) = parse_skip_suffix skips s in
    if ltb term s'.term then (s', out) else (
      record s' {
        term = term;
        leader = some leader_id;
        voted_for = some leader_id;
        status = follower;
        last_leader_contact = now;
      },
      out ++ arm_timer ∷ [],
    )
