-- ===== src/Sequencer/Dispatch.antt =====
-- The messages of the sequencer at a node: the part of `HandleMessage` in
-- mirbft/orderer/multipaxosmulticastorderer.go that hands them to the Sequencer, and the timer.
use iss_com_multipaxos.Prelude.{ℕ, Option, none, some, List, [], ◌∷◌, ◌++◌}
use iss_com_multipaxos.Sequencer.State.{Sequencer, Range, Message, Action, Result, int32_of, send}
use iss_com_multipaxos.Sequencer.Meta.{
  handle_meta_skip, handle_meta_query, handle_meta_stream, publish_meta, register_metadata,
}
use iss_com_multipaxos.Sequencer.Reserve.{
  allocate_gsn, handle_reserve, handle_reserve_ack, note_reserve_contact, accept_mark,
}
use iss_com_multipaxos.Sequencer.Requests.{handle_gsn_request, handle_gsn_response, begin_request}
use iss_com_multipaxos.Sequencer.Election.{
  on_election_timeout, handle_pre_vote_request, handle_pre_vote_response, handle_vote_request,
  handle_vote_response, handle_heartbeat,
}
use iss_com_multipaxos.Sequencer.Recovery.{end_recovery}

-- The node: its id, the ids of all nodes, and `SequencerElectionTimeoutMs`.
pub record Node : Type 0 where
  pub own : ℕ
  pub all_nodes : List ℕ
  pub min_ms : ℕ

-- A step of the node's sequencer, with the GSN that it allocates, if any.
abbrev pub Outcome : Type 0
Outcome = Sequencer × List Action × Option ℕ

abbrev pub quiet : Result → Outcome
quiet r = (r.0, r.1, none)

-- The payload's term is read as int64 and used as `int32(term)`, which the handlers take; only the
-- answers echo it.
unfoldable pub handle_message : Node → ℕ → ℕ → Message → Sequencer → Outcome
handle_message v now from (Message.gsn_request req_id requester) s =
    handle_gsn_request v.own now req_id requester s
handle_message v now from (Message.gsn_response req_id gsn) s =
    ((handle_gsn_response req_id gsn s).0, [], none)
handle_message v now from (Message.meta_stream gsn groups) s =
    quiet (handle_meta_stream gsn groups s)
handle_message v now from (Message.meta_skip first last) s = quiet (handle_meta_skip first last s)
handle_message v now from (Message.meta_query rs) s =
    quiet (handle_meta_query v.own v.all_nodes rs s)
handle_message v now from (Message.pre_vote_request term cand) s =
    quiet (handle_pre_vote_request v.min_ms now (int32_of term) from s)
handle_message v now from (Message.pre_vote_response term granted) s =
    quiet (handle_pre_vote_response v.own (int32_of term) granted from s)
handle_message v now from (Message.vote_request term cand) s =
    quiet (handle_vote_request (int32_of term) cand from s)
handle_message v now from (Message.vote_response term granted accepted seen holes) s =
    quiet (
      handle_vote_response v.own now v.all_nodes (int32_of term) granted accepted seen holes from s)
handle_message v now from (Message.heartbeat term leader_id skips) s =
    quiet (handle_heartbeat now (int32_of term) leader_id skips s)
handle_message v now from (Message.reserve term upto) s =
    quiet (handle_reserve now (int32_of term) upto from s)
handle_message v now from (Message.reserve_ack term upto) s =
    (handle_reserve_ack (int32_of term) upto from s, [], none)

-- What else happens at a node: its timer, a request of its own, a META to publish, the end of a
-- recovery, and the two critical sections of HandleReserve apart, when others come between them.
pub data Input : Type 0 where
  deliver : ℕ → Message → Input  -- the sender and its message
  timeout : Input
  own_gsn : Input  -- `GetNextGSN` at the leader
  own_request : Input  -- `GetNextGSN` elsewhere
  own_meta : ℕ → List ℕ → Input
  group_meta : ℕ → List ℕ → Input  -- `RegisterGSNMetadata`
  reserve_heard : ℕ → ℕ → Input  -- sender, term: the first critical section of HandleReserve
  reserve_taken : ℕ → ℕ → ℕ → Input  -- sender, term, mark: the second one
  recovered : List Range → Input

unfoldable pub handle : Node → ℕ → Input → Sequencer → Outcome
handle v now (Input.deliver from m) s = handle_message v now from m s
handle v now Input.timeout s = quiet (on_election_timeout v.own s)
handle v now Input.own_gsn s = allocate_gsn v.own now s
handle v now Input.own_request s = ((begin_request v.own s).0, [], none)
handle v now (Input.own_meta gsn groups) s = quiet (publish_meta v.own v.all_nodes gsn groups s)
handle v now (Input.group_meta gsn groups) s = quiet (register_metadata gsn groups s)
handle v now (Input.reserve_heard from term) s =
    quiet (note_reserve_contact now (int32_of term) from s)
handle v now (Input.reserve_taken from term upto) s =
    (accept_mark upto s, send from (Message.reserve_ack (int32_of term) upto) ∷ [], none)
handle v now (Input.recovered missing) s = quiet (end_recovery v.own v.all_nodes missing s)

abbrev pub numbers : Option ℕ → List ℕ
numbers none = []
numbers (some g) = g ∷ []

-- A history of inputs, each at its time, and the GSNs that the node allocates over it.
unfoldable pub run : Node → List (ℕ × Input) → Sequencer → Sequencer × List ℕ
run v [] s = (s, [])
run v ((now, i) ∷ is) s =
    let (s', out, number) = handle v now i s in
    let (s'', rest) = run v is s' in (s'', numbers number ++ rest)
