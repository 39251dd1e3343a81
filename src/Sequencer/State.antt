-- ===== src/Sequencer/State.antt =====
-- The state of a Sequencer and its messages (mirbft/orderer/sequencer.go). A handler returns the new
-- state and what it does outside: messages, callbacks, timers and goroutines, as actions in order.
-- A critical section of the source is one step here; the clock is an argument. Node ids and GSNs are
-- plain numbers; the id -1 is `none`. A payload of the wire is a constructor of Message. A term is an
-- int32, kept as its value plus 2 ^ 31, so that the order of the numbers is the signed order.
use iss_com_multipaxos.Prelude.{
  ℕ, ◌+◌, ◌*◌, ◌^◌, Bool, true, false, Option, none, some, List, [], ◌∷◌, ltb, ◌==◌, if◌then◌else◌,
  length, Map, ◌/◌, ◌%◌,
}

pub data Status : Type 0 where
  follower candidate leading : Status

pub record Range : Type 0 where
  pub first : ℕ
  pub last : ℕ

pub record Sequencer : Type 0 where
  pub next_gsn : ℕ
  pub confirmed_up_to : ℕ
  pub accepted_up_to : ℕ
  pub reserve_pending : ℕ  -- 0 for none
  pub reserve_term : ℕ
  pub reserve_acks : List ℕ
  pub reserve_sent_at : ℕ
  pub vote_max_accepted : ℕ
  pub vote_max_meta : ℕ
  pub vote_holes : List Range
  pub requests_pending : Map (Option ℕ)  -- a channel with room for one GSN
  pub req_counter : ℕ  -- uint32
  pub metadata : Map (List ℕ)
  pub published_meta : List ℕ
  pub members : List ℕ
  pub leader : Option ℕ
  pub term : ℕ
  pub voted_for : Option ℕ
  pub status : Status
  pub votes : List ℕ
  pub last_leader_contact : ℕ
  pub pre_vote_term : ℕ
  pub pre_votes : Option (List ℕ)
  pub skip_ranges : List Range

pub data Message : Type 0 where
  gsn_request : ℕ → ℕ → Message  -- request id, requester
  gsn_response : ℕ → ℕ → Message  -- request id, GSN
  meta_stream : ℕ → List ℕ → Message
  meta_skip : ℕ → ℕ → Message
  meta_query : List Range → Message
  pre_vote_request : ℕ → ℕ → Message  -- term, candidate
  pre_vote_response : ℕ → Bool → Message
  vote_request : ℕ → ℕ → Message  -- term, candidate
  vote_response : ℕ → Bool → ℕ → ℕ → List Range → Message  -- term, granted, accepted, meta, holes
  heartbeat : ℕ → ℕ → List Range → Message  -- term, leader, skipped ranges
  reserve : ℕ → ℕ → Message  -- term, mark
  reserve_ack : ℕ → ℕ → Message

pub data Action : Type 0 where
  send : ℕ → Message → Action
  on_meta : ℕ → List ℕ → Action
  on_skip : ℕ → ℕ → Action
  arm_timer stop_timer : Action
  lead_term : ℕ → Action  -- `go s.leaderHeartbeatLoop(term)`
  recover : List Range → Action  -- `go s.recoverMetaHoles(holes)`

abbrev pub Result : Type 0
Result = Sequencer × List Action

abbrev pub is_leading : Status → Bool
is_leading follower = false
is_leading candidate = false
is_leading leading = true

abbrev pub is_candidate : Status → Bool
is_candidate follower = false
is_candidate candidate = true
is_candidate leading = false

-- `id == x`, where `id` may be -1.
abbrev pub is_node : Option ℕ → ℕ → Bool
is_node none n = false
is_node (some m) n = m == n

-- `t + 1` on int32, which wraps around.
unfoldable pub next_term : ℕ → ℕ
next_term t = (t + 1) % 2 ^ 32

-- `int32(term)` of the int64 that a payload holds, kept as its value plus 2 ^ 31 on 64 bits.
unfoldable pub int32_of : ℕ → ℕ
int32_of term = term % 2 ^ 32

-- `len(set) > len(s.members)/2`
unfoldable pub is_majority : List ℕ → List ℕ → Bool
is_majority set members = ltb (length members / 2) (length set)

-- `uint64(nodeID)<<32 | uint64(localCounter)`, for a counter of 32 bits.
unfoldable pub make_global_request_id : ℕ → ℕ → ℕ
make_global_request_id node_id local_counter = node_id * 2 ^ 32 + local_counter

unfoldable pub lowest : ℕ → List ℕ → ℕ
lowest m [] = m
lowest m (x ∷ xs) = lowest (if ltb x m then x else m) xs

unfoldable pub first_leader : List ℕ → Option ℕ
unfolding lowest
first_leader [] = none
first_leader (m ∷ ms) = some (lowest m ms)

unfoldable pub new_sequencer : ℕ → List ℕ → Sequencer
unfolding first_leader
new_sequencer own members = record {
  next_gsn = 1;
  confirmed_up_to = 0;
  accepted_up_to = 0;
  reserve_pending = 0;
  reserve_term = 2 ^ 31;
  reserve_acks = [];
  reserve_sent_at = 0;
  vote_max_accepted = 0;
  vote_max_meta = 0;
  vote_holes = [];
  requests_pending = [];
  req_counter = 0;
  metadata = [];
  published_meta = [];
  members = members;
  leader = first_leader members;
  term = 2 ^ 31;
  voted_for = first_leader members;
  status = if is_node (first_leader members) own then leading else follower;
  votes = [];
  last_leader_contact = 0;
  pre_vote_term = 2 ^ 31;
  pre_votes = none;
  skip_ranges = [];
}

-- `IsLeader`, and `currentLeader`, which is the field.
unfoldable pub is_leader : ℕ → Sequencer → Bool
is_leader own s = is_node s.leader own

-- A message to every node of a list but this one: `broadcastToMembers` with `s.members`, and the
-- loops over `membership.AllNodeIDs()`.
unfoldable pub send_others : ℕ → Message → List ℕ → List Action
send_others own m [] = []
send_others own m (n ∷ ns) =
    let rest = send_others own m ns in if n == own then rest else send n m ∷ rest

unfoldable pub broadcast_to_members : ℕ → Message → Sequencer → List Action
unfolding send_others
broadcast_to_members own m s = send_others own m s.members
