-- ===== src/Paxos/State.antt =====
-- The state of an mpxInstance with the part of its MultiPaxosOrderer that it shares
-- (mirbft/orderer/multipaxosinstance.go and multipaxosorderer.go), its messages and its effects.
-- Ballots are 64-bit words, an int64 its two's complement; the leader -1 is `none`; `digest` stands for request.BatchDigest.
use iss_com_multipaxos.Prelude.{
  ℕ, ◌+◌, ◌*◌, ◌/◌, ◌%◌, ◌^◌, Bool, true, false, Option, none, some, List, [], ltb, ◌==◌,
  if◌then◌else◌, length, contains, ◌&&◌, not,
}
use iss_com_multipaxos.Request.{ClientRequest}

abbrev pub Batch : Type 0
Batch = List ClientRequest

pub data Phase : Type 0 where
  init prepared_phase accept_sent committed : Phase

abbrev pub is_committed : Phase → Bool
is_committed init = false
is_committed prepared_phase = false
is_committed accept_sent = false
is_committed committed = true

abbrev pub is_accept_sent : Phase → Bool
is_accept_sent init = false
is_accept_sent prepared_phase = false
is_accept_sent accept_sent = true
is_accept_sent committed = false

-- What is fixed at a node: its id, the nodes, `leaderPolicy == Single`, and the intervals of
-- ViewChangeTimeout and of the retransmission of ACCEPT, and the number of buckets.
pub record Config : Type 0 where
  pub own : ℕ
  pub all_nodes : List ℕ
  pub single : Bool
  pub view_change_timeout : ℕ
  pub accept_rtx_every : ℕ
  pub num_buckets : ℕ  -- `len(request.Buckets)`

pub record Instance : Type 0 where
  pub sn : ℕ
  pub bucket_id : ℕ
  pub group_ready : Bool  -- `groupBucketGroup != nil`
  pub closed : Bool
  pub members : List ℕ
  pub quorum : ℕ
  pub promised_ballot : ℕ
  pub prepared : Bool
  pub promise_count : ℕ
  pub promised_from : List ℕ
  pub last_req_batch : Option Batch
  pub phase : Phase
  pub last_val : Option Batch
  pub last_digest : ℕ
  pub accept_count : ℕ
  pub accepted_from : List ℕ
  pub last_accept_at : ℕ
  pub round_start_at : ℕ
  pub stuck_since : Option ℕ
  pub prep_sent : Bool
  pub leader : Option ℕ
  pub current_ballot : ℕ  -- int64
  pub pending_commit_digest : Option ℕ
  pub fetch_in_flight : Bool
  pub grp_promised : ℕ  -- of the orderer, shared by the instances of a group: see Input.shares
  pub grp_prepared : Bool
  pub grp_prepared_ballot : ℕ

pub data Message : Type 0 where
  prepare : ℕ → ℕ → ℕ → Message  -- lead, ballot, group
  promise : ℕ → Message  -- ballot
  accept : ℕ → Batch → Message  -- ballot
  accepted : ℕ → Message  -- ballot
  commit : ℕ → Message  -- digest

pub data Effect : Type 0 where
  emit : Message → Effect
  announce : ℕ → Batch → ℕ → Effect  -- sequence number, batch, digest
  propose : Effect  -- `go i.ProposeIfDue()`
  fetch : Effect  -- `go i.fetchCommittedValueFromGroup()`
  remove_batch remove_committed resurrect : Batch → Effect
  fire : Effect  -- wakes the loop of runSegment

abbrev pub Result : Type 0
Result = Instance × List Effect

abbrev pub is_node : Option ℕ → ℕ → Bool
is_node none n = false
is_node (some m) n = m == n

-- newMPXInstance at time `now`.
unfoldable pub new_instance : ℕ → ℕ → Instance
new_instance sn now = record {
  sn = sn;
  bucket_id = 0;
  group_ready = false;
  closed = false;
  members = [];
  quorum = 0;
  promised_ballot = 0;
  prepared = false;
  promise_count = 0;
  promised_from = [];
  last_req_batch = none;
  phase = init;
  last_val = none;
  last_digest = 0;
  accept_count = 0;
  accepted_from = [];
  last_accept_at = now;
  round_start_at = now;
  stuck_since = none;
  prep_sent = false;
  leader = none;
  current_ballot = 0;
  pending_commit_digest = none;
  fetch_in_flight = false;
  grp_promised = 0;
  grp_prepared = false;
  grp_prepared_ballot = 0;
}

-- `a < b` on int64.
unfoldable pub lt_int64 : ℕ → ℕ → Bool
lt_int64 a b = ltb ((a + 2 ^ 63) % 2 ^ 64) ((b + 2 ^ 63) % 2 ^ 64)

-- `int64((seen>>32 + 1)<<32 | OwnID)`; an id has 32 bits.
unfoldable pub next_ballot_after : ℕ → ℕ → ℕ
next_ballot_after own seen = (seen / 2 ^ 32 + 1) * 2 ^ 32 % 2 ^ 64 + own

-- The majority of n members, and of one where there is none.
unfoldable pub majority_of : ℕ → ℕ
majority_of n = (if n == 0 then 1 else n) / 2 + 1

unfoldable pub set_segment : Config → Instance → Instance
unfolding majority_of
set_segment c i = record i {
  quorum = majority_of (if length i.members == 0 then length c.all_nodes else length i.members);
}

unfoldable pub is_in_group : ℕ → Instance → Bool
unfolding contains
is_in_group node i = contains node i.members

unfoldable pub set_group_prepared : ℕ → Bool → Instance → Instance
set_group_prepared ballot ok i = record i { grp_prepared = ok; grp_prepared_ballot = ballot }

-- `singleLeader()` guards every use of the group's state.
unfoldable pub note_group_prepared : Config → ℕ → Bool → Instance → Instance
unfolding set_group_prepared
note_group_prepared c ballot ok i = if c.single then set_group_prepared ballot ok i else i

-- A sender counts once, and only if it is a member.
unfoldable pub counts : ℕ → List ℕ → Instance → Bool
unfolding is_in_group contains
counts from seen i =
    not (contains from seen) && (if ltb 0 (length i.members) then is_in_group from i else true)
