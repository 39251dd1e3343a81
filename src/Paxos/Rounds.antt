-- ===== src/Paxos/Rounds.antt =====
-- The clock of an instance, and how it takes its members (mirbft/orderer/multipaxosinstance.go).
use iss_com_multipaxos.Prelude.{
  ℕ, ◌+◌, ◌*◌, ◌%◌, ◌^◌, true, false, Option, none, some, List, [], ◌∷◌, ◌++◌, ltb, leb, ◌==◌,
  if◌then◌else◌, length, not, ◌&&◌, ◌||◌, is_some, get_elem?,
}
use iss_com_multipaxos.Paxos.State.{
  Config, Instance, Batch, init, prepared_phase, Effect, propose, resurrect, Result, is_accept_sent,
  next_ballot_after, majority_of, note_group_prepared, is_in_group,
}
use iss_com_multipaxos.Paxos.Commit.{deliver_commit}
use iss_com_multipaxos.Paxos.Propose.{send_accept, send_prepare}

module _ (digest : Batch → ℕ) where
  -- The cut requests go back to their buckets.
  unfoldable pub give_back : Option Batch → List Effect
  give_back none = []
  give_back (some b) = resurrect b ∷ []

  -- No quorum for too long: the instance commits the empty batch.
  unfoldable pub give_up : Instance → Result
  give_up i =
      let (i', out) =
        deliver_commit []
          (record i { last_req_batch = none; last_val = some []; last_digest = digest [] }) in
      (i', give_back i.last_req_batch ++ out)

  unfoldable pub retransmit : Config → ℕ → Option Batch → Instance → Result
  unfolding send_accept
  retransmit c now none i = (i, [])
  retransmit c now (some b) i =
      if leb (i.last_accept_at + c.accept_rtx_every) now
      then (record i { last_accept_at = now }, send_accept b i ∷ [])
      else (i, [])

  -- After three intervals of a round without a quorum: a new one with a higher ballot.
  unfoldable pub new_round : Config → ℕ → Instance → Result
  unfolding next_ballot_after note_group_prepared send_prepare
  new_round c now i =
      let i' = note_group_prepared c 0 false (record i {
        current_ballot = next_ballot_after c.own i.current_ballot;
        phase = init;
        prepared = false;
        promise_count = 0;
        promised_from = [];
        accept_count = 0;
        accepted_from = [];
        round_start_at = now;
        last_accept_at = now;
      }) in
      if leb (i.round_start_at + c.accept_rtx_every * 3) now
      then (i', send_prepare c i' ∷ [])
      else (i, [])

  unfoldable pub keep_trying : Config → ℕ → Instance → Result
  keep_trying c now i =
      let (i', out) = retransmit c now i.last_val i in
      let (i'', rest) = new_round c now i' in (i'', out ++ rest)

  unfoldable pub tick_stuck : Config → ℕ → Option ℕ → Instance → Result
  tick_stuck c now none i = keep_trying c now (record i { stuck_since = some now })
  tick_stuck c now (some since) i =
      if leb (since + c.view_change_timeout) now then give_up i else keep_trying c now i

  unfoldable pub tick : Config → ℕ → Instance → Result
  tick c now i =
      if not (is_accept_sent i.phase) || leb i.quorum i.accept_count
      then (i, [])
      else tick_stuck c now i.stuck_since i

-- Those of `acceptedFrom` that are members still.
unfoldable pub keep_members : List ℕ → Instance → List ℕ
unfolding is_in_group
keep_members [] i = []
keep_members (n ∷ ns) i = let rest = keep_members ns i in if is_in_group n i then n ∷ rest else rest

-- The leader that every node computes for this sequence number: the first member, or round robin.
-- (The source indexes the members and stops if there is none; no leader is chosen here.)
unfoldable pub initial_leader : Config → Instance → Option ℕ
initial_leader c i = get_elem? i.members (if c.single then 0 else i.sn % length i.members)

-- Under a single leader the first ballot is not below what the group has promised.
unfoldable pub initial_ballot : Config → ℕ → ℕ → ℕ
unfolding next_ballot_after
initial_ballot c leader promised =
    if c.single && ltb leader promised
    then (if promised % 2 ^ 32 == c.own then promised else next_ballot_after c.own promised)
    else leader

-- The leader sends PREPARE, unless its group is prepared for that ballot.
unfoldable pub begin_leading : Config → Instance → Result
unfolding send_prepare
begin_leading c i =
    if c.single && (i.grp_prepared && i.grp_prepared_ballot == i.current_ballot)
    then (record i { prepared = true; phase = prepared_phase }, propose ∷ [])
    else (i, send_prepare c i ∷ [])

unfoldable pub take_leader : Config → Option ℕ → Instance → Result
take_leader c none i = (i, [])
take_leader c (some l) i =
    let i' = record i { leader = some l; current_ballot = l } in
    if l == c.own && not i.prep_sent
    then begin_leading c
        (record i' { prep_sent = true; current_ballot = initial_ballot c l i.grp_promised })
    else (i', [])

unfoldable pub set_members : Config → List ℕ → Instance → Result
set_members c ms i =
    let i' = record i {
      members = ms;
      quorum = majority_of (length ms);
      group_ready = i.group_ready || ltb i.bucket_id c.num_buckets;
    } in
    let (i'', out) =
      if is_some i.leader then (i', []) else take_leader c (initial_leader c i') i' in
    (
      record i'' {
        accepted_from = keep_members i''.accepted_from i'';
        accept_count = length (keep_members i''.accepted_from i'');
      },
      out,
    )
