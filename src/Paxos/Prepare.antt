-- ===== src/Paxos/Prepare.antt =====
-- PREPARE and PROMISE (mirbft/orderer/multipaxosinstance.go).
use iss_com_multipaxos.Prelude.{
  ℕ, ◌+◌, Bool, true, false, none, some, [], ◌∷◌, leb, ◌==◌, if◌then◌else◌, not, ◌&&◌, contains,
}
use iss_com_multipaxos.Paxos.State.{
  Config, Instance, init, prepared_phase, Message, emit, propose, Result, is_committed, is_node,
  next_ballot_after, lt_int64, note_group_prepared, counts,
}

-- A later ballot has been proposed while this node led: it begins again above it.
unfoldable pub abandon_round : Config → ℕ → Instance → Instance
unfolding next_ballot_after lt_int64 note_group_prepared
abandon_round c ballot i =
    if lt_int64 i.current_ballot ballot && is_node i.leader c.own
    then note_group_prepared c 0 false (record i {
      current_ballot = next_ballot_after c.own ballot;
      leader = none;
      phase = init;
      prepared = false;
      prep_sent = false;
      promise_count = 0;
      promised_from = [];
    })
    else i

-- The promise of the instance, and of the group under a single leader.
unfoldable pub may_promise : Config → ℕ → Instance → Bool
may_promise c ballot i =
    leb i.promised_ballot ballot && (if c.single then leb i.grp_promised ballot else true)

unfoldable pub make_promise : Config → ℕ → Instance → Instance
make_promise c ballot i = record i {
  promised_ballot = ballot;
  grp_promised = if c.single then ballot else i.grp_promised;
}

-- With a quorum of promises the instance is prepared.
unfoldable pub check_promises : Config → Instance → Result
unfolding note_group_prepared
check_promises c i =
    if leb i.quorum i.promise_count && not i.prepared
    then (
      note_group_prepared c i.current_ballot true
          (record i { prepared = true; phase = prepared_phase }),
      propose ∷ [],
    )
    else (i, [])

unfoldable pub add_promise : Config → ℕ → Instance → Result
add_promise c from i =
    check_promises c
      (record i { promised_from = from ∷ i.promised_from; promise_count = i.promise_count + 1 })

-- The proposer counts its own promise at once.
unfoldable pub own_promise : Config → ℕ → Instance → Result
own_promise c lead i =
    let i' = record i { leader = some c.own } in
    if not (lead == c.own)
    then (i, [])
    else if contains c.own i'.promised_from
    then (i', [])
    else add_promise c c.own i'

unfoldable pub on_prepare : Config → ℕ → ℕ → ℕ → Instance → Result
on_prepare c lead ballot group i =
    let i' = abandon_round c ballot (record i { bucket_id = group; group_ready = true }) in
    let (i'', out) = own_promise c lead (make_promise c ballot i') in
    if is_committed i.phase
    then (i, [])
    else if may_promise c ballot i'
    then (i'', emit (Message.promise ballot) ∷ out)
    else (i', [])

-- The ballot of a PROMISE is not read.
unfoldable pub on_promise : Config → ℕ → Instance → Result
on_promise c from i = if counts from i.promised_from i then add_promise c from i else (i, [])
