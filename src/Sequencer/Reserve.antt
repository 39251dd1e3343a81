-- ===== src/Sequencer/Reserve.antt =====
-- Reservation of blocks of GSNs by a majority, and numbering inside them
-- (mirbft/orderer/sequencer.go). `now` is the clock in milliseconds.
use iss_com_multipaxos.Prelude.{
  ℕ, ◌+◌, ◌-◌, ◌/◌, Bool, ◌&&◌, ◌||◌, not, Option, none, some, List, [], ◌∷◌, ◌++◌, ltb, ◌==◌,
  if◌then◌else◌, add_member,
}
use iss_com_multipaxos.Sequencer.State.{
  Sequencer, Message, Action, Result, send, arm_timer, is_leading, is_node, is_majority,
  broadcast_to_members,
}

abbrev pub gsn_block_size : ℕ
gsn_block_size = 100

unfoldable pub confirm_reservation : Sequencer → Sequencer
confirm_reservation s = record s { confirmed_up_to = s.reserve_pending; reserve_pending = 0 }

-- A new mark is asked for: the node accepts it, and counts itself.
unfoldable pub begin_reservation : ℕ → Sequencer → Sequencer
begin_reservation own s =
    let base : ℕ =
      if ltb s.confirmed_up_to (s.next_gsn - 1) then s.next_gsn - 1 else s.confirmed_up_to in
    let mark : ℕ = base + gsn_block_size in
    record s {
      reserve_pending = mark;
      reserve_term = s.term;
      reserve_acks = own ∷ [];
      accepted_up_to = if ltb s.accepted_up_to mark then mark else s.accepted_up_to;
    }

-- The request goes out, first or again; a group of one node confirms at once.
unfoldable pub send_reservation : ℕ → ℕ → Sequencer → Result
unfolding confirm_reservation is_majority broadcast_to_members
send_reservation own now s =
    let s' = record s { reserve_sent_at = now } in
    if is_majority s'.reserve_acks s'.members
    then (confirm_reservation s', [])
    else (s', broadcast_to_members own (Message.reserve s'.term s'.reserve_pending) s')

unfoldable pub request_reservation : ℕ → ℕ → Sequencer → Result
unfolding begin_reservation send_reservation
request_reservation own now s =
    if not (is_leading s.status && is_node s.leader own)
    then (s, [])
    else if ltb 0 s.reserve_pending
        && s.reserve_term == s.term
        && ltb now (s.reserve_sent_at + 1000)
    then (s, [])
    else send_reservation own now (
        if s.reserve_pending == 0 || not (s.reserve_term == s.term)
        then begin_reservation own s
        else s)

-- One pass of the loop of `allocateGSN`: a number, or none while the reservation is used up, when
-- the node asks for the next one and waits for `gsnCond` or gives up at its deadline.
unfoldable pub allocate_gsn : ℕ → ℕ → Sequencer → Sequencer × List Action × Option ℕ
unfolding request_reservation
allocate_gsn own now s =
    if ltb s.confirmed_up_to s.next_gsn
    then (let (s', out) = request_reservation own now s in (s', out, none))
    else let gsn = s.next_gsn in
      let s' = record s { next_gsn = gsn + 1 } in
      if ltb (s'.confirmed_up_to - gsn) (gsn_block_size / 2)
      then (let (s'', out) = request_reservation own now s' in (s'', out, some gsn))
      else (s', [], some gsn)

-- The section of `HandleReserve` under `electMu`: is the leader's term old?
unfoldable pub reserve_is_stale : ℕ → Sequencer → Bool
reserve_is_stale term s = ltb term s.term

unfoldable pub note_reserve_contact : ℕ → ℕ → ℕ → Sequencer → Result
unfolding reserve_is_stale
note_reserve_contact now term sender s =
    if not (reserve_is_stale term s) && is_node s.leader sender && not (is_leading s.status)
    then (record s { last_leader_contact = now }, arm_timer ∷ [])
    else (s, [])

-- The section under `gsnMu`.
unfoldable pub accept_mark : ℕ → Sequencer → Sequencer
accept_mark upto s = record s {
  accepted_up_to = if ltb s.accepted_up_to upto then upto else s.accepted_up_to;
}

unfoldable pub handle_reserve : ℕ → ℕ → ℕ → ℕ → Sequencer → Result
unfolding note_reserve_contact reserve_is_stale accept_mark
handle_reserve now term upto sender s =
    let (s', out) = note_reserve_contact now term sender s in
    if reserve_is_stale term s
    then (s', out)
    else (accept_mark upto s', out ++ send sender (Message.reserve_ack term upto) ∷ [])

unfoldable pub handle_reserve_ack : ℕ → ℕ → ℕ → Sequencer → Sequencer
unfolding confirm_reservation is_majority
handle_reserve_ack term upto sender s =
    if not (s.reserve_pending == upto) || not (s.reserve_term == term)
    then s
    else let s' = record s { reserve_acks = add_member sender s.reserve_acks } in
      if is_majority s'.reserve_acks s'.members then confirm_reservation s' else s'
