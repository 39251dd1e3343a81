-- ===== src/Sequencer/Kept.antt =====
-- Elections, requests and recovery take back nothing either, and so no message does.
use iss_com_multipaxos.Prelude.{
  ℕ, ◌+◌, ◌-◌, Bool, true, false, ◌&&◌, ◌||◌, not, Option, none, some, List, [], ◌∷◌, ltb, ◌==◌,
  if◌then◌else◌, length, arith, inl, inr, Bool-cases, Option-cases, add_member,
}
use iss_com_multipaxos.Sequencer.State.{
  Sequencer, Range, Message, leading, is_leader, is_majority, is_leading, is_candidate, next_term,
}
use iss_com_multipaxos.Sequencer.Meta.{
  handle_meta_skip, handle_meta_query, handle_meta_stream, publish_meta_skip,
}
use iss_com_multipaxos.Sequencer.Reserve.{request_reservation, allocate_gsn}
use iss_com_multipaxos.Sequencer.Requests.{
  handle_gsn_response, assign_gsn, handle_gsn_request, begin_request,
}
use iss_com_multipaxos.Sequencer.Election.{
  max, handle_pre_vote_request, start_election, on_election_timeout, count_pre_vote, use_pre_vote,
  handle_pre_vote_response, handle_vote_request, resume_gsn_counter, count_vote,
  handle_vote_response, handle_heartbeat,
}
use iss_com_multipaxos.Sequencer.Recovery.{end_recovery, still_missing_all}
use iss_com_multipaxos.Sequencer.Dispatch.{Node, Input, handle_message, handle}
use iss_com_multipaxos.Sequencer.Grows.{
  Grows-refl, Grows-trans, Plain-Grows, request_reservation-Grows, allocate_gsn-Grows,
  handle_reserve-Grows, handle_reserve_ack-Grows, answer_pending-Grows, register_metadata-Grows,
  record_skip-Grows, parse_skip_suffix-Grows, publish_meta-Grows, publish_meta_skip-Grows,
  skip_all-Grows, Grows, note_reserve_contact-Grows, accept_mark-Grows,
}

start_election-Grows : (own : ℕ) (s : Sequencer) → Grows s (start_election own s).0
unfolding start_election
start_election-Grows own s = Plain-Grows _ _ (ground arith)

on_election_timeout-Grows : (own : ℕ) (s : Sequencer) → Grows s (on_election_timeout own s).0
unfolding on_election_timeout
on_election_timeout-Grows own s = elim (Bool-cases (is_leading s.status)) [
  | inl e ↦ rw (e, on_election_timeout) (Grows-refl s)
  | inr e ↦ elim (Bool-cases (is_majority (own ∷ []) s.members)) [
    | inl f ↦
        rw (e, f, on_election_timeout)
          (Grows-trans (Plain-Grows _ _ (ground arith)) (start_election-Grows own _))
    | inr f ↦ rw (e, f, on_election_timeout) (Plain-Grows _ _ (ground arith))
  ]
]

count_pre_vote-Grows :
    (own sender : ℕ) (votes : List ℕ) (s : Sequencer)
    → Grows s (count_pre_vote own sender votes s).0
unfolding count_pre_vote
count_pre_vote-Grows own sender votes s =
    elim (Bool-cases (is_majority (add_member sender votes) s.members)) [
      | inl e ↦
          rw (e, count_pre_vote)
            (Grows-trans (Plain-Grows s (record s { pre_votes = none }) (ground arith))
              (start_election-Grows own _))
      | inr e ↦ rw (e, count_pre_vote) (Plain-Grows _ _ (ground arith))
    ]

use_pre_vote-Grows :
    (own sender : ℕ) (votes : Option (List ℕ)) (s : Sequencer)
    → Grows s (use_pre_vote own sender votes s).0
unfolding use_pre_vote
use_pre_vote-Grows own sender none s = Grows-refl s
use_pre_vote-Grows own sender (some votes) s = count_pre_vote-Grows own sender votes s

handle_pre_vote_response-Grows :
    (own term : ℕ) (granted : Bool) (sender : ℕ) (s : Sequencer)
    → Grows s (handle_pre_vote_response own term granted sender s).0
unfolding handle_pre_vote_response
handle_pre_vote_response-Grows own term granted sender s =
    elim (Bool-cases (
      not granted
      || (is_leading s.status
          || not (term == s.pre_vote_term)
          || not (next_term s.term == term)))) [
            | inl e ↦ rw (e, handle_pre_vote_response) (Grows-refl s)
            | inr e ↦ rw (e, handle_pre_vote_response) (use_pre_vote-Grows own sender s.pre_votes s)
          ]

handle_vote_request-Grows :
    (term cand sender : ℕ) (s : Sequencer) → Grows s (handle_vote_request term cand sender s).0
unfolding handle_vote_request
handle_vote_request-Grows term cand sender s = Plain-Grows _ _ (ground arith)

-- The state in which a new leader asks for its first reservation.
pub resume_at : Sequencer → Sequencer
resume_at s =
    let resume = max (max s.vote_max_accepted s.accepted_up_to + 1) s.next_gsn in
    record s { next_gsn = resume; confirmed_up_to = resume - 1; reserve_pending = 0 }

resume_at-Grows : (s : Sequencer) → Grows s (resume_at s)
unfolding resume_at
resume_at-Grows s = Plain-Grows _ _ (ground arith)

skip_or_not-Grows :
    (b : Bool) (own : ℕ) (ns : List ℕ) (from to : ℕ) (s : Sequencer)
    → Grows s (if b then publish_meta_skip own ns from to s else (s, [])).0
skip_or_not-Grows true own ns from to s = publish_meta_skip-Grows own ns from to s
skip_or_not-Grows false own ns from to s = Grows-refl s

pub resume_gsn_counter-Grows :
    (own now : ℕ) (ns : List ℕ) (s : Sequencer) → Grows s (resume_gsn_counter own now ns s).0
unfolding resume_gsn_counter resume_at
resume_gsn_counter-Grows own now ns s = Grows-trans (resume_at-Grows s) (
    Grows-trans (request_reservation-Grows own now (resume_at s))
      (skip_or_not-Grows _ own ns _ _ (request_reservation own now (resume_at s)).0))

count_vote-Grows :
    (own sender accepted seen : ℕ) (holes : List Range) (s : Sequencer)
    → Grows s
        (record (count_vote sender accepted seen holes s) { status = leading; leader = some own })
unfolding count_vote
count_vote-Grows own sender accepted seen holes s = Plain-Grows _ _ (ground arith)

handle_vote_response-Grows :
    (own now : ℕ) (ns : List ℕ) (term : ℕ) (granted : Bool) (accepted seen : ℕ) (holes : List Range)
    (sender : ℕ) (s : Sequencer)
    → Grows s (handle_vote_response own now ns term granted accepted seen holes sender s).0
unfolding handle_vote_response
handle_vote_response-Grows own now ns term granted accepted seen holes sender s =
    elim (Bool-cases (ltb s.term term)) [
      | inl e ↦ rw (e, handle_vote_response) (Plain-Grows _ _ (ground arith))
      | inr e ↦
          elim (Bool-cases (not (is_candidate s.status) || not (term == s.term) || not granted)) [
            | inl f ↦ rw (e, f, handle_vote_response) (Grows-refl s)
            | inr f ↦
                let s' : Sequencer = count_vote sender accepted seen holes s in
                elim (Bool-cases (is_majority s'.votes s'.members)) [
                  | inl m ↦
                      rw (e, f, m, handle_vote_response)
                        (Grows-trans (count_vote-Grows own sender accepted seen holes s)
                          (resume_gsn_counter-Grows own now ns _))
                  | inr m ↦
                      rw (e, f, m, handle_vote_response)
                        (unfold count_vote in Plain-Grows _ _ (ground arith))
                ]
          ]
    ]

handle_heartbeat-Grows :
    (now term leader_id : ℕ) (skips : List Range) (s : Sequencer)
    → Grows s (handle_heartbeat now term leader_id skips s).0
unfolding handle_heartbeat
handle_heartbeat-Grows now term leader_id skips s =
    Grows-trans (parse_skip_suffix-Grows skips s) (Plain-Grows _ _ (ground arith))

assign_gsn-Grows : (own now r q : ℕ) (s : Sequencer) → Grows s (assign_gsn own now r q s).0
unfolding assign_gsn
assign_gsn-Grows own now r q s = elim (Option-cases (allocate_gsn own now s).2) [
  | inl e ↦ rw (e, assign_gsn) (allocate_gsn-Grows own now s)
  | inr (g, e) ↦ elim (Bool-cases (q == own)) [
    | inl f ↦
        rw (e, f, assign_gsn)
          (Grows-trans (allocate_gsn-Grows own now s) (answer_pending-Grows r g _))
    | inr f ↦ rw (e, f, assign_gsn) (allocate_gsn-Grows own now s)
  ]
]

handle_gsn_request-Grows :
    (own now r q : ℕ) (s : Sequencer) → Grows s (handle_gsn_request own now r q s).0
unfolding handle_gsn_request
handle_gsn_request-Grows own now r q s = elim (Bool-cases (is_leader own s)) [
  | inl e ↦ rw (e, handle_gsn_request) (assign_gsn-Grows own now r q s)
  | inr e ↦ rw (e, handle_gsn_request) (Grows-refl s)
]

handle_meta_stream-Grows :
    (gsn : ℕ) (groups : List ℕ) (s : Sequencer) → Grows s (handle_meta_stream gsn groups s).0
unfolding handle_meta_stream
handle_meta_stream-Grows gsn groups s = elim (Bool-cases (ltb 0 gsn && ltb 0 (length groups))) [
  | inl e ↦ rw (e, handle_meta_stream) (register_metadata-Grows gsn groups s)
  | inr e ↦ rw (e, handle_meta_stream) (Grows-refl s)
]

end_recovery-Grows :
    (own : ℕ) (ns : List ℕ) (rs : List Range) (s : Sequencer) → Grows s (end_recovery own ns rs s).0
unfolding end_recovery
end_recovery-Grows own ns rs s = elim (Bool-cases (is_leader own s)) [
  | inl e ↦ rw (e, end_recovery) (skip_all-Grows own ns (still_missing_all rs s []) s)
  | inr e ↦ rw (e, end_recovery) (Grows-refl s)
]

handle_message-Grows :
    (v : Node) (now from : ℕ) (m : Message) (s : Sequencer)
    → Grows s (handle_message v now from m s).0
unfolding handle_message handle_gsn_response handle_meta_skip handle_meta_query
    handle_pre_vote_request
handle_message-Grows v now from (Message.gsn_request r q) s =
    handle_gsn_request-Grows v.own now r q s
handle_message-Grows v now from (Message.gsn_response r g) s = answer_pending-Grows r g s
handle_message-Grows v now from (Message.meta_stream g gs) s = handle_meta_stream-Grows g gs s
handle_message-Grows v now from (Message.meta_skip a b) s = record_skip-Grows a b s
handle_message-Grows v now from (Message.meta_query rs) s = Grows-refl s
handle_message-Grows v now from (Message.pre_vote_request t c) s = Grows-refl s
handle_message-Grows v now from (Message.pre_vote_response t g) s =
    handle_pre_vote_response-Grows v.own _ g from s
handle_message-Grows v now from (Message.vote_request t c) s = handle_vote_request-Grows _ c from s
handle_message-Grows v now from (Message.vote_response t g a m hs) s =
    handle_vote_response-Grows v.own now v.all_nodes _ g a m hs from s
handle_message-Grows v now from (Message.heartbeat t l rs) s = handle_heartbeat-Grows now _ l rs s
handle_message-Grows v now from (Message.reserve t u) s = handle_reserve-Grows now _ u from s
handle_message-Grows v now from (Message.reserve_ack t u) s = handle_reserve_ack-Grows _ u from s

-- No step of a node lowers the mark that it has accepted or its next GSN, forgets a META
-- or a skipped GSN, or changes a META that it knows.
pub handle-Grows : (v : Node) (now : ℕ) (i : Input) (s : Sequencer) → Grows s (handle v now i s).0
unfolding handle begin_request
handle-Grows v now (Input.deliver from m) s = handle_message-Grows v now from m s
handle-Grows v now Input.timeout s = on_election_timeout-Grows v.own s
handle-Grows v now Input.own_gsn s = allocate_gsn-Grows v.own now s
handle-Grows v now Input.own_request s = Plain-Grows _ _ (ground arith)
handle-Grows v now (Input.own_meta g gs) s = publish_meta-Grows v.own v.all_nodes g gs s
handle-Grows v now (Input.group_meta g gs) s = register_metadata-Grows g gs s
handle-Grows v now (Input.reserve_heard f t) s = note_reserve_contact-Grows now _ f s
handle-Grows v now (Input.reserve_taken f t u) s = accept_mark-Grows u s
handle-Grows v now (Input.recovered rs) s = end_recovery-Grows v.own v.all_nodes rs s
