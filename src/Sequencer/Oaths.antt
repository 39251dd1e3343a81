-- ===== src/Sequencer/Oaths.antt =====
-- A node votes once in a term: elections, and all messages but the heartbeat of a leader.
use iss_com_multipaxos.Prelude.{
  ◌≡◌, ℕ, ◌+◌, ◌<◌, ◌^◌, ◌-◌, Bool, true, false, ◌&&◌, ◌||◌, not, Option, none, some, List, [], ◌∷◌,
  ltb, ◌==◌, if◌then◌else◌, length, arith, inl, inr, Bool-cases, Option-cases, add_member,
}
use iss_com_multipaxos.Sequencer.State.{
  Sequencer, Range, Message, leading, is_leader, is_majority, is_leading, is_candidate, next_term,
}
use iss_com_multipaxos.Sequencer.Meta.{
  handle_meta_skip, handle_meta_query, handle_meta_stream, publish_meta_skip,
}
use iss_com_multipaxos.Sequencer.Reserve.{request_reservation, allocate_gsn}
use iss_com_multipaxos.Sequencer.Requests.{
  handle_gsn_response, assign_gsn, handle_gsn_request, begin_request,
}
use iss_com_multipaxos.Sequencer.Election.{
  see_term, grants, max, handle_pre_vote_request, start_election, on_election_timeout,
  count_pre_vote, use_pre_vote, handle_pre_vote_response, handle_vote_request, resume_gsn_counter,
  count_vote, handle_vote_response,
}
use iss_com_multipaxos.Sequencer.Recovery.{end_recovery, still_missing_all}
use iss_com_multipaxos.Sequencer.Dispatch.{Node, Input, handle_message, handle}
use iss_com_multipaxos.Sequencer.Loyal.{
  Loyal-refl, Loyal-trans, Still-Loyal, request_reservation-Loyal, allocate_gsn-Loyal,
  handle_reserve-Loyal, handle_reserve_ack-Loyal, answer_pending-Loyal, register_metadata-Loyal,
  record_skip-Loyal, publish_meta-Loyal, publish_meta_skip-Loyal, skip_all-Loyal, Loyal,
  note_reserve_contact-Loyal, accept_mark-Loyal,
}

-- The term can go up without wrapping around.
abbrev pub IsBelowTop : Sequencer → Type 0
IsBelowTop s = s.term + 1 < 2 ^ 32

start_election-Loyal : (own : ℕ) (s : Sequencer) → IsBelowTop s → Loyal s (start_election own s).0
unfolding start_election next_term
start_election-Loyal own s fits = elim (Bool-cases (is_leading s.status)) [
  | inl e ↦ rw (e, start_election) (Loyal-refl s)
  | inr e ↦
      rw (e, start_election)
        (record { term = omega (arith, fits); vote = λ c q h. absurd (omega (arith, fits, q)) })
]

on_election_timeout-Loyal :
    (own : ℕ) (s : Sequencer) → IsBelowTop s → Loyal s (on_election_timeout own s).0
unfolding on_election_timeout
on_election_timeout-Loyal own s fits = elim (Bool-cases (is_leading s.status)) [
  | inl e ↦ rw (e, on_election_timeout) (Loyal-refl s)
  | inr e ↦ elim (Bool-cases (is_majority (own ∷ []) s.members)) [
    | inl f ↦
        rw (e, f, on_election_timeout)
          (Loyal-trans (Still-Loyal _ _ (ground arith)) (start_election-Loyal own _ fits))
    | inr f ↦ rw (e, f, on_election_timeout) (Still-Loyal _ _ (ground arith))
  ]
]

count_pre_vote-Loyal :
    (own sender : ℕ) (votes : List ℕ) (s : Sequencer)
    → IsBelowTop s
    → Loyal s (count_pre_vote own sender votes s).0
unfolding count_pre_vote
count_pre_vote-Loyal own sender votes s fits =
    elim (Bool-cases (is_majority (add_member sender votes) s.members)) [
      | inl e ↦
          rw (e, count_pre_vote)
            (Loyal-trans (Still-Loyal s (record s { pre_votes = none }) (ground arith))
              (start_election-Loyal own _ fits))
      | inr e ↦ rw (e, count_pre_vote) (Still-Loyal _ _ (ground arith))
    ]

use_pre_vote-Loyal :
    (own sender : ℕ) (votes : Option (List ℕ)) (s : Sequencer)
    → IsBelowTop s
    → Loyal s (use_pre_vote own sender votes s).0
unfolding use_pre_vote
use_pre_vote-Loyal own sender none s fits = Loyal-refl s
use_pre_vote-Loyal own sender (some votes) s fits = count_pre_vote-Loyal own sender votes s fits

handle_pre_vote_response-Loyal :
    (own term : ℕ) (granted : Bool) (sender : ℕ) (s : Sequencer)
    → IsBelowTop s
    → Loyal s (handle_pre_vote_response own term granted sender s).0
unfolding handle_pre_vote_response
handle_pre_vote_response-Loyal own term granted sender s fits =
    elim (Bool-cases (
      not granted
      || (is_leading s.status
          || not (term == s.pre_vote_term)
          || not (next_term s.term == term)))) [
            | inl e ↦ rw (e, handle_pre_vote_response) (Loyal-refl s)
            | inr e ↦
                rw (e, handle_pre_vote_response) (use_pre_vote-Loyal own sender s.pre_votes s fits)
          ]

handle_vote_request-Loyal :
    (term cand sender : ℕ) (s : Sequencer) → Loyal s (handle_vote_request term cand sender s).0
unfolding handle_vote_request
handle_vote_request-Loyal term cand sender s = record {
  term = unfold see_term in ground arith;
  vote = λ c q h. unfold see_term grants in ground arith;
}

-- The state in which a new leader asks for its first reservation.
pub resume_state : Sequencer → Sequencer
resume_state s =
    let resume = max (max s.vote_max_accepted s.accepted_up_to + 1) s.next_gsn in
    record s { next_gsn = resume; confirmed_up_to = resume - 1; reserve_pending = 0 }

resume_state-Loyal : (s : Sequencer) → Loyal s (resume_state s)
unfolding resume_state
resume_state-Loyal s = Still-Loyal _ _ (ground arith)

skip_or_not-Loyal :
    (b : Bool) (own : ℕ) (ns : List ℕ) (from to : ℕ) (s : Sequencer)
    → Loyal s (if b then publish_meta_skip own ns from to s else (s, [])).0
skip_or_not-Loyal true own ns from to s = publish_meta_skip-Loyal own ns from to s
skip_or_not-Loyal false own ns from to s = Loyal-refl s

pub resume_gsn_counter-Loyal :
    (own now : ℕ) (ns : List ℕ) (s : Sequencer) → Loyal s (resume_gsn_counter own now ns s).0
unfolding resume_gsn_counter resume_state
resume_gsn_counter-Loyal own now ns s = Loyal-trans (resume_state-Loyal s) (
    Loyal-trans (request_reservation-Loyal own now (resume_state s))
      (skip_or_not-Loyal _ own ns _ _ (request_reservation own now (resume_state s)).0))

count_vote-Loyal :
    (own sender accepted seen : ℕ) (holes : List Range) (s : Sequencer)
    → Loyal s
        (record (count_vote sender accepted seen holes s) { status = leading; leader = some own })
unfolding count_vote
count_vote-Loyal own sender accepted seen holes s = Still-Loyal _ _ (ground arith)

handle_vote_response-Loyal :
    (own now : ℕ) (ns : List ℕ) (term : ℕ) (granted : Bool) (accepted seen : ℕ) (holes : List Range)
    (sender : ℕ) (s : Sequencer)
    → Loyal s (handle_vote_response own now ns term granted accepted seen holes sender s).0
unfolding handle_vote_response
handle_vote_response-Loyal own now ns term granted accepted seen holes sender s =
    elim (Bool-cases (ltb s.term term)) [
      | inl e ↦
          rw (e, handle_vote_response)
            (record { term = ground arith; vote = λ c q h. absurd (ground (arith, q)) })
      | inr e ↦
          elim (Bool-cases (not (is_candidate s.status) || not (term == s.term) || not granted)) [
            | inl f ↦ rw (e, f, handle_vote_response) (Loyal-refl s)
            | inr f ↦
                let s' : Sequencer = count_vote sender accepted seen holes s in
                elim (Bool-cases (is_majority s'.votes s'.members)) [
                  | inl m ↦
                      rw (e, f, m, handle_vote_response)
                        (Loyal-trans (count_vote-Loyal own sender accepted seen holes s)
                          (resume_gsn_counter-Loyal own now ns _))
                  | inr m ↦
                      rw (e, f, m, handle_vote_response)
                        (unfold count_vote in Still-Loyal _ _ (ground arith))
                ]
          ]
    ]

assign_gsn-Loyal : (own now r q : ℕ) (s : Sequencer) → Loyal s (assign_gsn own now r q s).0
unfolding assign_gsn
assign_gsn-Loyal own now r q s = elim (Option-cases (allocate_gsn own now s).2) [
  | inl e ↦ rw (e, assign_gsn) (allocate_gsn-Loyal own now s)
  | inr (g, e) ↦ elim (Bool-cases (q == own)) [
    | inl f ↦
        rw (e, f, assign_gsn)
          (Loyal-trans (allocate_gsn-Loyal own now s) (answer_pending-Loyal r g _))
    | inr f ↦ rw (e, f, assign_gsn) (allocate_gsn-Loyal own now s)
  ]
]

handle_gsn_request-Loyal :
    (own now r q : ℕ) (s : Sequencer) → Loyal s (handle_gsn_request own now r q s).0
unfolding handle_gsn_request
handle_gsn_request-Loyal own now r q s = elim (Bool-cases (is_leader own s)) [
  | inl e ↦ rw (e, handle_gsn_request) (assign_gsn-Loyal own now r q s)
  | inr e ↦ rw (e, handle_gsn_request) (Loyal-refl s)
]

handle_meta_stream-Loyal :
    (gsn : ℕ) (groups : List ℕ) (s : Sequencer) → Loyal s (handle_meta_stream gsn groups s).0
unfolding handle_meta_stream
handle_meta_stream-Loyal gsn groups s = elim (Bool-cases (ltb 0 gsn && ltb 0 (length groups))) [
  | inl e ↦ rw (e, handle_meta_stream) (register_metadata-Loyal gsn groups s)
  | inr e ↦ rw (e, handle_meta_stream) (Loyal-refl s)
]

end_recovery-Loyal :
    (own : ℕ) (ns : List ℕ) (rs : List Range) (s : Sequencer) → Loyal s (end_recovery own ns rs s).0
unfolding end_recovery
end_recovery-Loyal own ns rs s = elim (Bool-cases (is_leader own s)) [
  | inl e ↦ rw (e, end_recovery) (skip_all-Loyal own ns (still_missing_all rs s []) s)
  | inr e ↦ rw (e, end_recovery) (Loyal-refl s)
]

abbrev pub is_heartbeat : Input → Bool
is_heartbeat (Input.deliver from (Message.heartbeat term leader skips)) = true
is_heartbeat _ = false

handle_message-Loyal :
    (v : Node) (now from : ℕ) (m : Message) (s : Sequencer)
    → is_heartbeat (Input.deliver from m) ≡ false
    → IsBelowTop s
    → Loyal s (handle_message v now from m s).0
unfolding handle_message handle_gsn_response handle_meta_skip handle_meta_query
    handle_pre_vote_request
handle_message-Loyal v now from (Message.gsn_request r q) s n fits =
    handle_gsn_request-Loyal v.own now r q s
handle_message-Loyal v now from (Message.gsn_response r g) s n fits = answer_pending-Loyal r g s
handle_message-Loyal v now from (Message.meta_stream g gs) s n fits =
    handle_meta_stream-Loyal g gs s
handle_message-Loyal v now from (Message.meta_skip a b) s n fits = record_skip-Loyal a b s
handle_message-Loyal v now from (Message.meta_query rs) s n fits = Loyal-refl s
handle_message-Loyal v now from (Message.pre_vote_request t c) s n fits = Loyal-refl s
handle_message-Loyal v now from (Message.pre_vote_response t g) s n fits =
    handle_pre_vote_response-Loyal v.own _ g from s fits
handle_message-Loyal v now from (Message.vote_request t c) s n fits =
    handle_vote_request-Loyal _ c from s
handle_message-Loyal v now from (Message.vote_response t g a m hs) s n fits =
    handle_vote_response-Loyal v.own now v.all_nodes _ g a m hs from s
handle_message-Loyal v now from (Message.heartbeat t l rs) s n fits = absurd (cc)
handle_message-Loyal v now from (Message.reserve t u) s n fits = handle_reserve-Loyal now _ u from s
handle_message-Loyal v now from (Message.reserve_ack t u) s n fits =
    handle_reserve_ack-Loyal _ u from s

pub handle-Loyal :
    (v : Node) (now : ℕ) (i : Input) (s : Sequencer)
    → is_heartbeat i ≡ false
    → IsBelowTop s
    → Loyal s (handle v now i s).0
unfolding handle begin_request
handle-Loyal v now (Input.deliver from m) s n fits = handle_message-Loyal v now from m s n fits
handle-Loyal v now Input.timeout s n fits = on_election_timeout-Loyal v.own s fits
handle-Loyal v now Input.own_gsn s n fits = allocate_gsn-Loyal v.own now s
handle-Loyal v now Input.own_request s n fits = Still-Loyal _ _ (ground arith)
handle-Loyal v now (Input.own_meta g gs) s n fits = publish_meta-Loyal v.own v.all_nodes g gs s
handle-Loyal v now (Input.group_meta g gs) s n fits = register_metadata-Loyal g gs s
handle-Loyal v now (Input.reserve_heard f t) s n fits = note_reserve_contact-Loyal now _ f s
handle-Loyal v now (Input.reserve_taken f t u) s n fits = accept_mark-Loyal u s
handle-Loyal v now (Input.recovered rs) s n fits = end_recovery-Loyal v.own v.all_nodes rs s
