-- ===== src/Examples/Numbers.antt =====
-- The sequencer of three nodes.
use iss_com_multipaxos.Prelude.{
  any, false, ℕ, ◌≤◌, ◌<◌, ◌≡◌, ◌≢◌, ◌+◌, ◌&&◌, ◌||◌, ◌==◌, not, refl, true, none, some, List, [],
  ◌∷◌, ltb, leb, contains, lookup, arith, add_member,
}
use iss_com_multipaxos.Sequencer.State.{
  follower, candidate, send, Message, Sequencer, leading, new_sequencer, first_leader, lowest,
  is_majority, is_leading,
}
use iss_com_multipaxos.Sequencer.Ranges.{in_ranges, decode_ranges}
use iss_com_multipaxos.Sequencer.Meta.{
  meta_holes, max_hole_scan, max_meta_seen, max_key, publish_meta_skip, record_skip, has_range,
  register_metadata,
}
use iss_com_multipaxos.Sequencer.Reserve.{
  allocate_gsn, handle_reserve_ack, confirm_reservation, request_reservation, begin_reservation,
  send_reservation,
}
use iss_com_multipaxos.Sequencer.Election.{
  handle_vote_request, vote_answer, resume_gsn_counter, on_election_timeout, count_vote,
  handle_vote_response, handle_pre_vote_request,
}
use iss_com_multipaxos.Sequencer.Dispatch.{Node, Input, handle, handle_message, run}
use iss_com_multipaxos.Sequencer.Numbering.{handle_number, gsns-IsAscending, IsAscending}
use iss_com_multipaxos.Sequencer.Histories.{run_never_back, lookup-run, in_ranges-run}
use iss_com_multipaxos.Sequencer.Holes.{in_ranges-meta_holes, is_hole}
use iss_com_multipaxos.Sequencer.OneVote.{one_vote, hears_leader, TermsFit}
use iss_com_multipaxos.Sequencer.Resume.{
  tells, resume_at, resume_gsn_counter_next, resume_gsn_counter-skips,
}
use iss_com_multipaxos.Sequencer.Votes.{Vote}
use iss_com_multipaxos.Sequencer.Quorum.{majorities_meet}

abbrev three : List ℕ
three = 1 ∷ 2 ∷ 3 ∷ []

abbrev first_node : Node
first_node = record { own = 1; all_nodes = three; min_ms = 500 }

-- The leader with a reservation up to 100, of which 3 are used, the METAs of 1 and 3, and 2 skipped.
abbrev seated : Sequencer
seated = record (new_sequencer 1 three) {
  next_gsn = 4;
  confirmed_up_to = 100;
  accepted_up_to = 100;
  metadata = (1, 1 ∷ 2 ∷ []) ∷ (4, 1 ∷ 3 ∷ []) ∷ [];
  skip_ranges = record { first = 2; last = 2 } ∷ [];
}

seated_numbers : (handle first_node 0 Input.own_gsn seated).2 ≡ some 4
unfolding handle allocate_gsn new_sequencer
seated_numbers = refl

handle_number_example :
    (4 ≡ seated.next_gsn)
    × (4 ≤ seated.confirmed_up_to)
    × (4 < (handle first_node 0 Input.own_gsn seated).0.next_gsn)
handle_number_example = handle_number first_node 0 Input.own_gsn seated 4 seated_numbers

abbrev two_numbers : List (ℕ × Input)
two_numbers = (0, Input.own_gsn) ∷ (5, Input.timeout) ∷ (9, Input.own_gsn) ∷ []

two_numbers-run : (run first_node two_numbers seated).1 ≡ 4 ∷ 5 ∷ []
unfolding run handle allocate_gsn new_sequencer on_election_timeout first_leader lowest
two_numbers-run = refl

gsns-IsAscending_example :
    IsAscending seated.next_gsn
      (run first_node two_numbers seated).0.next_gsn
      (run first_node two_numbers seated).1
gsns-IsAscending_example = gsns-IsAscending first_node two_numbers seated

two_numbers-TermsFit : TermsFit first_node two_numbers seated
unfolding TermsFit handle allocate_gsn new_sequencer on_election_timeout first_leader lowest
two_numbers-TermsFit = (omega arith, (omega arith, (omega arith, tt)))

run_never_back_example :
    (seated.term ≤ (run first_node two_numbers seated).0.term)
    × (seated.accepted_up_to ≤ (run first_node two_numbers seated).0.accepted_up_to)
    × (seated.next_gsn ≤ (run first_node two_numbers seated).0.next_gsn)
run_never_back_example = run_never_back first_node two_numbers seated two_numbers-TermsFit

known_four : lookup 4 seated.metadata ≡ some (1 ∷ 3 ∷ [])
unfolding lookup
known_four = refl

lookup-run_example : lookup 4 (run first_node two_numbers seated).0.metadata ≡ some (1 ∷ 3 ∷ [])
lookup-run_example = lookup-run first_node two_numbers seated 4 (1 ∷ 3 ∷ []) known_four

skipped_two : in_ranges seated.skip_ranges 2 ≡ true
unfolding in_ranges
skipped_two = refl

in_ranges-run_example : in_ranges (run first_node two_numbers seated).0.skip_ranges 2 ≡ true
in_ranges-run_example = in_ranges-run first_node two_numbers seated 2 skipped_two

in_ranges-meta_holes_example :
    in_ranges (meta_holes 4 seated) 3
    ≡ (leb 1 3 && ltb 4 (3 + max_hole_scan) && leb 3 4 && is_hole 3 seated)
in_ranges-meta_holes_example = in_ranges-meta_holes 4 seated 3

three_is_a_hole : is_hole 3 seated ≡ true
unfolding is_hole lookup in_ranges
three_is_a_hole = refl

-- A node that has just won: its voters have confirmed up to 100, and seen METAs up to 4.
abbrev elected : Sequencer
elected = record seated { status = leading; term = 3; vote_max_accepted = 100; vote_max_meta = 4 }

-- A candidate among five nodes, the votes of nodes 2 and 3, and the marks that they report.
abbrev five : List ℕ
five = 1 ∷ 2 ∷ 3 ∷ 4 ∷ 5 ∷ []

abbrev running : Sequencer
running = record seated { status = candidate; members = five; votes = 1 ∷ [] }

abbrev earlier : Vote
earlier = record { sender = 2; accepted = 300; seen = 4; holes = [] }

abbrev later : Vote
later = record { sender = 3; accepted = 200; seen = 4; holes = [] }

elected_seen : max_meta_seen elected < 50
unfolding max_meta_seen max_key
elected_seen = omega arith

elected_resumes : 50 < resume_at elected
unfolding resume_at
elected_resumes = omega arith

elected_next : 50 < (resume_gsn_counter 1 0 three elected).0.next_gsn
elected_next = omega (arith, resume_gsn_counter_next 1 0 three elected, elected_resumes)

resume_gsn_counter-skips_example :
    (in_ranges (resume_gsn_counter 1 0 three elected).0.skip_ranges 50 ≡ true)
    × ((2 == 1 || (not (contains 2 three) || tells 2 50 (resume_gsn_counter 1 0 three elected).1))
        ≡ true)
resume_gsn_counter-skips_example =
    resume_gsn_counter-skips 1 0 three elected 50 2 (omega arith) elected_seen (omega arith)
      elected_next

-- The leader waits for a second acknowledgement, and node 3 for a second vote.
abbrev reserving : Sequencer
reserving = record seated { reserve_pending = 200; reserve_acks = 1 ∷ [] }

abbrev third : Sequencer
third = record seated { status = candidate; leader = none; votes = 3 ∷ [] }

confirms :
    (handle_reserve_ack reserving.reserve_term 200 2 reserving).confirmed_up_to
    ≢ reserving.confirmed_up_to
unfolding handle_reserve_ack confirm_reservation is_majority add_member contains new_sequencer
confirms e = omega (arith, e)

elects :
    is_leading (handle_vote_response 3 0 three third.term true 100 4 [] 2 third).0.status ≡ true
unfolding handle_vote_response resume_gsn_counter count_vote is_majority add_member contains
    new_sequencer request_reservation begin_reservation send_reservation max_meta_seen max_key
    publish_meta_skip record_skip has_range decode_ranges
elects = refl

alone : (n : ℕ) → contains n [] ≡ false
unfolding contains
alone n = refl

within : (contains 1 three ≡ true) × (contains 2 three ≡ true) × (contains 3 three ≡ true)
unfolding contains
within = (refl, refl, refl)

majorities_meet_example :
    (n : ℕ) × (contains n (add_member 2 (1 ∷ [])) ≡ true)
    × (contains n (add_member 2 (3 ∷ [])) ≡ true)
unfolding new_sequencer
majorities_meet_example =
    majorities_meet reserving.reserve_term 200 2 reserving 3 0 three third.term true 100 4 [] 2
      third confirms refl elects refl (alone 1, tt) (alone 3, tt) (within.0, tt) (within.2, tt)
      within.1 within.1

-- Node 1 has voted for node 2, hears nothing of a leader, and is asked by node 3.
abbrev voter : Sequencer
voter = record seated { status = follower; term = 4; voted_for = some 2 }

abbrev quiet_time : List (ℕ × Input)
quiet_time =
    (0, Input.deliver 2 (Message.pre_vote_request 5 2)) ∷ (3, Input.group_meta 6 (1 ∷ 2 ∷ [])) ∷ []

no_leader_heard : hears_leader quiet_time ≡ false
unfolding hears_leader any
no_leader_heard = refl

quiet_time-TermsFit : TermsFit first_node quiet_time voter
unfolding TermsFit handle handle_message handle_pre_vote_request register_metadata
quiet_time-TermsFit = (omega arith, (omega arith, tt))

one_vote_example : handle_vote_request 4 3 3 (run first_node quiet_time voter).0 ≡ (
  (run first_node quiet_time voter).0,
  send 3 (vote_answer false (run first_node quiet_time voter).0) ∷ [],
)
one_vote_example =
    one_vote first_node quiet_time voter 2 3 3 refl no_leader_heard quiet_time-TermsFit
      (omega arith)
