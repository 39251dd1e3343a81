-- ===== src/Examples/Rounds.antt =====
-- One instance of Paxos among three nodes.
use iss_com_multipaxos.Prelude.{
  ℕ, ◌≤◌, ◌<◌, ◌≡◌, ◌≢◌, ◌⊎◌, ◌%◌, ◌^◌, refl, true, false, some, List, [], ◌∷◌, length, contains,
  arith, any,
}
use iss_com_multipaxos.Request.{ClientRequest}
use iss_com_multipaxos.Paxos.State.{
  Config, Instance, Batch, Message, prepared_phase, committed, is_committed, new_instance,
  next_ballot_after, majority_of, counts, is_in_group, note_group_prepared, set_group_prepared,
}
use iss_com_multipaxos.Paxos.Commit.{on_commit, commit_value, deliver_commit, cleanup}
use iss_com_multipaxos.Paxos.Propose.{
  propose_if_due, propose_value, propose_cut, set_value, send_round, send_accept, send_prepare,
  count_promises, may_propose, is_homogeneous, lacks_gsn,
}
use iss_com_multipaxos.Paxos.Prepare.{
  on_prepare, on_promise, abandon_round, own_promise, add_promise, check_promises, make_promise,
  may_promise,
}
use iss_com_multipaxos.Paxos.Accept.{on_accept, on_accepted, take_value, refuses, check_accepted}
use iss_com_multipaxos.Paxos.Rounds.{
  set_members, take_leader, begin_leading, initial_leader, initial_ballot, keep_members,
}
use iss_com_multipaxos.Paxos.Dispatch.{Input, handle, handle_mpx_msg, run}
use iss_com_multipaxos.Paxos.State.{lt_int64}
use iss_com_multipaxos.Paxos.Promise.{next_ballot_after_lem, next_ballot_after-ne}
use iss_com_multipaxos.Paxos.Moves.{announced, IsShut}
use iss_com_multipaxos.Paxos.Once.{
  IsTimely, IsTimelyInput, run_announces_once, run-promised_ballot, run_stays_committed,
}
use iss_com_multipaxos.Paxos.Late.{on_promise_reopens}

abbrev three : List ℕ
three = 1 ∷ 2 ∷ 3 ∷ []

abbrev node : Config
node = record {
  own = 1;
  all_nodes = three;
  single = false;
  view_change_timeout = 1000;
  accept_rtx_every = 200;
  num_buckets = 16;
}

abbrev size : Batch → ℕ
size b = length b

abbrev put : ClientRequest
put = record {
  client_id = 9;
  client_sn = 1;
  payload = 5 ∷ [];
  group_id = 0;
  touched_groups = 1 ∷ [];
  gsn = 0;
}

abbrev round : List (ℕ × Input)
round =
    (0, Input.joins three)
    ∷ (1, Input.shares 4 true 4)
    ∷ (1, Input.deliver 1 (Message.prepare 1 1 0))
    ∷ (2, Input.deliver 2 (Message.promise 1))
    ∷ (3, Input.proposes (some (put ∷ [])))
    ∷ (4, Input.deliver 1 (Message.accept 1 (put ∷ [])))
    ∷ (5, Input.deliver 3 (Message.accepted 1))
    ∷ (6, Input.deliver 2 (Message.commit 1))
    ∷ []

round_commits :
    announced (run size node round (new_instance 0 0)).1
    ≡ record { sn = 0; batch = put ∷ []; digest = 1 } ∷ []
unfolding run handle handle_mpx_msg announced new_instance set_members take_leader begin_leading
    initial_leader initial_ballot keep_members is_in_group majority_of send_prepare on_prepare
    abandon_round next_ballot_after note_group_prepared set_group_prepared make_promise may_promise
    own_promise add_promise check_promises on_promise counts propose_if_due may_propose
    count_promises propose_value propose_cut set_value send_round send_accept is_homogeneous
    lacks_gsn on_accept refuses take_value on_accepted check_accepted on_commit commit_value
    deliver_commit cleanup contains any
round_commits = refl

round-IsTimely : IsTimely size node round (new_instance 0 0)
unfolding IsTimely IsTimelyInput run handle handle_mpx_msg new_instance set_members take_leader
    begin_leading initial_leader initial_ballot keep_members is_in_group majority_of send_prepare
    on_prepare abandon_round next_ballot_after note_group_prepared set_group_prepared make_promise
    may_promise own_promise add_promise check_promises on_promise counts contains
round-IsTimely = (refl, (tt, (tt, (refl, (tt, (tt, (tt, (tt, tt))))))))

run_announces_once_example :
    ((announced (run size node round (new_instance 0 0)).1 ≡ [])
      ⊎ ((b : Batch) × (announced (run size node round (new_instance 0 0)).1
            ≡ record { sn = 0; batch = b; digest = size b } ∷ [])
          × (is_committed (run size node round (new_instance 0 0)).0.phase ≡ true)))
    × ((run size node round (new_instance 0 0)).0.sn ≡ 0)
run_announces_once_example = run_announces_once size node 0 0 round round-IsTimely

fresh-IsShut : IsShut (new_instance 0 0)
unfolding new_instance
fresh-IsShut h = cc

run-promised_ballot_example :
    (new_instance 0 0).promised_ballot ≤ (run size node round (new_instance 0 0)).0.promised_ballot
run-promised_ballot_example =
    run-promised_ballot size node round (new_instance 0 0) fresh-IsShut round-IsTimely

-- A committed instance hears an old PREPARE and its COMMIT again.
abbrev closed_one : Instance
closed_one = record (new_instance 4 0) {
  members = three;
  quorum = 2;
  last_val = some (put ∷ []);
  last_digest = 1;
  phase = committed;
  closed = true;
}

abbrev late_news : List (ℕ × Input)
late_news =
    (1, Input.deliver 2 (Message.prepare 2 2 0)) ∷ (2, Input.deliver 2 (Message.commit 1)) ∷ []

late_news-IsTimely : IsTimely size node late_news closed_one
unfolding IsTimely IsTimelyInput
late_news-IsTimely = (tt, (tt, tt))

run_stays_committed_example : is_committed (run size node late_news closed_one).0.phase ≡ true
run_stays_committed_example =
    run_stays_committed size node late_news closed_one refl refl late_news-IsTimely

-- An instance that has learnt its value from a COMMIT, with the PROMISE of node 2 counted.
abbrev learnt : Instance
learnt = record (new_instance 4 0) {
  members = three;
  quorum = 2;
  promise_count = 1;
  promised_from = 2 ∷ [];
  last_val = some (put ∷ []);
  last_digest = 1;
  phase = committed;
  closed = true;
}

learnt_facts : (learnt.prepared ≡ false) × (counts 3 learnt.promised_from learnt ≡ true)
unfolding new_instance counts is_in_group contains
learnt_facts = (refl, refl)

on_promise_reopens_example :
    ((on_promise node 3 learnt).0.phase ≡ prepared_phase)
    × (announced (on_commit (some 1) (on_promise node 3 learnt).0).1
        ≡ record { sn = learnt.sn; batch = put ∷ []; digest = 1 } ∷ [])
on_promise_reopens_example =
    on_promise_reopens node 3 learnt (put ∷ []) refl learnt_facts.0 learnt_facts.1 (omega arith)
      refl

next_ballot_after_lem_example :
    (8589934594 < next_ballot_after 5 8589934594)
    × (lt_int64 8589934594 (next_ballot_after 5 8589934594) ≡ true)
    × (next_ballot_after 5 8589934594 < 2 ^ 63)
    × (next_ballot_after 5 8589934594 % 2 ^ 32 ≡ 5)
next_ballot_after_lem_example = next_ballot_after_lem 5 8589934594 (omega arith) (omega arith)

next_ballot_after-ne_example : next_ballot_after 5 8589934594 ≢ next_ballot_after 6 4294967301
next_ballot_after-ne_example =
    next_ballot_after-ne 5 6 8589934594 4294967301 (omega arith) (omega arith) (omega arith)
      (omega arith) (omega arith)
