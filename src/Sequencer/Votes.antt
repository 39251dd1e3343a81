-- ===== src/Sequencer/Votes.antt =====
-- The vote that elects a leader, and the marks that its voters have reported (`HandleVoteResponse`,
-- mirbft/orderer/sequencer_election.go).
use iss_com_multipaxos.Prelude.{ℕ, List, [], ◌∷◌}
use iss_com_multipaxos.Sequencer.State.{Sequencer, Range}
use iss_com_multipaxos.Sequencer.Election.{count_vote}

-- What a granted vote reports.
pub record Vote : Type 0 where
  pub sender : ℕ
  pub accepted : ℕ
  pub seen : ℕ
  pub holes : List Range

-- A candidate after votes that do not make it the leader yet.
unfoldable pub count_votes : List Vote → Sequencer → Sequencer
count_votes [] s = s
count_votes (v ∷ vs) s = count_votes vs (count_vote v.sender v.accepted v.seen v.holes s)
