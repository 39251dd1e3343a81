-- ===== src/Sequencer/Histories.antt =====
-- A node's sequencer over a history of messages, timeouts and requests of its own.
use iss_com_multipaxos.Prelude.{ℕ, ◌≤◌, ◌≡◌, refl, arith, true, some, List, [], ◌∷◌, lookup}
use iss_com_multipaxos.Sequencer.State.{Sequencer, Message, Range}
use iss_com_multipaxos.Sequencer.Ranges.{in_ranges}
use iss_com_multipaxos.Sequencer.Dispatch.{Node, Input, handle, handle_message, run}
use iss_com_multipaxos.Sequencer.Election.{handle_heartbeat}
use iss_com_multipaxos.Sequencer.Loyal.{parse_skip_suffix-Loyal}
use iss_com_multipaxos.Sequencer.Oaths.{handle-Loyal, IsBelowTop}
use iss_com_multipaxos.Sequencer.OneVote.{TermsFit}
use iss_com_multipaxos.Sequencer.Grows.{Grows, Grows-refl, Grows-trans}
use iss_com_multipaxos.Sequencer.Kept.{handle-Grows}

run-Grows : (v : Node) (is : List (ℕ × Input)) (s : Sequencer) → Grows s (run v is s).0
unfolding run
run-Grows v [] s = Grows-refl s
run-Grows v ((now, i) ∷ is) s =
    Grows-trans (handle-Grows v now i s) (run-Grows v is (handle v now i s).0)

handle_heartbeat_term :
    (now term l : ℕ) (rs : List Range) (s : Sequencer)
    → s.term ≤ (handle_heartbeat now term l rs s).0.term
unfolding handle_heartbeat
handle_heartbeat_term now term l rs s = ground (arith, (parse_skip_suffix-Loyal rs s).term)

handle_term :
    (v : Node) (now : ℕ) (i : Input) (s : Sequencer)
    → IsBelowTop s
    → s.term ≤ (handle v now i s).0.term
unfolding handle handle_message
handle_term v now (Input.deliver from (Message.heartbeat t l rs)) s fits =
    handle_heartbeat_term now _ l rs s
handle_term v now i s fits = (handle-Loyal v now i s refl fits).term

run_term :
    (v : Node) (is : List (ℕ × Input)) (s : Sequencer)
    → TermsFit v is s
    → s.term ≤ (run v is s).0.term
unfolding run TermsFit
run_term v [] s f = omega arith
run_term v ((now, i) ∷ is) s f =
    omega (arith, handle_term v now i s f.0, run_term v is (handle v now i s).0 f.1)

-- Over any history in which the term, an int32, does not stand at its greatest value, the term of a
-- node, the greatest mark that it has accepted for itself or a leader and its next GSN do not go
-- down.
pub run_never_back :
    (v : Node) (is : List (ℕ × Input)) (s : Sequencer)
    → TermsFit v is s
    → (s.term ≤ (run v is s).0.term)
      × (s.accepted_up_to ≤ (run v is s).0.accepted_up_to)
      × (s.next_gsn ≤ (run v is s).0.next_gsn)
run_never_back v is s f = let w = run-Grows v is s in (run_term v is s f, w.accepted, w.next)

-- Over any history a META that a node knows is kept, with the groups that it came with first.
pub lookup-run :
    (v : Node) (is : List (ℕ × Input)) (s : Sequencer) (gsn : ℕ) (groups : List ℕ)
    → lookup gsn s.metadata ≡ some groups
    → lookup gsn (run v is s).0.metadata ≡ some groups
lookup-run v is s gsn groups h = (run-Grows v is s).metas gsn groups h

-- Over any history a GSN that a node knows to be skipped stays so.
pub in_ranges-run :
    (v : Node) (is : List (ℕ × Input)) (s : Sequencer) (gsn : ℕ)
    → in_ranges s.skip_ranges gsn ≡ true
    → in_ranges (run v is s).0.skip_ranges gsn ≡ true
in_ranges-run v is s gsn h = (run-Grows v is s).skips gsn h
