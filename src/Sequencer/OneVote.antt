-- ===== src/Sequencer/OneVote.antt =====
-- A node votes for one candidate in a term (`HandleVoteRequest`,
-- mirbft/orderer/sequencer_election.go).
use iss_com_multipaxos.Prelude.{
  ℕ, ◌≤◌, ◌≡◌, ◌≢◌, refl, Bool, false, Option, none, some, List, [], ◌∷◌, ltb, ◌==◌, any, arith,
  inl, inr, Bool-cases,
}
use iss_com_multipaxos.Sequencer.State.{Sequencer, send}
use iss_com_multipaxos.Sequencer.Election.{
  see_term, may_vote_for, grants, vote_answer, handle_vote_request,
}
use iss_com_multipaxos.Sequencer.Dispatch.{Node, Input, handle, run}
use iss_com_multipaxos.Sequencer.Loyal.{Loyal, Loyal-refl, Loyal-trans}
use iss_com_multipaxos.Sequencer.Oaths.{handle-Loyal, is_heartbeat, IsBelowTop}

-- A leader's heartbeat is among the inputs.
unfoldable pub hears_leader : List (ℕ × Input) → Bool
unfolding any
hears_leader is = any (λ x. is_heartbeat x.1) is

-- Over the history the term never stands at the greatest int32.
unfoldable pub TermsFit : Node → List (ℕ × Input) → Sequencer → Type 0
TermsFit v [] s = Unit
TermsFit v ((now, i) ∷ is) s = IsBelowTop s × TermsFit v is (handle v now i s).0

run-Loyal :
    (v : Node) (is : List (ℕ × Input)) (s : Sequencer)
    → hears_leader is ≡ false
    → TermsFit v is s
    → Loyal s (run v is s).0
unfolding run hears_leader any TermsFit
run-Loyal v [] s n f = Loyal-refl s
run-Loyal v ((now, i) ∷ is) s n f =
    Loyal-trans (handle-Loyal v now i s (ground arith) f.0)
      (run-Loyal v is (handle v now i s).0 (unfold hears_leader any in ground arith) f.1)

see_term-old : (t : ℕ) (s : Sequencer) → t ≤ s.term → see_term t s ≡ s
unfolding see_term
see_term-old t s le = let e : ltb s.term t ≡ false = ground arith in rw (e, see_term) refl

may_vote_for-other : (o : Option ℕ) (c d : ℕ) → o ≡ some c → c ≢ d → may_vote_for o d ≡ false
may_vote_for-other none c d e ne = cc
may_vote_for-other (some x) c d e ne = ground arith

grants-other :
    (t c d : ℕ) (s : Sequencer) → (s.term ≡ t → s.voted_for ≡ some c) → c ≢ d → grants t d s ≡ false
unfolding grants
grants-other t c d s h ne = elim (Bool-cases (t == s.term)) [
  | inr e ↦ rw e refl
  | inl e ↦ rw (may_vote_for-other s.voted_for c d (h (ground arith)) ne) (ground arith)
]

refuses_other :
    (t c d from : ℕ) (s : Sequencer)
    → t ≤ s.term
    → (s.term ≡ t → s.voted_for ≡ some c)
    → c ≢ d
    → handle_vote_request t d from s ≡ (s, send from (vote_answer false s) ∷ [])
unfolding handle_vote_request vote_answer
refuses_other t c d from s le h ne =
    let seen : see_term t s ≡ s = see_term-old t s le in
    let no : grants t d s ≡ false = grants-other t c d s h ne in
    rw (seen, no, handle_vote_request) refl

-- A node that has voted for one candidate in a term refuses every other candidate of that term, and
-- its state does not change, whatever it has done and heard in between, unless it was a heartbeat of
-- a leader, while the term, an int32, does not stand at its greatest value.
pub one_vote :
    (v : Node) (is : List (ℕ × Input)) (s : Sequencer) (c d from : ℕ)
    → s.voted_for ≡ some c
    → hears_leader is ≡ false
    → TermsFit v is s
    → c ≢ d
    → handle_vote_request s.term d from (run v is s).0
      ≡ ((run v is s).0, send from (vote_answer false (run v is s).0) ∷ [])
one_vote v is s c d from h n f ne =
    let w = run-Loyal v is s n f in
    refuses_other s.term c d from (run v is s).0 w.term (λ e. w.vote c e h) ne
