-- ===== src/Sequencer/Quorum.antt =====
-- Majorities of the sequencer's group: the nodes that confirm a reservation and the nodes that elect a
-- leader (`HandleReserveAck`, mirbft/orderer/sequencer.go, and `HandleVoteResponse`,
-- sequencer_election.go).
use iss_com_multipaxos.Prelude.{
  ℕ, ◌≡◌, ◌≢◌, Bool, true, false, List, contains, IsDistinct, IsWithin, sets_meet, add_member,
  arith, inl, inr, Bool-cases, subst,
}
use iss_com_multipaxos.Sequencer.State.{Sequencer, Range, is_majority, is_leading}
use iss_com_multipaxos.Sequencer.Reserve.{handle_reserve_ack}
use iss_com_multipaxos.Sequencer.Election.{count_vote, handle_vote_response}

IsDistinct-add_member : (n : ℕ) (xs : List ℕ) → IsDistinct xs → IsDistinct (add_member n xs)
unfolding add_member
IsDistinct-add_member n xs d = elim (Bool-cases (contains n xs)) [
  | inl e ↦ rw e d
  | inr e ↦ rw e (e, d)
]

IsWithin-add_member :
    (n : ℕ) (ms xs : List ℕ) → contains n ms ≡ true → IsWithin ms xs → IsWithin ms (add_member n xs)
unfolding add_member
IsWithin-add_member n ms xs h w = elim (Bool-cases (contains n xs)) [
  | inl e ↦ rw e w
  | inr e ↦ rw e (h, w)
]

-- A reservation is confirmed by a majority only.
handle_reserve_ack-majority :
    (term upto from : ℕ) (s : Sequencer)
    → (handle_reserve_ack term upto from s).confirmed_up_to ≢ s.confirmed_up_to
    → is_majority (add_member from s.reserve_acks) s.members ≡ true
unfolding handle_reserve_ack
handle_reserve_ack-majority term upto from s ne =
    elim (Bool-cases (is_majority (add_member from s.reserve_acks) s.members)) [
      | inl e ↦ e
      | inr e ↦ absurd (ne (ground arith))
    ]

-- A candidate is elected by a majority only.
handle_vote_response-majority :
    (own now : ℕ) (ns : List ℕ) (term : ℕ) (granted : Bool) (accepted seen : ℕ) (holes : List Range)
    (from : ℕ) (s : Sequencer)
    → is_leading s.status ≡ false
    → is_leading (handle_vote_response own now ns term granted accepted seen holes from s).0.status
      ≡ true
    → is_majority (add_member from s.votes) s.members ≡ true
unfolding handle_vote_response count_vote
handle_vote_response-majority own now ns term granted accepted seen holes from s idle wins =
    elim (Bool-cases (is_majority (add_member from s.votes) s.members)) [
      | inl e ↦ e
      | inr e ↦ absurd (ground arith)
    ]

-- If an acknowledgement confirms a reservation at one node, and a vote makes another one the leader,
-- both with the same members, and each has counted only members, none twice, then some node is among
-- those that have acknowledged and among those that have voted.
pub majorities_meet :
    (term upto from : ℕ) (s : Sequencer) (own now : ℕ) (ns : List ℕ) (t : ℕ) (granted : Bool)
    (accepted seen : ℕ) (holes : List Range) (voter : ℕ) (r : Sequencer)
    → (handle_reserve_ack term upto from s).confirmed_up_to ≢ s.confirmed_up_to
    → is_leading r.status ≡ false
    → is_leading (handle_vote_response own now ns t granted accepted seen holes voter r).0.status
      ≡ true
    → r.members ≡ s.members
    → IsDistinct s.reserve_acks
    → IsDistinct r.votes
    → IsWithin s.members s.reserve_acks
    → IsWithin s.members r.votes
    → contains from s.members ≡ true
    → contains voter s.members ≡ true
    → (n : ℕ) × (contains n (add_member from s.reserve_acks) ≡ true)
      × (contains n (add_member voter r.votes) ≡ true)
majorities_meet term upto from s own now ns t granted accepted seen holes voter r h idle wins same
      da dv wa wv hf hv =
    let a = handle_reserve_ack-majority term upto from s h in
    let b : is_majority (add_member voter r.votes) s.members ≡ true =
      subst (λ ms. is_majority (add_member voter r.votes) ms ≡ true) same
        (handle_vote_response-majority own now ns t granted accepted seen holes voter r idle
          wins) in
    sets_meet s.members (add_member from s.reserve_acks) (add_member voter r.votes)
      (IsDistinct-add_member from s.reserve_acks da) (IsDistinct-add_member voter r.votes dv)
      (IsWithin-add_member from s.members s.reserve_acks hf wa)
      (IsWithin-add_member voter s.members r.votes hv wv) (unfold is_majority in ground arith)
