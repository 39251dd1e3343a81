-- ===== src/Paxos/Quorum.antt =====
-- Quorums of an instance (`setSegment` and `SetMembers`, mirbft/orderer/multipaxosinstance.go).
use iss_com_multipaxos.Prelude.{
  ℕ, ◌≤◌, ◌≡◌, true, List, length, contains, IsDistinct, IsWithin, sets_meet, arith,
}
use iss_com_multipaxos.Paxos.State.{majority_of}

-- Two lists of members without repeats, each as long as the quorum of the group, have a member in
-- common.
quorums_meet :
    (members xs ys : List ℕ)
    → IsDistinct xs
    → IsDistinct ys
    → IsWithin members xs
    → IsWithin members ys
    → majority_of (length members) ≤ length xs
    → majority_of (length members) ≤ length ys
    → (n : ℕ) × (contains n xs ≡ true) × (contains n ys ≡ true)
unfolding majority_of
quorums_meet members xs ys d e w v h k = sets_meet members xs ys d e w v (ground arith)
