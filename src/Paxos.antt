-- ===== src/Paxos.antt =====
-- mirbft/orderer/multipaxosinstance.go: one instance of Paxos, which decides one sequence number.
pub mod State
pub mod Commit
pub mod Propose
pub mod Prepare
pub mod Accept
pub mod Rounds
pub mod Dispatch
pub mod Promise
pub mod Moves
pub mod Steps
pub mod Answers
pub mod Turns
pub mod Once
pub mod Late
pub mod Quorum
