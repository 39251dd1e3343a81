-- ===== src/Sequencer.antt =====
-- mirbft/orderer/sequencer.go and sequencer_election.go: the sequencer of GSNs and its election.
pub mod State
pub mod Ranges
pub mod Meta
pub mod Reserve
pub mod Requests
pub mod Election
pub mod Recovery
pub mod Dispatch
pub mod Grows
pub mod Kept
pub mod Numbering
pub mod Loyal
pub mod Oaths
pub mod OneVote
pub mod Histories
pub mod Holes
pub mod Resume
pub mod Votes
pub mod Quorum
