-- ===== src/Lib.antt =====
-- Verification of the ordering core of ISS with MultiPaxos and atomic multicast
-- (mirbft/orderer, written in Go).
--
-- A client request is for one data group or for several. The batches of each group are decided by one
-- instance of Paxos per sequence number (multipaxosinstance.go). A request for several groups first
-- gets a global sequence number (GSN) from the sequencer (sequencer.go), whose leader is elected
-- (sequencer_election.go) and numbers only inside a block that a majority has confirmed. Which groups
-- a GSN touches is spread as its META; a GSN that will never be used is spread as skipped. Decided
-- requests, METAs and skipped ranges reach the deliverers of a node in any order
-- (globaldeliver.go), which give one sequence by GSN out of them.
--
-- Files and code:
--   Prelude, Prelude/*  Boolean tests, lists on native numbers, Go maps as association lists, and
--     sets of members that meet.
--   Request  ClientRequest of mirbft/protobufs/request.proto, with the fields that are read.
--   Deliver/Prefix, Deliver/Global  GlobalDeliverer of mirbft/orderer/globaldeliver.go: on_meta,
--     on_skip, on_commit and drain are OnMeta, OnSkip, OnCommit and drainLocked. Deliver/Global/* has
--     the invariant (Inv), what a history delivers (Order), two nodes against each other
--     (Agreement), the order whatever arrives (Ascending) and that nothing is held back (Progress,
--     Arrival, Liveness).
--   Deliver/Group  groupDeliverer of the same file: push, on_meta, on_skip and drain. Deliver/Group/*
--     has the invariant (Inv, Enter), the cursor (Cursor), a round of the drain (Rounds), a history
--     (Order) and that the rounds are enough (Fuel).
--   Sequencer/State, Ranges, Meta, Reserve, Requests  mirbft/orderer/sequencer.go, with the ranges and
--     the scans for missing METAs of sequencer_election.go; Sequencer/Election and Recovery are the
--     election and recoverMetaHoles of that file; Sequencer/Dispatch is the part of HandleMessage of
--     mirbft/orderer/multipaxosmulticastorderer.go that hands on the messages. Grows and Kept,
--     Loyal, Oaths and OneVote, Histories, Numbering, Holes, Resume, Votes and Quorum have the
--     proofs.
--   Paxos/State, Commit, Propose, Prepare, Accept, Rounds, Dispatch
--     mirbft/orderer/multipaxosinstance.go, with the promise and the preparation that the instances of a
--     group share in multipaxosorderer.go. Promise, Moves, Steps, Answers, Turns, Once, Late and
--     Quorum have the proofs.
--   Groups  AtomicMulticast of mirbft/orderer/multipaxosgroup.go, and the sequence numbers that runSegment
--     of multipaxosorderer.go gives a group; Groups/Slots has the proofs.
--   Log  mirbft/log/log.go: entries, subscribers, goroutines that wait, checkpoints. Log/Publish and
--     Log/Order have the proofs, for any interleaving of the steps of CommitEntry with others.
--   Commands  mirbft/request/command.go, the client API's payloads; Commands/Text, Decimals and Base64
--     are what it uses of Go's strings, strconv and base64, and Commands/RoundTrip has the proofs.
--   Store  mirbft/orderer/statemachine.go: the key-value state of a group and applyEntryInOrder, by which
--     runSegment applies decided batches. Store/Texts has maps by key, Store/Transfer and Store/Apply
--     the proofs.
--   Bucket  mirbft/request/bucket.go: the doubly linked list of requests that wait, through pointers, and
--     its index. Bucket/Segment, Cut, Unlink and Links show that the operations on links are operations on a list,
--     Bucket/Ends has both ends, and Bucket/History a bucket against a plain queue. Bucket/Search has the
--     walks along the list, and Bucket/Single the proof of the one that removes.
--   Manager  mirbft/manager: create_segments and assign_buckets are createSegments and assignBuckets of
--     mirmanager.go, with the segments of skippingsegment.go and policies of leaderpolicies.go.
--     Manager/Segments, Turns, Buckets and Policies have the proofs.
--   Routing  mirbft/request/request.go: the groups that a payload touches (ReplicaMapper) and the bucket of
--     a request (GetBucketNr); Routing/Crc32 is Go's crc32, and Routing/Places has the proofs.
--   Buffer  mirbft/request/buffer.go: the window of request numbers of a client; Buffer/Watermark has the
--     proofs.
--   Examples/*  runs on small inputs, and the theorems where their conditions hold.
--
-- How the code is modelled: a method is a function from the state to the new state and what the method
-- does outside, in order: messages, callbacks, timers and goroutines as constructors. A critical
-- section is one step; what other goroutines do comes between the steps of a history. The clock is an
-- argument, in milliseconds. A text payload is a constructor with the numbers that Sscanf reads; a
-- payload that does not parse does nothing and has no constructor. Node ids, GSNs and marks are plain
-- numbers, the id -1 is `none`. Ballots have 64 bits and wrap around, an int64 being its two's
-- complement; request counters have 32. A term of the sequencer is an int32 that wraps around, kept as
-- its value plus 2 ^ 31. The state that the instances of a group share stands in each of them, and an
-- input changes it as the other instances do (Input.shares). HandleReserve has two critical sections:
-- they are one step as a message, and two as the inputs reserve_heard and reserve_taken, between
-- which others may come.
-- A Go map is an association list, and a set a list without repeats, so an iteration has an order here;
-- it is relied on only where the source sorts.
-- The hash of a batch (request.BatchDigest) is a parameter on which nothing is assumed, and the batch
-- that CutBatch returns is part of the input.
--
-- Loops: scans upwards run over the number of rounds that are left. The drain of a GlobalDeliverer has
-- one round for each GSN between `lastDelivered` and `metaPrefix`, which is what it can pass; that it
-- is enough is part of the proof of Liveness. The scan of the prefix has one round for each entry of
-- the map. The drain of a groupDeliverer has a round for each entry of the log that is not yet
-- delivered and for each operation in `crossInLog`, one of which each round
-- uses up (Fuel).
--
-- Not modelled: the encoding of the sequencer's payloads, the network, goroutines inside a critical section, the
-- channel that joins deliveries, the loop that runs a segment, the checkpoint protocol and state
-- transfer, the cutting of batches, the loops of the manager, the other orderers (PBFT, HotStuff, Raft), and deployment.
mod Prelude
pub mod Request
pub mod Groups
pub mod Deliver
pub mod Sequencer
pub mod Paxos
pub mod Log
pub mod Commands
pub mod Store
pub mod Bucket
pub mod Manager
pub mod Routing
pub mod Buffer
pub mod Examples
