-- ===== src/Paxos/Dispatch.antt =====
-- What reaches an instance: messages of its group (handleMPxMsg), entries from state transfer, the
-- clock, the wish to propose, its members, and what the other instances of its group do to the state
-- that they share (mirbft/orderer/multipaxosinstance.go).
use iss_com_multipaxos.Prelude.{ℕ, Bool, Option, none, some, List, [], ◌∷◌, ◌++◌}
use iss_com_multipaxos.Paxos.State.{Config, Instance, Batch, Message, Result}
use iss_com_multipaxos.Paxos.Commit.{on_commit, on_missing_entry}
use iss_com_multipaxos.Paxos.Propose.{propose_if_due}
use iss_com_multipaxos.Paxos.Prepare.{on_prepare, on_promise}
use iss_com_multipaxos.Paxos.Accept.{on_accept, on_accepted}
use iss_com_multipaxos.Paxos.Rounds.{tick, set_members}

pub data Input : Type 0 where
  deliver : ℕ → Message → Input  -- the sender and its message
  bad_commit : Input  -- a COMMIT with no digest
  bad_accept : ℕ → ℕ → Input  -- an ACCEPT with no batch: the sender and the ballot
  missing_entry : Option Batch → Input
  ticks : Input
  proposes : Option Batch → Input  -- with what CutBatch returns
  joins : List ℕ → Input  -- SetMembers
  shares : ℕ → Bool → ℕ → Input  -- other instances of the group have set its state so

module _ (digest : Batch → ℕ) where
  unfoldable pub handle_mpx_msg : Config → ℕ → Message → Instance → Result
  handle_mpx_msg c from (Message.prepare lead ballot group) i = on_prepare c lead ballot group i
  handle_mpx_msg c from (Message.promise ballot) i = on_promise c from i
  handle_mpx_msg c from (Message.accept ballot b) i = on_accept digest c from ballot (some b) i
  handle_mpx_msg c from (Message.accepted ballot) i = on_accepted from i
  handle_mpx_msg c from (Message.commit d) i = on_commit (some d) i

  unfoldable pub handle : Config → ℕ → Input → Instance → Result
  handle c now (Input.deliver from m) i = handle_mpx_msg c from m i
  handle c now Input.bad_commit i = on_commit none i
  handle c now (Input.bad_accept from ballot) i = on_accept digest c from ballot none i
  handle c now (Input.missing_entry b) i = on_missing_entry digest b i
  handle c now Input.ticks i = tick digest c now i
  handle c now (Input.proposes cut) i = propose_if_due digest c now cut i
  handle c now (Input.joins ms) i = set_members c ms i
  handle c now (Input.shares promised ok ballot) i =
      (record i { grp_promised = promised; grp_prepared = ok; grp_prepared_ballot = ballot }, [])

  -- A history of inputs, each at its time, and all that the instance does over it.
  unfoldable pub run : Config → List (ℕ × Input) → Instance → Result
  run c [] i = (i, [])
  run c ((now, x) ∷ xs) i =
      let (i', out) = handle c now x i in let (i'', rest) = run c xs i' in (i'', out ++ rest)
