-- ===== src/Paxos/Accept.antt =====
-- ACCEPT and ACCEPTED (mirbft/orderer/multipaxosinstance.go).
use iss_com_multipaxos.Prelude.{
  ℕ, ◌+◌, Bool, false, Option, none, some, [], ◌∷◌, ltb, leb, ◌==◌, if◌then◌else◌, not, ◌&&◌, ◌||◌,
  is_some,
}
use iss_com_multipaxos.Paxos.State.{
  Config, Instance, Batch, Message, emit, Result, is_committed, is_node, counts,
}
use iss_com_multipaxos.Paxos.Commit.{on_commit}

-- The quorum is there and there is a value: COMMIT goes out, and is taken here too.
unfoldable pub check_accepted : Instance → Result
check_accepted i =
    let (i', out) = on_commit (some i.last_digest) i in
    if leb i.quorum i.accept_count && (is_some i.last_val && not (is_committed i.phase))
    then (i', emit (Message.commit i.last_digest) ∷ out)
    else (i, [])

-- The ballot of an ACCEPTED is not read.
unfoldable pub on_accepted : ℕ → Instance → Result
on_accepted from i =
    if counts from i.accepted_from i
    then check_accepted
        (record i { accepted_from = from ∷ i.accepted_from; accept_count = i.accept_count + 1 })
    else (i, [])

-- An old ballot, or the promised ballot from another node than the leader, is refused.
unfoldable pub refuses : Config → ℕ → ℕ → Instance → Bool
refuses c from ballot i =
    ltb ballot i.promised_ballot
    || ((if c.single then ltb ballot i.grp_promised else false)
        || (is_some i.leader && (not (is_node i.leader from) && ballot == i.promised_ballot)))

module _ (digest : Batch → ℕ) where
  -- The value is accepted; the leader counts itself without the network.
  unfoldable pub take_value : Config → ℕ → ℕ → Batch → Instance → Result
  take_value c from ballot b i =
      let i' = record i { last_val = some b; last_digest = digest b } in
      if from == c.own then on_accepted c.own i' else (i', emit (Message.accepted ballot) ∷ [])

  -- `none` is an ACCEPT with no batch.
  unfoldable pub on_accept : Config → ℕ → ℕ → Option Batch → Instance → Result
  on_accept c from ballot none i =
      if is_committed i.phase || refuses c from ballot i
      then (i, [])
      else (record i { promised_ballot = ballot; leader = some from }, [])
  on_accept c from ballot (some b) i =
      if is_committed i.phase || refuses c from ballot i
      then (i, [])
      else take_value c from ballot b (record i { promised_ballot = ballot; leader = some from })
