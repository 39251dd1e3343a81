-- ===== src/Paxos/Propose.antt =====
-- The proposal of a batch (mirbft/orderer/multipaxosinstance.go). What CutBatch returns is an
-- argument; `none` is no batch.
use iss_com_multipaxos.Prelude.{
  ℕ, Bool, true, Option, none, some, [], ◌∷◌, ltb, leb, ◌==◌, if◌then◌else◌, length, not, ◌&&◌,
  ◌||◌, any,
}
use iss_com_multipaxos.Request.{ClientRequest}
use iss_com_multipaxos.Paxos.State.{
  Config, Instance, Batch, prepared_phase, accept_sent, Effect, Message, emit, resurrect, Result,
  is_accept_sent, is_node,
}

unfoldable pub send_accept : Batch → Instance → Effect
send_accept b i = emit (Message.accept i.current_ballot b)

unfoldable pub send_prepare : Config → Instance → Effect
send_prepare c i = emit (Message.prepare c.own i.current_ballot i.bucket_id)

-- All requests are of the instance's group.
unfoldable pub is_homogeneous : Batch → Instance → Bool
unfolding any
is_homogeneous [] i = true
is_homogeneous (r ∷ rs) i =
    not (any (λ q. not (q.group_id == r.group_id)) (r ∷ rs)) && r.group_id == i.bucket_id

-- A cross-group operation without a GSN may not be proposed.
unfoldable pub lacks_gsn : ClientRequest → Bool
lacks_gsn r = ltb 1 (length r.touched_groups) && r.gsn == 0

unfoldable pub count_promises : Instance → Instance
count_promises i = if i.prepared then i else record i { prepared = true; phase = prepared_phase }

-- ACCEPT goes out with the current ballot.
unfoldable pub send_round : ℕ → Batch → Instance → Result
unfolding send_accept
send_round now b i = (record i { phase = accept_sent; last_accept_at = now }, send_accept b i ∷ [])

-- The leader may propose: it is not closed, and has no open round.
unfoldable pub may_propose : Config → Instance → Bool
may_propose c i =
    is_node i.leader c.own
    && (not i.closed
        && (not (is_accept_sent i.phase) && (i.prepared || leb i.quorum i.promise_count)))

module _ (digest : Batch → ℕ) where
  -- The value of a new round.
  unfoldable pub set_value : Batch → Option Batch → Instance → Instance
  set_value b cut i = record i {
    last_val = some b;
    last_digest = digest b;
    last_req_batch = cut;
    accepted_from = [];
    accept_count = 0;
  }

  unfoldable pub propose_cut : ℕ → Option Batch → Instance → Result
  propose_cut now none i = send_round now [] (set_value [] none i)
  propose_cut now (some []) i = send_round now [] (set_value [] none i)
  propose_cut now (some (r ∷ rs)) i =
      if not (is_homogeneous (r ∷ rs) i)
      then (i, resurrect (r ∷ rs) ∷ [])
      else if any lacks_gsn (r ∷ rs)
      then (i, resurrect (r ∷ rs) ∷ [])
      else send_round now (r ∷ rs) (set_value (r ∷ rs) (some (r ∷ rs)) i)

  -- A value that is there already is proposed again.
  unfoldable pub propose_value : ℕ → Option Batch → Option Batch → Instance → Result
  propose_value now cut (some b) i = send_round now b i
  propose_value now cut none i = if i.group_ready then propose_cut now cut i else (i, [])

  unfoldable pub propose_if_due : Config → ℕ → Option Batch → Instance → Result
  propose_if_due c now cut i =
      if may_propose c i
      then (let i' = count_promises i in propose_value now cut i'.last_val i')
      else (i, [])
