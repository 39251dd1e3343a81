-- ===== src/Paxos/Commit.antt =====
-- COMMIT, delivery of the decided batch, and state transfer (mirbft/orderer/multipaxosinstance.go).
use iss_com_multipaxos.Prelude.{
  ℕ, true, false, Option, none, some, List, [], ◌∷◌, ◌++◌, ◌==◌, if◌then◌else◌, not,
}
use iss_com_multipaxos.Paxos.State.{
  Instance, Batch, committed, Effect, announce, fetch, remove_batch, remove_committed, fire, Result,
  is_committed,
}

-- The node that cut the batch drops it from its bucket; a follower drops what it holds of it.
unfoldable pub cleanup : Option Batch → Batch → List Effect
cleanup none b = remove_committed b ∷ []
cleanup (some cut) b = remove_batch cut ∷ []

-- The batch of `lastVal` is announced whether it is empty or not, and the loop is woken.
unfoldable pub deliver_commit : Batch → Instance → Result
unfolding cleanup
deliver_commit b i = (
  record i { phase = committed; last_req_batch = none; closed = true },
  cleanup i.last_req_batch b ++ announce i.sn b i.last_digest ∷ fire ∷ [],
)

-- A fetch is begun unless one is under way.
unfoldable pub begin_fetch : Instance → Result
begin_fetch i =
    if i.fetch_in_flight then (i, []) else (record i { fetch_in_flight = true }, fetch ∷ [])

-- A COMMIT with a digest; the digest is kept until the batch that it names is there.
unfoldable pub commit_value : ℕ → Option Batch → Instance → Result
commit_value digest none i = begin_fetch (record i { pending_commit_digest = some digest })
commit_value digest (some b) i =
    if not (digest == i.last_digest)
    then begin_fetch (record i { pending_commit_digest = some digest })
    else deliver_commit b (record i { pending_commit_digest = none; fetch_in_flight = false })

-- `none` is a COMMIT with no digest: the instance closes and announces nothing.
unfoldable pub on_commit : Option ℕ → Instance → Result
on_commit none i =
    if is_committed i.phase then (i, []) else (record i { phase = committed; closed = true }, [])
on_commit (some digest) i =
    if is_committed i.phase then (i, []) else commit_value digest i.last_val i

-- A batch from state transfer: it must have the digest that is waited for, if one is.
unfoldable pub take_entry : Option ℕ → Batch → Instance → Result
take_entry none b i = deliver_commit b i
take_entry (some wanted) b i =
    if not (wanted == i.last_digest)
    then (record i { fetch_in_flight = false }, [])
    else deliver_commit b (record i { fetch_in_flight = false; pending_commit_digest = none })

module _ (digest : Batch → ℕ) where
  unfoldable pub on_missing_entry : Option Batch → Instance → Result
  on_missing_entry none i = (i, [])
  on_missing_entry (some b) i =
      if is_committed i.phase
      then (i, [])
      else take_entry i.pending_commit_digest b
          (record i { last_val = some b; last_digest = digest b })
