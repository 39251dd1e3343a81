-- ===== src/Paxos/Late.antt =====
-- A PROMISE that comes after the commit (`onPromise`, mirbft/orderer/multipaxosinstance.go).
use iss_com_multipaxos.Prelude.{
  ℕ, ◌+◌, ◌≤◌, ◌≡◌, refl, true, false, not, [], ◌∷◌, ◌++◌, ◌==◌, arith, Option, some, none,
}
use iss_com_multipaxos.Paxos.State.{
  Config, Instance, Batch, prepared_phase, committed, is_committed, counts, note_group_prepared,
  set_group_prepared, announce, fire,
}
use iss_com_multipaxos.Paxos.Prepare.{check_promises, add_promise, on_promise}
use iss_com_multipaxos.Paxos.Commit.{on_commit, commit_value, deliver_commit, cleanup}
use iss_com_multipaxos.Paxos.Moves.{announced}

announced-cleanup :
    (o : Option Batch) (b b' : Batch) (n d : ℕ)
    → announced (cleanup o b' ++ announce n b d ∷ fire ∷ [])
      ≡ record { sn = n; batch = b; digest = d } ∷ []
unfolding cleanup announced
announced-cleanup none b b' n d = refl
announced-cleanup (some cut) b b' n d = refl

announced-commit_value :
    (o : Option Batch) (i : Instance) (b : Batch)
    → o ≡ some b
    → announced (commit_value i.last_digest o i).1
      ≡ record { sn = i.sn; batch = b; digest = i.last_digest } ∷ []
unfolding commit_value deliver_commit
announced-commit_value none i b e = cc
announced-commit_value (some b') i b e =
    let h : not (i.last_digest == i.last_digest) ≡ false = ground arith in
    let q : b' ≡ b = ground arith in
    rw (h, q, commit_value) (announced-cleanup i.last_req_batch b b i.sn i.last_digest)

announced-on_commit :
    (i : Instance) (b : Batch)
    → is_committed i.phase ≡ false
    → i.last_val ≡ some b
    → announced (on_commit (some i.last_digest) i).1
      ≡ record { sn = i.sn; batch = b; digest = i.last_digest } ∷ []
unfolding on_commit
announced-on_commit i b open_ v = rw (open_, on_commit) (announced-commit_value i.last_val i b v)

-- An instance that is committed and has a value but never was prepared goes back to the phase
-- "prepared" on a PROMISE that counts and makes a quorum, and the next COMMIT of its value
-- announces it again.
pub on_promise_reopens :
    (c : Config) (from : ℕ) (i : Instance) (b : Batch)
    → i.phase ≡ committed
    → i.prepared ≡ false
    → counts from i.promised_from i ≡ true
    → i.quorum ≤ i.promise_count + 1
    → i.last_val ≡ some b
    → ((on_promise c from i).0.phase ≡ prepared_phase)
      × (announced (on_commit (some i.last_digest) (on_promise c from i).0).1
          ≡ record { sn = i.sn; batch = b; digest = i.last_digest } ∷ [])
unfolding on_promise add_promise check_promises note_group_prepared set_group_prepared
on_promise_reopens c from i b p u k q v =
    let j : Instance = (on_promise c from i).0 in
    let e : j.phase ≡ prepared_phase = ground (arith, k, u, q) in
    let n : j.sn ≡ i.sn = ground (arith, k, u, q) in
    let w : j.last_val ≡ some b = ground (arith, k, u, q, v) in
    let d : j.last_digest ≡ i.last_digest = ground (arith, k, u, q) in
    (e, (rw (d, n) at (announced-on_commit j b (rw e refl) w)))
