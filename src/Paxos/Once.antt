-- ===== src/Paxos/Once.antt =====
-- Over a history an instance announces at most one batch, and that with its digest.
use iss_com_multipaxos.Prelude.{
  ℕ, ◌≤◌, ◌≡◌, refl, true, false, none, some, List, [], ◌∷◌, inl, inr, ◌⊎◌,
}
use iss_com_multipaxos.Paxos.State.{Config, Instance, Batch, Message, is_committed, new_instance}
use iss_com_multipaxos.Paxos.Dispatch.{Input, handle_mpx_msg, handle, run}
use iss_com_multipaxos.Paxos.Moves.{Announcement, announced, IsShut, Moves, Moves-then, stay-Moves}
use iss_com_multipaxos.Paxos.Steps.{on_commit-Moves, on_missing_entry-Moves, from-Same}
use iss_com_multipaxos.Paxos.Answers.{
  on_promise-Moves, on_prepare-Moves, on_accepted-Moves, on_accept-Moves,
}
use iss_com_multipaxos.Paxos.Turns.{tick-Moves, set_members-Moves, propose_if_due-Moves}

module _ (digest : Batch → ℕ) where
  -- A PROMISE, and the members, find the instance not committed yet.
  unfoldable pub IsTimelyInput : Input → Instance → Type 0
  IsTimelyInput (Input.deliver from (Message.prepare lead ballot group)) i = Unit
  IsTimelyInput (Input.deliver from (Message.promise ballot)) i = is_committed i.phase ≡ false
  IsTimelyInput (Input.deliver from (Message.accept ballot b)) i = Unit
  IsTimelyInput (Input.deliver from (Message.accepted ballot)) i = Unit
  IsTimelyInput (Input.deliver from (Message.commit d)) i = Unit
  IsTimelyInput Input.bad_commit i = Unit
  IsTimelyInput (Input.bad_accept from ballot) i = Unit
  IsTimelyInput (Input.missing_entry b) i = Unit
  IsTimelyInput Input.ticks i = Unit
  IsTimelyInput (Input.proposes cut) i = Unit
  IsTimelyInput (Input.joins ms) i = is_committed i.phase ≡ false
  IsTimelyInput (Input.shares promised ok ballot) i = Unit

  unfoldable pub IsTimely : Config → List (ℕ × Input) → Instance → Type 0
  IsTimely c [] i = Unit
  IsTimely c ((now, x) ∷ xs) i = IsTimelyInput x i × IsTimely c xs (handle digest c now x i).0

  handle-Moves :
      (c : Config) (now : ℕ) (x : Input) (i : Instance)
      → IsShut i
      → IsTimelyInput x i
      → Moves digest i (handle digest c now x i)
  unfolding handle handle_mpx_msg IsTimelyInput
  handle-Moves c now (Input.deliver from (Message.prepare lead ballot group)) i w t =
      on_prepare-Moves digest c lead ballot group i
  handle-Moves c now (Input.deliver from (Message.promise ballot)) i w t =
      on_promise-Moves digest c from i t
  handle-Moves c now (Input.deliver from (Message.accept ballot b)) i w t =
      on_accept-Moves digest c from ballot (some b) i
  handle-Moves c now (Input.deliver from (Message.accepted ballot)) i w t =
      on_accepted-Moves digest from i
  handle-Moves c now (Input.deliver from (Message.commit d)) i w t =
      on_commit-Moves digest (some d) i
  handle-Moves c now Input.bad_commit i w t = on_commit-Moves digest none i
  handle-Moves c now (Input.bad_accept from ballot) i w t =
      on_accept-Moves digest c from ballot none i
  handle-Moves c now (Input.missing_entry b) i w t = on_missing_entry-Moves digest b i
  handle-Moves c now Input.ticks i w t = tick-Moves digest c now i
  handle-Moves c now (Input.proposes cut) i w t = propose_if_due-Moves digest c now cut i w
  handle-Moves c now (Input.joins ms) i w t = set_members-Moves digest c ms i t
  handle-Moves c now (Input.shares promised ok ballot) i w t =
      from-Same digest i
        (record i { grp_promised = promised; grp_prepared = ok; grp_prepared_ballot = ballot }) _
        (refl, refl, refl, refl, refl, refl) (stay-Moves digest _)

  run-Moves :
      (c : Config) (xs : List (ℕ × Input)) (i : Instance)
      → IsShut i
      → IsTimely c xs i
      → Moves digest i (run digest c xs i)
  unfolding run IsTimely
  run-Moves c [] i w t = stay-Moves digest i
  run-Moves c ((now, x) ∷ xs) i w t =
      let m = handle-Moves c now x i w t.0 in
      Moves-then digest i (handle digest c now x i) _ m
        (run-Moves c xs (handle digest c now x i).0 (m.shut w) t.1)

-- Over a history in which every PROMISE and every change of members comes before the commit, whatever
-- the other instances of its group do to the state that they share, a new instance announces nothing, or one batch, under its number and with the digest of that batch, and
-- then it ends committed; its number is the one it was made with.
pub run_announces_once :
    (digest : Batch → ℕ) (c : Config) (sn start : ℕ) (xs : List (ℕ × Input))
    → IsTimely digest c xs (new_instance sn start)
    → ((announced (run digest c xs (new_instance sn start)).1 ≡ [])
        ⊎ ((b : Batch) × (announced (run digest c xs (new_instance sn start)).1
              ≡ record { sn = sn; batch = b; digest = digest b } ∷ [])
            × (is_committed (run digest c xs (new_instance sn start)).0.phase ≡ true)))
      × ((run digest c xs (new_instance sn start)).0.sn ≡ sn)
unfolding new_instance
run_announces_once digest c sn start xs t =
    let m = run-Moves digest c xs (new_instance sn start) (λ h. absurd (cc)) t in
    (simplify (m.announces (λ b e. absurd (cc))), m.number)
  where
    simplify :
        {l : List Announcement} {P : Type 0} {Q : Type 0} {R : Batch → Type 0}
        → ((l ≡ []) ⊎ ((b : Batch) × R b × P × Q))
        → (l ≡ []) ⊎ ((b : Batch) × R b × Q)
    simplify (inl e) = inl e
    simplify (inr (b, e, p, q)) = inr (b, e, q)

-- Over a history in which every PROMISE and every change of members comes before the commit, from
-- any instance that is closed if it is committed, the promised ballot does not go down.
pub run-promised_ballot :
    (digest : Batch → ℕ) (c : Config) (xs : List (ℕ × Input)) (i : Instance)
    → IsShut i
    → IsTimely digest c xs i
    → i.promised_ballot ≤ (run digest c xs i).0.promised_ballot
run-promised_ballot digest c xs i w t = (run-Moves digest c xs i w t).ballot

-- Over a history in which every PROMISE and every change of members comes before the commit, an
-- instance that is committed and closed stays committed.
pub run_stays_committed :
    (digest : Batch → ℕ) (c : Config) (xs : List (ℕ × Input)) (i : Instance)
    → is_committed i.phase ≡ true
    → i.closed ≡ true
    → IsTimely digest c xs i
    → is_committed (run digest c xs i).0.phase ≡ true
run_stays_committed digest c xs i p q t = (run-Moves digest c xs i (λ h. q) t).final p
