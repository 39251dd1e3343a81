-- ===== src/Paxos/Turns.antt =====
-- Proposals, the clock and new members keep what every step keeps.
use iss_com_multipaxos.Prelude.{
  ℕ, ◌+◌, ◌≡◌, refl, Bool, true, false, Option, none, some, List, [], ◌∷◌, leb, ◌==◌, if◌then◌else◌,
  not, ◌&&◌, ◌||◌, is_some, arith, inl, inr, Bool-cases, any,
}
use iss_com_multipaxos.Paxos.State.{
  Config, Instance, Batch, Phase, init, prepared_phase, accept_sent, committed, Result,
  is_committed, is_accept_sent,
}
use iss_com_multipaxos.Paxos.Commit.{deliver_commit}
use iss_com_multipaxos.Paxos.Propose.{
  propose_if_due, propose_value, propose_cut, set_value, send_round, count_promises, may_propose,
  is_homogeneous, lacks_gsn,
}
use iss_com_multipaxos.Paxos.Rounds.{
  give_back, give_up, retransmit, new_round, keep_trying, tick_stuck, tick, begin_leading,
  take_leader, set_members, initial_leader,
}
use iss_com_multipaxos.Paxos.Moves.{
  announced, IsShut, Moves, Moves-then, Plain-Moves, stay-Moves, deliver_commit-Moves,
}
use iss_com_multipaxos.Paxos.Steps.{from-Same, last_val-Valued}
use iss_com_multipaxos.Paxos.Answers.{value-Moves}

module _ (digest : Batch → ℕ) where
  send_round-Moves :
      (now : ℕ) (b : Batch) (i : Instance)
      → is_committed i.phase ≡ false
      → Moves digest i (send_round now b i)
  unfolding send_round announced
  send_round-Moves now b i open_ = Plain-Moves digest i _ (ground arith)

  -- A new value and its ACCEPT.
  set_and_send-Moves :
      (now : ℕ) (b : Batch) (cut : Option Batch) (i : Instance)
      → is_committed i.phase ≡ false
      → Moves digest i (send_round now b (set_value digest b cut i))
  unfolding set_value
  set_and_send-Moves now b cut i open_ =
      let i' : Instance = set_value digest b cut i in
      Moves-then digest i (i', []) _
        (value-Moves digest b i i' (omega arith) refl refl refl refl refl)
        (send_round-Moves now b i' open_)

  propose_cut-Moves :
      (now : ℕ) (cut : Option Batch) (i : Instance)
      → is_committed i.phase ≡ false
      → Moves digest i (propose_cut digest now cut i)
  unfolding propose_cut announced
  propose_cut-Moves now none i open_ = set_and_send-Moves now [] none i open_
  propose_cut-Moves now (some []) i open_ = set_and_send-Moves now [] none i open_
  propose_cut-Moves now (some (r ∷ rs)) i open_ = elim (Bool-cases (is_homogeneous (r ∷ rs) i)) [
    | inr e ↦ rw (e, propose_cut) (Plain-Moves digest i _ (ground arith))
    | inl e ↦ elim (Bool-cases (any lacks_gsn (r ∷ rs))) [
      | inl f ↦ rw (e, f, propose_cut) (Plain-Moves digest i _ (ground arith))
      | inr f ↦ rw (e, f, propose_cut) (set_and_send-Moves now (r ∷ rs) (some (r ∷ rs)) i open_)
    ]
  ]

  if-Moves :
      (b : Bool) (i : Instance) (p : Result)
      → Moves digest i p
      → Moves digest i (if b then p else (i, []))
  if-Moves true i p m = m
  if-Moves false i p m = stay-Moves digest i

  propose_value-Moves :
      (now : ℕ) (cut o : Option Batch) (i : Instance)
      → is_committed i.phase ≡ false
      → Moves digest i (propose_value digest now cut o i)
  unfolding propose_value
  propose_value-Moves now cut (some b) i open_ = send_round-Moves now b i open_
  propose_value-Moves now cut none i open_ =
      if-Moves i.group_ready i _ (propose_cut-Moves now cut i open_)

  count_promises-Moves :
      (i : Instance) → is_committed i.phase ≡ false → Moves digest i (count_promises i, [])
  unfolding count_promises announced
  count_promises-Moves i open_ = Plain-Moves digest i _ (ground arith)

  count_promises-open :
      (i : Instance) → is_committed i.phase ≡ false → is_committed (count_promises i).phase ≡ false
  unfolding count_promises
  count_promises-open i open_ = ground arith

  pub propose_if_due-Moves :
      (c : Config) (now : ℕ) (cut : Option Batch) (i : Instance)
      → IsShut i
      → Moves digest i (propose_if_due digest c now cut i)
  unfolding propose_if_due
  propose_if_due-Moves c now cut i w = elim (Bool-cases (may_propose c i)) [
    | inr e ↦ rw (e, propose_if_due) (stay-Moves digest i)
    | inl e ↦
        let open_ : is_committed i.phase ≡ false = unfold may_propose in ground arith in
        rw (e, propose_if_due)
          (Moves-then digest i (count_promises i, []) _ (count_promises-Moves i open_)
            (propose_value-Moves now cut (count_promises i).last_val (count_promises i)
              (count_promises-open i open_)))
  ]

  -- The clock.
  give_back-Moves : (o : Option Batch) (j : Instance) → Moves digest j (j, give_back digest o)
  unfolding give_back announced
  give_back-Moves none j = stay-Moves digest j
  give_back-Moves (some b) j =
      Plain-Moves digest j _ (omega arith, refl, λ h. h, refl, refl, refl, λ w. w)

  give_up-Moves : (i : Instance) → is_committed i.phase ≡ false → Moves digest i (give_up digest i)
  unfolding give_up
  give_up-Moves i open_ =
      let i' : Instance = record i {
        last_req_batch = none;
        last_val = some [];
        last_digest = digest [];
      } in
      Moves-then digest i (i, give_back digest i.last_req_batch) (deliver_commit [] i')
        (give_back-Moves i.last_req_batch i)
        (deliver_commit-Moves digest [] i i' open_ (omega arith) refl (λ v. refl)
          (λ v. last_val-Valued digest [] i' refl refl))

  retransmit-Moves :
      (c : Config) (now : ℕ) (o : Option Batch) (i : Instance)
      → Moves digest i (retransmit digest c now o i)
  unfolding retransmit announced
  retransmit-Moves c now none i = stay-Moves digest i
  retransmit-Moves c now (some b) i = Plain-Moves digest i _ (ground arith)

  retransmit-open :
      (c : Config) (now : ℕ) (o : Option Batch) (i : Instance)
      → (retransmit digest c now o i).0.phase ≡ i.phase
  unfolding retransmit
  retransmit-open c now none i = refl
  retransmit-open c now (some b) i = ground arith

  new_round-Moves :
      (c : Config) (now : ℕ) (i : Instance)
      → is_committed i.phase ≡ false
      → Moves digest i (new_round digest c now i)
  unfolding new_round announced
  new_round-Moves c now i open_ = Plain-Moves digest i _ (ground arith)

  keep_trying-Moves :
      (c : Config) (now : ℕ) (i : Instance)
      → is_committed i.phase ≡ false
      → Moves digest i (keep_trying digest c now i)
  unfolding keep_trying
  keep_trying-Moves c now i open_ =
      Moves-then digest i (retransmit digest c now i.last_val i) _
        (retransmit-Moves c now i.last_val i)
        (new_round-Moves c now (retransmit digest c now i.last_val i).0
          (rw (retransmit-open c now i.last_val i) open_))

  tick_stuck-Moves :
      (c : Config) (now : ℕ) (o : Option ℕ) (i : Instance)
      → is_committed i.phase ≡ false
      → Moves digest i (tick_stuck digest c now o i)
  unfolding tick_stuck
  tick_stuck-Moves c now none i open_ =
      from-Same digest i _ _ (refl, refl, refl, refl, refl, refl) (keep_trying-Moves c now _ open_)
  tick_stuck-Moves c now (some since) i open_ =
      elim (Bool-cases (leb (since + c.view_change_timeout) now)) [
        | inl e ↦ rw (e, tick_stuck) (give_up-Moves i open_)
        | inr e ↦ rw (e, tick_stuck) (keep_trying-Moves c now i open_)
      ]

  pub tick-Moves : (c : Config) (now : ℕ) (i : Instance) → Moves digest i (tick digest c now i)
  unfolding tick
  tick-Moves c now i =
      elim (Bool-cases (not (is_accept_sent i.phase) || leb i.quorum i.accept_count)) [
        | inl e ↦ rw (e, tick) (stay-Moves digest i)
        | inr e ↦
            rw (e, tick) (tick_stuck-Moves c now i.stuck_since i (sent_open i.phase (ground arith)))
      ]
    where
      sent_open : (p : Phase) → is_accept_sent p ≡ true → is_committed p ≡ false
      sent_open init h = cc
      sent_open prepared_phase h = cc
      sent_open accept_sent h = refl
      sent_open committed h = cc

  begin_leading-Moves :
      (c : Config) (i : Instance)
      → is_committed i.phase ≡ false
      → Moves digest i (begin_leading c i)
  unfolding begin_leading announced
  begin_leading-Moves c i open_ = Plain-Moves digest i _ (ground arith)

  take_leader-Moves :
      (c : Config) (o : Option ℕ) (i : Instance)
      → is_committed i.phase ≡ false
      → Moves digest i (take_leader c o i)
  unfolding take_leader
  take_leader-Moves c none i open_ = stay-Moves digest i
  take_leader-Moves c (some l) i open_ = elim (Bool-cases (l == c.own && not i.prep_sent)) [
    | inl e ↦
        rw (e, take_leader)
          (from-Same digest i _ _ (refl, refl, refl, refl, refl, refl)
            (begin_leading-Moves c _ open_))
    | inr e ↦
        rw (e, take_leader)
          (from-Same digest i _ _ (refl, refl, refl, refl, refl, refl)
            (stay-Moves digest (record i { leader = some l; current_ballot = l })))
  ]

  if_led-Moves :
      (c : Config) (b : Bool) (i : Instance)
      → is_committed i.phase ≡ false
      → Moves digest i (if b then (i, []) else take_leader c (initial_leader c i) i)
  if_led-Moves c true i open_ = stay-Moves digest i
  if_led-Moves c false i open_ = take_leader-Moves c (initial_leader c i) i open_

  recount-Moves :
      (seen : List ℕ) (n : ℕ) (i : Instance) (p : Result)
      → Moves digest i p
      → Moves digest i (record p.0 { accepted_from = seen; accept_count = n }, p.1)
  recount-Moves seen n i p m = record {
    ballot = m.ballot;
    number = m.number;
    final = m.final;
    valued = m.valued;
    shut = m.shut;
    announces = m.announces;
  }

  pub set_members-Moves :
      (c : Config) (ms : List ℕ) (i : Instance)
      → is_committed i.phase ≡ false
      → Moves digest i (set_members c ms i)
  unfolding set_members
  set_members-Moves c ms i open_ =
      from-Same digest i _ _ (refl, refl, refl, refl, refl, refl)
        (recount-Moves _ _ _ _ (if_led-Moves c (is_some i.leader) _ open_))
