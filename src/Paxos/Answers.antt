-- ===== src/Paxos/Answers.antt =====
-- PREPARE, PROMISE, ACCEPT and ACCEPTED keep what every step keeps.
use iss_com_multipaxos.Prelude.{
  ℕ, ◌≤◌, ◌≡◌, refl, ◌∙◌, true, false, Option, none, some, [], leb, ◌==◌, not, ◌&&◌, ◌||◌, is_some,
  arith, inl, inr, subst, Bool-cases, contains,
}
use iss_com_multipaxos.Paxos.State.{Config, Instance, Batch, is_committed, counts}
use iss_com_multipaxos.Paxos.Prepare.{
  abandon_round, may_promise, make_promise, check_promises, add_promise, own_promise, on_prepare,
  on_promise,
}
use iss_com_multipaxos.Paxos.Accept.{check_accepted, on_accepted, refuses, take_value, on_accept}
use iss_com_multipaxos.Paxos.Moves.{announced, Moves, Moves-then, Plain-Moves, stay-Moves}
use iss_com_multipaxos.Paxos.Steps.{from-Same, last_val-Valued, on_commit-Moves, silent-Moves}

module _ (digest : Batch → ℕ) where
  may_promise_lem :
      (c : Config) (ballot : ℕ) (i j : Instance)
      → j.promised_ballot ≡ i.promised_ballot
      → may_promise c ballot j ≡ true
      → i.promised_ballot ≤ (make_promise c ballot j).promised_ballot
  unfolding may_promise make_promise
  may_promise_lem c ballot i j e h = ground arith

  -- PREPARE and PROMISE, at an instance that has not committed.
  check_promises-Moves :
      (c : Config) (i : Instance)
      → is_committed i.phase ≡ false
      → Moves digest i (check_promises c i)
  unfolding check_promises announced
  check_promises-Moves c i open_ = Plain-Moves digest i _ (ground arith)

  add_promise-Moves :
      (c : Config) (from : ℕ) (i : Instance)
      → is_committed i.phase ≡ false
      → Moves digest i (add_promise c from i)
  unfolding add_promise
  add_promise-Moves c from i open_ =
      from-Same digest i _ _ (refl, refl, refl, refl, refl, refl) (check_promises-Moves c _ open_)

  pub on_promise-Moves :
      (c : Config) (from : ℕ) (i : Instance)
      → is_committed i.phase ≡ false
      → Moves digest i (on_promise c from i)
  unfolding on_promise
  on_promise-Moves c from i open_ = elim (Bool-cases (counts from i.promised_from i)) [
    | inl e ↦ rw (e, on_promise) (add_promise-Moves c from i open_)
    | inr e ↦ rw (e, on_promise) (stay-Moves digest i)
  ]

  own_promise-Moves :
      (c : Config) (lead : ℕ) (i : Instance)
      → is_committed i.phase ≡ false
      → Moves digest i (own_promise c lead i)
  unfolding own_promise
  own_promise-Moves c lead i open_ = elim (Bool-cases (lead == c.own)) [
    | inr e ↦ rw (e, own_promise) (stay-Moves digest i)
    | inl e ↦ elim (Bool-cases (contains c.own i.promised_from)) [
      | inl f ↦
          rw (e, f, own_promise)
            (from-Same digest i _ _ (refl, refl, refl, refl, refl, refl)
              (stay-Moves digest (record i { leader = some c.own })))
      | inr f ↦
          rw (e, f, own_promise)
            (from-Same digest i _ _ (refl, refl, refl, refl, refl, refl)
              (add_promise-Moves c c.own (record i { leader = some c.own }) open_))
    ]
  ]

  abandoned : Config → ℕ → ℕ → Instance → Instance
  abandoned c ballot group i =
      abandon_round c ballot (record i { bucket_id = group; group_ready = true })

  -- The round that is abandoned was not committed, and neither is what is left.
  abandoned_lem :
      (c : Config) (ballot group : ℕ) (i : Instance)
      → is_committed i.phase ≡ false
      → (is_committed (abandoned c ballot group i).phase ≡ false)
        × ((abandoned c ballot group i).promised_ballot ≡ i.promised_ballot)
        × ((abandoned c ballot group i).sn ≡ i.sn)
        × ((abandoned c ballot group i).last_val ≡ i.last_val)
        × ((abandoned c ballot group i).last_digest ≡ i.last_digest)
  unfolding abandoned abandon_round
  abandoned_lem c ballot group i open_ = ground arith

  pub on_prepare-Moves :
      (c : Config) (lead ballot group : ℕ) (i : Instance)
      → Moves digest i (on_prepare c lead ballot group i)
  unfolding on_prepare abandoned announced make_promise
  on_prepare-Moves c lead ballot group i = elim (Bool-cases (is_committed i.phase)) [
    | inl e ↦ rw (e, on_prepare) (stay-Moves digest i)
    | inr e ↦
        let j : Instance = abandoned c ballot group i in
        let (op, b, n, v, d) = abandoned_lem c ballot group i e in
        elim (Bool-cases (may_promise c ballot j)) [
          | inr f ↦
              rw (e, f, on_prepare)
                (Plain-Moves digest i (j, [])
                  (omega arith, n, λ h. absurd (cc), v, d, refl, λ w h. absurd (cc)))
          | inl f ↦
              let k : Instance = make_promise c ballot j in
              rw (e, f, on_prepare)
                (silent-Moves digest _ i _ (
                  Moves-then digest i (k, []) _
                    (Plain-Moves digest i (k, [])
                      (
                        may_promise_lem c ballot i j b f,
                        n,
                        λ h. absurd (cc),
                        v,
                        d,
                        refl,
                        λ w h. absurd (cc),
                      ))
                    (own_promise-Moves c lead k op)))
        ]
  ]

  -- ACCEPT and ACCEPTED.
  check_accepted-Moves : (i : Instance) → Moves digest i (check_accepted i)
  unfolding check_accepted
  check_accepted-Moves i =
      elim (Bool-cases
        (leb i.quorum i.accept_count && (is_some i.last_val && not (is_committed i.phase)))) [
          | inl e ↦
              rw (e, check_accepted)
                (silent-Moves digest _ i _ (on_commit-Moves digest (some i.last_digest) i))
          | inr e ↦ rw (e, check_accepted) (stay-Moves digest i)
        ]

  pub on_accepted-Moves : (from : ℕ) (i : Instance) → Moves digest i (on_accepted from i)
  unfolding on_accepted
  on_accepted-Moves from i = elim (Bool-cases (counts from i.accepted_from i)) [
    | inl e ↦
        rw (e, on_accepted)
          (from-Same digest i _ _ (refl, refl, refl, refl, refl, refl) (check_accepted-Moves _))
    | inr e ↦ rw (e, on_accepted) (stay-Moves digest i)
  ]

  -- A new value, with its digest.
  pub value-Moves :
      (b : Batch) (i i' : Instance)
      → i.promised_ballot ≤ i'.promised_ballot
      → i'.sn ≡ i.sn
      → i'.phase ≡ i.phase
      → i'.last_digest ≡ digest b
      → i'.last_val ≡ some b
      → i'.closed ≡ i.closed
      → Moves digest i (i', [])
  unfolding announced
  value-Moves b i i' le n ph d e cl = record {
    ballot = le;
    number = n;
    final = λ h. rw ph h;
    valued = λ v. last_val-Valued digest b i' d e;
    shut = λ w h. cl ∙ w (subst (λ q. is_committed q ≡ true) ph h);
    announces = λ v. inl refl;
  }

  take_value-Moves :
      (c : Config) (from ballot : ℕ) (b : Batch) (i : Instance)
      → Moves digest i (take_value digest c from ballot b i)
  unfolding take_value
  take_value-Moves c from ballot b i =
      let i' : Instance = record i { last_val = some b; last_digest = digest b } in
      let first = value-Moves b i i' (omega arith) refl refl refl refl refl in
      elim (Bool-cases (from == c.own)) [
        | inl e ↦
            rw (e, take_value) (Moves-then digest i (i', []) _ first (on_accepted-Moves c.own i'))
        | inr e ↦ rw (e, take_value) (silent-Moves digest _ i _ first)
      ]

  promised_lem :
      (c : Config) (from ballot : ℕ) (i : Instance)
      → (is_committed i.phase || refuses c from ballot i) ≡ false
      → i.promised_ballot ≤ ballot
  unfolding refuses
  promised_lem c from ballot i e = ground arith

  pub on_accept-Moves :
      (c : Config) (from ballot : ℕ) (o : Option Batch) (i : Instance)
      → Moves digest i (on_accept digest c from ballot o i)
  unfolding on_accept announced
  on_accept-Moves c from ballot none i =
      elim (Bool-cases (is_committed i.phase || refuses c from ballot i)) [
        | inl e ↦ rw (e, on_accept) (stay-Moves digest i)
        | inr e ↦
            rw (e, on_accept)
              (Plain-Moves digest i _
                (promised_lem c from ballot i e, refl, λ h. h, refl, refl, refl, λ w. w))
      ]
  on_accept-Moves c from ballot (some b) i =
      elim (Bool-cases (is_committed i.phase || refuses c from ballot i)) [
        | inl e ↦ rw (e, on_accept) (stay-Moves digest i)
        | inr e ↦
            let i' : Instance = record i { promised_ballot = ballot; leader = some from } in
            rw (e, on_accept)
              (Moves-then digest i (i', []) _
                (Plain-Moves digest i (i', [])
                  (promised_lem c from ballot i e, refl, λ h. h, refl, refl, refl, λ w. w))
                (take_value-Moves c from ballot b i'))
      ]
