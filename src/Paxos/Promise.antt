-- ===== src/Paxos/Promise.antt =====
-- Ballots: they are owned, they grow, and a promise binds.
use iss_com_multipaxos.Prelude.{ℕ, ◌+◌, ◌%◌, ◌^◌, ◌<◌, ◌≡◌, ◌≢◌, true, sym, ◌∙◌, ap, arith}
use iss_com_multipaxos.Paxos.State.{next_ballot_after, lt_int64}

next_ballot_after_id :
    (own seen : ℕ)
    → own < 2 ^ 32
    → seen + 2 ^ 32 < 2 ^ 64
    → next_ballot_after own seen % 2 ^ 32 ≡ own
unfolding next_ballot_after
next_ballot_after_id own seen h k = omega arith

-- While an id has 32 bits and the round counter fits the 31 bits that an int64 leaves it, a node's next
-- ballot is above the one seen, as an int64 too, is not negative, and carries the node's id.
pub next_ballot_after_lem :
    (own seen : ℕ)
    → own < 2 ^ 32
    → seen + 2 ^ 32 < 2 ^ 63
    → (seen < next_ballot_after own seen)
      × (lt_int64 seen (next_ballot_after own seen) ≡ true)
      × (next_ballot_after own seen < 2 ^ 63)
      × (next_ballot_after own seen % 2 ^ 32 ≡ own)
unfolding next_ballot_after lt_int64
next_ballot_after_lem own seen h k = (omega arith, ground arith, omega arith, omega arith)

-- While ids have 32 bits and the round counters fit 32 bits, two nodes with different ids never
-- make the same ballot.
pub next_ballot_after-ne :
    (a b seen seen' : ℕ)
    → a < 2 ^ 32
    → b < 2 ^ 32
    → seen + 2 ^ 32 < 2 ^ 64
    → seen' + 2 ^ 32 < 2 ^ 64
    → a ≢ b
    → next_ballot_after a seen ≢ next_ballot_after b seen'
next_ballot_after-ne a b seen seen' ha hb hs hs' ne e = ne (
    sym (next_ballot_after_id a seen ha hs)
    ∙ ap (λ x. x % 2 ^ 32) e
    ∙ next_ballot_after_id b seen' hb hs')
