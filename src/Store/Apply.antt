-- ===== src/Store/Apply.antt =====
-- `applyEntryInOrder` of mirbft/orderer/statemachine.go over a history of calls for one group.
use iss_com_multipaxos.Prelude.{
  ℕ, suc, ◌≤◌, ◌<◌, ◌≡◌, refl, subst, Bool, true, false, Option, none, some, inl, inr, List, [],
  ◌∷◌, ◌++◌, length, leb, ◌==◌, lookup, insert, lookup-insert, arith, Bool-cases, ==_iff,
}
use iss_com_multipaxos.Request.{ClientRequest}
use iss_com_multipaxos.Groups.{group_sn}
use iss_com_multipaxos.Store.{
  Replica, Multicast, Effect, new_replica, last_applied_of, apply_entry_in_order, hand_on,
}

-- A call for a group: the sequence number, the decided batch, and whether this node leads it.
abbrev pub Call : Type 0
Call = ℕ × Option (List ClientRequest) × Bool

-- The effects of the calls, with a deliverer for the group.
unfoldable pub run : ℕ → List Call → Replica → Replica × List Effect
unfolding apply_entry_in_order
run group_id [] r = (r, [])
run group_id ((sn, batch, leader) ∷ calls) r =
    let (r', out) = apply_entry_in_order Multicast.group_deliverer leader group_id sn batch r in
    let (r'', rest) = run group_id calls r' in (r'', out ++ rest)

-- The effects push batches of requests, with sequence numbers in ascending order above `lo`.
abbrev pub PushesAbove : ℕ → List Effect → Type 0
PushesAbove lo [] = Unit
PushesAbove lo (Effect.push sn reqs leader ∷ es) = (lo < sn) × (0 < length reqs) × PushesAbove sn es
PushesAbove lo (Effect.on_commit req ∷ es) = ⊥
PushesAbove lo (Effect.notify_proxy reqs sn results ∷ es) = ⊥

PushesAbove-from : (lo hi : ℕ) (es : List Effect) → lo ≤ hi → PushesAbove hi es → PushesAbove lo es
PushesAbove-from lo hi [] h a = tt
PushesAbove-from lo hi (Effect.push sn reqs leader ∷ es) h a = (omega (arith, a.0), a.1, a.2)
PushesAbove-from lo hi (Effect.on_commit req ∷ es) h a = a
PushesAbove-from lo hi (Effect.notify_proxy reqs sn results ∷ es) h a = a

abbrev marked : ℕ → ℕ → Replica → Replica
marked g sn r = record r { last_applied = insert g sn r.last_applied }

last_applied_of-marked : (g sn : ℕ) (r : Replica) → last_applied_of g (marked g sn r) ≡ sn
unfolding last_applied_of
last_applied_of-marked g sn r = rw (lookup-insert g g sn r.last_applied, (==_iff g g).1 refl) refl

-- What the calls push after a batch is applied that is at `sn`.
after-marked :
    (g sn : ℕ) (es : List Effect) (r : Replica)
    → PushesAbove (last_applied_of g (marked g sn r)) es
    → PushesAbove sn es
after-marked g sn es r a = subst (λ k. PushesAbove k es) (last_applied_of-marked g sn r) a

-- The effects go before others that push above `sn`.
abbrev Leads : ℕ → ℕ → List Effect → Type 0
Leads lo sn out = (es : List Effect) → PushesAbove sn es → PushesAbove lo (out ++ es)

apply_entry_in_order-new :
    (leader : Bool) (g sn : ℕ) (b : Option (List ClientRequest)) (r : Replica)
    → leb sn (last_applied_of g r) ≡ false
    → (out : List Effect) × (apply_entry_in_order Multicast.group_deliverer leader g sn b r
        ≡ (marked g sn r, out))
      × Leads (last_applied_of g r) sn out
unfolding apply_entry_in_order hand_on
apply_entry_in_order-new leader g sn none r h =
    ([], rw h refl, λ es a. PushesAbove-from (last_applied_of g r) sn es (ground arith) a)
apply_entry_in_order-new leader g sn (some []) r h =
    ([], rw h refl, λ es a. PushesAbove-from (last_applied_of g r) sn es (ground arith) a)
apply_entry_in_order-new leader g sn (some (x ∷ xs)) r h =
    let filled : suc (length xs) == 0 ≡ false = ground arith in
    (
      Effect.push sn (x ∷ xs) leader ∷ [],
      rw (h, filled) refl,
      λ es a. (ground arith, omega arith, a),
    )

apply_entry_in_order-old :
    (leader : Bool) (g sn : ℕ) (b : Option (List ClientRequest)) (r : Replica)
    → leb sn (last_applied_of g r) ≡ true
    → apply_entry_in_order Multicast.group_deliverer leader g sn b r ≡ (r, [])
unfolding apply_entry_in_order
apply_entry_in_order-old leader g sn b r h = rw h refl

-- With a deliverer for its group, a replica hands the decided batches that are not empty to it in
-- ascending order of sequence number, none twice, and none with a number that is not above the last
-- one applied, whatever the calls.
pub run-PushesAbove :
    (g : ℕ) (calls : List Call) (r : Replica) → PushesAbove (last_applied_of g r) (run g calls r).1
unfolding run
run-PushesAbove g [] r = tt
run-PushesAbove g ((sn, b, leader) ∷ calls) r = elim (Bool-cases (leb sn (last_applied_of g r))) [
  | inl h ↦ rw (apply_entry_in_order-old leader g sn b r h) (run-PushesAbove g calls r)
  | inr h ↦
      let (out, e, leads) = apply_entry_in_order-new leader g sn b r h in
      rw e (
        leads (run g calls (marked g sn r)).1 (
          after-marked g sn (run g calls (marked g sn r)).1 r
            (run-PushesAbove g calls (marked g sn r))))
]

-- The first sequence number of the data group at index 0 is 0 when the numbers start at 0, and whatever
-- batch is decided there, a new replica of the group goes on as if there had been none.
pub run-first_lost :
    (g n : ℕ) (batch : Option (List ClientRequest)) (leader : Bool) (calls : List Call)
    → run g ((group_sn 0 0 n 0, batch, leader) ∷ calls) new_replica ≡ run g calls new_replica
unfolding run group_sn last_applied_of new_replica lookup
run-first_lost g n batch leader calls =
    rw (apply_entry_in_order-old leader g (group_sn 0 0 n 0) batch new_replica (ground arith)) refl
