-- ===== src/Sequencer/Numbering.antt =====
-- The GSNs that a node allocates.
use iss_com_multipaxos.Prelude.{
  ℕ, ◌+◌, ◌≤◌, ◌<◌, ◌≡◌, refl, Option, none, some, List, [], ◌∷◌, ◌++◌, arith,
}
use iss_com_multipaxos.Sequencer.State.{Sequencer, Message}
use iss_com_multipaxos.Sequencer.Reserve.{allocate_gsn}
use iss_com_multipaxos.Sequencer.Requests.{assign_gsn, handle_gsn_request, answer_pending}
use iss_com_multipaxos.Sequencer.Dispatch.{
  Node, Input, Outcome, numbers, handle_message, handle, run,
}
use iss_com_multipaxos.Sequencer.Kept.{handle-Grows}

-- A step that allocates takes the next GSN, inside the confirmed reservation.
abbrev pub Numbers : Sequencer → Outcome → Type 0
Numbers s o =
    (g : ℕ) → o.2 ≡ some g → (g ≡ s.next_gsn) × (g ≤ s.confirmed_up_to) × (g < o.0.next_gsn)

allocate_gsn-Numbers : (own now : ℕ) (s : Sequencer) → Numbers s (allocate_gsn own now s)
unfolding allocate_gsn
allocate_gsn-Numbers own now s g h = ground arith

answer_pending_next : (r g : ℕ) (s : Sequencer) → (answer_pending r g s).0.next_gsn ≡ s.next_gsn
unfolding answer_pending
answer_pending_next r g s = ground arith

assign_gsn-Numbers : (own now r q : ℕ) (s : Sequencer) → Numbers s (assign_gsn own now r q s)
unfolding assign_gsn
assign_gsn-Numbers own now r q s g h =
    ground
      (arith, allocate_gsn-Numbers own now s g, answer_pending_next r g (allocate_gsn own now s).0)

handle_gsn_request-Numbers :
    (own now r q : ℕ) (s : Sequencer) → Numbers s (handle_gsn_request own now r q s)
unfolding handle_gsn_request
handle_gsn_request-Numbers own now r q s g h = ground (arith, assign_gsn-Numbers own now r q s g)

handle_message-Numbers :
    (v : Node) (now from : ℕ) (m : Message) (s : Sequencer)
    → Numbers s (handle_message v now from m s)
unfolding handle_message
handle_message-Numbers v now from (Message.gsn_request r q) s g h =
    handle_gsn_request-Numbers v.own now r q s g h
handle_message-Numbers v now from _ s g h = cc

pub handle-Numbers : (v : Node) (now : ℕ) (i : Input) (s : Sequencer) → Numbers s (handle v now i s)
unfolding handle
handle-Numbers v now (Input.deliver from m) s g h = handle_message-Numbers v now from m s g h
handle-Numbers v now Input.own_gsn s g h = allocate_gsn-Numbers v.own now s g h
handle-Numbers v now _ s g h = cc

-- A GSN that a node allocates is its next one and lies inside its confirmed reservation, and its next
-- one is above it then.
pub handle_number :
    (v : Node) (now : ℕ) (i : Input) (s : Sequencer) (g : ℕ)
    → (handle v now i s).2 ≡ some g
    → (g ≡ s.next_gsn) × (g ≤ s.confirmed_up_to) × (g < (handle v now i s).0.next_gsn)
handle_number v now i s g h = handle-Numbers v now i s g h

-- Numbers in ascending order, from `lo` up to below `hi`.
abbrev pub IsAscending : ℕ → ℕ → List ℕ → Type 0
IsAscending lo hi [] = lo ≤ hi
IsAscending lo hi (g ∷ gs) = (lo ≤ g) × IsAscending (g + 1) hi gs

IsAscending-from :
    (lo lo' hi : ℕ) (gs : List ℕ) → lo ≤ lo' → IsAscending lo' hi gs → IsAscending lo hi gs
IsAscending-from lo lo' hi [] le a = omega arith
IsAscending-from lo lo' hi (g ∷ gs) le a = (omega arith, a.1)

numbers-IsAscending :
    (lo lo' hi : ℕ) (o : Option ℕ) (gs : List ℕ)
    → lo ≤ lo'
    → ((g : ℕ) → o ≡ some g → (lo ≤ g) × (g + 1 ≤ lo'))
    → IsAscending lo' hi gs
    → IsAscending lo hi (numbers o ++ gs)
numbers-IsAscending lo lo' hi none gs le h a = IsAscending-from lo lo' hi gs le a
numbers-IsAscending lo lo' hi (some g) gs le h a =
    ((h g refl).0, IsAscending-from (g + 1) lo' hi gs (h g refl).1 a)

-- Over any history, whatever elections it wins and loses, a node allocates GSNs in ascending order,
-- none twice.
pub gsns-IsAscending :
    (v : Node) (is : List (ℕ × Input)) (s : Sequencer)
    → IsAscending s.next_gsn (run v is s).0.next_gsn (run v is s).1
unfolding run
gsns-IsAscending v [] s = omega arith
gsns-IsAscending v ((now, i) ∷ is) s =
    numbers-IsAscending s.next_gsn (handle v now i s).0.next_gsn _ (handle v now i s).2
      (run v is (handle v now i s).0).1 (handle-Grows v now i s).next
      (λ g h. let n = handle-Numbers v now i s g h in (omega arith, omega arith))
      (gsns-IsAscending v is (handle v now i s).0)
