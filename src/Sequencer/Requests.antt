-- ===== src/Sequencer/Requests.antt =====
-- Requests for a GSN and their answers (mirbft/orderer/sequencer.go).
use iss_com_multipaxos.Prelude.{
  ℕ, ◌+◌, ◌%◌, ◌^◌, ◌||◌, not, Option, none, some, List, [], ◌∷◌, ◌++◌, ◌==◌, if◌then◌else◌, lookup,
  insert, erase,
}
use iss_com_multipaxos.Sequencer.State.{
  Sequencer, Message, Action, send, is_leader, make_global_request_id,
}
use iss_com_multipaxos.Sequencer.Reserve.{allocate_gsn}

-- The channel of a pending request takes one GSN, and the request is no longer pending.
unfoldable pub answer_pending : ℕ → ℕ → Sequencer → Sequencer × Option ℕ
answer_pending req_id gsn s = elim (lookup req_id s.requests_pending) [
  | none ↦ (s, none)
  | some slot ↦ (
    record s { requests_pending = erase req_id s.requests_pending },
    elim slot [ none ↦ some gsn | some held ↦ some held ],
  )
]

unfoldable pub handle_gsn_response : ℕ → ℕ → Sequencer → Sequencer × Option ℕ
handle_gsn_response req_id gsn s = answer_pending req_id gsn s

-- The decision is sent to the members that are neither this node nor the requester.
unfoldable pub replicate_decision : ℕ → ℕ → ℕ → ℕ → List ℕ → List Action
replicate_decision own requester req_id gsn [] = []
replicate_decision own requester req_id gsn (n ∷ ns) =
    let rest = replicate_decision own requester req_id gsn ns in
    if n == own || n == requester then rest else send n (Message.gsn_response req_id gsn) ∷ rest

-- The leader numbers the request; another node passes it on to the leader that it knows.
unfoldable pub assign_gsn : ℕ → ℕ → ℕ → ℕ → Sequencer → Sequencer × List Action × Option ℕ
assign_gsn own now req_id requester s =
    let (s', asked, number) = allocate_gsn own now s in
    elim number [
      | none ↦ (s', asked, none)
      | some gsn ↦
          let copies = replicate_decision own requester req_id gsn s'.members in
          if requester == own
          then ((answer_pending req_id gsn s').0, asked ++ copies, some gsn)
          else (s', asked ++ send requester (Message.gsn_response req_id gsn) ∷ copies, some gsn)
    ]

unfoldable pub forward_request : ℕ → ℕ → Sequencer → List Action
forward_request req_id requester s = elim s.leader [
  | none ↦ []
  | some target ↦ send target (Message.gsn_request req_id requester) ∷ []
]

unfoldable pub handle_gsn_request : ℕ → ℕ → ℕ → ℕ → Sequencer → Sequencer × List Action × Option ℕ
handle_gsn_request own now req_id requester s =
    if not (is_leader own s)
    then (s, forward_request req_id requester s, none)
    else assign_gsn own now req_id requester s

-- `GetNextGSN` up to its first wait: the leader numbers, another node registers a request.
unfoldable pub begin_request : ℕ → Sequencer → Sequencer × ℕ
unfolding make_global_request_id
begin_request own s =
    let counter = (s.req_counter + 1) % 2 ^ 32 in
    let req_id = make_global_request_id own counter in
    (
      record s { req_counter = counter; requests_pending = insert req_id none s.requests_pending },
      req_id,
    )
