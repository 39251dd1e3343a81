-- ===== src/Store.antt =====
-- The key-value state machine of a data group, mirbft/orderer/statemachine.go. An int64 is its bit
-- pattern, a number below 2 ^ 64; a key is the text of its code points, a value a list of bytes.
pub mod Texts
pub mod Transfer
pub mod Apply
use iss_com_multipaxos.Prelude.{
  ℕ, zero, suc, ◌+◌, ◌-◌, ◌*◌, ◌/◌, ◌%◌, ◌^◌, Bool, true, false, not, ◌&&◌, ◌||◌, Option, none,
  some, List, [], ◌∷◌, ◌++◌, ltb, leb, ◌==◌, if◌then◌else◌, is_some, or_else, length, Map, lookup,
  insert,
}
use iss_com_multipaxos.Request.{ClientRequest}
use iss_com_multipaxos.Commands.{DecodedCommand, decode_api_command}
use iss_com_multipaxos.Commands.Decimals.{ℤ}
use iss_com_multipaxos.Store.Texts.{TextMap, lookup_text, insert_text, erase_text}

-- `data` of GroupState
abbrev pub GroupState : Type 0
GroupState = TextMap (List ℕ)

-- `uint64(v)` of an int64
unfoldable pub pattern : ℤ → ℕ
pattern (ℤ.pos n) = n % 2 ^ 64
pattern (ℤ.negsuc n) = 2 ^ 64 - 1 - n % 2 ^ 64

-- Eight bytes, the highest first; any other length is 0.
unfoldable pub decode_int64 : List ℕ → ℕ
decode_int64 (a ∷ b ∷ c ∷ d ∷ e ∷ f ∷ g ∷ h ∷ []) =
    ((((((a * 256 + b) * 256 + c) * 256 + d) * 256 + e) * 256 + f) * 256 + g) * 256 + h
decode_int64 _ = 0

unfoldable pub encode_int64 : ℕ → List ℕ
encode_int64 v =
    (v / 2 ^ 56 % 256)
    ∷ (v / 2 ^ 48 % 256)
    ∷ (v / 2 ^ 40 % 256)
    ∷ (v / 2 ^ 32 % 256)
    ∷ (v / 2 ^ 24 % 256)
    ∷ (v / 2 ^ 16 % 256)
    ∷ (v / 2 ^ 8 % 256)
    ∷ (v % 256)
    ∷ []

-- Each operation returns the new state and what the source returns.
unfoldable pub put : List ℕ → List ℕ → GroupState → GroupState × List ℕ
unfolding insert_text
put key value gs = (insert_text key value gs, value)

unfoldable pub get : List ℕ → GroupState → Option (List ℕ)
unfolding lookup_text
get key gs = lookup_text key gs

unfoldable pub delete : List ℕ → GroupState → GroupState × Bool
unfolding lookup_text erase_text
delete key gs = (erase_text key gs, is_some (lookup_text key gs))

-- A missing key holds `nil`, which is read as 0; the sum wraps.
unfoldable pub add_balance : List ℕ → ℕ → GroupState → GroupState × List ℕ
unfolding lookup_text insert_text decode_int64 encode_int64
add_balance key delta gs =
    let next = (decode_int64 (or_else (lookup_text key gs) []) + delta) % 2 ^ 64 in
    (insert_text key (encode_int64 next) gs, encode_int64 next)

unfoldable pub req_key : ℕ → ℕ → ℕ
req_key client_id client_sn = client_id * 2 ^ 32 + client_sn % 2 ^ 32

pub record ClientResponse : Type 0 where
  pub order_sn : ℕ
  pub client_sn : ℕ
  pub value : List ℕ
  pub found : Bool

-- The state, the value and `found`; `none` skips the request.
unfoldable pub apply_command : ℕ → DecodedCommand → GroupState → Option (GroupState × List ℕ × Bool)
unfolding put get delete add_balance pattern
apply_command group_id (DecodedCommand.put key value) gs =
    let (gs', v) = put key value gs in some (gs', v, true)
apply_command group_id (DecodedCommand.get key) gs =
    some (gs, or_else (get key gs) [], is_some (get key gs))
apply_command group_id (DecodedCommand.delete key) gs =
    let (gs', existed) = delete key gs in some (gs', [], existed)
apply_command group_id (DecodedCommand.transfer from_group key to_group to_key amount) gs =
    if group_id == from_group
    then (let (gs', v) = add_balance key ((2 ^ 64 - pattern amount) % 2 ^ 64) gs in
        some (gs', v, true))
    else if group_id == to_group
    then (let (gs', v) = add_balance to_key (pattern amount) gs in some (gs', v, true))
    else none

-- One round of the loop of `ApplyBatch`, on the state and the results so far.
unfoldable pub apply_request :
    ℕ → ℕ → ClientRequest → GroupState × Map ClientResponse → GroupState × Map ClientResponse
unfolding decode_api_command apply_command insert req_key
apply_request group_id sn req (gs, results) = elim (decode_api_command req.payload) [
  | none ↦ (gs, results)
  | some cmd ↦ elim (apply_command group_id cmd gs) [
    | none ↦ (gs, results)
    | some (gs', value, found) ↦ (
      gs',
      insert (req_key req.client_id req.client_sn)
          (record { order_sn = sn; client_sn = req.client_sn; value = value; found = found })
          results,
    )
  ]
]

unfoldable pub apply_requests :
    ℕ → ℕ → List ClientRequest → GroupState × Map ClientResponse → GroupState × Map ClientResponse
unfolding apply_request
apply_requests group_id sn [] st = st
apply_requests group_id sn (req ∷ reqs) st =
    apply_requests group_id sn reqs (apply_request group_id sn req st)

-- `groupStates` and `lastApplied` of a replica.
pub record Replica : Type 0 where
  pub group_states : Map GroupState
  pub last_applied : Map ℕ

unfoldable pub new_replica : Replica
new_replica = record { group_states = []; last_applied = [] }

unfoldable pub get_group_state : ℕ → Replica → GroupState
unfolding lookup
get_group_state group_id r = or_else (lookup group_id r.group_states) []

-- The replica and the results by request.
unfoldable pub apply_batch :
    ℕ → ℕ → Option (List ClientRequest) → Replica → Replica × Map ClientResponse
unfolding get_group_state apply_requests insert
apply_batch group_id sn none r = (r, [])
apply_batch group_id sn (some reqs) r =
    let (gs, results) = apply_requests group_id sn reqs (get_group_state group_id r, []) in
    (record r { group_states = insert group_id gs r.group_states }, results)

-- What `applyEntryInOrder` hands on: a batch for the deliverer of the group, with whether this node
-- leads the instance; a request for the global deliverer; or results for the proxies.
pub data Effect : Type 0 where
  push : ℕ → List ClientRequest → Bool → Effect
  on_commit : ClientRequest → Effect
  notify_proxy : List ClientRequest → ℕ → Map ClientResponse → Effect

unfoldable pub commits : List ClientRequest → List Effect
commits [] = []
commits (req ∷ reqs) =
    let rest = commits reqs in if ltb 0 req.gsn then Effect.on_commit req ∷ rest else rest

-- The multicast orderer of the node: whether there is one, whether it has a deliverer for the group
-- and a global one.
pub data Multicast : Type 0 where
  absent : Multicast
  group_deliverer : Multicast
  global_deliverer : Multicast
  no_deliverer : Multicast

unfoldable pub hand_on :
    Multicast → Bool → ℕ → ℕ → List ClientRequest → Replica → Replica × List Effect
unfolding apply_batch commits
hand_on Multicast.group_deliverer leader group_id sn reqs r = (r, Effect.push sn reqs leader ∷ [])
hand_on Multicast.absent leader group_id sn reqs r = ((apply_batch group_id sn (some reqs) r).0, [])
hand_on Multicast.global_deliverer leader group_id sn reqs r =
    let (r', results) = apply_batch group_id sn (some reqs) r in
    (
      r',
      commits reqs
          ++ (if ltb 0 (length results) then Effect.notify_proxy reqs sn results ∷ [] else []),
    )
hand_on Multicast.no_deliverer leader group_id sn reqs r =
    let (r', results) = apply_batch group_id sn (some reqs) r in
    (r', if ltb 0 (length results) then Effect.notify_proxy reqs sn results ∷ [] else [])

-- `lastApplied[groupID]`, 0 for a group that is not there.
unfoldable pub last_applied_of : ℕ → Replica → ℕ
unfolding lookup
last_applied_of group_id r = or_else (lookup group_id r.last_applied) 0

unfoldable pub apply_entry_in_order :
    Multicast → Bool → ℕ → ℕ → Option (List ClientRequest) → Replica → Replica × List Effect
unfolding hand_on last_applied_of insert
apply_entry_in_order mo leader group_id sn batch r =
    if leb sn (last_applied_of group_id r)
    then (r, [])
    else (let r' = record r { last_applied = insert group_id sn r.last_applied } in
        elim batch [
          | none ↦ (r', [])
          | some reqs ↦ if length reqs == 0 then (r', []) else hand_on mo leader group_id sn reqs r'
        ])
