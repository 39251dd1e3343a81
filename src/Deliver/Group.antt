-- ===== src/Deliver/Group.antt =====
-- groupDeliverer of mirbft/orderer/globaldeliver.go: a replica delivers the log of one data group
-- respecting the GSN order of the cross-group operations. `deliveredReq` has the fields of `logItem`
-- and is the same record here; the channel `out` and its goroutine only join what is sent in order.
pub mod Inv
pub mod Enter
pub mod Cursor
pub mod Rounds
pub mod Order
pub mod Fuel
use iss_com_multipaxos.Prelude.{
  ℕ, zero, suc, ◌+◌, ◌-◌, ◌*◌, Bool, true, false, not, ◌&&◌, ◌||◌, Option, none, some, List, [],
  ◌∷◌, ◌++◌, ltb, leb, ◌==◌, if◌then◌else◌, is_some, or_else, length, contains, add_member,
  remove_member, get_elem?, drop, Map, lookup, insert, erase,
}
use iss_com_multipaxos.Request.{ClientRequest}
use iss_com_multipaxos.Deliver.Prefix.{scan_prefix}

pub record LogItem : Type 0 where
  pub sn : ℕ
  pub leader : Bool
  pub req : ClientRequest

unfoldable pub is_cross_op : ClientRequest → Bool
is_cross_op r = ltb 0 r.gsn && ltb 1 (length r.touched_groups)

pub record GroupDeliverer : Type 0 where
  pub gid : ℕ
  pub log : List LogItem
  pub head : ℕ
  pub cross_in_log : Map LogItem
  pub early : List ℕ
  pub known : Map (List ℕ)  -- `meta`: GSN to groups
  pub meta_prefix : ℕ
  pub cursor : ℕ

unfoldable pub new_group_deliverer : ℕ → GroupDeliverer
new_group_deliverer gid = record {
  gid = gid;
  log = [];
  head = 0;
  cross_in_log = [];
  early = [];
  known = [];
  meta_prefix = 0;
  cursor = 0;
}

unfoldable pub touches : ℕ → List ℕ → Bool
unfolding contains
touches gid groups = contains gid groups

-- One request of a batch: the body of the loop of `Push`.
unfoldable pub enter_request : ℕ → Bool → ClientRequest → GroupDeliverer → GroupDeliverer
enter_request sn leader r d =
    let it : LogItem = record { sn = sn; leader = leader; req = r } in
    if not (is_cross_op r)
    then record d { log = d.log ++ it ∷ [] }
    else if leb r.gsn d.cursor || contains r.gsn d.early
    then d
    else if is_some (lookup r.gsn d.cross_in_log)
    then d
    else record d { log = d.log ++ it ∷ []; cross_in_log = insert r.gsn it d.cross_in_log }

unfoldable pub enter_batch : ℕ → Bool → List ClientRequest → GroupDeliverer → GroupDeliverer
enter_batch sn leader [] d = d
enter_batch sn leader (r ∷ rs) d = enter_batch sn leader rs (enter_request sn leader r d)

-- The loop of `advanceCursor`, over the GSNs between `cursor` and `metaPrefix`.
unfoldable pub advance_loop : ℕ → GroupDeliverer → GroupDeliverer × ℕ
advance_loop zero d = (d, 0)
advance_loop (suc fuel) d =
    let next = d.cursor + 1 in
    let groups = or_else (lookup next d.known) [] in
    let rest = advance_loop fuel (record d { known = erase next d.known; cursor = next }) in
    if not (ltb d.cursor d.meta_prefix)
    then (d, 0)
    else if ltb (length groups) 2 || not (touches d.gid groups) || contains next d.early
    then rest
    else (d, next)

unfoldable pub advance_cursor : GroupDeliverer → GroupDeliverer × ℕ
advance_cursor d = advance_loop (d.meta_prefix - d.cursor) d

unfoldable pub mark_delivered : ℕ → GroupDeliverer → GroupDeliverer
mark_delivered gsn d = record d {
  cross_in_log = erase gsn d.cross_in_log;
  known = erase gsn d.known;
  cursor = if gsn == d.cursor + 1 then gsn else d.cursor;
}

-- A round of the loop of `drainLocked`: it breaks out, or goes on with what it appended to `out`.
pub data Round : Type 0 where
  leave : GroupDeliverer → Round
  go_on : GroupDeliverer → List LogItem → Round

-- The head is the cross-operation `it`, and `advanceCursor` has returned `next`.
unfoldable pub drain_cross : LogItem → ℕ → GroupDeliverer → Round
drain_cross it next d =
    let c = it.req.gsn in
    if next == 0
    then leave d
    else if next == c
    then go_on (record (mark_delivered c d) { head = d.head + 1 }) (it ∷ [])
    else if ltb c next
    then go_on (record d { cross_in_log = erase c d.cross_in_log; head = d.head + 1 }) (it ∷ [])
    else elim (lookup next d.cross_in_log) [
      | none ↦ leave d
      | some ahead ↦
          go_on (mark_delivered next (record d { early = add_member next d.early })) (ahead ∷ [])
    ]

unfoldable pub drain_item : LogItem → GroupDeliverer → Round
drain_item it d =
    if not (is_cross_op it.req)
    then go_on (record d { head = d.head + 1 }) (it ∷ [])
    else if contains it.req.gsn d.early
    then go_on (record d { early = remove_member it.req.gsn d.early; head = d.head + 1 }) []
    else let (d', next) = advance_cursor d in drain_cross it next d'

unfoldable pub drain_round : GroupDeliverer → Round
drain_round d = elim (get_elem? d.log d.head) [ none ↦ leave d | some it ↦ drain_item it d ]

-- Each round that goes on passes a log entry or takes one out of `crossInLog`.
unfoldable pub drain_loop : ℕ → GroupDeliverer → GroupDeliverer × List LogItem
drain_loop zero d = (d, [])
drain_loop (suc fuel) d = elim (drain_round d) [
  | leave d' ↦ (d', [])
  | go_on d' out ↦ let (d'', rest) = drain_loop fuel d' in (d'', out ++ rest)
]

-- The part of the log that is delivered is cut off once it is long.
unfoldable pub compact : GroupDeliverer → GroupDeliverer
compact d =
    if ltb 4096 d.head && ltb (length d.log) (d.head * 2)
    then record d { log = drop d.head d.log; head = 0 }
    else d

unfoldable pub drain_fuel : GroupDeliverer → ℕ
drain_fuel d = length d.log - d.head + length d.cross_in_log + 1

unfoldable pub drain : GroupDeliverer → GroupDeliverer × List LogItem
drain d = let (d', out) = drain_loop (drain_fuel d) d in (compact d', out)

unfoldable pub push : ℕ → List ClientRequest → Bool → GroupDeliverer → GroupDeliverer × List LogItem
push sn [] leader d = (d, [])
push sn (r ∷ rs) leader d = drain (enter_batch sn leader (r ∷ rs) d)

unfoldable pub advance_prefix : GroupDeliverer → GroupDeliverer
advance_prefix d = record d { meta_prefix = scan_prefix (length d.known) d.known d.meta_prefix }

unfoldable pub is_new : ℕ → GroupDeliverer → Bool
is_new gsn d = not (is_some (lookup gsn d.known)) && ltb d.cursor gsn

unfoldable pub note_meta : ℕ → List ℕ → GroupDeliverer → GroupDeliverer
unfolding is_new
note_meta gsn groups d = if is_new gsn d then record d { known = insert gsn groups d.known } else d

unfoldable pub note_skips : ℕ → ℕ → GroupDeliverer → GroupDeliverer
note_skips zero from d = d
note_skips (suc rounds) from d = note_skips rounds (from + 1) (note_meta from [] d)

unfoldable pub on_meta : ℕ → List ℕ → GroupDeliverer → GroupDeliverer × List LogItem
on_meta gsn groups d =
    if gsn == 0
    then (d, [])
    else drain (if is_new gsn d then advance_prefix (note_meta gsn groups d) else d)

unfoldable pub on_skip : ℕ → ℕ → GroupDeliverer → GroupDeliverer × List LogItem
on_skip from to d =
    if from == 0 || ltb to from
    then (d, [])
    else drain (advance_prefix (note_skips (to + 1 - from) from d))

-- What reaches the deliverer: batches of the log in order of SN, META and skipped ranges.
pub data Event : Type 0 where
  batch : ℕ → List ClientRequest → Bool → Event
  meta : ℕ → List ℕ → Event
  skip : ℕ → ℕ → Event

unfoldable pub step : Event → GroupDeliverer → GroupDeliverer × List LogItem
step (Event.batch sn rs leader) d = push sn rs leader d
step (Event.meta gsn groups) d = on_meta gsn groups d
step (Event.skip from to) d = on_skip from to d

unfoldable pub run : List Event → GroupDeliverer → GroupDeliverer × List LogItem
run [] d = (d, [])
run (e ∷ es) d = let (d', out) = step e d in let (d'', rest) = run es d' in (d'', out ++ rest)
