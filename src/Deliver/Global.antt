-- ===== src/Deliver/Global.antt =====
-- GlobalDeliverer of mirbft/orderer/globaldeliver.go: one per node, it joins the requests decided
-- in the node's groups into one sequence by GSN. A method returns the new state and the deliveries
-- that it hands to `onDeliver`, in order; `isMine` is a parameter of the section.
pub mod Inv
pub mod Order
pub mod Agreement
pub mod Ascending
pub mod Progress
pub mod Arrival
pub mod Liveness
use iss_com_multipaxos.Prelude.{
  ℕ, zero, suc, ◌+◌, ◌-◌, Bool, true, false, not, ◌&&◌, ◌||◌, Option, none, some, List, [], ◌∷◌,
  ◌++◌, ltb, ◌==◌, if◌then◌else◌, is_some, or_else, length, any, Map, lookup, insert, erase,
}
use iss_com_multipaxos.Request.{ClientRequest}
use iss_com_multipaxos.Deliver.Prefix.{scan_prefix}

pub record GlobalDelivery : Type 0 where
  pub gsn : ℕ
  pub groups : List ℕ
  pub req : ClientRequest

pub record GlobalDeliverer : Type 0 where
  pub known : Map (List ℕ)  -- `meta`: GSN to groups
  pub meta_prefix : ℕ
  pub committed : Map ClientRequest
  pub last_delivered : ℕ

unfoldable pub new_global_deliverer : GlobalDeliverer
new_global_deliverer = record { known = []; meta_prefix = 0; committed = []; last_delivered = 0 }

unfoldable pub advance_prefix : GlobalDeliverer → GlobalDeliverer
advance_prefix g = record g { meta_prefix = scan_prefix (length g.known) g.known g.meta_prefix }

-- `_, ok := g.meta[gsn]; !ok && gsn > g.lastDelivered`
unfoldable pub is_new : ℕ → GlobalDeliverer → Bool
is_new gsn g = not (is_some (lookup gsn g.known)) && ltb g.last_delivered gsn

unfoldable pub note_meta : ℕ → List ℕ → GlobalDeliverer → GlobalDeliverer
unfolding is_new
note_meta gsn groups g = if is_new gsn g then record g { known = insert gsn groups g.known } else g

-- `for gsn := from; gsn <= to; gsn++`, over the number of rounds left.
unfoldable pub note_skips : ℕ → ℕ → GlobalDeliverer → GlobalDeliverer
note_skips zero from g = g
note_skips (suc rounds) from g = note_skips rounds (from + 1) (note_meta from [] g)

-- `next` is delivered or passed over.
unfoldable pub retire : ℕ → GlobalDeliverer → GlobalDeliverer
retire next g = record g {
  known = erase next g.known;
  committed = erase next g.committed;
  last_delivered = next;
}

pub data Event : Type 0 where
  meta : ℕ → List ℕ → Event
  skip : ℕ → ℕ → Event
  commit : ClientRequest → Event

module _ (is_mine : ℕ → Bool) where
  unfoldable pub touches_mine : List ℕ → Bool
  unfolding any
  touches_mine groups = any is_mine groups

  -- The body of the loop of `drainLocked`; `none` leaves the loop.
  unfoldable pub drain_step : GlobalDeliverer → Option (GlobalDeliverer × List GlobalDelivery)
  drain_step g =
      let next = g.last_delivered + 1 in
      let groups = or_else (lookup next g.known) [] in
      if not (ltb g.last_delivered g.meta_prefix)
      then none
      else if not (touches_mine groups)
      then some (retire next g, [])
      else elim (lookup next g.committed) [
        | none ↦ none
        | some r ↦ some (retire next g, record { gsn = next; groups = groups; req = r } ∷ [])
      ]

  -- A round passes one GSN, so there are at most `meta_prefix - last_delivered` of them.
  unfoldable pub drain_loop : ℕ → GlobalDeliverer → GlobalDeliverer × List GlobalDelivery
  drain_loop zero g = (g, [])
  drain_loop (suc fuel) g = elim (drain_step g) [
    | none ↦ (g, [])
    | some (g', out) ↦ let (g'', rest) = drain_loop fuel g' in (g'', out ++ rest)
  ]

  unfoldable pub drain : GlobalDeliverer → GlobalDeliverer × List GlobalDelivery
  drain g = drain_loop (g.meta_prefix - g.last_delivered) g

  unfoldable pub on_meta : ℕ → List ℕ → GlobalDeliverer → GlobalDeliverer × List GlobalDelivery
  on_meta gsn groups g =
      if gsn == 0
      then (g, [])
      else drain (if is_new gsn g then advance_prefix (note_meta gsn groups g) else g)

  unfoldable pub on_skip : ℕ → ℕ → GlobalDeliverer → GlobalDeliverer × List GlobalDelivery
  on_skip from to g =
      if from == 0 || ltb to from
      then (g, [])
      else drain (advance_prefix (note_skips (to + 1 - from) from g))

  unfoldable pub note_commit : ClientRequest → GlobalDeliverer → GlobalDeliverer
  note_commit r g =
      if ltb g.last_delivered r.gsn && not (is_some (lookup r.gsn g.committed))
      then record g { committed = insert r.gsn r g.committed }
      else g

  unfoldable pub on_commit : ClientRequest → GlobalDeliverer → GlobalDeliverer × List GlobalDelivery
  on_commit r g = if r.gsn == 0 then (g, []) else drain (note_commit r g)

  -- What reaches the node: META, skipped ranges and decided requests, in any order.
  unfoldable pub step : Event → GlobalDeliverer → GlobalDeliverer × List GlobalDelivery
  step (Event.meta gsn groups) g = on_meta gsn groups g
  step (Event.skip from to) g = on_skip from to g
  step (Event.commit r) g = on_commit r g

  -- The node after a history, and all that it has delivered.
  unfoldable pub run : List Event → GlobalDeliverer → GlobalDeliverer × List GlobalDelivery
  run [] g = (g, [])
  run (e ∷ es) g = let (g', out) = step e g in let (g'', rest) = run es g' in (g'', out ++ rest)
