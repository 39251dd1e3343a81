-- ===== src/Log.antt =====
-- The log of mirbft/log/log.go: decided entries by sequence number, pushed to subscribers in order
-- and out of order, goroutines that wait for an entry, and the last stable checkpoint. A channel is
-- the list of all that was pushed into it; a full channel only delays its writer.
pub mod Publish
pub mod Order
use iss_com_multipaxos.Prelude.{
  ℕ, zero, suc, ◌+◌, ◌-◌, Bool, true, false, Option, none, some, List, [], ◌∷◌, ◌++◌, ltb, leb,
  if◌then◌else◌, is_some, or_else, length, map, Map, lookup, insert, erase,
}
use iss_com_multipaxos.Request.{ClientRequest}

-- The times of proposal and commit are left out.
pub record Entry : Type 0 where
  pub sn : ℕ
  pub batch : List ClientRequest
  pub digest : List ℕ
  pub aborted : Bool
  pub suspect : ℕ

-- The signatures are left out.
pub record StableCheckpoint : Type 0 where
  pub sn : ℕ

pub record Log : Type 0 where
  pub entries : Map Entry
  pub log_subscribers : List (List Entry)
  pub log_subscribers_out_of_order : List (List Entry)
  pub entry_subscribers : Map (List ℕ)  -- the goroutines that wait for a sequence number
  pub first_empty_sn : ℕ
  pub checkpoint : Option StableCheckpoint
  pub checkpoint_subscribers : List (List StableCheckpoint)

unfoldable pub new_log : Log
new_log = record {
  entries = [];
  log_subscribers = [];
  log_subscribers_out_of_order = [];
  entry_subscribers = [];
  first_empty_sn = 0;
  checkpoint = none;
  checkpoint_subscribers = [];
}

unfoldable pub publish_entry : Entry → List (List Entry) → List (List Entry)
publish_entry e subscribers = map (λ q. q ++ e ∷ []) subscribers

-- One round of the loop of `publishEntries`, which wakes the goroutines that it returns.
unfoldable pub publish_first : Entry → Log → Log × List ℕ
unfolding publish_entry
publish_first e l = (
  record l {
    log_subscribers = publish_entry e l.log_subscribers;
    entry_subscribers = erase l.first_empty_sn l.entry_subscribers;
    first_empty_sn = l.first_empty_sn + 1;
  },
  or_else (lookup l.first_empty_sn l.entry_subscribers) [],
)

unfoldable pub publish_loop : ℕ → Log → Log × List ℕ
unfolding publish_first
publish_loop zero l = (l, [])
publish_loop (suc fuel) l = elim (lookup l.first_empty_sn l.entries) [
  | none ↦ (l, [])
  | some e ↦
      let (l', woken) = publish_first e l in
      let (l'', rest) = publish_loop fuel l' in (l'', woken ++ rest)
]

-- No entry is passed twice, so there are at most as many rounds as entries.
unfoldable pub publish_entries : Log → Log × List ℕ
unfolding publish_loop
publish_entries l = publish_loop (length l.entries) l

-- `entries.LoadOrStore`: the log, and whether there was an entry already.
unfoldable pub load_or_store : Entry → Log → Log × Bool
load_or_store e l =
    if is_some (lookup e.sn l.entries)
    then (l, true)
    else (record l { entries = insert e.sn e l.entries }, false)

unfoldable pub publish_out_of_order : Entry → Log → Log
unfolding publish_entry
publish_out_of_order e l = record l {
  log_subscribers_out_of_order = publish_entry e l.log_subscribers_out_of_order;
}

-- The three steps of `CommitEntry`, between which other goroutines may run.
unfoldable pub commit_entry : Entry → Log → Log × List ℕ
unfolding load_or_store publish_out_of_order publish_entries
commit_entry e l =
    let (l', loaded) = load_or_store e l in
    if loaded then (l', []) else publish_entries (publish_out_of_order e l')

unfoldable pub get_entry : ℕ → Log → Option Entry
get_entry sn l = lookup sn l.entries

unfoldable pub missing_loop : ℕ → ℕ → Map Entry → List ℕ
missing_loop zero sn entries = []
missing_loop (suc rounds) sn entries =
    let rest = missing_loop rounds (sn + 1) entries in
    if is_some (lookup sn entries) then rest else sn ∷ rest

-- `for sn := firstEmptySN; sn <= until; sn++`
unfoldable pub missing : ℕ → Log → List ℕ
unfolding missing_loop
missing until l = missing_loop (until + 1 - l.first_empty_sn) l.first_empty_sn l.entries

unfoldable pub subscribe_entries : Log → Log
subscribe_entries l = record l { log_subscribers = l.log_subscribers ++ [] ∷ [] }

unfoldable pub subscribe_out_of_order : Log → Log
subscribe_out_of_order l = record l {
  log_subscribers_out_of_order = l.log_subscribers_out_of_order ++ [] ∷ [];
}

-- The log, and whether the goroutine `waiter` blocks. (The source also takes -1 for `sn`, which
-- never blocks.)
unfoldable pub wait_for_entry : ℕ → ℕ → Log → Log × Bool
wait_for_entry waiter sn l = if ltb sn l.first_empty_sn then (l, false) else (
  record l {
    entry_subscribers =
        insert sn (or_else (lookup sn l.entry_subscribers) [] ++ waiter ∷ []) l.entry_subscribers;
  },
  true,
)

-- `checkpoint == nil || c.Sn > checkpoint.Sn`
unfoldable pub is_newer : StableCheckpoint → Option StableCheckpoint → Bool
is_newer c none = true
is_newer c (some old) = ltb old.sn c.sn

unfoldable pub commit_checkpoint : StableCheckpoint → Log → Log
unfolding is_newer
commit_checkpoint c l = record l {
  checkpoint = if is_newer c l.checkpoint then some c else l.checkpoint;
  checkpoint_subscribers = map (λ q. q ++ c ∷ []) l.checkpoint_subscribers;
}

unfoldable pub get_checkpoint : Log → Option StableCheckpoint
get_checkpoint l = l.checkpoint

unfoldable pub subscribe_checkpoints : Log → Log
subscribe_checkpoints l = record l { checkpoint_subscribers = l.checkpoint_subscribers ++ [] ∷ [] }

-- The steps that goroutines take on the log, in any order; a `publish` comes after each `store`.
pub data Event : Type 0 where
  store : Entry → Event
  publish_early : Entry → Event
  publish : Event
  subscribe : Event
  subscribe_early : Event
  wait : ℕ → ℕ → Event
  stabilise : StableCheckpoint → Event
  subscribe_stable : Event

unfoldable pub step : Event → Log → Log
unfolding load_or_store publish_out_of_order publish_entries subscribe_entries
    subscribe_out_of_order wait_for_entry commit_checkpoint subscribe_checkpoints
step (Event.store e) l = (load_or_store e l).0
step (Event.publish_early e) l = publish_out_of_order e l
step Event.publish l = (publish_entries l).0
step Event.subscribe l = subscribe_entries l
step Event.subscribe_early l = subscribe_out_of_order l
step (Event.wait waiter sn) l = (wait_for_entry waiter sn l).0
step (Event.stabilise c) l = commit_checkpoint c l
step Event.subscribe_stable l = subscribe_checkpoints l

unfoldable pub run : List Event → Log → Log
unfolding step
run [] l = l
run (e ∷ es) l = run es (step e l)
