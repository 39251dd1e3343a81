-- ===== src/Examples/Entries.antt =====
-- Two entries that are committed out of order, a subscriber and a goroutine that waits.
use iss_com_multipaxos.Prelude.{
  ℕ, zero, suc, ◌≤◌, ◌<◌, ◌≡◌, refl, true, false, not, ◌&&◌, none, List, [], ◌∷◌, is_some, leb,
  or_else, ◌||◌, contains, lookup, insert, erase, arith, ◌++◌,
}
use iss_com_multipaxos.Log.{
  Entry, Event, new_log, run, step, load_or_store, publish_entries, publish_loop, publish_first,
  publish_entry, subscribe_entries, wait_for_entry, get_entry, missing, commit_entry,
  commit_checkpoint, subscribe_checkpoints,
}
use iss_com_multipaxos.Log.Publish.{AreInOrder}
use iss_com_multipaxos.Log.Order.{starts, run-AreInOrder, run_wakes, contains-missing}

abbrev entry : ℕ → Entry
entry sn = record { sn = sn; batch = []; digest = []; aborted = false; suspect = 0 }

abbrev history : List Event
history =
    Event.subscribe
    ∷ Event.wait 7 1
    ∷ Event.store (entry 1)
    ∷ Event.publish
    ∷ Event.store (entry 0)
    ∷ []

late_first : (commit_entry (entry 0) (run history new_log)).1 ≡ []
unfolding commit_entry load_or_store run step new_log subscribe_entries wait_for_entry
    publish_entries publish_loop publish_first lookup insert
late_first = refl

published :
    (run (history ++ Event.publish ∷ []) new_log).log_subscribers ≡ (entry 0 ∷ entry 1 ∷ []) ∷ []
unfolding run step new_log load_or_store subscribe_entries wait_for_entry publish_entries
    publish_loop publish_first publish_entry lookup insert
published = refl

woken : (publish_entries (run history new_log)).1 ≡ 7 ∷ []
unfolding run step new_log load_or_store subscribe_entries wait_for_entry publish_entries
    publish_loop publish_first lookup insert erase
woken = refl

older_checkpoint :
    (commit_checkpoint
      (record { sn = 3 })
      (commit_checkpoint
        (record { sn = 5 })
        (subscribe_checkpoints new_log))).checkpoint_subscribers
    ≡ (record { sn = 5 } ∷ record { sn = 3 } ∷ []) ∷ []
unfolding commit_checkpoint subscribe_checkpoints new_log
older_checkpoint = refl

held : (k : ℕ) → k ≤ 1 → is_some (get_entry k (run history new_log)) ≡ true
unfolding get_entry run step new_log load_or_store subscribe_entries wait_for_entry publish_entries
    publish_loop lookup insert
held zero h = refl
held (suc zero) h = refl
held (suc (suc k)) h = absurd (omega arith)

run-AreInOrder_example :
    AreInOrder
      (run (history ++ Event.publish ∷ []) new_log).entries
      (run (history ++ Event.publish ∷ []) new_log).first_empty_sn
      (starts (history ++ Event.publish ∷ []) new_log)
      (run (history ++ Event.publish ∷ []) new_log).log_subscribers
run-AreInOrder_example = run-AreInOrder (history ++ Event.publish ∷ [])

run_wakes_example :
    ((not (contains 7 (or_else (lookup 1 (run history new_log).entry_subscribers) []))
        || contains 7 (publish_entries (run history new_log)).1)
      ≡ true)
    × (lookup 1 (publish_entries (run history new_log)).0.entry_subscribers ≡ none)
    × (1 < (publish_entries (run history new_log)).0.first_empty_sn)
run_wakes_example = run_wakes history 1 7 held

contains-missing_example :
    contains 2 (missing 3 (run history new_log))
    ≡ (leb 2 3 && not (is_some (get_entry 2 (run history new_log))))
contains-missing_example = contains-missing history 2 3
