-- ===== src/Log/Order.antt =====
-- What subscribers of the log, goroutines that wait, and callers of `Missing` can rely on, for any
-- order of the steps that goroutines take.
use iss_com_multipaxos.Prelude.{
  ℕ, zero, suc, ◌+◌, ◌-◌, ◌≤◌, ◌<◌, ◌≡◌, refl, sym, subst, ap, true, not, ◌&&◌, Option, none, some,
  inl, inr, List, [], ◌∷◌, ◌++◌, arith, is_some, or_else, contains, append-nil, append_assoc, ◌||◌,
  Map, lookup, lookup-insert, ltb, leb, ◌==◌, Bool-cases, ==_iff,
}
use iss_com_multipaxos.Log.{
  Entry, Log, Event, new_log, load_or_store, publish_out_of_order, publish_entries, missing_loop,
  missing, subscribe_entries, subscribe_out_of_order, wait_for_entry, get_entry, commit_checkpoint,
  subscribe_checkpoints, step, run,
}
use iss_com_multipaxos.Log.Publish.{
  AreInOrder, AreInOrder-insert, AreInOrder-subscribe, Inv, publish_entries-Inv,
  publish_entries-AreInOrder, publish_entries-woken, publish_entries_keeps, publish_entries_stops,
}

new_log-Inv : Inv new_log
unfolding new_log lookup
new_log-Inv = record { filled = λ k a. absurd (omega arith); nobody = λ k a. refl }

load_or_store-Inv : (e : Entry) (l : Log) → Inv l → Inv (load_or_store e l).0
unfolding load_or_store
load_or_store-Inv e l v = elim (Bool-cases (is_some (lookup e.sn l.entries))) [
  | inl h ↦ rw h v
  | inr h ↦ rw h (record {
    filled = λ k a. ground (arith, lookup-insert k e.sn e l.entries, v.filled k);
    nobody = v.nobody;
  })
]

wait_for_entry-Inv : (w sn : ℕ) (l : Log) → Inv l → Inv (wait_for_entry w sn l).0
unfolding wait_for_entry
wait_for_entry-Inv w sn l v = elim (Bool-cases (ltb sn l.first_empty_sn)) [
  | inl h ↦ rw h v
  | inr h ↦ rw h (record {
    filled = v.filled;
    nobody = λ k a. ground (
      arith,
      lookup-insert k sn (or_else (lookup sn l.entry_subscribers) [] ++ w ∷ []) l.entry_subscribers,
      v.nobody k,
    );
  })
]

step-Inv : (x : Event) (l : Log) → Inv l → Inv (step x l)
unfolding step publish_out_of_order subscribe_entries subscribe_out_of_order commit_checkpoint
    subscribe_checkpoints
step-Inv (Event.store e) l v = load_or_store-Inv e l v
step-Inv (Event.publish_early e) l v = record { filled = v.filled; nobody = v.nobody }
step-Inv Event.publish l v = publish_entries-Inv l v
step-Inv Event.subscribe l v = record { filled = v.filled; nobody = v.nobody }
step-Inv Event.subscribe_early l v = record { filled = v.filled; nobody = v.nobody }
step-Inv (Event.wait w sn) l v = wait_for_entry-Inv w sn l v
step-Inv (Event.stabilise c) l v = record { filled = v.filled; nobody = v.nobody }
step-Inv Event.subscribe_stable l v = record { filled = v.filled; nobody = v.nobody }

run-Inv : (es : List Event) (l : Log) → Inv l → Inv (run es l)
unfolding run
run-Inv [] l v = v
run-Inv (x ∷ es) l v = run-Inv es (step x l) (step-Inv x l v)

none_waits : (w : ℕ) (o : Option (List ℕ)) → o ≡ none → contains w (or_else o []) ≡ true → ⊥
unfolding contains
none_waits w none e h = cc
none_waits w (some ws) e h = cc

-- The first empty position when a subscriber comes.
unfoldable pub start_of : Event → Log → List ℕ
start_of Event.subscribe l = l.first_empty_sn ∷ []
start_of _ l = []

-- Where each in-order subscriber of a history starts, in the order in which they come.
unfoldable pub starts : List Event → Log → List ℕ
unfolding start_of step
starts [] l = []
starts (x ∷ es) l = start_of x l ++ starts es (step x l)

AreAt : List ℕ → Log → Type 0
AreAt ss l = AreInOrder l.entries l.first_empty_sn ss l.log_subscribers

still-AreAt : (ss : List ℕ) (l : Log) → AreAt ss l → AreAt (ss ++ []) l
still-AreAt ss l a = rw (append-nil ss) a

load_or_store-AreAt :
    (e : Entry) (ss : List ℕ) (l : Log) → AreAt ss l → AreAt ss (load_or_store e l).0
unfolding load_or_store AreAt
load_or_store-AreAt e ss l a = elim (Bool-cases (is_some (lookup e.sn l.entries))) [
  | inl h ↦ rw h a
  | inr h ↦ rw h (AreInOrder-insert l.entries e.sn e l.first_empty_sn h ss l.log_subscribers a)
]

wait_for_entry-AreAt :
    (w sn : ℕ) (ss : List ℕ) (l : Log) → AreAt ss l → AreAt ss (wait_for_entry w sn l).0
unfolding wait_for_entry AreAt
wait_for_entry-AreAt w sn ss l a = elim (Bool-cases (ltb sn l.first_empty_sn)) [
  | inl h ↦ rw h a
  | inr h ↦ rw h a
]

step-AreAt :
    (x : Event) (ss : List ℕ) (l : Log) → AreAt ss l → AreAt (ss ++ start_of x l) (step x l)
unfolding step start_of publish_out_of_order subscribe_entries subscribe_out_of_order
    commit_checkpoint subscribe_checkpoints AreAt
step-AreAt (Event.store e) ss l a =
    still-AreAt ss (load_or_store e l).0 (load_or_store-AreAt e ss l a)
step-AreAt (Event.publish_early e) ss l a = still-AreAt ss (publish_out_of_order e l) a
step-AreAt Event.publish ss l a =
    still-AreAt ss (publish_entries l).0 (publish_entries-AreInOrder l ss a)
step-AreAt Event.subscribe ss l a =
    AreInOrder-subscribe l.entries l.first_empty_sn ss l.log_subscribers a
step-AreAt Event.subscribe_early ss l a = still-AreAt ss (subscribe_out_of_order l) a
step-AreAt (Event.wait w sn) ss l a =
    still-AreAt ss (wait_for_entry w sn l).0 (wait_for_entry-AreAt w sn ss l a)
step-AreAt (Event.stabilise c) ss l a = still-AreAt ss (commit_checkpoint c l) a
step-AreAt Event.subscribe_stable ss l a = still-AreAt ss (subscribe_checkpoints l) a

run-AreAt :
    (es : List Event) (ss : List ℕ) (l : Log) → AreAt ss l → AreAt (ss ++ starts es l) (run es l)
unfolding run starts
run-AreAt [] ss l a = still-AreAt ss l a
run-AreAt (x ∷ es) ss l a =
    rw (sym (append_assoc ss (start_of x l) (starts es (step x l))))
      (run-AreAt es (ss ++ start_of x l) (step x l) (step-AreAt x ss l a))

-- After any history of steps of an empty log, each in-order subscriber has been sent the entries of
-- consecutive sequence numbers, each once, from the first position that was empty when it came up to
-- the first one that is empty now.
pub run-AreInOrder :
    (es : List Event)
    → AreInOrder
        (run es new_log).entries
        (run es new_log).first_empty_sn
        (starts es new_log)
        (run es new_log).log_subscribers
unfolding AreAt
run-AreInOrder es = run-AreAt es [] new_log (unfold new_log in tt)

-- If after a history of steps of an empty log every position up to `sn` is filled, then the
-- publication that each commit ends with wakes every goroutine that waits for `sn`, leaves nobody
-- waiting for it, and has the first empty position above `sn`.
pub run_wakes :
    (es : List Event) (sn w : ℕ)
    → ((k : ℕ) → k ≤ sn → is_some (get_entry k (run es new_log)) ≡ true)
    → ((not (contains w (or_else (lookup sn (run es new_log).entry_subscribers) []))
          || contains w (publish_entries (run es new_log)).1)
        ≡ true)
      × (lookup sn (publish_entries (run es new_log)).0.entry_subscribers ≡ none)
      × (sn < (publish_entries (run es new_log)).0.first_empty_sn)
unfolding get_entry
run_wakes es sn w h =
    let l : Log = run es new_log in
    let v : Inv l = run-Inv es new_log new_log-Inv in
    let past : sn < (publish_entries l).0.first_empty_sn =
      elim (Bool-cases (ltb sn (publish_entries l).0.first_empty_sn)) [
        | inl c ↦ ground arith
        | inr c ↦
            absurd
              (ground (arith, publish_entries_stops l v, h (publish_entries l).0.first_empty_sn))
      ] in
    (wakes l v past, (publish_entries-Inv l v).nobody sn past, past)
  where
    wakes :
        (l : Log)
        → Inv l
        → sn < (publish_entries l).0.first_empty_sn
        → (not (contains w (or_else (lookup sn l.entry_subscribers) []))
            || contains w (publish_entries l).1)
          ≡ true
    wakes l v past = elim (Bool-cases (contains w (or_else (lookup sn l.entry_subscribers) []))) [
      | inr c ↦ rw c refl
      | inl c ↦ elim (Bool-cases (ltb sn l.first_empty_sn)) [
        | inl o ↦
            absurd (none_waits w (lookup sn l.entry_subscribers) (v.nobody sn (ground arith)) c)
        | inr o ↦ rw (publish_entries-woken l sn w (ground arith) past c) (ground arith)
      ]
    ]

contains-missing_loop :
    (k r sn : ℕ) (m : Map Entry)
    → contains k (missing_loop r sn m) ≡ (leb sn k && ltb k (sn + r) && not (is_some (lookup k m)))
unfolding missing_loop contains
contains-missing_loop k zero sn m = ground arith
contains-missing_loop k (suc r) sn m = elim (Bool-cases (sn == k)) [
  | inl e ↦
      let same : lookup sn m ≡ lookup k m = ap (λ j. lookup j m) ((==_iff sn k).0 e) in
      ground (arith, contains-missing_loop k r (sn + 1) m)
  | inr e ↦ ground (arith, contains-missing_loop k r (sn + 1) m)
]

-- After any history of steps of an empty log, `Missing` lists a sequence number just if it is at
-- most `until` and has no entry.
pub contains-missing :
    (es : List Event) (k until : ℕ)
    → contains k (missing until (run es new_log))
      ≡ (leb k until && not (is_some (get_entry k (run es new_log))))
unfolding missing get_entry
contains-missing es k until =
    let l : Log = run es new_log in
    ground (
      arith,
      contains-missing_loop k (until + 1 - l.first_empty_sn) l.first_empty_sn l.entries,
      (run-Inv es new_log new_log-Inv).filled k,
    )

step-lookup :
    (x : Event) (l : Log) (sn : ℕ) (e : Entry)
    → lookup sn l.entries ≡ some e
    → lookup sn (step x l).entries ≡ some e
unfolding step publish_out_of_order subscribe_entries subscribe_out_of_order commit_checkpoint
    subscribe_checkpoints load_or_store wait_for_entry
step-lookup (Event.store x) l sn e h =
    ground (arith, lookup-insert sn x.sn x l.entries, ap (λ k. lookup k l.entries))
step-lookup (Event.publish_early x) l sn e h = h
step-lookup Event.publish l sn e h =
    subst (λ m. lookup sn m ≡ some e) (sym (publish_entries_keeps l)) h
step-lookup Event.subscribe l sn e h = h
step-lookup Event.subscribe_early l sn e h = h
step-lookup (Event.wait w k) l sn e h = ground arith
step-lookup (Event.stabilise c) l sn e h = h
step-lookup Event.subscribe_stable l sn e h = h

-- An entry that the log holds is there, unchanged, after any further steps.
pub run_keeps_entry :
    (es : List Event) (l : Log) (sn : ℕ) (e : Entry)
    → get_entry sn l ≡ some e
    → get_entry sn (run es l) ≡ some e
unfolding run get_entry
run_keeps_entry [] l sn e h = h
run_keeps_entry (x ∷ es) l sn e h = run_keeps_entry es (step x l) sn e (step-lookup x l sn e h)
