-- ===== src/Examples/Deliveries.antt =====
-- The deliverers of globaldeliver.go on one history with a skipped GSN.
use iss_com_multipaxos.Prelude.{
  ℕ, zero, suc, ◌≤◌, ◌≡◌, refl, Bool, true, false, List, [], ◌∷◌, ◌==◌, any, All, arith, lookup,
  insert, erase, contains, add_member, remove_member,
}
use iss_com_multipaxos.Request.{ClientRequest}
use iss_com_multipaxos.Deliver.Prefix.{scan_prefix}
use iss_com_multipaxos.Deliver.Global.{
  new_global_deliverer, Event, run, step, drain, drain_loop, drain_step, on_meta, on_skip,
  on_commit, note_meta, note_skips, note_commit, is_new, advance_prefix, retire, touches_mine,
}
use iss_com_multipaxos.Deliver.Global.Inv.{Fits}
use iss_com_multipaxos.Deliver.Global.Arrival.{announces, decides}
use iss_com_multipaxos.Deliver.Global.Liveness.{run_delivers}
use iss_com_multipaxos.Deliver.Group
use iss_com_multipaxos.Deliver.Group.Inv
use iss_com_multipaxos.Deliver.Group.Rounds.{cross_gsns}
use iss_com_multipaxos.Deliver.Group.Cursor.{wanted}
use iss_com_multipaxos.Deliver.Group.Fuel.{drain_loop_ends}
use iss_com_multipaxos.Deliver.Group.Order.{cross_gsns-run}

-- GSN 1 is for the groups 1 and 2, GSN 2 is skipped, GSN 3 is for the groups 2 and 3.
abbrev groups_of : ℕ → List ℕ
groups_of zero = []
groups_of (suc zero) = 1 ∷ 2 ∷ []
groups_of (suc (suc zero)) = []
groups_of (suc (suc (suc zero))) = 2 ∷ 3 ∷ []
groups_of (suc (suc (suc (suc n)))) = []

abbrev req_of : ℕ → ClientRequest
req_of k = record {
  client_id = 7;
  client_sn = k;
  payload = [];
  group_id = 2;
  touched_groups = groups_of k;
  gsn = k;
}

abbrev in_two : ℕ → Bool
in_two gid = gid == 2

abbrev in_three : ℕ → Bool
in_three gid = gid == 3

abbrev shuffled : List Event
shuffled =
    Event.commit (req_of 3)
    ∷ Event.meta 3 (groups_of 3)
    ∷ Event.skip 2 2
    ∷ Event.commit (req_of 1)
    ∷ Event.meta 1 (groups_of 1)
    ∷ []

abbrev short : List Event
short = Event.meta 1 (groups_of 1) ∷ Event.meta 3 (groups_of 3) ∷ Event.skip 2 2 ∷ []

skipped_two : (k : ℕ) → 2 ≤ k → k ≤ 2 → groups_of k ≡ []
skipped_two zero a b = absurd (omega arith)
skipped_two (suc zero) a b = absurd (omega arith)
skipped_two (suc (suc zero)) a b = refl
skipped_two (suc (suc (suc n))) a b = absurd (omega arith)

shuffled-Fits : All (Fits groups_of req_of) shuffled
shuffled-Fits = (refl, (refl, (skipped_two, (refl, (refl, tt)))))

shuffled_delivers_two :
    (run in_two shuffled new_global_deliverer).1
    ≡ record { gsn = 1; groups = groups_of 1; req = req_of 1 }
      ∷ record { gsn = 3; groups = groups_of 3; req = req_of 3 }
      ∷ []
unfolding run step drain drain_loop drain_step on_meta on_skip on_commit note_meta note_skips
    note_commit is_new advance_prefix retire touches_mine scan_prefix new_global_deliverer lookup
    insert erase any
shuffled_delivers_two = refl

all_announced : (k : ℕ) → 1 ≤ k → k ≤ 3 → any (announces k) shuffled ≡ true
unfolding any
all_announced zero a b = absurd (omega arith)
all_announced (suc zero) a b = refl
all_announced (suc (suc zero)) a b = refl
all_announced (suc (suc (suc zero))) a b = refl
all_announced (suc (suc (suc (suc n)))) a b = absurd (omega arith)

all_decided :
    (k : ℕ)
    → 1 ≤ k
    → k ≤ 3
    → touches_mine in_two (groups_of k) ≡ true
    → any (decides k) shuffled ≡ true
unfolding any touches_mine
all_decided zero a b t = absurd (omega arith)
all_decided (suc zero) a b t = refl
all_decided (suc (suc zero)) a b t = cc
all_decided (suc (suc (suc zero))) a b t = refl
all_decided (suc (suc (suc (suc n)))) a b t = absurd (omega arith)

run_delivers_example : 3 ≤ (run in_two shuffled new_global_deliverer).0.last_delivered
run_delivers_example =
    run_delivers in_two groups_of req_of shuffled 3 shuffled-Fits all_announced all_decided

-- The log of group 2 has GSN 3 before GSN 1.
abbrev log_of_two : List Group.Event
log_of_two =
    Group.Event.batch 5 (req_of 3 ∷ []) true
    ∷ Group.Event.meta 3 (groups_of 3)
    ∷ Group.Event.batch 6 (req_of 1 ∷ []) false
    ∷ Group.Event.skip 2 2
    ∷ Group.Event.meta 1 (groups_of 1)
    ∷ []

log_of_two-Fits : All (Group.Inv.Fits 2 groups_of) log_of_two
unfolding Group.Inv.relevant Group.is_cross_op Group.touches
log_of_two-Fits = ((λ h. refl, tt), (refl, ((λ h. refl, tt), (skipped_two, (refl, tt)))))

log_of_two_delivers : cross_gsns (Group.run log_of_two (Group.new_group_deliverer 2)).1 ≡ 1 ∷ 3 ∷ []
unfolding cross_gsns Group.run Group.step Group.push Group.on_meta Group.on_skip Group.note_meta
    Group.note_skips Group.is_new Group.advance_prefix Group.drain Group.drain_fuel Group.compact
    Group.drain_loop Group.drain_round Group.drain_item Group.drain_cross Group.mark_delivered
    Group.advance_cursor Group.advance_loop Group.enter_batch Group.enter_request Group.touches
    Group.is_cross_op Group.new_group_deliverer scan_prefix lookup insert erase contains add_member
    remove_member
log_of_two_delivers = refl

cross_gsns-run_example :
    cross_gsns (Group.run log_of_two (Group.new_group_deliverer 2)).1
    ≡ wanted 2 groups_of (Group.run log_of_two (Group.new_group_deliverer 2)).0.cursor
cross_gsns-run_example = cross_gsns-run 2 groups_of log_of_two log_of_two-Fits

-- Group 2 has GSN 3 in its log.
abbrev holding : Group.GroupDeliverer
holding = Group.enter_batch 5 true (req_of 3 ∷ []) (Group.new_group_deliverer 2)

few_rounds : Group.drain_fuel holding ≤ 5
unfolding Group.drain_fuel Group.new_group_deliverer Group.enter_batch Group.enter_request
    Group.is_cross_op contains lookup insert
few_rounds = omega arith

drain_loop_ends_example :
    (Group.drain_loop 5 holding ≡ Group.drain_loop (Group.drain_fuel holding) holding)
    × ((last : Group.GroupDeliverer) × (Group.drain_round last
          ≡ Group.leave (Group.drain_loop 5 holding).0))
drain_loop_ends_example = drain_loop_ends holding 5 few_rounds
