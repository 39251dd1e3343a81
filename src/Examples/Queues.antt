-- ===== src/Examples/Queues.antt =====
-- Three requests in a bucket: one is removed from the middle, one is put back, and a batch is cut.
use iss_com_multipaxos.Prelude.{
  ℕ, ◌≡◌, refl, true, false, some, List, [], ◌∷◌, contains, remove_member, lookup, insert, arith,
}
use iss_com_multipaxos.Bucket.Links.{Holds}
use iss_com_multipaxos.Bucket.Search.{find_request_with_gsn, find_loop, remove_first_single_group}
use iss_com_multipaxos.Bucket.Single.{taken, kept, remove_first_single_group-Holds}
use iss_com_multipaxos.Bucket.{set, Bucket, Request, new_bucket, req_id}
use iss_com_multipaxos.Bucket.History.{
  Operation, Queue, run, queue_run, queue_step, add_to, queue_new, push, put_back_to, Is, run-Is,
}

abbrev request_of : ℕ → Request
request_of r = record {
  msg = record {
    client_id = 1;
    client_sn = r;
    payload = [];
    group_id = 1;
    touched_groups = [];
    gsn = 0;
  };
  digest = r ∷ [];
  verified = true;
}

abbrev operations : List Operation
operations =
    Operation.add 4
    ∷ Operation.add 5
    ∷ Operation.add 6
    ∷ Operation.remove (5 ∷ [])
    ∷ Operation.cut 1
    ∷ Operation.put_back 5
    ∷ Operation.cut 2
    ∷ []

allowed :
    (q : Queue) × (queue_run false false request_of operations (record { waiting = []; index = [] })
      ≡ some (q, 4 ∷ 5 ∷ 6 ∷ []))
unfolding queue_run queue_step add_to queue_new push put_back_to contains remove_member lookup
    insert req_id
allowed = (_, refl)

run-Is_example :
    (b : Bucket) × (run false false request_of operations (new_bucket 0) ≡ some (b, 4 ∷ 5 ∷ 6 ∷ []))
    × Is false false request_of b allowed.0
run-Is_example = run-Is false false request_of 0 operations allowed.0 (4 ∷ 5 ∷ 6 ∷ []) allowed.1

-- The bucket with the requests 4, 5 and 6.
abbrev filled : Bucket
filled = record (new_bucket 0) {
  num_requests = 3;
  first_request = some 4;
  last_request = some 6;
  next = set 4 (some 5) (set 5 (some 6) (new_bucket 0).next);
  prev = set 5 (some 4) (set 6 (some 5) (new_bucket 0).prev);
}

by_number : find_request_with_gsn request_of 0 filled ≡ some 4
unfolding find_request_with_gsn find_loop
by_number = refl

filled-Holds : Holds filled (4 ∷ 5 ∷ 6 ∷ [])
unfolding set new_bucket contains
filled-Holds = record {
  chain = (refl, refl, (refl, refl, (refl, refl, (refl, refl))));
  distinct = (refl, (refl, (refl, tt)));
  count = refl;
  loose = λ r c. (ground (arith, c), ground (arith, c));
}

remove_first_single_group-Holds_example :
    ((remove_first_single_group request_of 2 [] filled).1 ≡ taken request_of 2 (4 ∷ 5 ∷ 6 ∷ []))
    × Holds
        (remove_first_single_group request_of 2 [] filled).0
        (kept request_of 2 (4 ∷ 5 ∷ 6 ∷ []))
remove_first_single_group-Holds_example =
    remove_first_single_group-Holds request_of 2 [] filled (4 ∷ 5 ∷ 6 ∷ []) filled-Holds
