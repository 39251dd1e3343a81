-- ===== src/Bucket/History.antt =====
-- A bucket of mirbft/request/bucket.go against a plain queue: a list of requests and the same index.
use iss_com_multipaxos.Prelude.{
  ℕ, ◌≡◌, refl, sym, subst, ap, ◌∙◌, Bool, true, false, not, ◌&&◌, ◌||◌, Option, none, some, inl,
  inr, List, [], ◌∷◌, ◌++◌, if◌then◌else◌, is_some, contains, remove_member, arith, Bool-cases,
  Option-cases, take, drop, Map, lookup, insert, ◌>>=◌,
}
use iss_com_multipaxos.Commands.Text.{eq_text}
use iss_com_multipaxos.Bucket.{
  Bucket, Request, Added, new_bucket, req_id, append, link_first, remove_no_lock, remove_all,
  remove_first, index_request, add_new, add_over, add_no_lock, prepend, unchanged,
}
use iss_com_multipaxos.Bucket.Links.{Holds, remove_no_lock-Holds, is_loose-contains}
use iss_com_multipaxos.Bucket.Ends.{
  append-Holds, link_first-Holds, remove_members, remove_all-Holds, remove_first-Holds,
  remove_no_lock-req_index,
}

pub record Queue : Type 0 where
  pub waiting : List ℕ
  pub index : Map ℕ

pub data Operation : Type 0 where
  add : ℕ → Operation
  put_back : ℕ → Operation
  remove : List ℕ → Operation
  cut : ℕ → Operation

module _ (sign_requests verify_early : Bool) (request_of : ℕ → Request) where
  -- What the methods do to a bucket, and the requests that leave it for a batch.
  unfoldable pub step : Operation → Bucket → Option (Bucket × List ℕ)
  unfolding add_no_lock prepend remove_all remove_first
  step (Operation.add r) b = do
    a ← add_no_lock sign_requests verify_early request_of r b
    some (a.bucket, [])
  step (Operation.put_back r) b = do
    a ← prepend sign_requests verify_early request_of r b
    some (a.0, [])
  step (Operation.remove rs) b = some (remove_all rs b, [])
  step (Operation.cut n) b = remove_first n [] b

  unfoldable pub run : List Operation → Bucket → Option (Bucket × List ℕ)
  unfolding step
  run [] b = some (b, [])
  run (o ∷ os) b = do a ← step o b; c ← run os a.0; some (c.0, a.1 ++ c.1)

  -- `none` if the queue has the request already.
  unfoldable pub push : ℕ → List ℕ → Map ℕ → Option Queue
  push r xs index =
      if contains r xs
      then none
      else some
          (record { waiting = xs ++ r ∷ []; index = insert (req_id (request_of r).msg) r index })

  unfoldable pub queue_new : ℕ → Queue → Option Queue
  unfolding push
  queue_new r q =
      if sign_requests && verify_early && not (request_of r).verified
      then some q
      else push r q.waiting q.index

  unfoldable pub queue_over : ℕ → ℕ → Queue → Option Queue
  unfolding push
  queue_over old r q =
      if (request_of old).verified || not sign_requests
      then some q
      else if (request_of r).verified
      then push r (remove_member old q.waiting) q.index
      else some q

  unfoldable pub add_to : ℕ → Queue → Option Queue
  unfolding queue_new queue_over
  add_to r q = elim (lookup (req_id (request_of r).msg) q.index) [
    | none ↦ queue_new r q
    | some old ↦
        if eq_text (request_of old).digest (request_of r).digest then some q else queue_over old r q
  ]

  unfoldable pub put_back_to : ℕ → Queue → Option Queue
  put_back_to r q =
      if not (is_some (lookup (req_id (request_of r).msg) q.index))
      then none
      else some (if contains r q.waiting then q else record q { waiting = r ∷ q.waiting })

  -- The same operations on a queue; `none` for adding a request that waits already, and for putting
  -- back one that is not in the index.
  unfoldable pub queue_step : Operation → Queue → Option (Queue × List ℕ)
  unfolding add_to put_back_to
  queue_step (Operation.add r) q = do q' ← add_to r q; some (q', [])
  queue_step (Operation.put_back r) q = do q' ← put_back_to r q; some (q', [])
  queue_step (Operation.remove rs) q = some (record q { waiting = remove_members rs q.waiting }, [])
  queue_step (Operation.cut n) q = some (record q { waiting = drop n q.waiting }, take n q.waiting)

  unfoldable pub queue_run : List Operation → Queue → Option (Queue × List ℕ)
  unfolding queue_step
  queue_run [] q = some (q, [])
  queue_run (o ∷ os) q = do a ← queue_step o q; c ← queue_run os a.0; some (c.0, a.1 ++ c.1)

  pub record Is (b : Bucket) (q : Queue) : Type 0 where
    pub holds : Holds b q.waiting
    pub indexed : b.req_index ≡ q.index

  -- A request that is pushed onto the queue is appended to the bucket and indexed.
  push-Is :
      (r : ℕ) (xs : List ℕ) (index : Map ℕ) (b : Bucket) (q : Queue)
      → Holds b xs
      → b.req_index ≡ index
      → push r xs index ≡ some q
      → (b' : Bucket) × (append r b ≡ some b')
        × Is (index_request sign_requests verify_early request_of r b') q
  unfolding push index_request
  push-Is r xs index b q h e p = elim (Bool-cases (contains r xs)) [
    | inl c ↦ absurd (ground arith)
    | inr c ↦
        let (b', f, k, i) = append-Holds r b xs h c in
        let same : record {
          waiting = xs ++ r ∷ [];
          index = insert (req_id (request_of r).msg) r index;
        }
            ≡ q =
          ground arith in
        (
          b',
          f,
          subst (Is (index_request sign_requests verify_early request_of r b')) same (record {
            holds = record {
              chain = k.chain;
              distinct = k.distinct;
              count = k.count;
              loose = k.loose;
            };
            indexed = ap (insert (req_id (request_of r).msg) r) (i ∙ e);
          }),
        )
  ]

  -- The answer leaves a bucket that is the queue.
  abbrev Added-Is : Option Added → Queue → Type 0
  Added-Is a q = (r : Added) × (a ≡ some r) × Is r.bucket q

  stays :
      (o : Option ℕ) (t : Bool) (b : Bucket) (q q' : Queue)
      → Is b q
      → some q ≡ some q'
      → Added-Is (unchanged o t b) q'
  unfolding unchanged
  stays o t b q q' v e = (
    record { bucket = b; request = o; retry = t; notified = false },
    refl,
    subst (Is b) (ground arith) v,
  )

  add_new-Is :
      (r : ℕ) (b : Bucket) (q q' : Queue)
      → Is b q
      → queue_new r q ≡ some q'
      → Added-Is (add_new sign_requests verify_early request_of r b) q'
  unfolding queue_new add_new
  add_new-Is r b q q' v e =
      elim (Bool-cases (sign_requests && verify_early && not (request_of r).verified)) [
        | inl c ↦ rw c (stays none true b q q' v (ground arith))
        | inr c ↦
            let (b', f, k) = push-Is r q.waiting q.index b q' v.holds v.indexed (ground arith) in
            rw (c, f)
              (
                record {
                  bucket = index_request sign_requests verify_early request_of r b';
                  request = some r;
                  retry = false;
                  notified = b.grouped;
                },
                refl,
                k,
              )
      ]

  add_over-Is :
      (old r : ℕ) (b : Bucket) (q q' : Queue)
      → Is b q
      → queue_over old r q ≡ some q'
      → Added-Is (add_over sign_requests verify_early request_of old r b) q'
  unfolding queue_over add_over
  add_over-Is old r b q q' v e =
      elim (Bool-cases ((request_of old).verified || not sign_requests)) [
        | inl c ↦ rw c (stays none false b q q' v (ground arith))
        | inr c ↦ elim (Bool-cases (request_of r).verified) [
          | inl d ↦
              let (b', f, k) =
                push-Is r (remove_member old q.waiting) q.index (remove_no_lock old b) q'
                  (remove_no_lock-Holds old b q.waiting v.holds)
                  (remove_no_lock-req_index old b ∙ v.indexed) (ground arith) in
              rw (c, d, f)
                (stays (some r) false (index_request sign_requests verify_early request_of r b') q'
                  q' k refl)
          | inr d ↦ rw (c, d) (stays none true b q q' v (ground arith))
        ]
      ]

  module _ (r : ℕ) (q : Queue) where
    abbrev key : ℕ
    key = req_id (request_of r).msg

    add_to-none : lookup key q.index ≡ none → add_to r q ≡ queue_new r q
    unfolding add_to
    add_to-none n = rw (n, add_to) refl

    add_to-some :
        (old : ℕ)
        → lookup key q.index ≡ some old
        → add_to r q ≡ (
            if eq_text (request_of old).digest (request_of r).digest
            then some q
            else queue_over old r q)
    unfolding add_to
    add_to-some old n = rw (n, add_to) refl

  add_no_lock-Is :
      (r : ℕ) (b : Bucket) (q q' : Queue)
      → Is b q
      → add_to r q ≡ some q'
      → Added-Is (add_no_lock sign_requests verify_early request_of r b) q'
  unfolding add_no_lock
  add_no_lock-Is r b q q' v e = elim (Option-cases (lookup (key r q) q.index)) [
    | inl n ↦
        rw (ap (lookup (key r q)) v.indexed ∙ n, add_no_lock)
          (add_new-Is r b q q' v (sym (add_to-none r q n) ∙ e))
    | inr (old, n) ↦
        let f = sym (add_to-some r q old n) ∙ e in
        rw (ap (lookup (key r q)) v.indexed ∙ n, add_no_lock)
          (elim (Bool-cases (eq_text (request_of old).digest (request_of r).digest)) [
            | inl c ↦ rw c (stays (some old) false b q q' v (ground arith))
            | inr c ↦ rw c (add_over-Is old r b q q' v (ground arith))
          ])
  ]

  -- The bucket takes the step, with the same requests cut, and is the queue again.
  Stepped : Option (Bucket × List ℕ) → Queue × List ℕ → Type 0
  Stepped a w = (b : Bucket) × (a ≡ some (b, w.1)) × Is b w.0

  step-Stepped :
      (o : Operation) (b : Bucket) (q : Queue) (w : Queue × List ℕ)
      → Is b q
      → queue_step o q ≡ some w
      → Stepped (step o b) w
  unfolding step queue_step Stepped put_back_to prepend
  step-Stepped (Operation.add r) b q w v e = elim (Option-cases (add_to r q)) [
    | inl n ↦ absurd (ground arith)
    | inr (q', n) ↦
        let (a, f, k) = add_no_lock-Is r b q q' v n in
        let same : (q', []) ≡ w = ground arith in
        subst (Stepped (step (Operation.add r) b)) same (a.bucket, rw f refl, k)
  ]
  step-Stepped (Operation.put_back r) b q w v e =
      elim (Bool-cases (is_some (lookup (key r q) q.index))) [
        | inr i ↦ absurd (ground arith)
        | inl i ↦
            let j : is_some (lookup (key r q) b.req_index) ≡ true =
              ap (λ m. is_some (lookup (key r q) m)) v.indexed ∙ i in
            elim (Bool-cases (contains r q.waiting)) [
              | inl c ↦
                  let same : (q, []) ≡ w = ground arith in
                  subst (Stepped (step (Operation.put_back r) b)) same
                    (b, rw (j, is_loose-contains r b q.waiting v.holds, c, prepend) refl, v)
              | inr c ↦
                  let (h, k) = link_first-Holds r b q.waiting v.holds c in
                  let same : (record q { waiting = r ∷ q.waiting }, []) ≡ w = ground arith in
                  subst (Stepped (step (Operation.put_back r) b)) same (
                    link_first r b,
                    rw (j, is_loose-contains r b q.waiting v.holds, c, prepend) refl,
                    record { holds = h; indexed = k ∙ v.indexed },
                  )
            ]
      ]
  step-Stepped (Operation.remove rs) b q w v e =
      let (h, i) = remove_all-Holds rs b q.waiting v.holds in
      let same : (record q { waiting = remove_members rs q.waiting }, []) ≡ w = ground arith in
      subst (Stepped (some (remove_all rs b, []))) same
        (remove_all rs b, refl, record { holds = h; indexed = i ∙ v.indexed })
  step-Stepped (Operation.cut n) b q w v e =
      let (b', f, h, i) = remove_first-Holds n [] b q.waiting v.holds in
      let same : (record q { waiting = drop n q.waiting }, take n q.waiting) ≡ w = ground arith in
      subst (Stepped (remove_first n [] b)) same
        (b', f, record { holds = h; indexed = i ∙ v.indexed })

  run-Stepped :
      (os : List Operation) (b : Bucket) (q : Queue) (w : Queue × List ℕ)
      → Is b q
      → queue_run os q ≡ some w
      → Stepped (run os b) w
  unfolding run queue_run Stepped
  run-Stepped [] b q w v e = subst (Stepped (some (b, []))) (ground arith) (b, refl, v)
  run-Stepped (o ∷ os) b q w v e = elim (Option-cases (queue_step o q)) [
    | inl n ↦ absurd (ground arith)
    | inr (a, n) ↦ elim (Option-cases (queue_run os a.0)) [
      | inl m ↦ absurd (ground arith)
      | inr (c, m) ↦
          let (b', f, v') = step-Stepped o b q a v n in
          let (b'', g, v'') = run-Stepped os b' a.0 c v' m in
          let same : (c.0, a.1 ++ c.1) ≡ w = ground arith in
          subst (Stepped (run (o ∷ os) b)) same (b'', rw (f, g) refl, v'')
    ]
  ]

  new_bucket-Is : (id : ℕ) → Is (new_bucket id) (record { waiting = []; index = [] })
  unfolding new_bucket
  new_bucket-Is id = record {
    holds = record {
      chain = (refl, refl);
      distinct = tt;
      count = refl;
      loose = λ r c. (refl, refl);
    };
    indexed = refl;
  }

  -- If a history of adding requests, putting them back, removing some and cutting batches is allowed
  -- on a queue (no request is added while it waits, and none is put back that is not in the index),
  -- then a new bucket takes it without reading a nil pointer or stopping, gives the same requests to
  -- the batches in the same order, and ends with the requests of the queue, linked in their order.
  pub run-Is :
      (id : ℕ) (os : List Operation) (q : Queue) (out : List ℕ)
      → queue_run os (record { waiting = []; index = [] }) ≡ some (q, out)
      → (b : Bucket) × (run os (new_bucket id) ≡ some (b, out)) × Is b q
  unfolding Stepped
  run-Is id os q out e =
      run-Stepped os (new_bucket id) (record { waiting = []; index = [] }) (q, out)
        (new_bucket-Is id) e
