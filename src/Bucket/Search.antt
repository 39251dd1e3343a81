-- ===== src/Bucket/Search.antt =====
-- The walks along the list of a bucket in mirbft/request/bucket.go: searches, the removal of requests of
-- one group, and the pruning of the index. A walk has a round for each request of the bucket.
use iss_com_multipaxos.Prelude.{
  ℕ, zero, suc, ◌+◌, ◌-◌, ◌*◌, ◌%◌, ◌^◌, ◌≤◌, ◌≡◌, refl, Bool, true, false, ◌&&◌, Option, none,
  some, List, [], ◌∷◌, ◌++◌, ltb, leb, ◌==◌, if◌then◌else◌, is_some, length, Map, erase, arith,
}
use iss_com_multipaxos.Request.{ClientRequest}
use iss_com_multipaxos.Commands.Text.{codes}
use iss_com_multipaxos.Bucket.{Bucket, Request, remove_no_lock}
use iss_com_multipaxos.Bucket.Segment.{IsSegment}
use iss_com_multipaxos.Bucket.Links.{Holds}

module _ (request_of : ℕ → Request) where
  -- The first request that passes the test.
  unfoldable pub find_loop : (ClientRequest → Bool) → (ℕ → Option ℕ) → ℕ → Option ℕ → Option ℕ
  find_loop p nx zero r = none
  find_loop p nx (suc fuel) none = none
  find_loop p nx (suc fuel) (some r) =
      let rest = find_loop p nx fuel (nx r) in if p (request_of r).msg then some r else rest

  unfoldable pub find_request_with_gsn : ℕ → Bucket → Option ℕ
  unfolding find_loop
  find_request_with_gsn gsn b = find_loop (λ m. m.gsn == gsn) b.next b.num_requests b.first_request

  unfoldable pub has_any_cross_op : Bucket → Bool
  unfolding find_loop
  has_any_cross_op b =
      is_some
        (find_loop (λ m. ltb 1 (length m.touched_groups)) b.next b.num_requests b.first_request)

  -- `strings.HasPrefix`
  unfoldable pub has_prefix : List ℕ → List ℕ → Bool
  has_prefix [] s = true
  has_prefix (c ∷ p) [] = false
  has_prefix (c ∷ p) (d ∷ s) = c == d && has_prefix p s

  unfoldable pub find_system_request : Bucket → Option ℕ
  unfolding find_loop has_prefix
  find_system_request b =
      find_loop (λ m. has_prefix (codes "SYSTEM:") m.payload) b.next b.num_requests b.first_request

  -- The request of the least GSN so far, and that GSN.
  unfoldable pub min_loop : (ℕ → Option ℕ) → ℕ → Option ℕ → Option ℕ → ℕ → Option ℕ
  min_loop nx zero r least gsn = least
  min_loop nx (suc fuel) none least gsn = least
  min_loop nx (suc fuel) (some r) least gsn =
      let m = (request_of r).msg in
      let better = ltb 0 m.gsn && ltb m.gsn gsn in
      min_loop nx fuel (nx r) (if better then some r else least) (if better then m.gsn else gsn)

  -- `FindMinByGSN` and `FindMinCrossOpByGSN`, which are the same.
  unfoldable pub find_min_by_gsn : Bucket → Option ℕ
  unfolding min_loop
  find_min_by_gsn b = min_loop b.next b.num_requests b.first_request none (2 ^ 64 - 1)

  unfoldable pub cross_loop : (ℕ → Option ℕ) → ℕ → Option ℕ → List ℕ
  cross_loop nx zero r = []
  cross_loop nx (suc fuel) none = []
  cross_loop nx (suc fuel) (some r) =
      let rest = cross_loop nx fuel (nx r) in
      if ltb 0 (request_of r).msg.gsn then r ∷ rest else rest

  unfoldable pub find_all_cross_ops : Bucket → List ℕ
  unfolding cross_loop
  find_all_cross_ops b = cross_loop b.next b.num_requests b.first_request

  -- The request after `r` is read before `r` is removed.
  unfoldable pub single_loop : ℕ → ℕ → Option ℕ → List ℕ → Bucket → Bucket × List ℕ
  unfolding remove_no_lock
  single_loop zero n r dest b = (b, dest)
  single_loop (suc fuel) zero r dest b = (b, dest)
  single_loop (suc fuel) (suc n) none dest b = (b, dest)
  single_loop (suc fuel) (suc n) (some r) dest b =
      if leb (length (request_of r).msg.touched_groups) 1
      then single_loop fuel n (b.next r) (dest ++ r ∷ []) (remove_no_lock r b)
      else single_loop fuel (suc n) (b.next r) dest b

  unfoldable pub remove_first_single_group : ℕ → List ℕ → Bucket → Bucket × List ℕ
  unfolding single_loop
  remove_first_single_group n dest b = single_loop b.num_requests n b.first_request dest b

  -- The first request of a list that passes the test.
  abbrev pub first_of : (ClientRequest → Bool) → List ℕ → Option ℕ
  first_of p [] = none
  first_of p (r ∷ rs) = if p (request_of r).msg then some r else first_of p rs

  find_loop-first_of :
      (p : ClientRequest → Bool) (nx pv : ℕ → Option ℕ) (fuel : ℕ) (before f last : Option ℕ)
      (xs : List ℕ)
      → length xs ≤ fuel
      → IsSegment nx pv before f xs last none
      → find_loop p nx fuel f ≡ first_of p xs
  unfolding find_loop
  find_loop-first_of p nx pv zero before f last [] h s = refl
  find_loop-first_of p nx pv zero before f last (x ∷ xs) h s = absurd (omega arith)
  find_loop-first_of p nx pv (suc fuel) before f last [] h s = rw s.0 refl
  find_loop-first_of p nx pv (suc fuel) before f last (x ∷ xs) h s =
      let rest = find_loop-first_of p nx pv fuel (some x) (nx x) last xs (omega arith) s.2 in
      rw (s.0, rest) refl

  -- A search along the links finds the first request of the list that the bucket holds.
  pub find_request_with_gsn-first_of :
      (gsn : ℕ) (b : Bucket) (xs : List ℕ)
      → Holds b xs
      → find_request_with_gsn gsn b ≡ first_of (λ m. m.gsn == gsn) xs
  unfolding find_request_with_gsn
  find_request_with_gsn-first_of gsn b xs h =
      find_loop-first_of (λ m. m.gsn == gsn) b.next b.prev b.num_requests none b.first_request
        b.last_request xs (omega (arith, h.count)) h.chain

-- The numbers of a client from `sn` on, over the number of rounds left, in the index of a bucket.
unfoldable pub prune_range : ℕ → ℕ → ℕ → ℕ → ℕ → Map ℕ → Map ℕ
unfolding erase
prune_range num_buckets id client zero sn index = index
prune_range num_buckets id client (suc rounds) sn index =
    prune_range num_buckets id client rounds (sn + 1)
      (if (client + sn) % num_buckets == id then erase (client * 2 ^ 32 + sn) index else index)

-- The clients with their old and new watermarks.
unfoldable pub prune_index : ℕ → List (ℕ × ℕ × ℕ) → Bucket → Bucket
unfolding prune_range
prune_index num_buckets [] b = b
prune_index num_buckets ((client, old, new) ∷ ws) b =
    prune_index num_buckets ws
      (record b { req_index = prune_range num_buckets b.id client (new - old) old b.req_index })
