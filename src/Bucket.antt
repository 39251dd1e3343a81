-- ===== src/Bucket.antt =====
-- Bucket of mirbft/request/bucket.go: the requests that wait to be proposed, as a doubly linked list
-- through the `Next` and `Prev` fields of the requests, and an index by client and number. A pointer
-- to a request is a number; `none` of a pointer is nil. An operation that stops the program (a nil
-- pointer read, a panic, or `logger.Fatal`) is `none`.
pub mod Segment
pub mod Cut
pub mod Unlink
pub mod Links
pub mod Ends
pub mod History
pub mod Search
pub mod Single
use iss_com_multipaxos.Prelude.{
  ℕ, zero, suc, ◌+◌, ◌-◌, ◌*◌, ◌%◌, ◌^◌, Bool, true, false, not, ◌&&◌, ◌||◌, Option, none, some,
  List, [], ◌∷◌, ◌++◌, ltb, leb, ◌==◌, if◌then◌else◌, is_some, or_else, length, Map, lookup, insert,
  erase, ◌>>=◌,
}
use iss_com_multipaxos.Request.{ClientRequest}
use iss_com_multipaxos.Commands.Text.{eq_text}

-- Request of request.go, without its links.
pub record Request : Type 0 where
  pub msg : ClientRequest
  pub digest : List ℕ
  pub verified : Bool

pub record Bucket : Type 0 where
  pub id : ℕ
  pub grouped : Bool  -- `Group != nil`
  pub req_index : Map ℕ
  pub num_requests : ℕ
  pub first_request : Option ℕ
  pub last_request : Option ℕ
  pub next : ℕ → Option ℕ  -- of each request
  pub prev : ℕ → Option ℕ

unfoldable pub new_bucket : ℕ → Bucket
new_bucket id = record {
  id = id;
  grouped = false;
  req_index = [];
  num_requests = 0;
  first_request = none;
  last_request = none;
  next = λ r. none;
  prev = λ r. none;
}

-- The field of one request is set.
unfoldable pub set : ℕ → Option ℕ → (ℕ → Option ℕ) → ℕ → Option ℕ
set r v f j = if r == j then v else f j

-- `int64(clID)<<32 + int64(clSN)`
unfoldable pub req_id : ClientRequest → ℕ
req_id m = m.client_id * 2 ^ 32 + m.client_sn

unfoldable pub is_first : ℕ → Bucket → Bool
is_first r b = elim b.first_request [ none ↦ false | some f ↦ f == r ]

-- `req.Next == nil && req.Prev == nil && b.FirstRequest != req`
unfoldable pub is_loose : ℕ → Bucket → Bool
unfolding is_first
is_loose r b = not (is_some (b.next r)) && not (is_some (b.prev r)) && not (is_first r b)

unfoldable pub link_last : ℕ → Bucket → Option Bucket
unfolding set
link_last r b = elim b.first_request [
  | none ↦ some (record b {
    first_request = some r;
    last_request = some r;
    num_requests = b.num_requests + 1;
  })
  | some f ↦ elim b.last_request [
    | none ↦ none
    | some l ↦ some (record b {
      next = set l (some r) b.next;
      prev = set r (some l) b.prev;
      last_request = some r;
      num_requests = b.num_requests + 1;
    })
  ]
]

unfoldable pub append : ℕ → Bucket → Option Bucket
unfolding link_last
append r b = if is_some (b.prev r) || is_some (b.next r) then none else link_last r b

unfoldable pub link_first : ℕ → Bucket → Bucket
unfolding set
link_first r b = elim b.first_request [
  | none ↦ record b {
    first_request = some r;
    last_request = some r;
    num_requests = b.num_requests + 1;
  }
  | some f ↦ record b {
    prev = set f (some r) b.prev;
    next = set r (some f) b.next;
    first_request = some r;
    num_requests = b.num_requests + 1;
  }
]

-- The first branch on `Next`, and the first branch on `Prev`, of `removeNoLock`.
unfoldable pub unlink_next : ℕ → Bucket → Bucket
unfolding set
unlink_next r b = elim (b.next r) [
  | none ↦ record b { last_request = b.prev r }
  | some n ↦ record b { prev = set n (b.prev r) b.prev }
]

unfoldable pub unlink_prev : ℕ → Bucket → Bucket
unfolding set
unlink_prev r b = elim (b.prev r) [
  | none ↦ record b { first_request = b.next r }
  | some p ↦ record b { next = set p (b.next r) b.next }
]

unfoldable pub clear_links : ℕ → Bucket → Bucket
unfolding set
clear_links r b = record b {
  next = set r none b.next;
  prev = set r none b.prev;
  num_requests = b.num_requests - 1;
}

unfoldable pub remove_no_lock : ℕ → Bucket → Bucket
unfolding is_loose unlink_next unlink_prev clear_links
remove_no_lock r b = if is_loose r b then b else clear_links r (unlink_prev r (unlink_next r b))

-- `Remove`
unfoldable pub remove_all : List ℕ → Bucket → Bucket
unfolding remove_no_lock
remove_all [] b = b
remove_all (r ∷ rs) b = remove_all rs (remove_no_lock r b)

unfoldable pub remove_first : ℕ → List ℕ → Bucket → Option (Bucket × List ℕ)
unfolding remove_no_lock
remove_first zero dest b = some (b, dest)
remove_first (suc n) dest b = if b.num_requests == 0 then some (b, dest) else elim b.first_request [
  | none ↦ none
  | some r ↦ remove_first n (dest ++ r ∷ []) (remove_no_lock r b)
]

-- What `addNoLock` returns: the bucket, the request, whether to retry, and whether it notified the
-- group that waits for the bucket.
pub record Added : Type 0 where
  pub bucket : Bucket
  pub request : Option ℕ
  pub retry : Bool
  pub notified : Bool

unfoldable pub unchanged : Option ℕ → Bool → Bucket → Option Added
unchanged r retry b = some (record { bucket = b; request = r; retry = retry; notified = false })

-- The settings `SignRequests` and `VerifyRequestsEarly`, and the request behind each pointer.
module _ (sign_requests verify_early : Bool) (request_of : ℕ → Request) where
  unfoldable pub index_request : ℕ → Bucket → Bucket
  unfolding insert req_id
  index_request r b = record b { req_index = insert (req_id (request_of r).msg) r b.req_index }

  -- The branch for a request that is not in the index.
  unfoldable pub add_new : ℕ → Bucket → Option Added
  unfolding append index_request unchanged
  add_new r b =
      if sign_requests && verify_early && not (request_of r).verified
      then unchanged none true b
      else do
        b' ← append r b
        some (record {
          bucket = index_request r b';
          request = some r;
          retry = false;
          notified = b.grouped;
        })

  -- The branches for an index that has another request, `old`.
  unfoldable pub add_over : ℕ → ℕ → Bucket → Option Added
  unfolding append index_request unchanged remove_no_lock
  add_over old r b =
      if (request_of old).verified || not sign_requests
      then unchanged none false b
      else if (request_of r).verified
      then (do b' ← append r (remove_no_lock old b); unchanged (some r) false (index_request r b'))
      else unchanged none true b

  unfoldable pub add_no_lock : ℕ → Bucket → Option Added
  unfolding add_new add_over lookup req_id unchanged
  add_no_lock r b = elim (lookup (req_id (request_of r).msg) b.req_index) [
    | none ↦ add_new r b
    | some old ↦
        if eq_text (request_of old).digest (request_of r).digest
        then unchanged (some old) false b
        else add_over old r b
  ]

  -- The bucket, and whether it notified the group.
  unfoldable pub prepend : ℕ → Bucket → Option (Bucket × Bool)
  unfolding lookup req_id is_loose link_first
  prepend r b =
      if not (is_some (lookup (req_id (request_of r).msg) b.req_index))
      then none
      else if is_loose r b
      then some (link_first r b, b.grouped)
      else some (b, false)
