-- ===== src/Buffer.antt =====
-- Buffer of mirbft/request/buffer.go: the window of request numbers of one client, with the backlog of
-- requests above it, which is a ChannelBuffer of mirbft/util/channelbuffer.go.
pub mod Watermark
use iss_com_multipaxos.Prelude.{
  ℕ, zero, suc, ◌+◌, Bool, true, false, ◌||◌, List, [], ◌∷◌, ◌++◌, ltb, leb, ◌==◌, if◌then◌else◌,
  length, contains, add_member, remove_member,
}
use iss_com_multipaxos.Request.{ClientRequest}

pub record Buffer : Type 0 where
  pub client_id : ℕ
  pub low_watermark : ℕ
  pub requests_committed : List ℕ
  pub backlog : List ClientRequest

unfoldable pub new_buffer : ℕ → Buffer
new_buffer client_id = record {
  client_id = client_id;
  low_watermark = 0;
  requests_committed = [];
  backlog = [];
}

-- `processInput` for one item; a capacity of 0 is no limit.
unfoldable pub channel_add : ℕ → ClientRequest → List ClientRequest → List ClientRequest
channel_add capacity item buffer =
    if capacity == 0 || ltb (length buffer) capacity then buffer ++ item ∷ [] else buffer

-- For the settings `ClientRequestBacklogSize` and `ClientWatermarkWindowSize`: the buffer, and whether
-- the request is within the window.
unfoldable pub add : ℕ → ℕ → ClientRequest → Buffer → Buffer × Bool
unfolding channel_add
add capacity window req b =
    if leb (b.low_watermark + window) req.client_sn
    then (record b { backlog = channel_add capacity req b.backlog }, false)
    else if ltb req.client_sn b.low_watermark
    then (b, false)
    else (b, true)

unfoldable pub mark_batch : ℕ → List ClientRequest → List ℕ → List ℕ
unfolding add_member contains
mark_batch id [] committed = committed
mark_batch id (r ∷ rs) committed =
    mark_batch id rs (if r.client_id == id then add_member r.client_sn committed else committed)

-- The requests of the client in the batches of the entries are committed.
unfoldable pub mark_entries : ℕ → List (List ClientRequest) → List ℕ → List ℕ
unfolding mark_batch
mark_entries id [] committed = committed
mark_entries id (batch ∷ es) committed = mark_entries id es (mark_batch id batch committed)

-- The loop that raises the watermark: a round takes one number out of the set.
unfoldable pub raise_loop : ℕ → Buffer → Buffer
unfolding contains remove_member
raise_loop zero b = b
raise_loop (suc fuel) b =
    let b' = raise_loop fuel (record b {
      requests_committed = remove_member b.low_watermark b.requests_committed;
      low_watermark = b.low_watermark + 1;
    }) in
    if contains b.low_watermark b.requests_committed then b' else b

-- The buffer, and the old and the new watermark; the backlog that is given to `processBacklog`.
unfoldable pub advance_watermarks :
    List (List ClientRequest) → Buffer → Buffer × (ℕ × ℕ) × List ClientRequest
unfolding mark_entries raise_loop
advance_watermarks entries b =
    let committed = mark_entries b.client_id entries b.requests_committed in
    let b' = raise_loop (length committed) (record b { requests_committed = committed }) in
    (record b' { backlog = [] }, (b.low_watermark, b'.low_watermark), b'.backlog)
