-- ===== src/Examples/Windows.antt =====
-- A client with a window of four requests, two of which are committed.
use iss_com_multipaxos.Prelude.{
  ℕ, ◌≤◌, ◌≡◌, refl, false, not, ◌&&◌, List, [], ◌∷◌, leb, ltb, contains, remove_member,
}
use iss_com_multipaxos.Request.{ClientRequest}
use iss_com_multipaxos.Buffer.{
  new_buffer, add, channel_add, mark_entries, mark_batch, raise_loop, advance_watermarks,
}
use iss_com_multipaxos.Buffer.Watermark.{advance_watermarks_stops}

abbrev request : ℕ → ClientRequest
request sn = record {
  client_id = 5;
  client_sn = sn;
  payload = [];
  group_id = 1;
  touched_groups = [];
  gsn = 0;
}

abbrev decided : List (List ClientRequest)
decided = (request 1 ∷ []) ∷ (request 0 ∷ request 3 ∷ []) ∷ []

above_the_window : (add 2 4 (request 4) (new_buffer 5)).0.backlog ≡ request 4 ∷ []
unfolding add channel_add new_buffer
above_the_window = refl

raised : (advance_watermarks decided (new_buffer 5)).0.low_watermark ≡ 2
unfolding advance_watermarks mark_entries mark_batch raise_loop new_buffer contains remove_member
raised = refl

advance_watermarks_stops_example :
    ((new_buffer 5).low_watermark ≤ (advance_watermarks decided (new_buffer 5)).0.low_watermark)
    × (contains
          (advance_watermarks decided (new_buffer 5)).0.low_watermark
          (advance_watermarks decided (new_buffer 5)).0.requests_committed
        ≡ false)
    × ((leb (new_buffer 5).low_watermark 1
          && ltb 1 (advance_watermarks decided (new_buffer 5)).0.low_watermark
          && not (contains 1 (mark_entries 5 decided (new_buffer 5).requests_committed)))
        ≡ false)
unfolding new_buffer
advance_watermarks_stops_example = advance_watermarks_stops decided (new_buffer 5) 1
