-- ===== src/Buffer/Watermark.antt =====
-- How far the watermark of mirbft/request/buffer.go goes up.
use iss_com_multipaxos.Prelude.{
  ℕ, zero, suc, ◌+◌, leb, not, ◌&&◌, subst, ==_iff, ◌≤◌, ◌<◌, ◌≡◌, refl, true, false, inl, inr,
  List, [], ◌∷◌, ltb, ◌==◌, length, contains, contains-remove_member, remove_member,
  length-remove_member_there, arith, Bool-cases,
}
use iss_com_multipaxos.Request.{ClientRequest}
use iss_com_multipaxos.Buffer.{Buffer, mark_entries, raise_loop, advance_watermarks}

kept : (k j : ℕ) (xs : List ℕ) → contains k (remove_member j xs) ≡ true → contains k xs ≡ true
kept k j xs h = let e = contains-remove_member k j xs in ground arith

-- Where the loop stops, and that it passed committed numbers only.
pub record Raised (low : ℕ) (committed : List ℕ) (b : Buffer) : Type 0 where
  pub up : low ≤ b.low_watermark
  pub stopped : contains b.low_watermark b.requests_committed ≡ false
  pub passed : (k : ℕ) → low ≤ k → k < b.low_watermark → contains k committed ≡ true

nothing : (k : ℕ) (xs : List ℕ) → length xs ≤ 0 → contains k xs ≡ false
unfolding contains
nothing k [] h = refl
nothing k (x ∷ xs) h = absurd (omega arith)

raise_loop-Raised :
    (f : ℕ) (b : Buffer)
    → length b.requests_committed ≤ f
    → Raised b.low_watermark b.requests_committed (raise_loop f b)
unfolding raise_loop
raise_loop-Raised zero b h = record {
  up = omega arith;
  stopped = nothing b.low_watermark b.requests_committed h;
  passed = λ k i j. absurd (omega arith);
}
raise_loop-Raised (suc f) b h = elim (Bool-cases (contains b.low_watermark b.requests_committed)) [
  | inr e ↦ rw e (record { up = omega arith; stopped = e; passed = λ k i j. absurd (omega arith) })
  | inl e ↦
      let less = length-remove_member_there b.low_watermark b.requests_committed e in
      let next : Buffer = record b {
        requests_committed = remove_member b.low_watermark b.requests_committed;
        low_watermark = b.low_watermark + 1;
      } in
      let r = raise_loop-Raised f next (omega (arith, less)) in
      rw e (record {
        up = omega (arith, r.up);
        stopped = r.stopped;
        passed = λ k i j. elim (Bool-cases (b.low_watermark == k)) [
          | inl g ↦
              subst (λ x. contains x b.requests_committed ≡ true) ((==_iff b.low_watermark k).0 g) e
          | inr g ↦
              let there = r.passed k (ground arith) j in
              kept k b.low_watermark b.requests_committed there
        ];
      })
]

-- After the watermark of a buffer is advanced with the entries of the log, it is not below the old one,
-- the number at it is not committed, and no number from the old one up to below it is missing among
-- those that were committed before or by the entries.
pub advance_watermarks_stops :
    (es : List (List ClientRequest)) (b : Buffer) (k : ℕ)
    → (b.low_watermark ≤ (advance_watermarks es b).0.low_watermark)
      × (contains
            (advance_watermarks es b).0.low_watermark
            (advance_watermarks es b).0.requests_committed
          ≡ false)
      × ((leb b.low_watermark k
            && ltb k (advance_watermarks es b).0.low_watermark
            && not (contains k (mark_entries b.client_id es b.requests_committed)))
          ≡ false)
unfolding advance_watermarks
advance_watermarks_stops es b k =
    let committed : List ℕ = mark_entries b.client_id es b.requests_committed in
    let b' : Buffer = raise_loop (length committed) (record b { requests_committed = committed }) in
    let r =
      raise_loop-Raised (length committed) (record b { requests_committed = committed })
        (omega arith) in
    (r.up, r.stopped, none_missing b.low_watermark b'.low_watermark k committed (r.passed k))
  where
    none_missing :
        (low high k : ℕ) (committed : List ℕ)
        → (low ≤ k → k < high → contains k committed ≡ true)
        → (leb low k && ltb k high && not (contains k committed)) ≡ false
    none_missing low high k committed h = ground (arith, h)
