-- ===== src/Deliver/Global/Liveness.antt =====
-- When what a node waits for has arrived, it has delivered.
use iss_com_multipaxos.Prelude.{
  ℕ, ◌+◌, ◌≤◌, ◌<◌, ◌≡◌, true, inl, inr, List, arith, any, lookup, All, Bool-cases, ltb, leb, Bool,
  ap,
}
use iss_com_multipaxos.Request.{ClientRequest}
use iss_com_multipaxos.Deliver.Global.{
  GlobalDeliverer, Event, new_global_deliverer, run, touches_mine, drain_step,
}
use iss_com_multipaxos.Deliver.Global.Order.{run-Extends, new-Inv, groups_known}
use iss_com_multipaxos.Deliver.Global.Inv.{Inv, Fits}
use iss_com_multipaxos.Deliver.Global.Progress.{has_meta, has_req, Settled}
use iss_com_multipaxos.Deliver.Global.Arrival.{
  announces, decides, run-Takes, run-has_meta, run-has_req, new-Settled,
}

module _ (is_mine : ℕ → Bool) (groups_of : ℕ → List ℕ) (req_of : ℕ → ClientRequest) where
  -- A settled node that has the META of its next GSN, and the request if it touches the node, is
  -- not there to be found.
  next_missing :
      (g : GlobalDeliverer)
      → Inv groups_of req_of g
      → Settled is_mine g
      → has_meta (g.last_delivered + 1) g ≡ true
      → (touches_mine is_mine (groups_of (g.last_delivered + 1)) ≡ true
          → has_req (g.last_delivered + 1) g ≡ true)
      → ⊥
  unfolding drain_step
  next_missing g v s m r = elim (Bool-cases (ltb g.last_delivered g.meta_prefix)) [
    | inl e ↦
        let h : g.last_delivered < g.meta_prefix = ground arith in
        elim (Bool-cases (touches_mine is_mine (groups_of (g.last_delivered + 1)))) [
          | inl t ↦ ground (arith, groups_known is_mine groups_of req_of g v h, r t, s.ended)
          | inr t ↦ ground (arith, groups_known is_mine groups_of req_of g v h, s.ended)
        ]
    | inr e ↦
        let h : g.meta_prefix ≡ g.last_delivered = ground (arith, v.behind) in
        ground (arith, s.maximal, ap (λ k. lookup (k + 1) g.known) h)
  ]

  -- If each META names the groups of its GSN, each skipped GSN is of no group and each decided
  -- request is the one of its GSN, and the history brings the META of every GSN from 1 to `n`, or a
  -- skipped range that has it, and the requests of those that touch the node, then the node has
  -- passed `n`.
  pub run_delivers :
      (es : List Event) (n : ℕ)
      → All (Fits groups_of req_of) es
      → ((k : ℕ) → 1 ≤ k → k ≤ n → any (announces k) es ≡ true)
      → ((k : ℕ)
          → 1 ≤ k
          → k ≤ n
          → touches_mine is_mine (groups_of k) ≡ true
          → any (decides k) es ≡ true)
      → n ≤ (run is_mine es new_global_deliverer).0.last_delivered
  run_delivers es n h m r =
      let g : GlobalDeliverer = (run is_mine es new_global_deliverer).0 in
      let v : Inv groups_of req_of g =
        (run-Extends is_mine groups_of req_of es new_global_deliverer h
          (new-Inv is_mine groups_of req_of)).inv in
      let s : Settled is_mine g =
        (run-Takes is_mine es new_global_deliverer (new-Settled is_mine)).settled in
      elim (Bool-cases (leb n g.last_delivered)) [
        | inl e ↦ ground arith
        | inr e ↦ absurd (
            next_missing g v s
              (run-has_meta is_mine es new_global_deliverer (g.last_delivered + 1) (omega arith)
                (m (g.last_delivered + 1) (omega arith) (ground arith)) (new-Settled is_mine))
              (λ t.
                run-has_req is_mine es new_global_deliverer (g.last_delivered + 1) (omega arith)
                  (r (g.last_delivered + 1) (omega arith) (ground arith) t) (new-Settled is_mine)))
      ]
