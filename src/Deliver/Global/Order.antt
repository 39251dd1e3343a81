-- ===== src/Deliver/Global/Order.antt =====
-- What a node delivers, against the sequence that META and the decided requests fix.
use iss_com_multipaxos.Prelude.{
  ℕ, zero, suc, ◌+◌, ◌-◌, ◌≤◌, ◌<◌, ◌≡◌, refl, sym, ap, ◌∙◌, Bool, inl, inr, some, List, [], ◌∷◌,
  ◌++◌, append-nil, append_assoc, arith, ltb, ◌==◌, ◌||◌, or_else, lookup, All, subst, Bool-cases,
  Option-cases,
}
use iss_com_multipaxos.Request.{ClientRequest}
use iss_com_multipaxos.Deliver.Global.{
  GlobalDeliverer, GlobalDelivery, is_new, note_meta, note_skips, retire, Event,
  new_global_deliverer, step, run, drain_step, drain_loop, drain, on_meta, on_skip, on_commit,
}
use iss_com_multipaxos.Deliver.Global.Inv.{
  Inv, Fits, ideal, ideal_at, note_meta-Inv, advance_prefix-Inv, retire-Inv, note_skips-Inv,
  note_commit-Inv, note_meta_last, note_skips_last, advance_prefix_last, note_commit_last,
}

module _ (is_mine : ℕ → Bool) (groups_of : ℕ → List ℕ) (req_of : ℕ → ClientRequest) where
  -- What a state and its outgoing deliveries must meet, for a node that stood at `n`.
  pub record Extends (n : ℕ) (p : GlobalDeliverer × List GlobalDelivery) : Type 0 where
    pub inv : Inv groups_of req_of p.0
    pub onward : n ≤ p.0.last_delivered
    pub exact :
        ideal is_mine groups_of req_of p.0.last_delivered ≡ ideal is_mine groups_of req_of n ++ p.1

  stay-Extends : (g : GlobalDeliverer) → Inv groups_of req_of g → Extends g.last_delivered (g, [])
  stay-Extends g v = record { inv = v; onward = omega arith; exact = sym (append-nil _) }

  then-Extends :
      (n : ℕ) (g : GlobalDeliverer) (out rest : List GlobalDelivery) (g' : GlobalDeliverer)
      → Extends n (g, out)
      → Extends g.last_delivered (g', rest)
      → Extends n (g', out ++ rest)
  then-Extends n g out rest g' a b = record {
    inv = b.inv;
    onward = omega (arith, a.onward, b.onward);
    exact = b.exact ∙ ap (λ l. l ++ rest) a.exact ∙ append_assoc _ out rest;
  }

  pub ideal-add-one :
      (n : ℕ)
      → ideal is_mine groups_of req_of (n + 1)
        ≡ ideal is_mine groups_of req_of n ++ ideal_at is_mine groups_of req_of (n + 1)
  unfolding ideal
  ideal-add-one n = let e : n + 1 ≡ suc n = omega arith in rw e

  pub groups_known :
      (g : GlobalDeliverer)
      → Inv groups_of req_of g
      → g.last_delivered < g.meta_prefix
      → or_else (lookup (g.last_delivered + 1) g.known) [] ≡ groups_of (g.last_delivered + 1)
  groups_known g v h = elim (Option-cases (lookup (g.last_delivered + 1) g.known)) [
    | inl e ↦ ground (arith, v.covered (g.last_delivered + 1))
    | inr (gs, e) ↦ rw e (v.metas (g.last_delivered + 1) gs e)
  ]

  pub drain_step_lem :
      (g g' : GlobalDeliverer) (out : List GlobalDelivery)
      → Inv groups_of req_of g
      → drain_step is_mine g ≡ some (g', out)
      → (g.last_delivered < g.meta_prefix)
        × (g' ≡ retire (g.last_delivered + 1) g)
        × (out ≡ ideal_at is_mine groups_of req_of (g.last_delivered + 1))
  unfolding drain_step
  drain_step_lem g g' out v e = elim (Option-cases (lookup (g.last_delivered + 1) g.committed)) [
    | inl c ↦ ground (arith, groups_known g v)
    | inr (r, c) ↦ ground (arith, groups_known g v, v.reqs (g.last_delivered + 1) r c)
  ]

  drain_step-Extends :
      (g g' : GlobalDeliverer) (out : List GlobalDelivery)
      → Inv groups_of req_of g
      → drain_step is_mine g ≡ some (g', out)
      → Extends g.last_delivered (g', out)
  unfolding retire
  drain_step-Extends g g' out v e =
      let (h, p, q) = drain_step_lem g g' out v e in
      rw (p, q)
        (record {
          inv = retire-Inv g h v;
          onward = omega arith;
          exact = ideal-add-one g.last_delivered;
        })

  drain_loop-Extends :
      (f : ℕ) (g : GlobalDeliverer)
      → Inv groups_of req_of g
      → Extends g.last_delivered (drain_loop is_mine f g)
  unfolding drain_loop
  drain_loop-Extends zero g v = stay-Extends g v
  drain_loop-Extends (suc f) g v = elim (Option-cases (drain_step is_mine g)) [
    | inl e ↦ rw (e, drain_loop) (stay-Extends g v)
    | inr ((g', out), e) ↦
        let first = drain_step-Extends g g' out v e in
        rw (e, drain_loop)
          (then-Extends g.last_delivered g' out (drain_loop is_mine f g').1 _ first
            (drain_loop-Extends f g' first.inv))
  ]

  drain-Extends :
      (n : ℕ) (g : GlobalDeliverer)
      → g.last_delivered ≡ n
      → Inv groups_of req_of g
      → Extends n (drain is_mine g)
  unfolding drain
  drain-Extends n g e v = subst (λ k. Extends k (drain is_mine g)) e (drain_loop-Extends _ g v)

  on_meta-Extends :
      (gsn : ℕ) (groups : List ℕ) (g : GlobalDeliverer)
      → groups ≡ groups_of gsn
      → Inv groups_of req_of g
      → Extends g.last_delivered (on_meta is_mine gsn groups g)
  unfolding on_meta
  on_meta-Extends gsn groups g h v = elim (Bool-cases (gsn == 0)) [
    | inl e ↦ rw e (stay-Extends g v)
    | inr e ↦ rw e (elim (Bool-cases (is_new gsn g)) [
      | inl e' ↦ rw e' (
          drain-Extends g.last_delivered _
            (advance_prefix_last (note_meta gsn groups g) ∙ note_meta_last gsn groups g)
            (advance_prefix-Inv _ (note_meta-Inv gsn groups g h v)))
      | inr e' ↦ rw e' (drain-Extends g.last_delivered g refl v)
    ])
  ]

  on_skip-Extends :
      (from to : ℕ) (g : GlobalDeliverer)
      → ((k : ℕ) → from ≤ k → k ≤ to → groups_of k ≡ [])
      → Inv groups_of req_of g
      → Extends g.last_delivered (on_skip is_mine from to g)
  unfolding on_skip
  on_skip-Extends from to g h v = elim (Bool-cases (from == 0 || ltb to from)) [
    | inl e ↦ rw e (stay-Extends g v)
    | inr e ↦ rw e (
        drain-Extends g.last_delivered _
          (advance_prefix_last (note_skips (to + 1 - from) from g) ∙ note_skips_last _ from g)
          (advance_prefix-Inv _ (note_skips-Inv _ from g (λ k a b. h k a (omega arith)) v)))
  ]

  on_commit-Extends :
      (r : ClientRequest) (g : GlobalDeliverer)
      → r ≡ req_of r.gsn
      → Inv groups_of req_of g
      → Extends g.last_delivered (on_commit is_mine r g)
  unfolding on_commit
  on_commit-Extends r g h v = elim (Bool-cases (r.gsn == 0)) [
    | inl e ↦ rw e (stay-Extends g v)
    | inr e ↦ rw e (
        drain-Extends g.last_delivered _ (note_commit_last is_mine r g)
          (note_commit-Inv is_mine r g h v))
  ]

  pub step-Extends :
      (g : GlobalDeliverer) (e : Event)
      → Fits groups_of req_of e
      → Inv groups_of req_of g
      → Extends g.last_delivered (step is_mine e g)
  unfolding step
  step-Extends g (Event.meta gsn groups) h v = on_meta-Extends gsn groups g h v
  step-Extends g (Event.skip from to) h v = on_skip-Extends from to g h v
  step-Extends g (Event.commit r) h v = on_commit-Extends r g h v

  pub run-Extends :
      (es : List Event) (g : GlobalDeliverer)
      → All (Fits groups_of req_of) es
      → Inv groups_of req_of g
      → Extends g.last_delivered (run is_mine es g)
  unfolding run
  run-Extends [] g h v = stay-Extends g v
  run-Extends (e ∷ es) g h v =
      let first = step-Extends g e h.0 v in
      then-Extends g.last_delivered (step is_mine e g).0 (step is_mine e g).1
        (run is_mine es (step is_mine e g).0).1 _ first
        (run-Extends es (step is_mine e g).0 h.1 first.inv)

  pub new-Inv : Inv groups_of req_of new_global_deliverer
  unfolding new_global_deliverer lookup
  new-Inv = record {
    metas = λ k gs h. cc;
    reqs = λ k r h. cc;
    behind = omega arith;
    covered = λ k a b. absurd (omega arith);
  }
