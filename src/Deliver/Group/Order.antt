-- ===== src/Deliver/Group/Order.antt =====
-- The cross-group operations that a replica delivers are those that META gives its group, in order.
use iss_com_multipaxos.Prelude.{
  ℕ, zero, suc, ◌+◌, ◌-◌, ◌≡◌, refl, sym, ap, subst, ◌∙◌, Bool, ◌||◌, List, [], ◌∷◌, ◌++◌, ltb,
  ◌==◌, contains, lookup, arith, inl, inr, All, Bool-cases, append_assoc, ◌⊎◌,
}
use iss_com_multipaxos.Request.{ClientRequest}
use iss_com_multipaxos.Deliver.Group.{
  LogItem, GroupDeliverer, new_group_deliverer, Round, leave, go_on, enter_batch, enter_request,
  drain_fuel, drain_round, drain_loop, drain, push, on_meta, compact, is_new, note_meta, note_skips,
  advance_prefix, on_skip, Event, step, run,
}
use iss_com_multipaxos.Deliver.Group.Inv.{
  Inv, Fits, note_meta-Inv, note_skips-Inv, advance_prefix-Inv, compact-Inv,
}
use iss_com_multipaxos.Deliver.Group.Enter.{enter_batch-Inv}
use iss_com_multipaxos.Deliver.Group.Cursor.{wanted}
use iss_com_multipaxos.Deliver.Group.Rounds.{
  cross_gsns, cross_gsns-append, Extends, RoundExtends, stay-Extends, drain_round-Extends,
}

pub Round-cases :
    (r : Round)
    → ((d : GroupDeliverer) × (r ≡ leave d))
      ⊎ ((d : GroupDeliverer) × (out : List LogItem) × (r ≡ go_on d out))
Round-cases (leave d) = inl (d, refl)
Round-cases (go_on d out) = inr (d, out, refl)

-- What `Push`, `OnMeta` and `OnSkip` do before they drain leaves the cursor.
enter_request_cursor :
    (sn : ℕ) (leader : Bool) (r : ClientRequest) (d : GroupDeliverer)
    → (enter_request sn leader r d).cursor ≡ d.cursor
unfolding enter_request
enter_request_cursor sn leader r d = ground arith

enter_batch_cursor :
    (sn : ℕ) (leader : Bool) (rs : List ClientRequest) (d : GroupDeliverer)
    → (enter_batch sn leader rs d).cursor ≡ d.cursor
unfolding enter_batch
enter_batch_cursor sn leader [] d = refl
enter_batch_cursor sn leader (r ∷ rs) d =
    enter_batch_cursor sn leader rs (enter_request sn leader r d)
    ∙ enter_request_cursor sn leader r d

note_meta_cursor :
    (gsn : ℕ) (groups : List ℕ) (d : GroupDeliverer) → (note_meta gsn groups d).cursor ≡ d.cursor
unfolding note_meta
note_meta_cursor gsn groups d = ground arith

note_skips_cursor : (n from : ℕ) (d : GroupDeliverer) → (note_skips n from d).cursor ≡ d.cursor
unfolding note_skips
note_skips_cursor zero from d = refl
note_skips_cursor (suc n) from d =
    note_skips_cursor n (from + 1) (note_meta from [] d) ∙ note_meta_cursor from [] d

advance_prefix_cursor : (d : GroupDeliverer) → (advance_prefix d).cursor ≡ d.cursor
unfolding advance_prefix
advance_prefix_cursor d = refl

compact_cursor : (d : GroupDeliverer) → (compact d).cursor ≡ d.cursor
unfolding compact
compact_cursor d = ground arith

module _ (gid : ℕ) (groups_of : ℕ → List ℕ) where
  then-Extends :
      (n : ℕ) (d : GroupDeliverer) (out rest : List LogItem) (d' : GroupDeliverer)
      → Extends gid groups_of n d out
      → Extends gid groups_of d.cursor d' rest
      → Extends gid groups_of n d' (out ++ rest)
  then-Extends n d out rest d' a b = record {
    inv = b.inv;
    exact =
        b.exact
        ∙ ap (λ l. l ++ cross_gsns rest) a.exact
        ∙ append_assoc _ (cross_gsns out) (cross_gsns rest)
        ∙ ap (λ l. wanted gid groups_of n ++ l) (sym (cross_gsns-append out rest));
  }

  drain_loop-Extends :
      (f : ℕ) (d : GroupDeliverer)
      → Inv gid groups_of d
      → Extends gid groups_of d.cursor (drain_loop f d).0 (drain_loop f d).1
  unfolding drain_loop
  drain_loop-Extends zero d v = stay-Extends gid groups_of d.cursor d refl v
  drain_loop-Extends (suc f) d v = elim (Round-cases (drain_round d)) [
    | inl (d', e) ↦
        rw (e, drain_loop)
          (subst (RoundExtends gid groups_of d.cursor) e (drain_round-Extends gid groups_of d v))
    | inr (d', out, e) ↦
        let first : Extends gid groups_of d.cursor d' out =
          subst (RoundExtends gid groups_of d.cursor) e (drain_round-Extends gid groups_of d v) in
        rw (e, drain_loop)
          (then-Extends d.cursor d' out (drain_loop f d').1 _ first
            (drain_loop-Extends f d' first.inv))
  ]

  drain-Extends :
      (n : ℕ) (d : GroupDeliverer)
      → d.cursor ≡ n
      → Inv gid groups_of d
      → Extends gid groups_of n (drain d).0 (drain d).1
  unfolding drain
  drain-Extends n d e v =
      let x = drain_loop-Extends (drain_fuel d) d v in
      record {
        inv = compact-Inv _ x.inv;
        exact = rw (compact_cursor (drain_loop (drain_fuel d) d).0, ← e) x.exact;
      }

  step-Extends :
      (d : GroupDeliverer) (e : Event)
      → Fits gid groups_of e
      → Inv gid groups_of d
      → Extends gid groups_of d.cursor (step e d).0 (step e d).1
  unfolding step push on_meta on_skip
  step-Extends d (Event.batch sn [] leader) h v = stay-Extends gid groups_of d.cursor d refl v
  step-Extends d (Event.batch sn (r ∷ rs) leader) h v =
      drain-Extends d.cursor _ (enter_batch_cursor sn leader (r ∷ rs) d)
        (enter_batch-Inv sn leader (r ∷ rs) d h v)
  step-Extends d (Event.meta gsn groups) h v = elim (Bool-cases (gsn == 0)) [
    | inl e ↦ rw e (stay-Extends gid groups_of d.cursor d refl v)
    | inr e ↦ rw e (elim (Bool-cases (is_new gsn d)) [
      | inl e' ↦ rw e' (
          drain-Extends d.cursor _
            (advance_prefix_cursor (note_meta gsn groups d) ∙ note_meta_cursor gsn groups d)
            (advance_prefix-Inv _ (note_meta-Inv gsn groups d h v)))
      | inr e' ↦ rw e' (drain-Extends d.cursor d refl v)
    ])
  ]
  step-Extends d (Event.skip from to) h v = elim (Bool-cases (from == 0 || ltb to from)) [
    | inl e ↦ rw e (stay-Extends gid groups_of d.cursor d refl v)
    | inr e ↦ rw e (
        drain-Extends d.cursor _
          (advance_prefix_cursor (note_skips (to + 1 - from) from d) ∙ note_skips_cursor _ from d)
          (advance_prefix-Inv _ (note_skips-Inv _ from d (λ k a b. h k a (omega arith)) v)))
  ]

  run-Extends :
      (es : List Event) (d : GroupDeliverer)
      → All (Fits gid groups_of) es
      → Inv gid groups_of d
      → Extends gid groups_of d.cursor (run es d).0 (run es d).1
  unfolding run
  run-Extends [] d h v = stay-Extends gid groups_of d.cursor d refl v
  run-Extends (e ∷ es) d h v =
      let first = step-Extends d e h.0 v in
      then-Extends d.cursor (step e d).0 (step e d).1 (run es (step e d).0).1 _ first
        (run-Extends es (step e d).0 h.1 first.inv)

  new-Inv : Inv gid groups_of (new_group_deliverer gid)
  unfolding new_group_deliverer lookup contains
  new-Inv = record {
    same = refl;
    metas = λ k gs h. cc;
    behind = omega arith;
    covered = λ k a b. absurd (omega arith);
    passed = λ k h. cc;
    within = omega arith;
    waiting = tt;
    apart = tt;
    ahead = λ k it h. cc;
  }

  -- Whatever the order in which batches, META and skipped ranges reach a replica, if each META
  -- names the groups of its GSN, each skipped GSN is of no group and each cross-group operation of
  -- the log has a GSN of two or more groups with the replica's among them, then the cross-group
  -- operations that the replica has delivered are, in order and each once, the GSNs of its group up
  -- to its cursor.
  pub cross_gsns-run :
      (es : List Event)
      → All (Fits gid groups_of) es
      → cross_gsns (run es (new_group_deliverer gid)).1
        ≡ wanted gid groups_of (run es (new_group_deliverer gid)).0.cursor
  cross_gsns-run es h = sym (
      (run-Extends es (new_group_deliverer gid) h new-Inv).exact
      ∙ unfold new_group_deliverer wanted in refl)
