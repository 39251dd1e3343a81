-- ===== src/Deliver/Group/Enter.antt =====
-- `Push` enters a batch into the log.
use iss_com_multipaxos.Prelude.{
  ℕ, ◌≤◌, ap, Bool, ◌||◌, List, [], ◌∷◌, ◌++◌, leb, is_some, length, contains, drop, lookup, insert,
  arith, inl, inr, All, All-append, Bool-cases, lookup-insert, drop-append, length-append,
}
use iss_com_multipaxos.Request.{ClientRequest}
use iss_com_multipaxos.Deliver.Group.{
  LogItem, is_cross_op, GroupDeliverer, enter_request, enter_batch,
}
use iss_com_multipaxos.Deliver.Group.Inv.{
  Inv, Waits, Apart, AllApart, AllApart-snoc, All-weaken, FitsRequest,
}

module _ {gid : ℕ} {groups_of : ℕ → List ℕ} where
  append_waiting :
      (d d' : GroupDeliverer) (it : LogItem)
      → Inv gid groups_of d
      → ((x : LogItem) → Waits gid groups_of d x → Waits gid groups_of d' x)
      → Waits gid groups_of d' it
      → All (Waits gid groups_of d') (drop d.head (d.log ++ it ∷ []))
  append_waiting d d' it v keep w =
      rw (drop-append d.head d.log (it ∷ []) v.within)
        (All-append _ (drop d.head d.log) (it ∷ []) (All-weaken _ _ _ keep v.waiting) (w, tt))

  append-Apart :
      (d : GroupDeliverer) (it : LogItem)
      → Inv gid groups_of d
      → ((x : LogItem) → Waits gid groups_of d x → Apart x it)
      → AllApart (drop d.head (d.log ++ it ∷ []))
  append-Apart d it v far =
      rw (drop-append d.head d.log (it ∷ []) v.within)
        (AllApart-snoc _ it v.apart (All-weaken _ _ _ far v.waiting))

  append_within :
      (d : GroupDeliverer) (it : LogItem) → Inv gid groups_of d → d.head ≤ length (d.log ++ it ∷ [])
  append_within d it v = omega (arith, length-append d.log (it ∷ []), v.within)

  pub enter_request-Inv :
      (sn : ℕ) (leader : Bool) (r : ClientRequest) (d : GroupDeliverer)
      → FitsRequest gid groups_of r
      → Inv gid groups_of d
      → Inv gid groups_of (enter_request sn leader r d)
  unfolding enter_request
  enter_request-Inv sn leader r d f v = elim (Bool-cases (is_cross_op r)) [
    | inr local ↦
        rw (local, enter_request)
          (record {
            same = v.same;
            metas = v.metas;
            behind = v.behind;
            covered = v.covered;
            passed = v.passed;
            within = append_within d it v;
            waiting = append_waiting d d it v (λ x w. w) (λ c. cc);
            apart = append-Apart d it v (λ x w a b. cc);
            ahead = v.ahead;
          })
    | inl cross ↦ elim (Bool-cases (leb r.gsn d.cursor || contains r.gsn d.early)) [
      | inl old ↦ rw (cross, old, enter_request) v
      | inr fresh ↦ elim (Bool-cases (is_some (lookup r.gsn d.cross_in_log))) [
        | inl dup ↦ rw (cross, fresh, dup, enter_request) v
        | inr first ↦
            rw (cross, fresh, first, enter_request)
              (record {
                same = v.same;
                metas = v.metas;
                behind = v.behind;
                covered = v.covered;
                passed = v.passed;
                within = append_within d it v;
                waiting =
                    append_waiting d (record d { cross_in_log = insert r.gsn it d.cross_in_log }) it
                      v
                      (λ x w c.
                        ground (arith, w c, lookup-insert x.req.gsn r.gsn it d.cross_in_log))
                      (λ c. (f cross, ground (arith, lookup-insert r.gsn r.gsn it d.cross_in_log)));
                apart = append-Apart d it v (λ x w a b e. ground (
                  arith,
                  w a,
                  ap (λ k. contains k d.early) e,
                  ap (λ k. lookup k d.cross_in_log) e,
                ));
                ahead = λ k it' e.
                    ground (arith, v.ahead k it', f cross, lookup-insert k r.gsn it d.cross_in_log);
              })
      ]
    ]
  ]
    where
      it : LogItem
      it = record { sn = sn; leader = leader; req = r }

  pub enter_batch-Inv :
      (sn : ℕ) (leader : Bool) (rs : List ClientRequest) (d : GroupDeliverer)
      → All (FitsRequest gid groups_of) rs
      → Inv gid groups_of d
      → Inv gid groups_of (enter_batch sn leader rs d)
  unfolding enter_batch
  enter_batch-Inv sn leader [] d f v = v
  enter_batch-Inv sn leader (r ∷ rs) d f v =
      enter_batch-Inv sn leader rs (enter_request sn leader r d) f.1
        (enter_request-Inv sn leader r d f.0 v)
