-- ===== src/Deliver/Group/Rounds.antt =====
-- A round of `drainLocked` keeps the invariant, and delivers the next cross-operation or none.
use iss_com_multipaxos.Prelude.{
  ℕ, suc, ◌+◌, ◌<◌, ◌≡◌, refl, sym, ap, subst, ◌∙◌, true, false, some, List, [], ◌∷◌, ◌++◌, ltb,
  ◌==◌, if◌then◌else◌, contains, add_member, remove_member, get_elem?, drop, lookup, arith, inl,
  inr, All, Bool-cases, Option-cases, lookup-erase, contains-add_member, contains-remove_member,
  drop-get_elem?, get_elem?-lt, append-nil, ◌⊎◌,
}
use iss_com_multipaxos.Deliver.Group.{
  LogItem, is_cross_op, GroupDeliverer, Round, leave, go_on, advance_cursor, mark_delivered,
  drain_cross, drain_item, drain_round,
}
use iss_com_multipaxos.Deliver.Group.Inv.{Inv, Waits, Apart, AllApart, relevant, All-weaken}
use iss_com_multipaxos.Deliver.Group.Cursor.{wanted, wanted-add-one, advance_cursor-Advanced}

-- The GSNs of the cross-group operations among some deliveries.
unfoldable pub cross_gsns : List LogItem → List ℕ
cross_gsns [] = []
cross_gsns (it ∷ items) =
    let rest = cross_gsns items in if is_cross_op it.req then it.req.gsn ∷ rest else rest

pub cross_gsns-append :
    (xs ys : List LogItem) → cross_gsns (xs ++ ys) ≡ cross_gsns xs ++ cross_gsns ys
unfolding cross_gsns
cross_gsns-append [] ys = refl
cross_gsns-append (x ∷ xs) ys = ground (arith, cross_gsns-append xs ys)

All-both {ℓ κ μ ν} :
    {A : Type ℓ} (P : A → Type κ) (Q : A → Type μ) (R : A → Type ν) (xs : List A)
    → ((x : A) → P x → Q x → R x)
    → All P xs
    → All Q xs
    → All R xs
All-both P Q R [] f p q = tt
All-both P Q R (x ∷ xs) f p q = (f x p.0 q.0, All-both P Q R xs f p.1 q.1)

module _ (gid : ℕ) (groups_of : ℕ → List ℕ) where
  pub record Extends (n : ℕ) (d : GroupDeliverer) (out : List LogItem) : Type 0 where
    pub inv : Inv gid groups_of d
    pub exact : wanted gid groups_of d.cursor ≡ wanted gid groups_of n ++ cross_gsns out

  -- A round that breaks out delivers nothing.
  abbrev pub RoundExtends : ℕ → Round → Type 0
  RoundExtends n (leave d) = Extends n d []
  RoundExtends n (go_on d out) = Extends n d out

  -- The first waiting entry, and the others.
  head_waiting :
      (d : GroupDeliverer) (it : LogItem)
      → Inv gid groups_of d
      → get_elem? d.log d.head ≡ some it
      → Waits gid groups_of d it
        × All (Waits gid groups_of d) (drop (suc d.head) d.log)
        × All (Apart it) (drop (suc d.head) d.log)
        × AllApart (drop (suc d.head) d.log)
  head_waiting d it v e =
      let split = drop-get_elem? d.head d.log e in
      let w : All (Waits gid groups_of d) (it ∷ drop (suc d.head) d.log) =
        subst (All (Waits gid groups_of d)) split v.waiting in
      let a : AllApart (it ∷ drop (suc d.head) d.log) = subst AllApart split v.apart in
      (w.0, w.1, a.0, a.1)

  local_round :
      (d : GroupDeliverer) (it : LogItem)
      → Inv gid groups_of d
      → get_elem? d.log d.head ≡ some it
      → is_cross_op it.req ≡ false
      → Extends d.cursor (record d { head = d.head + 1 }) (it ∷ [])
  local_round d it v e c =
      let (w, ws, a, as') = head_waiting d it v e in
      let next : d.head + 1 ≡ suc d.head = omega arith in
      record {
        inv = record {
          same = v.same;
          metas = v.metas;
          behind = v.behind;
          covered = v.covered;
          passed = v.passed;
          within = omega (arith, get_elem?-lt d.head d.log e);
          waiting = rw next ws;
          apart = rw next as';
          ahead = v.ahead;
        };
        exact = unfold cross_gsns in rw (c, append-nil (wanted gid groups_of d.cursor));
      }

  -- The head was delivered early: it is passed over.
  early_round :
      (d : GroupDeliverer) (it : LogItem)
      → Inv gid groups_of d
      → get_elem? d.log d.head ≡ some it
      → is_cross_op it.req ≡ true
      → Extends d.cursor
          (record d { early = remove_member it.req.gsn d.early; head = d.head + 1 })
          []
  early_round d it v e c =
      let (w, ws, a, as') = head_waiting d it v e in
      let next : d.head + 1 ≡ suc d.head = omega arith in
      record {
        inv = record {
          same = v.same;
          metas = v.metas;
          behind = v.behind;
          covered = v.covered;
          passed = λ k p. ground (arith, v.passed k, contains-remove_member k it.req.gsn d.early);
          within = omega (arith, get_elem?-lt d.head d.log e);
          waiting = rw next (
              All-both _ _ _ _
                (λ x w' far c'.
                  ground
                    (arith, w' c', far c c', contains-remove_member x.req.gsn it.req.gsn d.early))
                ws a);
          apart = rw next as';
          ahead = v.ahead;
        };
        exact = unfold cross_gsns in sym (append-nil (wanted gid groups_of d.cursor));
      }

  deliver_exact :
      (d : GroupDeliverer) (it : LogItem)
      → is_cross_op it.req ≡ true
      → it.req.gsn ≡ d.cursor + 1
      → relevant gid (groups_of (d.cursor + 1)) ≡ true
      → wanted gid groups_of (mark_delivered it.req.gsn d).cursor
        ≡ wanted gid groups_of d.cursor ++ cross_gsns (it ∷ [])
  unfolding mark_delivered cross_gsns
  deliver_exact d it c e r =
      let moved : (if it.req.gsn == d.cursor + 1 then it.req.gsn else d.cursor) ≡ d.cursor + 1 =
        ground arith in
      rw (moved, c, e) (wanted-add-one gid groups_of d.cursor ∙ rw r)

  -- The head is the next GSN.
  next_round :
      (d : GroupDeliverer) (it : LogItem)
      → Inv gid groups_of d
      → get_elem? d.log d.head ≡ some it
      → is_cross_op it.req ≡ true
      → it.req.gsn ≡ d.cursor + 1
      → d.cursor < d.meta_prefix
      → relevant gid (groups_of (d.cursor + 1)) ≡ true
      → Extends d.cursor (record (mark_delivered it.req.gsn d) { head = d.head + 1 }) (it ∷ [])
  unfolding mark_delivered
  next_round d it v e c n h r =
      let (w, ws, a, as') = head_waiting d it v e in
      let next : d.head + 1 ≡ suc d.head = omega arith in
      record {
        inv = record {
          same = v.same;
          metas = λ k gs p. ground (arith, v.metas k gs, lookup-erase k it.req.gsn d.known);
          behind = ground arith;
          covered = λ k p q. ground (arith, v.covered k, lookup-erase k it.req.gsn d.known);
          passed = λ k p. ground (arith, v.passed k);
          within = omega (arith, get_elem?-lt d.head d.log e);
          waiting = rw next (
              All-both _ _ _ _
                (λ x w' far c'.
                  ground (arith, w' c', far c c', lookup-erase x.req.gsn it.req.gsn d.cross_in_log))
                ws a);
          apart = rw next as';
          ahead = λ k x p. ground (arith, v.ahead k x, lookup-erase k it.req.gsn d.cross_in_log);
        };
        exact = deliver_exact d it c n r;
      }

  -- The next GSN is further on in the log: it is delivered early.
  ahead_round :
      (d : GroupDeliverer) (it : LogItem) (next : ℕ)
      → Inv gid groups_of d
      → lookup next d.cross_in_log ≡ some it
      → next ≡ d.cursor + 1
      → d.cursor < d.meta_prefix
      → relevant gid (groups_of next) ≡ true
      → Extends d.cursor
          (mark_delivered next (record d { early = add_member next d.early }))
          (it ∷ [])
  unfolding mark_delivered
  ahead_round d it next v e n h r =
      let facts = v.ahead next it e in
      let moved : (if next == d.cursor + 1 then next else d.cursor) ≡ d.cursor + 1 = ground arith in
      record {
        inv = record {
          same = v.same;
          metas = λ k gs p. ground (arith, v.metas k gs, lookup-erase k next d.known);
          behind = ground arith;
          covered = λ k p q. ground (arith, v.covered k, lookup-erase k next d.known);
          passed = λ k p. ground (arith, v.passed k, contains-add_member k next d.early);
          within = v.within;
          waiting =
              All-weaken _ _ _
                (λ x w c. ground (
                  arith,
                  w c,
                  contains-add_member x.req.gsn next d.early,
                  lookup-erase x.req.gsn next d.cross_in_log,
                ))
                v.waiting;
          apart = v.apart;
          ahead = λ k x p. ground (arith, v.ahead k x, lookup-erase k next d.cross_in_log);
        };
        exact =
            unfold cross_gsns in
            rw (moved, facts.2, facts.3, n)
              (wanted-add-one gid groups_of d.cursor
                ∙ ap (λ l. wanted gid groups_of d.cursor ++ l) (rw (← n) (rw r)));
      }

  pub stay-Extends :
      (n : ℕ) (d : GroupDeliverer)
      → wanted gid groups_of d.cursor ≡ wanted gid groups_of n
      → Inv gid groups_of d
      → Extends n d []
  stay-Extends n d e v = record {
    inv = v;
    exact = unfold cross_gsns in e ∙ sym (append-nil (wanted gid groups_of n));
  }

  from-Extends :
      (m n : ℕ) (d : GroupDeliverer) (out : List LogItem)
      → wanted gid groups_of m ≡ wanted gid groups_of n
      → Extends m d out
      → Extends n d out
  from-Extends m n d out e x = record {
    inv = x.inv;
    exact = x.exact ∙ ap (λ l. l ++ cross_gsns out) e;
  }

  drain_cross-Extends :
      (n : ℕ) (d : GroupDeliverer) (it : LogItem) (next : ℕ)
      → wanted gid groups_of d.cursor ≡ wanted gid groups_of n
      → Inv gid groups_of d
      → get_elem? d.log d.head ≡ some it
      → is_cross_op it.req ≡ true
      → contains it.req.gsn d.early ≡ false
      → (next ≡ 0)
        ⊎ ((next ≡ d.cursor + 1)
            × (d.cursor < d.meta_prefix)
            × (relevant gid (groups_of next) ≡ true))
      → RoundExtends n (drain_cross it next d)
  unfolding drain_cross
  drain_cross-Extends n d it next e v g c f (inl z) =
      let zero_next : (next == 0) ≡ true = ground arith in
      rw (zero_next, drain_cross) (stay-Extends n d e v)
  drain_cross-Extends n d it next e v g c f (inr (p, h, r)) =
      let some_next : (next == 0) ≡ false = ground arith in
      elim (Bool-cases (next == it.req.gsn)) [
        | inl hit ↦
            let here : it.req.gsn ≡ d.cursor + 1 = ground arith in
            rw (some_next, hit, drain_cross)
              (from-Extends d.cursor n _ (it ∷ []) e (next_round d it v g c here h (rw p at r)))
        | inr miss ↦
            let due : ltb it.req.gsn next ≡ false = ground (arith, (head_waiting d it v g).0 c) in
            elim (Option-cases (lookup next d.cross_in_log)) [
              | inl e' ↦ rw (some_next, miss, due, e', drain_cross) (stay-Extends n d e v)
              | inr (other, e') ↦
                  rw (some_next, miss, due, e', drain_cross)
                    (from-Extends d.cursor n _ (other ∷ []) e (ahead_round d other next v e' p h r))
            ]
      ]

  drain_item-Extends :
      (d : GroupDeliverer) (it : LogItem)
      → Inv gid groups_of d
      → get_elem? d.log d.head ≡ some it
      → RoundExtends d.cursor (drain_item it d)
  unfolding drain_item
  drain_item-Extends d it v g = elim (Bool-cases (is_cross_op it.req)) [
    | inr c ↦ rw (c, drain_item) (local_round d it v g c)
    | inl c ↦ elim (Bool-cases (contains it.req.gsn d.early)) [
      | inl f ↦ rw (c, f, drain_item) (early_round d it v g c)
      | inr f ↦
          let a = advance_cursor-Advanced gid groups_of d v in
          rw (c, f, drain_item)
            (drain_cross-Extends d.cursor (advance_cursor d).0 it (advance_cursor d).1 a.onward
              a.inv (rw (a.log, a.head) g) c (rw a.early f) a.next)
    ]
  ]

  pub drain_round-Extends :
      (d : GroupDeliverer) → Inv gid groups_of d → RoundExtends d.cursor (drain_round d)
  unfolding drain_round
  drain_round-Extends d v = elim (Option-cases (get_elem? d.log d.head)) [
    | inl e ↦ rw (e, drain_round) (stay-Extends d.cursor d refl v)
    | inr (it, e) ↦ rw (e, drain_round) (drain_item-Extends d it v e)
  ]
