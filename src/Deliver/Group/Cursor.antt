-- ===== src/Deliver/Group/Cursor.antt =====
-- `advanceCursor`: it passes the GSNs for which the group does not wait, and stops at the next one.
use iss_com_multipaxos.Prelude.{
  ℕ, zero, suc, ◌+◌, ◌<◌, ◌≡◌, refl, ◌∙◌, true, not, ◌||◌, List, [], ◌∷◌, ◌++◌, ltb, if◌then◌else◌,
  or_else, length, contains, lookup, erase, arith, inl, inr, Bool-cases, Option-cases, append-nil,
  ◌⊎◌,
}
use iss_com_multipaxos.Deliver.Group.{GroupDeliverer, touches, advance_loop, advance_cursor}
use iss_com_multipaxos.Deliver.Group.Inv.{Inv, relevant, pass-Inv}

module _ (gid : ℕ) (groups_of : ℕ → List ℕ) where
  abbrev pub wanted_at : ℕ → List ℕ
  wanted_at k = if relevant gid (groups_of k) then k ∷ [] else []

  -- The GSNs 1 to n of the cross-group operations that touch the group, in order.
  unfoldable pub wanted : ℕ → List ℕ
  wanted zero = []
  wanted (suc n) = wanted n ++ wanted_at (suc n)

  pub wanted-add-one : (n : ℕ) → wanted (n + 1) ≡ wanted n ++ wanted_at (n + 1)
  unfolding wanted
  wanted-add-one n = let e : n + 1 ≡ suc n = omega arith in rw e

  -- What `advanceCursor` leaves: the same log, and a cursor before the next GSN to deliver.
  pub record Advanced (d : GroupDeliverer) (p : GroupDeliverer × ℕ) : Type 0 where
    pub inv : Inv gid groups_of p.0
    pub log : p.0.log ≡ d.log
    pub head : p.0.head ≡ d.head
    pub early : p.0.early ≡ d.early
    pub crosses : p.0.cross_in_log ≡ d.cross_in_log
    pub onward : wanted p.0.cursor ≡ wanted d.cursor
    pub next :
        (p.1 ≡ 0)
        ⊎ ((p.1 ≡ p.0.cursor + 1)
            × (p.0.cursor < p.0.meta_prefix)
            × (relevant gid (groups_of p.1) ≡ true))

  pub groups_known :
      (d : GroupDeliverer)
      → Inv gid groups_of d
      → d.cursor < d.meta_prefix
      → or_else (lookup (d.cursor + 1) d.known) [] ≡ groups_of (d.cursor + 1)
  groups_known d v h = elim (Option-cases (lookup (d.cursor + 1) d.known)) [
    | inl e ↦ ground (arith, v.covered (d.cursor + 1))
    | inr (gs, e) ↦ rw e (v.metas (d.cursor + 1) gs e)
  ]

  -- The test of `advanceCursor` on the next GSN comes out as `relevant` does.
  skips_test :
      (d : GroupDeliverer)
      → Inv gid groups_of d
      → d.cursor < d.meta_prefix
      → (let groups = or_else (lookup (d.cursor + 1) d.known) [] in
          (ltb (length groups) 2 || not (touches d.gid groups)) || contains (d.cursor + 1) d.early)
        ≡ not (relevant gid (groups_of (d.cursor + 1)))
  unfolding relevant
  skips_test d v h = rw (groups_known d v h, v.same) (ground (arith, v.passed (d.cursor + 1)))

  pub advance_loop-Advanced :
      (f : ℕ) (d : GroupDeliverer) → Inv gid groups_of d → Advanced d (advance_loop f d)
  unfolding advance_loop
  advance_loop-Advanced zero d v = record {
    inv = v;
    log = refl;
    head = refl;
    early = refl;
    crosses = refl;
    onward = refl;
    next = inl refl;
  }
  advance_loop-Advanced (suc f) d v = elim (Bool-cases (ltb d.cursor d.meta_prefix)) [
    | inr e ↦
        rw (e, advance_loop)
          (record {
            inv = v;
            log = refl;
            head = refl;
            early = refl;
            crosses = refl;
            onward = refl;
            next = inl refl;
          })
    | inl e ↦
        let h : d.cursor < d.meta_prefix = ground arith in
        elim (Bool-cases (relevant gid (groups_of (d.cursor + 1)))) [
          | inl r ↦
              rw (e, skips_test d v h, r, advance_loop)
                (record {
                  inv = v;
                  log = refl;
                  head = refl;
                  early = refl;
                  crosses = refl;
                  onward = refl;
                  next = inr (refl, h, r);
                })
          | inr r ↦
              let d' : GroupDeliverer = record d {
                known = erase (d.cursor + 1) d.known;
                cursor = d.cursor + 1;
              } in
              let rest = advance_loop-Advanced f d' (pass-Inv d h r v) in
              rw (e, skips_test d v h, r, advance_loop)
                (record {
                  inv = rest.inv;
                  log = rest.log;
                  head = rest.head;
                  early = rest.early;
                  crosses = rest.crosses;
                  onward = rest.onward ∙ wanted-add-one d.cursor ∙ rw r (append-nil _);
                  next = rest.next;
                })
        ]
  ]

  pub advance_cursor-Advanced :
      (d : GroupDeliverer) → Inv gid groups_of d → Advanced d (advance_cursor d)
  unfolding advance_cursor
  advance_cursor-Advanced d v = advance_loop-Advanced _ d v
