-- ===== src/Deliver/Group/Inv.antt =====
-- What a replica's records say of the log and of META, and that every change of them keeps it.
use iss_com_multipaxos.Prelude.{
  ℕ, zero, suc, ◌+◌, ◌*◌, ◌≤◌, ◌<◌, ◌≡◌, sym, Bool, true, false, not, ◌&&◌, ◌||◌, some, List, [],
  ◌∷◌, ◌++◌, ltb, is_some, length, contains, drop, lookup, erase, arith, inl, inr, All, All-append,
  Bool-cases, lookup-insert, lookup-erase, ◌≢◌,
}
use iss_com_multipaxos.Request.{ClientRequest}
use iss_com_multipaxos.Deliver.Prefix.{scan_prefix-ge, scan_prefix-known}
use iss_com_multipaxos.Deliver.Group.{
  LogItem, is_cross_op, GroupDeliverer, touches, compact, advance_prefix, is_new, note_meta,
  note_skips, Event,
}

-- The group waits for a GSN with these groups.
unfoldable pub relevant : ℕ → List ℕ → Bool
relevant gid groups = not (ltb (length groups) 2) && touches gid groups

-- An event that META allows: a cross-operation is decided only in a group that its META names.
abbrev pub FitsRequest : ℕ → (ℕ → List ℕ) → ClientRequest → Type 0
FitsRequest gid groups_of r = is_cross_op r ≡ true → relevant gid (groups_of r.gsn) ≡ true

abbrev pub Fits : ℕ → (ℕ → List ℕ) → Event → Type 0
Fits gid groups_of (Event.batch sn rs leader) = All (FitsRequest gid groups_of) rs
Fits gid groups_of (Event.meta gsn groups) = groups ≡ groups_of gsn
Fits gid groups_of (Event.skip from to) = (k : ℕ) → from ≤ k → k ≤ to → groups_of k ≡ []

-- An entry of the log that is still to be passed: delivered early, or ahead and in `crossInLog`.
abbrev pub Waits : ℕ → (ℕ → List ℕ) → GroupDeliverer → LogItem → Type 0
Waits gid groups_of d it =
    is_cross_op it.req ≡ true
    → (relevant gid (groups_of it.req.gsn) ≡ true)
      × ((contains it.req.gsn d.early
            || ltb d.cursor it.req.gsn && is_some (lookup it.req.gsn d.cross_in_log))
          ≡ true)

-- Two entries are not copies of one cross-group operation.
abbrev pub Apart : LogItem → LogItem → Type 0
Apart a b = is_cross_op a.req ≡ true → is_cross_op b.req ≡ true → a.req.gsn ≢ b.req.gsn

abbrev pub AllApart : List LogItem → Type 0
AllApart [] = Unit
AllApart (it ∷ items) = All (Apart it) items × AllApart items

pub record Inv (gid : ℕ) (groups_of : ℕ → List ℕ) (d : GroupDeliverer) : Type 0 where
  pub same : d.gid ≡ gid
  pub metas : (k : ℕ) (gs : List ℕ) → lookup k d.known ≡ some gs → gs ≡ groups_of k
  pub behind : d.cursor ≤ d.meta_prefix
  pub covered : (k : ℕ) → d.cursor < k → k ≤ d.meta_prefix → is_some (lookup k d.known) ≡ true
  pub passed : (k : ℕ) → contains k d.early ≡ true → k ≤ d.cursor
  pub within : d.head ≤ length d.log
  pub waiting : All (Waits gid groups_of d) (drop d.head d.log)
  pub apart : AllApart (drop d.head d.log)
  pub ahead :
      (k : ℕ) (it : LogItem)
      → lookup k d.cross_in_log ≡ some it
      → (d.cursor < k)
        × (relevant gid (groups_of k) ≡ true)
        × (is_cross_op it.req ≡ true)
        × (it.req.gsn ≡ k)

pub AllApart-snoc :
    (items : List LogItem) (it : LogItem)
    → AllApart items
    → All (λ a. Apart a it) items
    → AllApart (items ++ it ∷ [])
AllApart-snoc [] it a b = (tt, tt)
AllApart-snoc (x ∷ items) it a b =
    (All-append (Apart x) items (it ∷ []) a.0 (b.0, tt), AllApart-snoc items it a.1 b.1)

pub All-weaken {ℓ κ μ} :
    {A : Type ℓ} (P : A → Type κ) (Q : A → Type μ) (xs : List A)
    → ((x : A) → P x → Q x)
    → All P xs
    → All Q xs
All-weaken P Q [] f h = tt
All-weaken P Q (x ∷ xs) f h = (f x h.0, All-weaken P Q xs f h.1)

module _ {gid : ℕ} {groups_of : ℕ → List ℕ} where
  pub note_meta-Inv :
      (gsn : ℕ) (groups : List ℕ) (d : GroupDeliverer)
      → groups ≡ groups_of gsn
      → Inv gid groups_of d
      → Inv gid groups_of (note_meta gsn groups d)
  unfolding note_meta
  note_meta-Inv gsn groups d e v = elim (Bool-cases (is_new gsn d)) [
    | inl f ↦
        rw (f, note_meta)
          (record {
            same = v.same;
            metas = λ k gs h. ground (arith, v.metas k gs, lookup-insert k gsn groups d.known);
            behind = v.behind;
            covered = λ k a b. ground (arith, v.covered k, lookup-insert k gsn groups d.known);
            passed = v.passed;
            within = v.within;
            waiting = v.waiting;
            apart = v.apart;
            ahead = v.ahead;
          })
    | inr f ↦ rw (f, note_meta) v
  ]

  pub note_skips-Inv :
      (n from : ℕ) (d : GroupDeliverer)
      → ((k : ℕ) → from ≤ k → k < from + n → groups_of k ≡ [])
      → Inv gid groups_of d
      → Inv gid groups_of (note_skips n from d)
  unfolding note_skips
  note_skips-Inv zero from d h v = v
  note_skips-Inv (suc n) from d h v =
      note_skips-Inv n (from + 1) (note_meta from [] d) (λ k a b. h k (omega arith) (omega arith))
        (note_meta-Inv from [] d (sym (h from (omega arith) (omega arith))) v)

  pub advance_prefix-Inv :
      (d : GroupDeliverer) → Inv gid groups_of d → Inv gid groups_of (advance_prefix d)
  unfolding advance_prefix
  advance_prefix-Inv d v = record {
    same = v.same;
    metas = v.metas;
    behind = omega (arith, v.behind, scan_prefix-ge (length d.known) d.known d.meta_prefix);
    covered = λ k a b.
        ground (arith, v.covered k, scan_prefix-known (length d.known) d.known d.meta_prefix k);
    passed = v.passed;
    within = v.within;
    waiting = v.waiting;
    apart = v.apart;
    ahead = v.ahead;
  }

  pub compact-Inv : (d : GroupDeliverer) → Inv gid groups_of d → Inv gid groups_of (compact d)
  unfolding compact
  compact-Inv d v = elim (Bool-cases (ltb 4096 d.head && ltb (length d.log) (d.head * 2))) [
    | inl e ↦
        rw (e, compact)
          (record {
            same = v.same;
            metas = v.metas;
            behind = v.behind;
            covered = v.covered;
            passed = v.passed;
            within = omega arith;
            waiting = v.waiting;
            apart = v.apart;
            ahead = v.ahead;
          })
    | inr e ↦ rw (e, compact) v
  ]

  -- The cursor passes a GSN for which the group does not wait.
  pub pass-Inv :
      (d : GroupDeliverer)
      → d.cursor < d.meta_prefix
      → relevant gid (groups_of (d.cursor + 1)) ≡ false
      → Inv gid groups_of d
      → Inv gid groups_of (record d { known = erase (d.cursor + 1) d.known; cursor = d.cursor + 1 })
  pass-Inv d h r v = record {
    same = v.same;
    metas = λ k gs e. ground (arith, v.metas k gs, lookup-erase k (d.cursor + 1) d.known);
    behind = omega arith;
    covered = λ k a b. ground (arith, v.covered k, lookup-erase k (d.cursor + 1) d.known);
    passed = λ k e. ground (arith, v.passed k);
    within = v.within;
    waiting = All-weaken _ _ _ (λ it w c. ground (arith, w c)) v.waiting;
    apart = v.apart;
    ahead = λ k it e. ground (arith, v.ahead k it e);
  }
