-- ===== src/Deliver/Global/Inv.antt =====
-- The sequence that META and the decided requests fix, and what a node's records say of it: each
-- entry agrees, and META is known from the last delivered GSN up to the prefix.
use iss_com_multipaxos.Prelude.{
  ℕ, zero, suc, ◌+◌, ◌≤◌, ◌<◌, ◌≡◌, refl, sym, ◌∙◌, Bool, true, some, List, [], ◌∷◌, ◌++◌, arith,
  if◌then◌else◌, is_some, length, lookup, lookup-insert, lookup-erase,
}
use iss_com_multipaxos.Request.{ClientRequest}
use iss_com_multipaxos.Deliver.Global.{
  GlobalDeliverer, GlobalDelivery, advance_prefix, note_meta, note_skips, retire, Event,
  touches_mine, note_commit,
}
use iss_com_multipaxos.Deliver.Prefix.{scan_prefix-ge, scan_prefix-known}

-- `groups_of` is the META of every GSN and `req_of` the request that it numbers; `is_mine` tells the
-- groups of the node.
module _ (is_mine : ℕ → Bool) (groups_of : ℕ → List ℕ) (req_of : ℕ → ClientRequest) where
  abbrev pub ideal_at : ℕ → List GlobalDelivery
  ideal_at k =
      if touches_mine is_mine (groups_of k)
      then record { gsn = k; groups = groups_of k; req = req_of k } ∷ []
      else []

  -- The GSNs 1 to n that touch a group of the node, in order.
  unfoldable pub ideal : ℕ → List GlobalDelivery
  ideal zero = []
  ideal (suc n) = ideal n ++ ideal_at (suc n)

-- What the node has recorded agrees with META and the requests, and META is known up to the prefix.
module _ (groups_of : ℕ → List ℕ) (req_of : ℕ → ClientRequest) where
  pub record Inv (g : GlobalDeliverer) : Type 0 where
    pub metas : (k : ℕ) (gs : List ℕ) → lookup k g.known ≡ some gs → gs ≡ groups_of k
    pub reqs : (k : ℕ) (r : ClientRequest) → lookup k g.committed ≡ some r → r ≡ req_of k
    pub behind : g.last_delivered ≤ g.meta_prefix
    pub covered :
        (k : ℕ) → g.last_delivered < k → k ≤ g.meta_prefix → is_some (lookup k g.known) ≡ true

  -- An event that META and the requests allow: a META is the one of its GSN, a skipped GSN has no
  -- groups, and a GSN is decided with its own request.
  abbrev pub Fits : Event → Type 0
  Fits (Event.meta gsn groups) = groups ≡ groups_of gsn
  Fits (Event.skip from to) = (k : ℕ) → from ≤ k → k ≤ to → groups_of k ≡ []
  Fits (Event.commit r) = r ≡ req_of r.gsn

module _ {groups_of : ℕ → List ℕ} {req_of : ℕ → ClientRequest} where
  pub note_meta-Inv :
      (gsn : ℕ) (groups : List ℕ) (g : GlobalDeliverer)
      → groups ≡ groups_of gsn
      → Inv groups_of req_of g
      → Inv groups_of req_of (note_meta gsn groups g)
  unfolding note_meta
  note_meta-Inv gsn groups g e v = record {
    metas = λ k gs h. ground (arith, v.metas k gs, lookup-insert k gsn groups g.known);
    reqs = λ k r h. ground (arith, v.reqs k r);
    behind = ground (arith, v.behind);
    covered = λ k a b. ground (arith, v.covered k, lookup-insert k gsn groups g.known);
  }

  pub advance_prefix-Inv :
      (g : GlobalDeliverer) → Inv groups_of req_of g → Inv groups_of req_of (advance_prefix g)
  unfolding advance_prefix
  advance_prefix-Inv g v = record {
    metas = v.metas;
    reqs = v.reqs;
    behind = omega (arith, v.behind, scan_prefix-ge (length g.known) g.known g.meta_prefix);
    covered = λ k a b.
        ground (arith, v.covered k, scan_prefix-known (length g.known) g.known g.meta_prefix k);
  }

  pub retire-Inv :
      (g : GlobalDeliverer)
      → g.last_delivered < g.meta_prefix
      → Inv groups_of req_of g
      → Inv groups_of req_of (retire (g.last_delivered + 1) g)
  unfolding retire
  retire-Inv g h v = record {
    metas = λ k gs e. ground (arith, v.metas k gs, lookup-erase k (g.last_delivered + 1) g.known);
    reqs = λ k r e. ground (arith, v.reqs k r, lookup-erase k (g.last_delivered + 1) g.committed);
    behind = omega arith;
    covered = λ k a b. ground (arith, v.covered k, lookup-erase k (g.last_delivered + 1) g.known);
  }

  pub note_skips-Inv :
      (n from : ℕ) (g : GlobalDeliverer)
      → ((k : ℕ) → from ≤ k → k < from + n → groups_of k ≡ [])
      → Inv groups_of req_of g
      → Inv groups_of req_of (note_skips n from g)
  unfolding note_skips
  note_skips-Inv zero from g h v = v
  note_skips-Inv (suc n) from g h v =
      note_skips-Inv n (from + 1) (note_meta from [] g) (λ k a b. h k (omega arith) (omega arith))
        (note_meta-Inv from [] g (sym (h from (omega arith) (omega arith))) v)

pub note_meta_last :
    (gsn : ℕ) (groups : List ℕ) (g : GlobalDeliverer)
    → (note_meta gsn groups g).last_delivered ≡ g.last_delivered
unfolding note_meta
note_meta_last gsn groups g = ground arith

pub note_skips_last :
    (n from : ℕ) (g : GlobalDeliverer) → (note_skips n from g).last_delivered ≡ g.last_delivered
unfolding note_skips
note_skips_last zero from g = refl
note_skips_last (suc n) from g =
    note_skips_last n (from + 1) (note_meta from [] g) ∙ note_meta_last from [] g

pub advance_prefix_last :
    (g : GlobalDeliverer) → (advance_prefix g).last_delivered ≡ g.last_delivered
unfolding advance_prefix
advance_prefix_last g = refl

pub note_commit_last :
    (is_mine : ℕ → Bool) (r : ClientRequest) (g : GlobalDeliverer)
    → (note_commit is_mine r g).last_delivered ≡ g.last_delivered
unfolding note_commit
note_commit_last is_mine r g = ground arith

module _ (is_mine : ℕ → Bool) {groups_of : ℕ → List ℕ} {req_of : ℕ → ClientRequest} where
  pub note_commit-Inv :
      (r : ClientRequest) (g : GlobalDeliverer)
      → r ≡ req_of r.gsn
      → Inv groups_of req_of g
      → Inv groups_of req_of (note_commit is_mine r g)
  unfolding note_commit
  note_commit-Inv r g e v = record {
    metas = λ k gs h. ground (arith, v.metas k gs);
    reqs = λ k r' h. ground (arith, v.reqs k r', lookup-insert k r.gsn r g.committed);
    behind = ground (arith, v.behind);
    covered = λ k a b. ground (arith, v.covered k);
  }
