-- ===== src/Deliver/Global/Progress.antt =====
-- A node does not stop short: what has arrived suffices for what it delivers.
use iss_com_multipaxos.Prelude.{
  ℕ, zero, suc, ◌+◌, ◌≤◌, ◌<◌, ◌≡◌, Bool, true, inl, inr, none, some, List, [], arith, leb, ◌==◌,
  ◌||◌, is_some, lookup, lookup-insert, lookup-erase, Bool-cases, Option-cases,
}
use iss_com_multipaxos.Deliver.Global.{
  GlobalDeliverer, GlobalDelivery, advance_prefix, note_meta, note_skips, retire, drain_step,
  drain_loop, drain,
}
use iss_com_multipaxos.Deliver.Prefix.{scan_prefix_stops}

-- The META of `k` is here, or `k` is passed; so for its request.
abbrev pub has_meta : ℕ → GlobalDeliverer → Bool
has_meta k g = leb k g.last_delivered || is_some (lookup k g.known)

abbrev pub has_req : ℕ → GlobalDeliverer → Bool
has_req k g = leb k g.last_delivered || is_some (lookup k g.committed)

-- Nothing that has arrived is lost.
pub record Keeps (g g' : GlobalDeliverer) : Type 0 where
  pub metas : (k : ℕ) → has_meta k g ≡ true → has_meta k g' ≡ true
  pub reqs : (k : ℕ) → has_req k g ≡ true → has_req k g' ≡ true
  pub prefix :
      lookup (g.meta_prefix + 1) g.known ≡ none → lookup (g'.meta_prefix + 1) g'.known ≡ none

Keeps-refl : (g : GlobalDeliverer) → Keeps g g
Keeps-refl g = record { metas = λ k h. h; reqs = λ k h. h; prefix = λ h. h }

Keeps-trans : {g g' g'' : GlobalDeliverer} → Keeps g g' → Keeps g' g'' → Keeps g g''
Keeps-trans a b = record {
  metas = λ k h. b.metas k (a.metas k h);
  reqs = λ k h. b.reqs k (a.reqs k h);
  prefix = λ h. b.prefix (a.prefix h);
}

retire-Keeps : (g : GlobalDeliverer) → Keeps g (retire (g.last_delivered + 1) g)
unfolding retire
retire-Keeps g = record {
  metas = λ k h. ground (arith, lookup-erase k (g.last_delivered + 1) g.known);
  reqs = λ k h. ground (arith, lookup-erase k (g.last_delivered + 1) g.committed);
  prefix = λ h. ground (arith, lookup-erase (g.meta_prefix + 1) (g.last_delivered + 1) g.known);
}

module _ (is_mine : ℕ → Bool) where
  drain_step-retire :
      (g g' : GlobalDeliverer) (out : List GlobalDelivery)
      → drain_step is_mine g ≡ some (g', out)
      → (g.last_delivered < g.meta_prefix) × (g' ≡ retire (g.last_delivered + 1) g)
  unfolding drain_step
  drain_step-retire g g' out e = ground arith

  drain_loop-Keeps : (f : ℕ) (g : GlobalDeliverer) → Keeps g (drain_loop is_mine f g).0
  unfolding drain_loop
  drain_loop-Keeps zero g = Keeps-refl g
  drain_loop-Keeps (suc f) g = elim (Option-cases (drain_step is_mine g)) [
    | inl e ↦ rw (e, drain_loop) (Keeps-refl g)
    | inr ((g', out), e) ↦
        rw (e, drain_loop)
          (Keeps-trans (rw (drain_step-retire g g' out e).1 (retire-Keeps g))
            (drain_loop-Keeps f g'))
  ]

  -- The fuel of `drain` is enough: the loop ends because a round ends it.
  drain_loop-ends :
      (f : ℕ) (g : GlobalDeliverer)
      → g.meta_prefix ≤ g.last_delivered + f
      → drain_step is_mine (drain_loop is_mine f g).0 ≡ none
  unfolding drain_loop
  drain_loop-ends zero g h = unfold drain_step in ground arith
  drain_loop-ends (suc f) g h = elim (Option-cases (drain_step is_mine g)) [
    | inl e ↦ rw (e, drain_loop) e
    | inr ((g', out), e) ↦
        let (lt, p) = drain_step-retire g g' out e in
        rw (e, drain_loop) (drain_loop-ends f g' (rw p (unfold retire in omega arith)))
  ]

  drain-ends : (g : GlobalDeliverer) → drain_step is_mine (drain is_mine g).0 ≡ none
  unfolding drain
  drain-ends g = drain_loop-ends _ g (omega arith)

  pub drain-Keeps : (g : GlobalDeliverer) → Keeps g (drain is_mine g).0
  unfolding drain
  drain-Keeps g = drain_loop-Keeps _ g

  -- A step ends where `drain_step` has nothing left, keeps what has arrived, and leaves `metaPrefix`
  -- before a GSN whose META is not known.
  pub record Settled (g : GlobalDeliverer) : Type 0 where
    pub ended : drain_step is_mine g ≡ none
    pub maximal : lookup (g.meta_prefix + 1) g.known ≡ none

  pub record Takes (g g' : GlobalDeliverer) : Type 0 where
    pub metas : (k : ℕ) → has_meta k g ≡ true → has_meta k g' ≡ true
    pub reqs : (k : ℕ) → has_req k g ≡ true → has_req k g' ≡ true
    pub settled : Settled g'

  pub drain-Takes :
      (g g' : GlobalDeliverer)
      → ((k : ℕ) → has_meta k g ≡ true → has_meta k g' ≡ true)
      → ((k : ℕ) → has_req k g ≡ true → has_req k g' ≡ true)
      → lookup (g'.meta_prefix + 1) g'.known ≡ none
      → Takes g (drain is_mine g').0
  unfolding drain
  drain-Takes g g' a b c = record {
    metas = λ k h. (drain_loop-Keeps _ g').metas k (a k h);
    reqs = λ k h. (drain_loop-Keeps _ g').reqs k (b k h);
    settled = record {
      ended = unfold drain in drain-ends g';
      maximal = (drain_loop-Keeps _ g').prefix c;
    };
  }

  pub stay-Takes : (g : GlobalDeliverer) → Settled g → Takes g g
  stay-Takes g s = record { metas = λ k h. h; reqs = λ k h. h; settled = s }

pub note_meta-metas :
    (gsn : ℕ) (groups : List ℕ) (g : GlobalDeliverer) (k : ℕ)
    → has_meta k g ≡ true
    → has_meta k (note_meta gsn groups g) ≡ true
unfolding note_meta
note_meta-metas gsn groups g k h = ground (arith, lookup-insert k gsn groups g.known)

pub note_meta-reqs :
    (gsn : ℕ) (groups : List ℕ) (g : GlobalDeliverer) (k : ℕ)
    → has_req k g ≡ true
    → has_req k (note_meta gsn groups g) ≡ true
unfolding note_meta
note_meta-reqs gsn groups g k h = ground arith

pub note_meta-has :
    (gsn : ℕ) (groups : List ℕ) (g : GlobalDeliverer) → has_meta gsn (note_meta gsn groups g) ≡ true
unfolding note_meta
note_meta-has gsn groups g = ground (arith, lookup-insert gsn gsn groups g.known)

pub note_skips-metas :
    (n from : ℕ) (g : GlobalDeliverer) (k : ℕ)
    → has_meta k g ≡ true
    → has_meta k (note_skips n from g) ≡ true
unfolding note_skips
note_skips-metas zero from g k h = h
note_skips-metas (suc n) from g k h =
    note_skips-metas n (from + 1) (note_meta from [] g) k (note_meta-metas from [] g k h)

pub note_skips-reqs :
    (n from : ℕ) (g : GlobalDeliverer) (k : ℕ)
    → has_req k g ≡ true
    → has_req k (note_skips n from g) ≡ true
unfolding note_skips
note_skips-reqs zero from g k h = h
note_skips-reqs (suc n) from g k h =
    note_skips-reqs n (from + 1) (note_meta from [] g) k (note_meta-reqs from [] g k h)

pub note_skips-has :
    (n from : ℕ) (g : GlobalDeliverer) (k : ℕ)
    → from ≤ k
    → k < from + n
    → has_meta k (note_skips n from g) ≡ true
unfolding note_skips
note_skips-has zero from g k a b = absurd (omega arith)
note_skips-has (suc n) from g k a b = elim (Bool-cases (from == k)) [
  | inl e ↦
      note_skips-metas n (from + 1) (note_meta from [] g) k
        (ground (arith, note_meta-has from [] g))
  | inr e ↦ note_skips-has n (from + 1) (note_meta from [] g) k (ground arith) (omega arith)
]

pub advance_prefix_stops :
    (g : GlobalDeliverer)
    → lookup ((advance_prefix g).meta_prefix + 1) (advance_prefix g).known ≡ none
unfolding advance_prefix
advance_prefix_stops g = scan_prefix_stops g.known g.meta_prefix

pub advance_prefix-metas :
    (g : GlobalDeliverer) (k : ℕ) → has_meta k g ≡ true → has_meta k (advance_prefix g) ≡ true
unfolding advance_prefix
advance_prefix-metas g k h = h

pub advance_prefix-reqs :
    (g : GlobalDeliverer) (k : ℕ) → has_req k g ≡ true → has_req k (advance_prefix g) ≡ true
unfolding advance_prefix
advance_prefix-reqs g k h = h
