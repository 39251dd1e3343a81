-- ===== src/Deliver/Global/Arrival.antt =====
-- One event: what has arrived stays, what arrives is kept, and the node ends with nothing to do.
use iss_com_multipaxos.Prelude.{
  ℕ, ◌+◌, ◌-◌, ◌≤◌, ◌≡◌, Bool, true, false, inl, inr, none, List, arith, ltb, leb, ◌==◌, ◌||◌, any,
  lookup, lookup-insert, Bool-cases, ◌∷◌, [], ◌&&◌, subst, ==_iff, refl,
}
use iss_com_multipaxos.Request.{ClientRequest}
use iss_com_multipaxos.Deliver.Global.{
  GlobalDeliverer, advance_prefix, is_new, note_meta, note_skips, Event, new_global_deliverer, step,
  run, drain_step, on_meta, on_skip, note_commit, on_commit,
}
use iss_com_multipaxos.Deliver.Global.Progress.{
  has_meta, has_req, Settled, Takes, stay-Takes, drain-Keeps, drain-Takes, note_meta-metas,
  note_meta-reqs, note_meta-has, note_skips-metas, note_skips-reqs, note_skips-has,
  advance_prefix_stops, advance_prefix-metas, advance_prefix-reqs,
}

-- The event brings the META of `k`, or says that there is none; it brings the request of `k`.
abbrev pub announces : ℕ → Event → Bool
announces k (Event.meta gsn groups) = gsn == k
announces k (Event.skip from to) = leb 1 from && leb from k && leb k to
announces k (Event.commit r) = false

abbrev pub decides : ℕ → Event → Bool
decides k (Event.meta gsn groups) = false
decides k (Event.skip from to) = false
decides k (Event.commit r) = r.gsn == k

module _ (is_mine : ℕ → Bool) where
  on_meta-Takes :
      (gsn : ℕ) (groups : List ℕ) (g : GlobalDeliverer)
      → Settled is_mine g
      → Takes is_mine g (on_meta is_mine gsn groups g).0
  unfolding on_meta
  on_meta-Takes gsn groups g s = elim (Bool-cases (gsn == 0)) [
    | inl e ↦ rw e (stay-Takes is_mine g s)
    | inr e ↦ rw e (elim (Bool-cases (is_new gsn g)) [
      | inl e' ↦ rw e' (
          drain-Takes is_mine g _
            (λ k h. advance_prefix-metas _ k (note_meta-metas gsn groups g k h))
            (λ k h. advance_prefix-reqs _ k (note_meta-reqs gsn groups g k h))
            (advance_prefix_stops (note_meta gsn groups g)))
      | inr e' ↦ rw e' (drain-Takes is_mine g g (λ k h. h) (λ k h. h) s.maximal)
    ])
  ]

  on_meta-has :
      (gsn : ℕ) (groups : List ℕ) (g : GlobalDeliverer)
      → 1 ≤ gsn
      → Settled is_mine g
      → has_meta gsn (on_meta is_mine gsn groups g).0 ≡ true
  unfolding on_meta
  on_meta-has gsn groups g p s = elim (Bool-cases (gsn == 0)) [
    | inl e ↦ absurd (ground arith)
    | inr e ↦ rw e (elim (Bool-cases (is_new gsn g)) [
      | inl e' ↦ rw e' (
          (drain-Keeps is_mine (advance_prefix (note_meta gsn groups g))).metas gsn
            (advance_prefix-metas _ gsn (note_meta-has gsn groups g)))
      | inr e' ↦ rw e' ((drain-Keeps is_mine g).metas gsn (unfold is_new in ground arith))
    ])
  ]

  on_skip-Takes :
      (from to : ℕ) (g : GlobalDeliverer)
      → Settled is_mine g
      → Takes is_mine g (on_skip is_mine from to g).0
  unfolding on_skip
  on_skip-Takes from to g s = elim (Bool-cases (from == 0 || ltb to from)) [
    | inl e ↦ rw e (stay-Takes is_mine g s)
    | inr e ↦ rw e (
        drain-Takes is_mine g _ (λ k h. advance_prefix-metas _ k (note_skips-metas _ from g k h))
          (λ k h. advance_prefix-reqs _ k (note_skips-reqs _ from g k h))
          (advance_prefix_stops (note_skips (to + 1 - from) from g)))
  ]

  on_skip-has :
      (from to k : ℕ) (g : GlobalDeliverer)
      → 1 ≤ from
      → from ≤ k
      → k ≤ to
      → has_meta k (on_skip is_mine from to g).0 ≡ true
  unfolding on_skip
  on_skip-has from to k g p a b = elim (Bool-cases (from == 0 || ltb to from)) [
    | inl e ↦ absurd (ground arith)
    | inr e ↦ rw e (
        (drain-Keeps is_mine (advance_prefix (note_skips (to + 1 - from) from g))).metas k
          (advance_prefix-metas _ k (note_skips-has (to + 1 - from) from g k a (omega arith))))
  ]

  note_commit-metas :
      (r : ClientRequest) (g : GlobalDeliverer) (k : ℕ)
      → has_meta k g ≡ true
      → has_meta k (note_commit is_mine r g) ≡ true
  unfolding note_commit
  note_commit-metas r g k h = ground arith

  note_commit-reqs :
      (r : ClientRequest) (g : GlobalDeliverer) (k : ℕ)
      → has_req k g ≡ true
      → has_req k (note_commit is_mine r g) ≡ true
  unfolding note_commit
  note_commit-reqs r g k h = ground (arith, lookup-insert k r.gsn r g.committed)

  note_commit-has :
      (r : ClientRequest) (g : GlobalDeliverer) → has_req r.gsn (note_commit is_mine r g) ≡ true
  unfolding note_commit
  note_commit-has r g = ground (arith, lookup-insert r.gsn r.gsn r g.committed)

  note_commit_stops :
      (r : ClientRequest) (g : GlobalDeliverer)
      → Settled is_mine g
      → lookup ((note_commit is_mine r g).meta_prefix + 1) (note_commit is_mine r g).known ≡ none
  unfolding note_commit
  note_commit_stops r g s = ground (arith, s.maximal)

  on_commit-Takes :
      (r : ClientRequest) (g : GlobalDeliverer)
      → Settled is_mine g
      → Takes is_mine g (on_commit is_mine r g).0
  unfolding on_commit
  on_commit-Takes r g s = elim (Bool-cases (r.gsn == 0)) [
    | inl e ↦ rw e (stay-Takes is_mine g s)
    | inr e ↦ rw e (
        drain-Takes is_mine g _ (note_commit-metas r g) (note_commit-reqs r g)
          (note_commit_stops r g s))
  ]

  on_commit-has :
      (r : ClientRequest) (g : GlobalDeliverer)
      → 1 ≤ r.gsn
      → Settled is_mine g
      → has_req r.gsn (on_commit is_mine r g).0 ≡ true
  unfolding on_commit
  on_commit-has r g p s = elim (Bool-cases (r.gsn == 0)) [
    | inl e ↦ absurd (ground arith)
    | inr e ↦
        rw e ((drain-Keeps is_mine (note_commit is_mine r g)).reqs r.gsn (note_commit-has r g))
  ]

  pub step-Takes :
      (e : Event) (g : GlobalDeliverer) → Settled is_mine g → Takes is_mine g (step is_mine e g).0
  unfolding step
  step-Takes (Event.meta gsn groups) g s = on_meta-Takes gsn groups g s
  step-Takes (Event.skip from to) g s = on_skip-Takes from to g s
  step-Takes (Event.commit r) g s = on_commit-Takes r g s

  pub step-has_meta :
      (e : Event) (g : GlobalDeliverer) (k : ℕ)
      → 1 ≤ k
      → announces k e ≡ true
      → Settled is_mine g
      → has_meta k (step is_mine e g).0 ≡ true
  unfolding step
  step-has_meta (Event.meta gsn groups) g k p h s =
      let e : gsn ≡ k = (==_iff gsn k).0 h in
      subst (λ j. has_meta j (on_meta is_mine gsn groups g).0 ≡ true) e
        (on_meta-has gsn groups g (omega arith) s)
  step-has_meta (Event.skip from to) g k p h s =
      on_skip-has from to k g (ground arith) (ground arith) (ground arith)
  step-has_meta (Event.commit r) g k p h s = cc

  pub step-has_req :
      (e : Event) (g : GlobalDeliverer) (k : ℕ)
      → 1 ≤ k
      → decides k e ≡ true
      → Settled is_mine g
      → has_req k (step is_mine e g).0 ≡ true
  unfolding step
  step-has_req (Event.meta gsn groups) g k p h s = cc
  step-has_req (Event.skip from to) g k p h s = cc
  step-has_req (Event.commit r) g k p h s =
      let e : r.gsn ≡ k = (==_iff r.gsn k).0 h in
      subst (λ j. has_req j (on_commit is_mine r g).0 ≡ true) e (on_commit-has r g (omega arith) s)

  -- The state after a history that a settled node takes.
  pub run-Takes :
      (es : List Event) (g : GlobalDeliverer)
      → Settled is_mine g
      → Takes is_mine g (run is_mine es g).0
  unfolding run
  run-Takes [] g s = stay-Takes is_mine g s
  run-Takes (e ∷ es) g s =
      let first = step-Takes e g s in
      let later = run-Takes es (step is_mine e g).0 first.settled in
      record {
        metas = λ k h. later.metas k (first.metas k h);
        reqs = λ k h. later.reqs k (first.reqs k h);
        settled = later.settled;
      }

  pub run-has_meta :
      (es : List Event) (g : GlobalDeliverer) (k : ℕ)
      → 1 ≤ k
      → any (announces k) es ≡ true
      → Settled is_mine g
      → has_meta k (run is_mine es g).0 ≡ true
  unfolding run any
  run-has_meta [] g k p h s = cc
  run-has_meta (e ∷ es) g k p h s =
      let first = step-Takes e g s in
      elim (Bool-cases (announces k e)) [
        | inl now ↦
            (run-Takes es (step is_mine e g).0 first.settled).metas k (step-has_meta e g k p now s)
        | inr later ↦ run-has_meta es (step is_mine e g).0 k p (rw later at h) first.settled
      ]

  pub run-has_req :
      (es : List Event) (g : GlobalDeliverer) (k : ℕ)
      → 1 ≤ k
      → any (decides k) es ≡ true
      → Settled is_mine g
      → has_req k (run is_mine es g).0 ≡ true
  unfolding run any
  run-has_req [] g k p h s = cc
  run-has_req (e ∷ es) g k p h s =
      let first = step-Takes e g s in
      elim (Bool-cases (decides k e)) [
        | inl now ↦
            (run-Takes es (step is_mine e g).0 first.settled).reqs k (step-has_req e g k p now s)
        | inr later ↦ run-has_req es (step is_mine e g).0 k p (rw later at h) first.settled
      ]

  pub new-Settled : Settled is_mine new_global_deliverer
  unfolding new_global_deliverer drain_step lookup
  new-Settled = record { ended = refl; maximal = refl }
