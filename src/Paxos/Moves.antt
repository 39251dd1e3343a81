-- ===== src/Paxos/Moves.antt =====
-- What every step of an instance keeps: its promise does not go back, a committed instance stays
-- committed, its digest is that of its value, and it announces a batch only as it commits.
use iss_com_multipaxos.Prelude.{
  ℕ, ◌≤◌, ◌≡◌, refl, sym, ◌∙◌, ap, true, false, Option, none, some, List, [], ◌∷◌, ◌++◌, arith, inl,
  inr, ◌⊎◌,
}
use iss_com_multipaxos.Paxos.State.{
  Instance, Batch, Effect, emit, announce, propose, fetch, remove_batch, remove_committed,
  resurrect, fire, Result, is_committed,
}
use iss_com_multipaxos.Paxos.Commit.{cleanup, deliver_commit}

-- What is announced: the sequence number, the batch and its digest.
pub record Announcement : Type 0 where
  pub sn : ℕ
  pub batch : Batch
  pub digest : ℕ

unfoldable pub announced : List Effect → List Announcement
announced [] = []
announced (emit m ∷ es) = announced es
announced (announce n b d ∷ es) = record { sn = n; batch = b; digest = d } ∷ announced es
announced (propose ∷ es) = announced es
announced (fetch ∷ es) = announced es
announced (remove_batch b ∷ es) = announced es
announced (remove_committed b ∷ es) = announced es
announced (resurrect b ∷ es) = announced es
announced (fire ∷ es) = announced es

pub announced-append : (es fs : List Effect) → announced (es ++ fs) ≡ announced es ++ announced fs
unfolding announced
announced-append [] fs = refl
announced-append (emit m ∷ es) fs = announced-append es fs
announced-append (announce n b d ∷ es) fs =
    ap (λ l. record { sn = n; batch = b; digest = d } ∷ l) (announced-append es fs)
announced-append (propose ∷ es) fs = announced-append es fs
announced-append (fetch ∷ es) fs = announced-append es fs
announced-append (remove_batch b ∷ es) fs = announced-append es fs
announced-append (remove_committed b ∷ es) fs = announced-append es fs
announced-append (resurrect b ∷ es) fs = announced-append es fs
announced-append (fire ∷ es) fs = announced-append es fs

announced-cleanup :
    (o : Option Batch) (b : Batch) (es : List Effect) → announced (cleanup o b ++ es) ≡ announced es
unfolding cleanup announced
announced-cleanup none b es = refl
announced-cleanup (some cut) b es = refl

-- A committed instance is closed.
abbrev pub IsShut : Instance → Type 0
IsShut i = is_committed i.phase ≡ true → i.closed ≡ true

module _ (digest : Batch → ℕ) where
  abbrev pub Valued : Instance → Type 0
  Valued i = (b : Batch) → i.last_val ≡ some b → i.last_digest ≡ digest b

  -- Nothing is announced, or one batch with its digest, as the instance commits.
  abbrev pub Announces : Instance → Instance → List Announcement → Type 0
  Announces i i' l =
      (l ≡ [])
      ⊎ ((b : Batch) × (l ≡ record { sn = i.sn; batch = b; digest = digest b } ∷ [])
          × (is_committed i.phase ≡ false)
          × (is_committed i'.phase ≡ true))

  pub record Moves (i : Instance) (p : Result) : Type 0 where
    pub ballot : i.promised_ballot ≤ p.0.promised_ballot
    pub number : p.0.sn ≡ i.sn
    pub final : is_committed i.phase ≡ true → is_committed p.0.phase ≡ true
    pub valued : Valued i → Valued p.0
    pub shut : IsShut i → IsShut p.0
    pub announces : Valued i → Announces i p.0 (announced p.1)

  join_announces :
      (i i' i'' : Instance) (xs ys : List Announcement)
      → i'.sn ≡ i.sn
      → (is_committed i.phase ≡ true → is_committed i'.phase ≡ true)
      → (is_committed i'.phase ≡ true → is_committed i''.phase ≡ true)
      → Announces i i' xs
      → Announces i' i'' ys
      → Announces i i'' (xs ++ ys)
  join_announces i i' i'' xs ys n f g (inl e) (inl e') = inl (rw (e, e'))
  join_announces i i' i'' xs ys n f g (inl e) (inr (b, e', p, q)) =
      inr (b, rw (e, e', n), ground arith, q)
  join_announces i i' i'' xs ys n f g (inr (b, e, p, q)) (inl e') = inr (b, rw (e, e'), p, g q)
  join_announces i i' i'' xs ys n f g (inr (b, e, p, q)) (inr (b', e', p', q')) = absurd (cc)

  pub Moves-then :
      (i : Instance) (p q : Result) → Moves i p → Moves p.0 q → Moves i (q.0, p.1 ++ q.1)
  Moves-then i p q a b = record {
    ballot = omega (arith, a.ballot, b.ballot);
    number = b.number ∙ a.number;
    final = λ h. b.final (a.final h);
    valued = λ v. b.valued (a.valued v);
    shut = λ w. b.shut (a.shut w);
    announces = λ v. rw (announced-append p.1 q.1) (
        join_announces i p.0 q.0 (announced p.1) (announced q.1) a.number a.final b.final
          (a.announces v) (b.announces (a.valued v)));
  }

  -- A step that leaves the value alone and announces nothing.
  abbrev pub Plain : Instance → Result → Type 0
  Plain i p =
      (i.promised_ballot ≤ p.0.promised_ballot)
      × (p.0.sn ≡ i.sn)
      × (is_committed i.phase ≡ true → is_committed p.0.phase ≡ true)
      × (p.0.last_val ≡ i.last_val)
      × (p.0.last_digest ≡ i.last_digest)
      × (announced p.1 ≡ [])
      × (IsShut i → IsShut p.0)

  pub Plain-Moves : (i : Instance) (p : Result) → Plain i p → Moves i p
  Plain-Moves i p h = record {
    ballot = h.0;
    number = h.1;
    final = h.2;
    valued = λ v b e. h.4 ∙ v b (sym h.3 ∙ e);
    shut = h.6;
    announces = λ v. inl h.5;
  }

  pub stay-Moves : (i : Instance) → Moves i (i, [])
  unfolding announced
  stay-Moves i = Plain-Moves i (i, []) (omega arith, refl, λ h. h, refl, refl, refl, λ w. w)

  -- The delivery of the value that the instance has.
  pub deliver_commit-Moves :
      (b : Batch) (i i' : Instance)
      → is_committed i.phase ≡ false
      → i.promised_ballot ≤ i'.promised_ballot
      → i'.sn ≡ i.sn
      → (Valued i → i'.last_digest ≡ digest b)
      → (Valued i → Valued i')
      → Moves i (deliver_commit b i')
  unfolding deliver_commit announced
  deliver_commit-Moves b i i' open_ le n d v = record {
    ballot = le;
    number = n;
    final = λ h. refl;
    valued = v;
    shut = λ w h. refl;
    announces = λ w. inr (b, rw (announced-cleanup i'.last_req_batch b, n, d w), open_, refl);
  }
