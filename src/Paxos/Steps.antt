-- ===== src/Paxos/Steps.antt =====
-- COMMIT and state transfer keep what every step keeps.
use iss_com_multipaxos.Prelude.{
  ℕ, ◌≡◌, refl, sym, ◌∙◌, true, false, Option, none, some, [], ◌∷◌, ◌==◌, arith, inl, inr, ◌⊎◌,
  subst, Bool-cases,
}
use iss_com_multipaxos.Paxos.State.{Instance, Batch, Message, emit, Result, is_committed}
use iss_com_multipaxos.Paxos.Commit.{
  on_commit, commit_value, begin_fetch, take_entry, on_missing_entry,
}
use iss_com_multipaxos.Paxos.Moves.{
  announced, Valued, Moves, Plain-Moves, stay-Moves, deliver_commit-Moves,
}

module _ (digest : Batch → ℕ) where
  begin_fetch-Moves : (i : Instance) → Moves digest i (begin_fetch i)
  unfolding begin_fetch announced
  begin_fetch-Moves i = Plain-Moves digest i _ (ground arith)

  -- The instance differs where no statement looks.
  abbrev pub Same : Instance → Instance → Type 0
  Same i j =
      (j.promised_ballot ≡ i.promised_ballot)
      × (j.sn ≡ i.sn)
      × (j.phase ≡ i.phase)
      × (j.last_val ≡ i.last_val)
      × (j.last_digest ≡ i.last_digest)
      × (j.closed ≡ i.closed)

  pub from-Same : (i j : Instance) (p : Result) → Same i j → Moves digest j p → Moves digest i p
  from-Same i j p s m = record {
    ballot = omega (arith, s.0, m.ballot);
    number = m.number ∙ s.1;
    final = λ h. m.final (rw s.2 h);
    valued = λ v. m.valued (λ b e. s.4 ∙ v b (sym s.3 ∙ e));
    shut = λ w. m.shut (λ h. s.5 ∙ w (subst (λ ph. is_committed ph ≡ true) s.2 h));
    announces = λ v.
        subst
          (λ n.
            (announced p.1 ≡ [])
            ⊎ ((b : Batch) × (announced p.1 ≡ record { sn = n; batch = b; digest = digest b } ∷ [])
                × (is_committed i.phase ≡ false)
                × (is_committed p.0.phase ≡ true)))
          s.1
          (subst
            (λ ph.
              (announced p.1 ≡ [])
              ⊎ ((b : Batch) × (announced p.1
                    ≡ record { sn = j.sn; batch = b; digest = digest b } ∷ [])
                  × (is_committed ph ≡ false)
                  × (is_committed p.0.phase ≡ true)))
            s.2 (m.announces (λ b e. s.4 ∙ v b (sym s.3 ∙ e))));
  }

  commit_value-Moves :
      (d : ℕ) (o : Option Batch) (i : Instance)
      → is_committed i.phase ≡ false
      → i.last_val ≡ o
      → Moves digest i (commit_value d o i)
  unfolding commit_value
  commit_value-Moves d none i open_ e =
      from-Same i _ _ (refl, refl, refl, refl, refl, refl)
        (begin_fetch-Moves (record i { pending_commit_digest = some d }))
  commit_value-Moves d (some b) i open_ e = elim (Bool-cases (d == i.last_digest)) [
    | inr ne ↦
        rw (ne, commit_value)
          (from-Same i _ _ (refl, refl, refl, refl, refl, refl)
            (begin_fetch-Moves (record i { pending_commit_digest = some d })))
    | inl eq ↦
        rw (eq, commit_value)
          (deliver_commit-Moves digest b i _ open_ (omega arith) refl (λ v. v b e) (λ v. v))
  ]

  pub on_commit-Moves : (o : Option ℕ) (i : Instance) → Moves digest i (on_commit o i)
  unfolding on_commit announced
  on_commit-Moves none i = Plain-Moves digest i _ (ground arith)
  on_commit-Moves (some d) i = elim (Bool-cases (is_committed i.phase)) [
    | inl e ↦ rw (e, on_commit) (stay-Moves digest i)
    | inr e ↦ rw (e, on_commit) (commit_value-Moves d i.last_val i e refl)
  ]

  pub last_val-Valued :
      (b : Batch) (i : Instance) → i.last_digest ≡ digest b → i.last_val ≡ some b → Valued digest i
  last_val-Valued b i d e b' e' = ground arith

  take_entry-Moves :
      (o : Option ℕ) (b : Batch) (i i' : Instance)
      → is_committed i.phase ≡ false
      → i'.phase ≡ i.phase
      → i'.promised_ballot ≡ i.promised_ballot
      → i'.sn ≡ i.sn
      → i'.last_digest ≡ digest b
      → i'.last_val ≡ some b
      → Moves digest i (take_entry o b i')
  unfolding take_entry announced
  take_entry-Moves none b i i' open_ ph p n d e =
      deliver_commit-Moves digest b i i' open_ (omega arith) n (λ v. d)
        (λ v. last_val-Valued b i' d e)
  take_entry-Moves (some w) b i i' open_ ph p n d e = elim (Bool-cases (w == i'.last_digest)) [
    | inr ne ↦
        rw (ne, take_entry)
          (record {
            ballot = omega (arith, p);
            number = n;
            final = λ h. rw ph h;
            valued = λ v. last_val-Valued b (record i' { fetch_in_flight = false }) d e;
            shut = λ w h. absurd (ground arith);
            announces = λ v. inl refl;
          })
    | inl eq ↦
        rw (eq, take_entry)
          (deliver_commit-Moves digest b i _ open_ (omega (arith, p)) n (λ v. d)
            (λ v.
              last_val-Valued b
                (record i' { fetch_in_flight = false; pending_commit_digest = none }) d e))
  ]

  pub on_missing_entry-Moves :
      (o : Option Batch) (i : Instance) → Moves digest i (on_missing_entry digest o i)
  unfolding on_missing_entry
  on_missing_entry-Moves none i = stay-Moves digest i
  on_missing_entry-Moves (some b) i = elim (Bool-cases (is_committed i.phase)) [
    | inl e ↦ rw (e, on_missing_entry) (stay-Moves digest i)
    | inr e ↦
        rw (e, on_missing_entry)
          (take_entry-Moves i.pending_commit_digest b i _ e refl refl refl refl refl)
  ]

  pub silent-Moves :
      (m : Message) (i : Instance) (p : Result)
      → Moves digest i p
      → Moves digest i (p.0, emit m ∷ p.1)
  unfolding announced
  silent-Moves m i p x = record {
    ballot = x.ballot;
    number = x.number;
    final = x.final;
    valued = x.valued;
    shut = x.shut;
    announces = x.announces;
  }
