-- ===== src/Sequencer/Loyal.antt =====
-- A node votes once in a term: what leaves its vote alone.
use iss_com_multipaxos.Prelude.{
  ℕ, ◌+◌, ◌-◌, ◌/◌, ltb, ◌≤◌, ◌≡◌, refl, ◌∙◌, ◌||◌, some, List, [], ◌∷◌, ◌==◌, is_some, length,
  arith, inl, inr, Bool-cases, lookup, contains,
}
use iss_com_multipaxos.Sequencer.State.{Sequencer, Range}
use iss_com_multipaxos.Sequencer.Meta.{
  register_metadata, publish_meta, record_skip, publish_meta_skip, parse_skip_suffix,
}
use iss_com_multipaxos.Sequencer.Reserve.{
  gsn_block_size, request_reservation, allocate_gsn, handle_reserve, handle_reserve_ack,
  note_reserve_contact, accept_mark,
}
use iss_com_multipaxos.Sequencer.Requests.{answer_pending}
use iss_com_multipaxos.Sequencer.Recovery.{skip_all}

-- The node does not take back a vote: in a term in which it has voted it keeps its vote.
pub record Loyal (s s' : Sequencer) : Type 0 where
  pub term : s.term ≤ s'.term
  pub vote : (c : ℕ) → s'.term ≡ s.term → s.voted_for ≡ some c → s'.voted_for ≡ some c

pub Loyal-refl : (s : Sequencer) → Loyal s s
Loyal-refl s = record { term = omega arith; vote = λ c e h. h }

pub Loyal-trans : {s t u : Sequencer} → Loyal s t → Loyal t u → Loyal s u
Loyal-trans a b = record {
  term = omega (arith, a.term, b.term);
  vote = λ c e h.
      b.vote c (omega (arith, a.term, b.term, e)) (a.vote c (omega (arith, a.term, b.term, e)) h);
}

-- A step that leaves the term and the vote alone.
abbrev pub Still : Sequencer → Sequencer → Type 0
Still s s' = (s'.term ≡ s.term) × (s'.voted_for ≡ s.voted_for)

pub Still-Loyal : (s s' : Sequencer) → Still s s' → Loyal s s'
Still-Loyal s s' h = record { term = omega (arith, h.0); vote = λ c e v. h.1 ∙ v }

pub request_reservation-Loyal :
    (own now : ℕ) (s : Sequencer) → Loyal s (request_reservation own now s).0
unfolding request_reservation
request_reservation-Loyal own now s = Still-Loyal _ _ (ground arith)

pub allocate_gsn-Loyal : (own now : ℕ) (s : Sequencer) → Loyal s (allocate_gsn own now s).0
unfolding allocate_gsn
allocate_gsn-Loyal own now s =
    let s' : Sequencer = record s { next_gsn = s.next_gsn + 1 } in
    let first : Loyal s s' = Still-Loyal s s' (refl, refl) in
    elim (Bool-cases (ltb s.confirmed_up_to s.next_gsn)) [
      | inl e ↦ rw (e, allocate_gsn) (request_reservation-Loyal own now s)
      | inr e ↦ elim (Bool-cases (ltb (s.confirmed_up_to - s.next_gsn) (gsn_block_size / 2))) [
        | inl f ↦ rw (e, f, allocate_gsn) (Loyal-trans first (request_reservation-Loyal own now s'))
        | inr f ↦ rw (e, f, allocate_gsn) first
      ]
    ]

pub handle_reserve-Loyal :
    (now term upto sender : ℕ) (s : Sequencer) → Loyal s (handle_reserve now term upto sender s).0
unfolding handle_reserve
handle_reserve-Loyal now term upto sender s = Still-Loyal _ _ (ground arith)

pub handle_reserve_ack-Loyal :
    (term upto sender : ℕ) (s : Sequencer) → Loyal s (handle_reserve_ack term upto sender s)
unfolding handle_reserve_ack
handle_reserve_ack-Loyal term upto sender s = Still-Loyal _ _ (ground arith)

pub note_reserve_contact-Loyal :
    (now term sender : ℕ) (s : Sequencer) → Loyal s (note_reserve_contact now term sender s).0
unfolding note_reserve_contact
note_reserve_contact-Loyal now term sender s = Still-Loyal _ _ (ground arith)

pub accept_mark-Loyal : (upto : ℕ) (s : Sequencer) → Loyal s (accept_mark upto s)
unfolding accept_mark
accept_mark-Loyal upto s = Still-Loyal _ _ (ground arith)

pub answer_pending-Loyal : (r g : ℕ) (s : Sequencer) → Loyal s (answer_pending r g s).0
unfolding answer_pending
answer_pending-Loyal r g s = Still-Loyal _ _ (ground arith)

pub register_metadata-Loyal :
    (gsn : ℕ) (groups : List ℕ) (s : Sequencer) → Loyal s (register_metadata gsn groups s).0
unfolding register_metadata
register_metadata-Loyal gsn groups s = elim (Bool-cases (is_some (lookup gsn s.metadata))) [
  | inl e ↦ rw (e, register_metadata) (Loyal-refl s)
  | inr e ↦ rw (e, register_metadata) (Still-Loyal _ _ (refl, refl))
]

pub record_skip-Loyal : (from to : ℕ) (s : Sequencer) → Loyal s (record_skip from to s).0
unfolding record_skip
record_skip-Loyal from to s = Still-Loyal _ _ (ground arith)

pub parse_skip_suffix-Loyal : (rs : List Range) (s : Sequencer) → Loyal s (parse_skip_suffix rs s).0
unfolding parse_skip_suffix
parse_skip_suffix-Loyal [] s = Loyal-refl s
parse_skip_suffix-Loyal (r ∷ rs) s =
    Loyal-trans (record_skip-Loyal r.first r.last s) (parse_skip_suffix-Loyal rs _)

pub publish_meta-Loyal :
    (own : ℕ) (ns : List ℕ) (gsn : ℕ) (groups : List ℕ) (s : Sequencer)
    → Loyal s (publish_meta own ns gsn groups s).0
unfolding publish_meta
publish_meta-Loyal own ns gsn groups s = elim (Bool-cases (contains gsn s.published_meta)) [
  | inl e ↦ rw (e, publish_meta) (Loyal-refl s)
  | inr e ↦ elim (Bool-cases (length groups == 0)) [
    | inl f ↦ rw (e, f, publish_meta) (Still-Loyal _ _ (ground arith))
    | inr f ↦
        rw (e, f, publish_meta)
          (Loyal-trans (Still-Loyal _ _ (ground arith)) (register_metadata-Loyal gsn groups _))
  ]
]

pub publish_meta_skip-Loyal :
    (own : ℕ) (ns : List ℕ) (from to : ℕ) (s : Sequencer)
    → Loyal s (publish_meta_skip own ns from to s).0
unfolding publish_meta_skip
publish_meta_skip-Loyal own ns from to s = elim (Bool-cases (from == 0 || ltb to from)) [
  | inl e ↦ rw (e, publish_meta_skip) (Loyal-refl s)
  | inr e ↦ rw (e, publish_meta_skip) (record_skip-Loyal from to s)
]

pub skip_all-Loyal :
    (own : ℕ) (ns : List ℕ) (rs : List Range) (s : Sequencer) → Loyal s (skip_all own ns rs s).0
unfolding skip_all
skip_all-Loyal own ns [] s = Loyal-refl s
skip_all-Loyal own ns (r ∷ rs) s =
    Loyal-trans (publish_meta_skip-Loyal own ns r.first r.last s) (skip_all-Loyal own ns rs _)
