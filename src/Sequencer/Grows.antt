-- ===== src/Sequencer/Grows.antt =====
-- What no step of a node's sequencer takes back: the mark that it has accepted, the next GSN, and the METAs and skipped ranges that it knows.
use iss_com_multipaxos.Prelude.{
  ℕ, ◌+◌, ◌-◌, ◌/◌, ltb, ◌≤◌, ◌≡◌, refl, ◌∙◌, true, ◌||◌, some, List, [], ◌∷◌, ◌==◌, is_some,
  length, arith, inl, inr, Bool-cases, lookup, lookup-insert, contains,
}
use iss_com_multipaxos.Sequencer.State.{Sequencer, Range}
use iss_com_multipaxos.Sequencer.Ranges.{in_ranges}
use iss_com_multipaxos.Sequencer.Meta.{
  register_metadata, publish_meta, record_skip, publish_meta_skip, parse_skip_suffix,
}
use iss_com_multipaxos.Sequencer.Reserve.{
  gsn_block_size, request_reservation, allocate_gsn, handle_reserve, handle_reserve_ack,
  note_reserve_contact, accept_mark,
}
use iss_com_multipaxos.Sequencer.Requests.{answer_pending}
use iss_com_multipaxos.Sequencer.Recovery.{skip_all}

pub record Grows (s s' : Sequencer) : Type 0 where
  pub next : s.next_gsn ≤ s'.next_gsn
  pub accepted : s.accepted_up_to ≤ s'.accepted_up_to
  pub members : s'.members ≡ s.members
  pub metas : (g : ℕ) (gs : List ℕ) → lookup g s.metadata ≡ some gs → lookup g s'.metadata ≡ some gs
  pub skips : (g : ℕ) → in_ranges s.skip_ranges g ≡ true → in_ranges s'.skip_ranges g ≡ true

pub Grows-refl : (s : Sequencer) → Grows s s
Grows-refl s = record {
  next = omega arith;
  accepted = omega arith;
  members = refl;
  metas = λ g gs h. h;
  skips = λ g h. h;
}

pub Grows-trans : {s t u : Sequencer} → Grows s t → Grows t u → Grows s u
Grows-trans a b = record {
  next = omega (arith, a.next, b.next);
  accepted = omega (arith, a.accepted, b.accepted);
  members = b.members ∙ a.members;
  metas = λ g gs h. b.metas g gs (a.metas g gs h);
  skips = λ g h. b.skips g (a.skips g h);
}

-- A step that leaves METAs and ranges alone.
abbrev Plain : Sequencer → Sequencer → Type 0
Plain s s' =
    (s.next_gsn ≤ s'.next_gsn)
    × (s.accepted_up_to ≤ s'.accepted_up_to)
    × (s'.members ≡ s.members)
    × (s'.metadata ≡ s.metadata)
    × (s'.skip_ranges ≡ s.skip_ranges)

pub Plain-Grows : (s s' : Sequencer) → Plain s s' → Grows s s'
Plain-Grows s s' h = record {
  next = h.0;
  accepted = h.1;
  members = h.2;
  metas = λ g gs e. rw h.3 e;
  skips = λ g e. rw h.4 e;
}

pub request_reservation-Grows :
    (own now : ℕ) (s : Sequencer) → Grows s (request_reservation own now s).0
unfolding request_reservation
request_reservation-Grows own now s = Plain-Grows _ _ (ground arith)

pub allocate_gsn-Grows : (own now : ℕ) (s : Sequencer) → Grows s (allocate_gsn own now s).0
unfolding allocate_gsn
allocate_gsn-Grows own now s =
    let s' : Sequencer = record s { next_gsn = s.next_gsn + 1 } in
    let first : Grows s s' = Plain-Grows s s' (omega arith, omega arith, refl, refl, refl) in
    elim (Bool-cases (ltb s.confirmed_up_to s.next_gsn)) [
      | inl e ↦ rw (e, allocate_gsn) (request_reservation-Grows own now s)
      | inr e ↦ elim (Bool-cases (ltb (s.confirmed_up_to - s.next_gsn) (gsn_block_size / 2))) [
        | inl f ↦ rw (e, f, allocate_gsn) (Grows-trans first (request_reservation-Grows own now s'))
        | inr f ↦ rw (e, f, allocate_gsn) first
      ]
    ]

pub handle_reserve-Grows :
    (now term upto sender : ℕ) (s : Sequencer) → Grows s (handle_reserve now term upto sender s).0
unfolding handle_reserve
handle_reserve-Grows now term upto sender s = Plain-Grows _ _ (ground arith)

pub handle_reserve_ack-Grows :
    (term upto sender : ℕ) (s : Sequencer) → Grows s (handle_reserve_ack term upto sender s)
unfolding handle_reserve_ack
handle_reserve_ack-Grows term upto sender s = Plain-Grows _ _ (ground arith)

pub note_reserve_contact-Grows :
    (now term sender : ℕ) (s : Sequencer) → Grows s (note_reserve_contact now term sender s).0
unfolding note_reserve_contact
note_reserve_contact-Grows now term sender s = Plain-Grows _ _ (ground arith)

pub accept_mark-Grows : (upto : ℕ) (s : Sequencer) → Grows s (accept_mark upto s)
unfolding accept_mark
accept_mark-Grows upto s = Plain-Grows _ _ (ground arith)

pub answer_pending-Grows : (r g : ℕ) (s : Sequencer) → Grows s (answer_pending r g s).0
unfolding answer_pending
answer_pending-Grows r g s = Plain-Grows _ _ (ground arith)

pub register_metadata-Grows :
    (gsn : ℕ) (groups : List ℕ) (s : Sequencer) → Grows s (register_metadata gsn groups s).0
unfolding register_metadata
register_metadata-Grows gsn groups s = elim (Bool-cases (is_some (lookup gsn s.metadata))) [
  | inl e ↦ rw (e, register_metadata) (Grows-refl s)
  | inr e ↦
      rw (e, register_metadata)
        (record {
          next = omega arith;
          accepted = omega arith;
          members = refl;
          metas = λ g gs h. ground (arith, lookup-insert g gsn groups s.metadata);
          skips = λ g h. h;
        })
]

pub record_skip-Grows : (from to : ℕ) (s : Sequencer) → Grows s (record_skip from to s).0
unfolding record_skip
record_skip-Grows from to s = record {
  next = ground arith;
  accepted = ground arith;
  members = ground arith;
  metas = λ g gs h. ground arith;
  skips = λ g h. unfold in_ranges in ground arith;
}

pub parse_skip_suffix-Grows : (rs : List Range) (s : Sequencer) → Grows s (parse_skip_suffix rs s).0
unfolding parse_skip_suffix
parse_skip_suffix-Grows [] s = Grows-refl s
parse_skip_suffix-Grows (r ∷ rs) s =
    Grows-trans (record_skip-Grows r.first r.last s) (parse_skip_suffix-Grows rs _)

pub publish_meta-Grows :
    (own : ℕ) (ns : List ℕ) (gsn : ℕ) (groups : List ℕ) (s : Sequencer)
    → Grows s (publish_meta own ns gsn groups s).0
unfolding publish_meta
publish_meta-Grows own ns gsn groups s = elim (Bool-cases (contains gsn s.published_meta)) [
  | inl e ↦ rw (e, publish_meta) (Grows-refl s)
  | inr e ↦ elim (Bool-cases (length groups == 0)) [
    | inl f ↦ rw (e, f, publish_meta) (Plain-Grows _ _ (ground arith))
    | inr f ↦
        rw (e, f, publish_meta)
          (Grows-trans (Plain-Grows _ _ (ground arith)) (register_metadata-Grows gsn groups _))
  ]
]

pub publish_meta_skip-Grows :
    (own : ℕ) (ns : List ℕ) (from to : ℕ) (s : Sequencer)
    → Grows s (publish_meta_skip own ns from to s).0
unfolding publish_meta_skip
publish_meta_skip-Grows own ns from to s = elim (Bool-cases (from == 0 || ltb to from)) [
  | inl e ↦ rw (e, publish_meta_skip) (Grows-refl s)
  | inr e ↦ rw (e, publish_meta_skip) (record_skip-Grows from to s)
]

pub skip_all-Grows :
    (own : ℕ) (ns : List ℕ) (rs : List Range) (s : Sequencer) → Grows s (skip_all own ns rs s).0
unfolding skip_all
skip_all-Grows own ns [] s = Grows-refl s
skip_all-Grows own ns (r ∷ rs) s =
    Grows-trans (publish_meta_skip-Grows own ns r.first r.last s) (skip_all-Grows own ns rs _)
