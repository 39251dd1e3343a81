-- ===== src/Sequencer/Resume.antt =====
-- A new leader resumes the numbering (`resumeGSNCounterOnBecomingLeader`,
-- mirbft/orderer/sequencer_election.go).
use iss_com_multipaxos.Prelude.{
  ℕ, ◌+◌, ◌-◌, ◌≤◌, ◌<◌, ◌≡◌, ◌∙◌, Bool, true, false, not, ◌&&◌, ◌||◌, List, [], ◌∷◌, ◌++◌, ltb,
  leb, ◌==◌, arith, inl, inr, Bool-cases, any, any-append, contains,
}
use iss_com_multipaxos.Sequencer.State.{Sequencer, Range, Action, Message, send_others}
use iss_com_multipaxos.Sequencer.Ranges.{in_ranges}
use iss_com_multipaxos.Sequencer.Meta.{max_meta_seen, has_range, record_skip, publish_meta_skip}
use iss_com_multipaxos.Sequencer.Reserve.{
  request_reservation, begin_reservation, send_reservation, confirm_reservation,
}
use iss_com_multipaxos.Sequencer.Election.{max, resume_gsn_counter}

has_range-in_ranges :
    (a b g : ℕ) (rs : List Range) → has_range a b rs ≡ true → a ≤ g → g ≤ b → in_ranges rs g ≡ true
unfolding has_range in_ranges
has_range-in_ranges a b g [] h p q = cc
has_range-in_ranges a b g (r ∷ rs) h p q = ground (arith, has_range-in_ranges a b g rs)

publish_meta_skip-in_ranges :
    (own : ℕ) (ns : List ℕ) (a b g : ℕ) (s : Sequencer)
    → 1 ≤ a
    → a ≤ g
    → g ≤ b
    → in_ranges (publish_meta_skip own ns a b s).0.skip_ranges g ≡ true
unfolding publish_meta_skip record_skip in_ranges
publish_meta_skip-in_ranges own ns a b g s one p q =
    ground (arith, has_range-in_ranges a b g s.skip_ranges)

request_reservation_next :
    (own now : ℕ) (s : Sequencer) → (request_reservation own now s).0.next_gsn ≡ s.next_gsn
unfolding request_reservation begin_reservation send_reservation confirm_reservation
request_reservation_next own now s = ground arith

publish_meta_skip_next :
    (own : ℕ) (ns : List ℕ) (a b : ℕ) (s : Sequencer)
    → (publish_meta_skip own ns a b s).0.next_gsn ≡ s.next_gsn
unfolding publish_meta_skip record_skip
publish_meta_skip_next own ns a b s = ground arith

-- The next GSN of a new leader.
unfoldable pub resume_at : Sequencer → ℕ
resume_at s = max (max s.vote_max_accepted s.accepted_up_to + 1) s.next_gsn

pub resume_gsn_counter_next :
    (own now : ℕ) (ns : List ℕ) (s : Sequencer)
    → (resume_gsn_counter own now ns s).0.next_gsn ≡ resume_at s
unfolding resume_gsn_counter resume_at
resume_gsn_counter_next own now ns s =
    elim (Bool-cases
      (leb (max (max s.vote_max_meta (max_meta_seen s) + 1) s.next_gsn) (resume_at s - 1))) [
        | inl e ↦
            rw (e, resume_gsn_counter)
              (publish_meta_skip_next own ns _ _ _ ∙ request_reservation_next own now _)
        | inr e ↦ rw (e, resume_gsn_counter) (request_reservation_next own now _)
      ]

pub resume_gsn_counter_above :
    (own now : ℕ) (ns : List ℕ) (s : Sequencer)
    → (s.vote_max_accepted < (resume_gsn_counter own now ns s).0.next_gsn)
      × (s.accepted_up_to < (resume_gsn_counter own now ns s).0.next_gsn)
      × (s.next_gsn ≤ (resume_gsn_counter own now ns s).0.next_gsn)
resume_gsn_counter_above own now ns s =
    rw (resume_gsn_counter_next own now ns s) (unfold resume_at in ground arith)

-- A message that tells node `n` that GSN `g` is skipped.
abbrev pub is_news : ℕ → ℕ → Action → Bool
is_news n g (Action.send m (Message.meta_skip a b)) = m == n && (leb a g && leb g b)
is_news n g _ = false

unfoldable pub tells : ℕ → ℕ → List Action → Bool
unfolding any
tells n g es = any (is_news n g) es

tells-append :
    (n g : ℕ) (xs ys : List Action) → tells n g (xs ++ ys) ≡ (tells n g xs || tells n g ys)
unfolding tells
tells-append n g xs ys = any-append (is_news n g) xs ys

tells-send_others :
    (n g a b own : ℕ) (ns : List ℕ)
    → a ≤ g
    → g ≤ b
    → (n == own || (not (contains n ns) || tells n g (send_others own (Message.meta_skip a b) ns)))
      ≡ true
unfolding tells send_others any contains
tells-send_others n g a b own [] p q = ground arith
tells-send_others n g a b own (m ∷ ns) p q = ground (arith, tells-send_others n g a b own ns p q)

tells-publish_meta_skip :
    (own : ℕ) (ns : List ℕ) (a b g n : ℕ) (s : Sequencer)
    → 1 ≤ a
    → a ≤ g
    → g ≤ b
    → (n == own || (not (contains n ns) || tells n g (publish_meta_skip own ns a b s).1)) ≡ true
unfolding publish_meta_skip
tells-publish_meta_skip own ns a b g n s one p q =
    let e : (a == 0 || ltb b a) ≡ false = ground arith in
    rw (e, publish_meta_skip)
      (rw (tells-append n g (record_skip a b s).1 (send_others own (Message.meta_skip a b) ns))
        (ground (arith, tells-send_others n g a b own ns p q)))

-- Every GSN that a new leader leaves out is declared skipped: those below its next GSN that are above
-- all METAs that its voters and it have seen, and that it had not numbered itself before. It is among
-- the leader's own skipped ranges, and a META_SKIP with it goes to every other node.
pub resume_gsn_counter-skips :
    (own now : ℕ) (ns : List ℕ) (s : Sequencer) (g n : ℕ)
    → s.vote_max_meta < g
    → max_meta_seen s < g
    → s.next_gsn ≤ g
    → g < (resume_gsn_counter own now ns s).0.next_gsn
    → (in_ranges (resume_gsn_counter own now ns s).0.skip_ranges g ≡ true)
      × ((n == own || (not (contains n ns) || tells n g (resume_gsn_counter own now ns s).1))
          ≡ true)
unfolding resume_gsn_counter
resume_gsn_counter-skips own now ns s g n a b c d =
    let h : g < resume_at s = rw (resume_gsn_counter_next own now ns s) at d in
    let e : leb (max (max s.vote_max_meta (max_meta_seen s) + 1) s.next_gsn) (resume_at s - 1)
        ≡ true =
      ground arith in
    unfold resume_at in
    rw (e, resume_gsn_counter)
      (
        publish_meta_skip-in_ranges own ns _ _ g _ (ground arith) (ground arith) (ground arith),
        tells_middle n g own ns _ _ _
            (tells-publish_meta_skip own ns _ _ g n _ (ground arith) (ground arith) (ground arith)),
      )
  where
    tells_middle :
        (n g own : ℕ) (ns : List ℕ) (xs ys zs : List Action)
        → (n == own || (not (contains n ns) || tells n g ys)) ≡ true
        → (n == own || (not (contains n ns) || tells n g (xs ++ (ys ++ zs)))) ≡ true
    tells_middle n g own ns xs ys zs h =
        rw (tells-append n g xs (ys ++ zs), tells-append n g ys zs) (ground (arith, h))
