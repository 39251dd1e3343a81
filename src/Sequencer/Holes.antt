-- ===== src/Sequencer/Holes.antt =====
-- What `metaHoles` reports with a vote (mirbft/orderer/sequencer_election.go).
use iss_com_multipaxos.Prelude.{
  ℕ, zero, suc, ◌+◌, ◌-◌, ◌≡◌, refl, ap, ◌∙◌, Bool, true, false, not, ◌&&◌, ◌||◌, List, [], ltb,
  leb, ◌==◌, is_some, lookup, arith, inl, inr, Bool-cases,
}
use iss_com_multipaxos.Sequencer.State.{Sequencer, Range}
use iss_com_multipaxos.Sequencer.Ranges.{
  in_ranges, add_to_ranges, Below, Below-later, add_to_ranges-Below, in_ranges-add_to_ranges,
}
use iss_com_multipaxos.Sequencer.Meta.{holes_loop, meta_holes, max_hole_scan}

-- No META of the GSN is known, and it is not skipped.
unfoldable pub is_hole : ℕ → Sequencer → Bool
is_hole g s = not (is_some (lookup g s.metadata) || in_ranges s.skip_ranges g)

hole_is :
    (h g : ℕ) (s : Sequencer)
    → h ≡ g
    → is_hole h s ≡ not (is_some (lookup g s.metadata) || in_ranges s.skip_ranges g)
unfolding is_hole
hole_is h g s e = rw e refl

in_ranges-holes_loop :
    (n g h : ℕ) (s : Sequencer) (out : List Range)
    → Below g out
    → in_ranges (holes_loop n g s out) h
      ≡ (in_ranges out h || (leb g h && ltb h (g + n) && is_hole h s))
unfolding holes_loop
in_ranges-holes_loop zero g h s out b = ground arith
in_ranges-holes_loop (suc n) g h s out b =
    elim (Bool-cases (is_some (lookup g s.metadata) || in_ranges s.skip_ranges g)) [
      | inl e ↦
          rw (e, holes_loop)
            (in_ranges-holes_loop n (g + 1) h s out (Below-later g (g + 1) out (omega arith) b)
              ∙ shut_at_g e)
      | inr e ↦
          rw (e, holes_loop)
            (in_ranges-holes_loop n (g + 1) h s (add_to_ranges out g) (add_to_ranges-Below out g b)
              ∙ open_at_g e)
    ]
  where
    shut_at_g :
        (is_some (lookup g s.metadata) || in_ranges s.skip_ranges g) ≡ true
        → (in_ranges out h || (leb (g + 1) h && ltb h (g + 1 + n) && is_hole h s))
          ≡ (in_ranges out h || (leb g h && ltb h (g + suc n) && is_hole h s))
    shut_at_g e = elim (Bool-cases (h == g)) [
      | inl f ↦
          let q : is_hole h s ≡ false = hole_is h g s (ground arith) ∙ ap not e in
          rw q (ground arith)
      | inr f ↦ ground arith
    ]

    open_at_g :
        (is_some (lookup g s.metadata) || in_ranges s.skip_ranges g) ≡ false
        → (in_ranges (add_to_ranges out g) h || (leb (g + 1) h && ltb h (g + 1 + n) && is_hole h s))
          ≡ (in_ranges out h || (leb g h && ltb h (g + suc n) && is_hole h s))
    open_at_g e = elim (Bool-cases (h == g)) [
      | inl f ↦
          let q : is_hole h s ≡ true = hole_is h g s (ground arith) ∙ ap not e in
          rw (in_ranges-add_to_ranges out g h b, q) (ground arith)
      | inr f ↦ rw (in_ranges-add_to_ranges out g h b, f) (ground arith)
    ]

-- A voter reports just the GSNs up to `upto` that it has no META of and does not know to be skipped,
-- as far as the scan of the last 200000 reaches.
pub in_ranges-meta_holes :
    (upto : ℕ) (s : Sequencer) (g : ℕ)
    → in_ranges (meta_holes upto s) g
      ≡ (leb 1 g && ltb upto (g + max_hole_scan) && leb g upto && is_hole g s)
unfolding meta_holes
in_ranges-meta_holes upto s g = elim (Bool-cases (upto == 0)) [
  | inl e ↦ rw (e, meta_holes) (unfold in_ranges in ground arith)
  | inr e ↦ elim (Bool-cases (ltb max_hole_scan upto)) [
    | inl f ↦
        rw (e, f, meta_holes)
          (in_ranges-holes_loop (upto + 1 - (upto - max_hole_scan + 1)) (upto - max_hole_scan + 1) g
              s [] tt
            ∙ unfold in_ranges in ground arith)
    | inr f ↦
        rw (e, f, meta_holes)
          (in_ranges-holes_loop (upto + 1 - 1) 1 g s [] tt ∙ unfold in_ranges in ground arith)
  ]
]
