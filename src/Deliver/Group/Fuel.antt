-- ===== src/Deliver/Group/Fuel.antt =====
-- The rounds of the drain of a groupDeliverer are enough: its loop ends because a round leaves it.
use iss_com_multipaxos.Prelude.{
  ℕ, zero, suc, ◌+◌, ◌-◌, ◌≤◌, ◌<◌, ◌≡◌, refl, ap, subst, not, ◌||◌, List, [], ◌++◌, ltb, ◌==◌,
  or_else, length, contains, get_elem?, get_elem?-lt, lookup, erase, length-erase-le,
  length-erase-lt, arith, inl, inr, ◌⊎◌, Bool-cases, Option-cases,
}
use iss_com_multipaxos.Deliver.Group.{
  LogItem, is_cross_op, GroupDeliverer, touches, Round, leave, go_on, advance_loop, advance_cursor,
  mark_delivered, drain_cross, drain_item, drain_round, drain_loop, drain_fuel,
}

-- What the rounds use up.
abbrev left_over : GroupDeliverer → ℕ
left_over d = length d.log - d.head + length d.cross_in_log

abbrev Shrinks : ℕ → Round → Type 0
Shrinks n (leave d) = Unit {0}
Shrinks n (go_on d out) = left_over d < n

abbrev Same : GroupDeliverer → GroupDeliverer → Type 0
Same d d' = (d'.log ≡ d.log) × (d'.head ≡ d.head) × (d'.cross_in_log ≡ d.cross_in_log)

advance_loop-Same : (fuel : ℕ) (d : GroupDeliverer) → Same d (advance_loop fuel d).0
unfolding advance_loop
advance_loop-Same zero d = (refl, refl, refl)
advance_loop-Same (suc fuel) d =
    let next : ℕ = d.cursor + 1 in
    let groups : List ℕ = or_else (lookup next d.known) [] in
    let passed : GroupDeliverer = record d { known = erase next d.known; cursor = next } in
    elim (Bool-cases (ltb d.cursor d.meta_prefix)) [
      | inr e ↦ rw (e, advance_loop) (refl, refl, refl)
      | inl e ↦
          elim (Bool-cases
            (ltb (length groups) 2 || not (touches d.gid groups) || contains next d.early)) [
              | inl f ↦ rw (e, f, advance_loop) (advance_loop-Same fuel passed)
              | inr f ↦ rw (e, f, advance_loop) (refl, refl, refl)
            ]
    ]

drain_cross-Shrinks :
    (it : LogItem) (next : ℕ) (d : GroupDeliverer)
    → d.head < length d.log
    → Shrinks (left_over d) (drain_cross it next d)
unfolding drain_cross mark_delivered
drain_cross-Shrinks it next d h = elim (Bool-cases (next == 0)) [
  | inl e ↦ rw (e, drain_cross) tt
  | inr e ↦ elim (Bool-cases (next == it.req.gsn)) [
    | inl f ↦ rw (e, f, drain_cross) (omega (arith, h, length-erase-le it.req.gsn d.cross_in_log))
    | inr f ↦ elim (Bool-cases (ltb it.req.gsn next)) [
      | inl g ↦
          rw (e, f, g, drain_cross) (omega (arith, h, length-erase-le it.req.gsn d.cross_in_log))
      | inr g ↦ elim (Option-cases (lookup next d.cross_in_log)) [
        | inl p ↦ rw (e, f, g, p, drain_cross) tt
        | inr (a, p) ↦
            rw (e, f, g, p, drain_cross)
              (omega (arith, length-erase-lt next d.cross_in_log (rw p refl)))
      ]
    ]
  ]
]

drain_item-Shrinks :
    (it : LogItem) (d : GroupDeliverer)
    → d.head < length d.log
    → Shrinks (left_over d) (drain_item it d)
unfolding drain_item advance_cursor
drain_item-Shrinks it d h = elim (Bool-cases (is_cross_op it.req)) [
  | inr e ↦ rw (e, drain_item) (omega (arith, h))
  | inl e ↦ elim (Bool-cases (contains it.req.gsn d.early)) [
    | inl f ↦ rw (e, f, drain_item) (omega (arith, h))
    | inr f ↦
        let p : GroupDeliverer × ℕ = advance_cursor d in
        let s = advance_loop-Same (d.meta_prefix - d.cursor) d in
        rw (e, f, drain_item)
          (subst (λ n. Shrinks n (drain_cross it p.1 p.0)) (ap (λ n. n) (rw (s.0, s.1, s.2) refl))
            (drain_cross-Shrinks it p.1 p.0 (rw (s.0, s.1) h)))
  ]
]

drain_round-Shrinks : (d : GroupDeliverer) → Shrinks (left_over d) (drain_round d)
unfolding drain_round
drain_round-Shrinks d = elim (Option-cases (get_elem? d.log d.head)) [
  | inl e ↦ rw (e, drain_round) tt
  | inr (it, e) ↦ rw (e, drain_round) (drain_item-Shrinks it d (get_elem?-lt d.head d.log e))
]

Round-cases :
    (r : Round)
    → ((d : GroupDeliverer) × (r ≡ leave d))
      ⊎ ((d : GroupDeliverer) × (out : List LogItem) × (r ≡ go_on d out))
Round-cases (leave d) = inl (d, refl)
Round-cases (go_on d out) = inr (d, out, refl)

drain_loop-more :
    (m fuel : ℕ) (d : GroupDeliverer)
    → left_over d < fuel
    → fuel ≤ m
    → drain_loop m d ≡ drain_loop fuel d
unfolding drain_loop
drain_loop-more m zero d h k = absurd (omega (arith, h))
drain_loop-more zero (suc fuel) d h k = absurd (omega (arith, k))
drain_loop-more (suc m) (suc fuel) d h k = elim (Round-cases (drain_round d)) [
  | inl (d', e) ↦ rw (e, drain_loop) refl
  | inr (d', out, e) ↦
      let s : left_over d' < left_over d =
        subst (Shrinks (left_over d)) e (drain_round-Shrinks d) in
      rw (e, drain_loop)
        (ap (λ p. (p.0, out ++ p.1))
          (drain_loop-more m fuel d' (omega (arith, s, h)) (omega (arith, k))))
]

drain_loop-leaves :
    (fuel : ℕ) (d : GroupDeliverer)
    → left_over d < fuel
    → (last : GroupDeliverer) × (drain_round last ≡ leave (drain_loop fuel d).0)
unfolding drain_loop
drain_loop-leaves zero d h = absurd (omega (arith, h))
drain_loop-leaves (suc fuel) d h = elim (Round-cases (drain_round d)) [
  | inl (d', e) ↦ (d, rw (e, drain_loop) refl)
  | inr (d', out, e) ↦
      let s : left_over d' < left_over d =
        subst (Shrinks (left_over d)) e (drain_round-Shrinks d) in
      let (last, f) = drain_loop-leaves fuel d' (omega (arith, s, h)) in
      (last, rw (e, drain_loop) f)
]

-- From any state, and with any number of rounds not less than what the model gives it, the loop of
-- the drain comes to the same result, and it ends because a round leaves it.
pub drain_loop_ends :
    (d : GroupDeliverer) (m : ℕ)
    → drain_fuel d ≤ m
    → (drain_loop m d ≡ drain_loop (drain_fuel d) d)
      × ((last : GroupDeliverer) × (drain_round last ≡ leave (drain_loop m d).0))
unfolding drain_fuel
drain_loop_ends d m k =
    (drain_loop-more m (drain_fuel d) d (omega arith) k, drain_loop-leaves m d (omega (arith, k)))
