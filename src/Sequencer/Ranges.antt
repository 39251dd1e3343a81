-- ===== src/Sequencer/Ranges.antt =====
-- The ranges of GSNs of mirbft/orderer/sequencer_election.go.
use iss_com_multipaxos.Prelude.{
  ℕ, ◌+◌, ◌-◌, ◌≤◌, ◌<◌, ◌≡◌, refl, Bool, true, false, ◌&&◌, ◌||◌, List, [], ◌∷◌, ◌++◌, ltb, leb,
  ◌==◌, if◌then◌else◌, length, arith, drop,
}
use iss_com_multipaxos.Sequencer.State.{Range}

unfoldable pub in_ranges : List Range → ℕ → Bool
in_ranges [] g = false
in_ranges (r ∷ rs) g = leb r.first g && leb g r.last || in_ranges rs g

-- The last range is made longer if `g` follows it, and a new one is begun if not.
unfoldable pub add_to_ranges : List Range → ℕ → List Range
add_to_ranges [] g = record { first = g; last = g } ∷ []
add_to_ranges (r ∷ []) g =
    if r.last + 1 == g then record r { last = g } ∷ [] else r ∷ record { first = g; last = g } ∷ []
add_to_ranges (r ∷ r' ∷ rs) g = r ∷ add_to_ranges (r' ∷ rs) g

-- What `encodeRanges` writes: the last 512 ranges at most.
unfoldable pub encode_ranges : List Range → List Range
encode_ranges rs = if ltb 512 (length rs) then drop (length rs - 512) rs else rs

-- What `decodeRanges` reads: the ranges that are in order and hold no 0.
unfoldable pub decode_ranges : List Range → List Range
decode_ranges [] = []
decode_ranges (r ∷ rs) =
    let rest = decode_ranges rs in if ltb 0 r.first && leb r.first r.last then r ∷ rest else rest

pub in_ranges-append :
    (rs ss : List Range) (g : ℕ) → in_ranges (rs ++ ss) g ≡ (in_ranges rs g || in_ranges ss g)
unfolding in_ranges
in_ranges-append [] ss g = refl
in_ranges-append (r ∷ rs) ss g = ground (arith, in_ranges-append rs ss g)

-- Every range ends below `g`, and none is empty: what `add_to_ranges` is given.
abbrev pub Below : ℕ → List Range → Type 0
Below g [] = Unit {0}
Below g (r ∷ rs) = (r.first ≤ r.last) × (r.last < g) × Below g rs

pub Below-later : (g h : ℕ) (rs : List Range) → g ≤ h → Below g rs → Below h rs
Below-later g h [] le b = tt
Below-later g h (r ∷ rs) le b = (b.0, omega arith, Below-later g h rs le b.2)

pub add_to_ranges-Below :
    (rs : List Range) (g : ℕ) → Below g rs → Below (g + 1) (add_to_ranges rs g)
unfolding add_to_ranges
add_to_ranges-Below [] g b = ground arith
add_to_ranges-Below (r ∷ []) g b = ground arith
add_to_ranges-Below (r ∷ r' ∷ rs) g b = (b.0, omega arith, add_to_ranges-Below (r' ∷ rs) g b.2)

-- To ranges that are not empty and end below `g`, adding `g` adds just `g`.
pub in_ranges-add_to_ranges :
    (rs : List Range) (g h : ℕ)
    → Below g rs
    → in_ranges (add_to_ranges rs g) h ≡ (in_ranges rs h || h == g)
unfolding in_ranges add_to_ranges
in_ranges-add_to_ranges [] g h b = ground arith
in_ranges-add_to_ranges (r ∷ []) g h b = ground arith
in_ranges-add_to_ranges (r ∷ r' ∷ rs) g h b =
    ground (arith, in_ranges-add_to_ranges (r' ∷ rs) g h b.2)

pub in_ranges-decode_ranges :
    (rs : List Range) (g : ℕ)
    → in_ranges (decode_ranges rs) g ≡ true
    → (in_ranges rs g ≡ true) × (0 < g)
unfolding in_ranges decode_ranges
in_ranges-decode_ranges [] g h = cc
in_ranges-decode_ranges (r ∷ rs) g h = ground (arith, in_ranges-decode_ranges rs g)
