-- ===== src/Deliver/Prefix.antt =====
-- The scan of `metaPrefix` in mirbft/orderer/globaldeliver.go: it never goes back, passes only GSNs whose META is known, and with the
-- map's size for fuel stops at the first one that is not.
use iss_com_multipaxos.Prelude.{
  ℕ, zero, suc, ◌+◌, ◌≤◌, ◌<◌, ◌≡◌, true, none, some, List, ◌⊎◌, inl, inr, arith, is_some, length,
  Map, lookup, run_of_keys-le, Option-cases,
}

-- `for d.meta[d.metaPrefix+1] != nil { d.metaPrefix++ }`, the loop of both deliverers.
unfoldable pub scan_prefix : ℕ → Map (List ℕ) → ℕ → ℕ
scan_prefix zero m p = p
scan_prefix (suc fuel) m p = elim (lookup (p + 1) m) [
  | none ↦ p
  | some _ ↦ scan_prefix fuel m (p + 1)
]

pub scan_prefix-ge : (f : ℕ) (m : Map (List ℕ)) (p : ℕ) → p ≤ scan_prefix f m p
unfolding scan_prefix
scan_prefix-ge zero m p = omega arith
scan_prefix-ge (suc f) m p = ground (arith, scan_prefix-ge f m (p + 1))

pub scan_prefix-known :
    (f : ℕ) (m : Map (List ℕ)) (p k : ℕ)
    → p < k
    → k ≤ scan_prefix f m p
    → is_some (lookup k m) ≡ true
unfolding scan_prefix
scan_prefix-known zero m p k a b = absurd (omega arith)
scan_prefix-known (suc f) m p k a b = ground (arith, scan_prefix-known f m (p + 1) k)

scan_prefix_end :
    (f : ℕ) (m : Map (List ℕ)) (p : ℕ)
    → (lookup (scan_prefix f m p + 1) m ≡ none) ⊎ (scan_prefix f m p ≡ p + f)
unfolding scan_prefix
scan_prefix_end zero m p = inr (omega arith)
scan_prefix_end (suc f) m p = ground (arith, scan_prefix_end f m (p + 1))

pub scan_prefix_stops :
    (m : Map (List ℕ)) (p : ℕ) → lookup (scan_prefix (length m) m p + 1) m ≡ none
scan_prefix_stops m p = elim (Option-cases (lookup (scan_prefix (length m) m p + 1) m)) [
  | inl e ↦ e
  | inr (gs, e) ↦ elim (scan_prefix_end (length m) m p) [
    | inl e' ↦ e'
    | inr full ↦ absurd (omega (arith, run_of_keys-le (length m + 1) p m (held gs e full)))
  ]
]
  where
    held :
        (gs : List ℕ)
        → lookup (scan_prefix (length m) m p + 1) m ≡ some gs
        → scan_prefix (length m) m p ≡ p + length m
        → (k : ℕ) → p < k
        → k ≤ p + (length m + 1)
        → is_some (lookup k m) ≡ true
    held gs e full k a b = ground (arith, scan_prefix-known (length m) m p k)
