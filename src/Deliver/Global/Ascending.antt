-- ===== src/Deliver/Global/Ascending.antt =====
-- A node delivers in ascending order of GSN, whatever reaches it (`drainLocked`,
-- mirbft/orderer/globaldeliver.go).
use iss_com_multipaxos.Prelude.{ℕ, ◌≤◌, ◌<◌, ◌≡◌, Bool, true, List, [], ◌∷◌}
use iss_com_multipaxos.Deliver.Global.{GlobalDelivery, touches_mine}

module _ (is_mine : ℕ → Bool) where
  -- The deliveries come in ascending order of GSN, above `lo` and up to `hi`, and each is of a group of
  -- the node.
  abbrev pub IsAscending : ℕ → ℕ → List GlobalDelivery → Type 0
  IsAscending lo hi [] = lo ≤ hi
  IsAscending lo hi (d ∷ ds) =
      (lo < d.gsn) × (touches_mine is_mine d.groups ≡ true) × IsAscending d.gsn hi ds
