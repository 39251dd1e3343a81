-- ===== src/Deliver/Global/Agreement.antt =====
-- What two nodes deliver, each having received what it has in whichever order.
use iss_com_multipaxos.Prelude.{ℕ, Bool, List, [], ◌∷◌, if◌then◌else◌}
use iss_com_multipaxos.Deliver.Global.{GlobalDelivery, touches_mine}

-- The deliveries that touch a group of some node.
pub keep : (ℕ → Bool) → List GlobalDelivery → List GlobalDelivery
keep mine [] = []
keep mine (d ∷ ds) =
    let rest = keep mine ds in if touches_mine mine d.groups then d ∷ rest else rest
