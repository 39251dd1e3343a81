-- ===== src/Request.antt =====
-- The client request of mirbft/protobufs/request.proto, with the fields that the orderers read.
use iss_com_multipaxos.Prelude.{ℕ, List}

pub record ClientRequest : Type 0 where
  pub client_id : ℕ
  pub client_sn : ℕ
  pub payload : List ℕ
  pub group_id : ℕ
  pub touched_groups : List ℕ
  pub gsn : ℕ
