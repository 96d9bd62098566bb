-- ===== src/Lending/Repayment.antt =====
-- pallets/lending/src/lib.rs: a debt that is repaid in full.
use konomi_node.Lending.State.{State}
