-- ===== src/Chain.antt =====
-- microtensor_subnet/chain: the clock of the subnet, in blocks. A block number may be negative,
-- as `GENESIS_BLOCK` is.
pub mod Clock
pub mod Epochs
pub mod Rounds
pub mod Commitments
pub mod Weights
