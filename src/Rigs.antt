-- ===== src/Rigs.antt =====
-- microtensor_subnet/rigs: the validator's watch over remote rigs.
pub mod Ledger
pub mod Express
pub mod Weights
pub mod Tests
