-- ===== src/Serving/Pools.antt =====
-- microtensor_subnet/serving/pools.py: how the emission of an epoch is divided between the
-- operators that served. `Dials` has the settings, `Exclusion`, `Bounties`, `Shares` and `Floors`
-- the steps, `Divide` the whole.
pub mod Dials
pub mod Exclusion
pub mod Bounties
pub mod Shares
pub mod Floors
pub mod Newcomers
pub mod Divide
pub mod Tests
