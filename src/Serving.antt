-- ===== src/Serving.antt =====
-- microtensor_subnet/serving: settlement of an epoch of served requests and the division of its
-- emission.
pub mod Settle
pub mod Pools
pub mod Wire
pub mod Hardware
pub mod Plan
pub mod Host
