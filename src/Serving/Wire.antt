-- ===== src/Serving/Wire.antt =====
-- serving/wire/session.py: the session of an operator with the gateway.
pub mod Offered
pub mod Capacity
pub mod Link
pub mod Refusals
pub mod Reports
pub mod Session
pub mod Tests
