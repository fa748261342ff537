-- ===== src/Validator.antt =====
-- microtensor_subnet/validator: the candidates of an arena, copies among the entries, what a validator
-- reports while it works, and the tickets it hands out.
pub mod Tally
pub mod Progress
pub mod Tickets
pub mod Collect
pub mod Duplicates
pub mod Tests
