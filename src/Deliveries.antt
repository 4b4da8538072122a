-- ===== src/Deliveries.antt =====
-- src/graal_delivery_client.cpp and src/legacy_client.cpp: the counters of the delivery clients,
-- which listeners on several threads raise.
pub mod Maximum
pub mod Alone
pub mod Counters
pub mod Tally
pub mod Interval
mod Tests
