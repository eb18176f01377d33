-- ===== src/Scenarios.antt =====
-- The theorems at concrete data, one module for each part of the program.
pub mod Requests
pub mod Delivery
pub mod Resources
pub mod Navigation
pub mod Backends
pub mod Wires
