-- ===== src/Tests.antt =====
-- Examples at concrete inputs, on the sample data of Data.
mod Data
mod Wire
mod Ordering
mod Sessions
mod Keys
mod Drivers
mod Clients
mod Nested
