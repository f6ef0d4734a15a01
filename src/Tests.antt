-- ===== src/Tests.antt =====
-- Readers, cards and handles to run the code on, and the instances of the theorems at them.
mod Fixtures
mod Collisions
mod Codes
mod Binding
mod Cards
mod Exchanges
mod Chips
mod Tools
