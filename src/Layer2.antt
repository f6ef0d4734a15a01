-- ===== src/Layer2.antt =====
-- The second layer, ISO 14443-3 and ISO 15693: src/rfid_layer2.c and the three implementations.
pub mod Handle
pub mod Options
pub mod Iso14443a
pub mod Iso14443b
pub mod Iso15693
pub mod Dispatch
pub mod Laws
