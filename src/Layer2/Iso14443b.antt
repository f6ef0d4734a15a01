-- ===== src/Layer2/Iso14443b.antt =====
-- src/rfid_layer2_iso14443b.c: request, anticollision and selection of type B cards.
pub mod Atqb
pub mod Select
pub mod Session
pub mod Laws
