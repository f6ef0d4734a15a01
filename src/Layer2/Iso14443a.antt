-- ===== src/Layer2/Iso14443a.antt =====
-- src/rfid_layer2_iso14443a.c: anticollision and selection of type A cards.
pub mod Rand
pub mod Anticol
pub mod Session
pub mod Laws
pub mod Termination
