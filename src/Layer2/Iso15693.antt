-- ===== src/Layer2/Iso15693.antt =====
-- src/rfid_layer2_iso15693.c: inventory, selection and blocks of ISO 15693 cards.
pub mod Frames
pub mod Anticol
pub mod Blocks
pub mod Session
pub mod Laws
