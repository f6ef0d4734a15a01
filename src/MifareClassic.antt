-- ===== src/MifareClassic.antt =====
-- src/rfid_proto_mifare_classic.c: pages, keys and sectors of a Mifare Classic card.
pub mod Pages
pub mod Sectors
pub mod Laws
