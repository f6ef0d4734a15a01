-- ===== src/Access.antt =====
-- src/rfid_access_mifare_classic.c: the access conditions of a Mifare Classic sector, in the four
-- bytes of the sector trailer and as rights for each operation. `Coding` packs and unpacks the
-- bytes, `Rights` holds the tables of rights, and `Text` prints them.
pub mod Coding
pub mod Rights
pub mod Text
