-- ===== src/Tools.antt =====
-- The programs of utils/, over the library.
pub mod Cards
pub mod Iso7816
pub mod Mifare
pub mod Script
pub mod Tags
