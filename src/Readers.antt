-- ===== src/Readers.antt =====
-- src/rfid_reader_*.c: the readers, which bring the registers of the RC632 chip to the driver.
pub mod Dispatch
pub mod Spidev
pub mod SpiChip
pub mod Opening
pub mod OpenPcd
pub mod Firmware
pub mod Cm5121
pub mod EscapeFrames
