-- ===== src/Rc632.antt =====
-- src/rfid_asic_rc632.c: the driver of the RC632 reader chip.
pub mod Reg
pub mod Bit
pub mod Transport
pub mod Registers
pub mod Masks
pub mod RegisterMap
pub mod Prescaler
pub mod Search
pub mod Timing
pub mod Waiting
pub mod Timer
pub mod Fifo
pub mod Memory
pub mod Scripts
pub mod Settings
pub mod Iso14443a
pub mod Speed
pub mod Mifare
pub mod Keys
pub mod Room
pub mod Filling
pub mod Collision
pub mod Working
pub mod Safety
pub mod Rates
pub mod Layers
