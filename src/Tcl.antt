-- ===== src/Tcl.antt =====
-- src/rfid_proto_tcl.c: the T=CL protocol of ISO 14443-4, the reader's side.
pub mod Handle
pub mod Ats
pub mod AtsCoding
pub mod AtsFields
pub mod AtsParsing
pub mod AtsRoundTrip
pub mod Pps
pub mod Prologue
pub mod Connect
pub mod Exchange
pub mod Chaining
pub mod Answers
pub mod Activation
pub mod Deviations
pub mod Blocks
pub mod Delivery
