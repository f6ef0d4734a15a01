-- ===== src/Lib.antt =====
-- librfid: the host side of a reader of contactless cards.
--
-- The program is a stack of layers. A reader sends and receives frames; on it stands a second layer,
-- which finds and selects a card by ISO 14443-3 type A or B or by ISO 15693; on that stands a
-- protocol: T=CL of ISO 14443-4, Mifare Classic, Mifare Ultralight or Tag-it. Each layer reaches the
-- one below through a table of functions. The modules, and the code that each is about:
--
--   Prelude            notation on the native numbers, lists and integers, and tables of all the
--                      numbers below a bound
--   Control            a C function with `return`, faults and fuel: the type Run and its do blocks
--   Hex                hexadecimal text: `rfid_hexdump` of src/rfid.c and `hexread` of
--                      utils/common.c, with what they print and read (Printing, Reading)
--   Reader             include/librfid/rfid_reader.h: `struct rfid_reader`, a parameter
--   FrameSize          src/rfid_iso14443_common.c: the table of frame sizes
--   Access             src/rfid_access_mifare_classic.c: the access conditions of a sector, in four
--                      bytes (Coding), as rights (Rights) and as text (Text)
--   Layer2.Handle      include/librfid/rfid_layer2*.h: the handle and the states of each layer
--   Layer2.Iso14443a   src/rfid_layer2_iso14443a.c: `iso14443a_anticol` with its loops (Anticol), the
--                      generator of random bits and the coding of NVB (Rand), HLTA, options and
--                      initialisation (Session)
--   Layer2.Iso14443b   src/rfid_layer2_iso14443b.c: REQB and its answer (Atqb), ATTRIB and HLTB
--                      (Select), options and initialisation (Session)
--   Layer2.Iso15693    src/rfid_layer2_iso15693.c: frames, inventory (Anticol), reading and writing of
--                      blocks (Blocks), options and states (Session)
--   Layer2.Dispatch    src/rfid_layer2.c
--   Tcl                src/rfid_proto_tcl.c: the answer to select (Ats; as ISO 14443-4 codes it,
--                      AtsCoding), the bit rate (Pps), headers of blocks (Prologue), `tcl_connect`
--                      and `tcl_deselect` (Connect), and `tcl_transceive` (Exchange)
--   MifareClassic      src/rfid_proto_mifare_classic.c
--   MifareUltralight   src/rfid_proto_mifare_ul.c
--   Tagit              src/rfid_proto_tagit.c
--   Protocol           src/rfid_protocol.c
--   Scan               src/rfid_scan.c
--   Rc632              src/rfid_asic_rc632.c, the driver of the chip: the numbers of registers and
--                      bits of src/rc632.h (Reg, Bit), changes of bits and scripts (Registers,
--                      Scripts), the timer (Prescaler, Timer), the FIFO (Fifo), EEPROM and power
--                      (Memory), frames (Iso14443a), speeds (Speed), keys (Mifare), and with
--                      src/rfid_reader_rc632_common.c what the readers make of it (Layers)
--   Readers            the transports of src/rfid_reader_spidev.c, src/rfid_reader_openpcd.c and
--                      src/rfid_reader_cm5121.c, how the three are opened and closed (Opening), and
--                      the table of src/rfid_reader.c (Dispatch)
--   Tools              the programs of utils/: send_script.c (Script); of librfid-tool.c the cards of
--                      Mifare (Cards), of ISO 15693 with scan and listing (Tags) and of ISO 7816
--                      (Iso7816); mifare-tool.c and the set-up in common.c (Mifare)
--   Binding            python/openpcd.c: the state behind the caller's handle and the calls on it
--   Control.Outcome    what a computation comes to, by its parts
--   Control.Post       what holds of the result of a computation that ends
--   Tests              chips, readers, handles and runs of the code on them
--
-- State and operations. A handle is a record with the fields of the C structure. A function that
-- works on a handle is a computation M over it: its result is `ok` with the value and the next
-- handle, `returned` where a `return` left early, `fault` where C leaves the behaviour undefined
-- (an access out of bounds, a null pointer, a byte that was never written), or `out_of_fuel`. The
-- name of an operation is the C name without its prefix. `malloc` is an argument that says whether
-- there is a block. The union `priv` of a handle is kept as records side by side.
--
-- Parameters. The functions behind `struct rfid_reader` talk to hardware: they are the fields of a
-- record Reader over a type of worlds, and nothing is assumed of them but what a theorem states as
-- a hypothesis. The driver of the chip is modelled over a record Transport of four functions on
-- registers and FIFO, and it is not joined to Reader: what the layers do with a reader and what the
-- driver does with the chip are separate theorems. What uninitialised memory holds is an argument
-- where it is read.
--
-- Numbers. `unsigned int` has 32 bits and `unsigned char` 8, with wrap-around written out where the
-- code computes with them; `unsigned long`, in the random generator, has 64 bits.
--
-- Fuel. The loops of `tcl_transceive` and of the two anticollision functions depend on the card.
-- The cascade of type A has three rounds, one for each level. For the loop that resolves collisions
-- 41 rounds are enough if each collision is behind the bits that the command sends. For an exchange whose
-- data and answer take one block each, the fuel is three; for a card that acknowledges each block
-- of a chain, two for each byte of the data are enough. The driver waits for the chip in loops: the
-- one with a count of its own needs two rounds more than its count, and the others end when the
-- chip does. The loop over a script takes one round for each line, and the text's length and one
-- more are enough.
--
-- Not modelled: the CCID driver in src/ccid and src/libusb_dyn.c, which are other projects' code, and
-- the binding to OpenCT; the protocol ICODE, which is not finished; rfid.c but for hexadecimal text;
-- the debugging output and the delays everywhere; of the tools the loops over options, the menus and
-- the endless loops, and the text they print but for what is read from a card; python/pyrfid.c,
-- pegoda/ and win32/. Memory is available in the tools. The contents of the answer to ATTRIB, which
-- its only caller drops, are left out.
pub mod Prelude
pub mod Control
pub mod Hex
pub mod Reader
pub mod FrameSize
pub mod Access
pub mod Layer2
pub mod Tcl
pub mod MifareClassic
pub mod MifareUltralight
pub mod Tagit
pub mod Protocol
pub mod Rc632
pub mod Readers
pub mod Scan
pub mod Tools
pub mod Binding
pub mod Tests
