-- ===== src/Tests/Codes.antt =====
-- Conversions of numbers: frame sizes, access conditions, sectors and codes.
use librfid.Prelude.{
  take, length, ◌<◌, List, [], ◌∷◌, ℕ, ◌≡◌, ◌≢◌, ◌↔◌, refl, some, none, arith, ◌-◌, ◌+◌,
}
use librfid.Hex.{hexread, hexdump}
use librfid.Hex.Printing.{all_of, hexdump_lem}
use librfid.Hex.Reading.{plain, after_colon, hexread-text_of}
use librfid.Access.Coding.{AccessSect, Encoded, compile_access, parse_access}
use librfid.Access.Coding.RoundTrip.{parse_access-compile_access, compile_access-parse_access}
use librfid.Access.Rights.{AccessExpSect, AccessExpBlock, AccessExpAcc, access_to_exp}
use librfid.Access.Rights.Laws.{IsSound, access_to_exp-parse_access}
use librfid.Access.Text.{access_exp_acc_stringify}
use librfid.Access.Text.Bounds.{access_exp_acc_stringify_overflow_iff}
use librfid.MifareClassic.Sectors.{sector2block, sector_blocks, block2sector}
use librfid.MifareClassic.Laws.{block2sector-sector2block}

-- Two bytes as text, the second after a colon
abbrev uid_text : List ℕ
uid_text = 0x64 ∷ 0x65 ∷ 0x3a ∷ 0x61 ∷ 0x64 ∷ []

uid_read : hexread 3 uid_text 5 ≡ some (0xde ∷ 0xad ∷ [])
uid_read =
    hexread-text_of 3 (plain 0xde ∷ after_colon 0xad ∷ []) (omega arith, (omega arith, tt))
      (omega arith) (omega arith) (omega arith)

-- The conditions of a sector as it leaves the factory
abbrev transport : AccessSect
transport = record { block_0 = 0; block_1 = 0; block_2 = 0; block_3 = 4 }

transport_parsed : parse_access (compile_access transport) ≡ transport
transport_parsed =
    parse_access-compile_access transport (omega arith, omega arith, omega arith, omega arith)

abbrev trailer : Encoded
trailer = record { byte_0 = 0xff; byte_1 = 0x07; byte_2 = 0x80; byte_3 = 0 }

trailer_compiled : compile_access (parse_access trailer) ≡ trailer
trailer_compiled = compile_access-parse_access trailer (omega arith, refl, refl, omega arith, refl)

trailer_rights : (x : AccessExpSect) × (access_to_exp (parse_access trailer) ≡ some x) × IsSound x
trailer_rights = access_to_exp-parse_access trailer

abbrev open_block : AccessExpBlock
open_block = record { read = 3; write = 3; inc = 3; dec = 3 }

abbrev first_trailer : AccessExpAcc
first_trailer = record {
  key_a_rd = 0;
  key_a_wr = 1;
  acc_rd = 1;
  acc_wr = 0;
  key_b_rd = 1;
  key_b_wr = 1;
}

first_trailer_overflows : (access_exp_acc_stringify first_trailer ≡ none) ↔ (◌≢◌ {A = ℕ} 0 4)
first_trailer_overflows = access_exp_acc_stringify_overflow_iff 0 first_trailer refl

sector_33 : block2sector (144 + 5) ≡ 33 - 32
unfolding sector2block sector_blocks
sector_33 = block2sector-sector2block 33 144 16 5 refl refl (omega arith)

uid_printed :
    (hexdump (0xde ∷ 0xad ∷ []) ≡ all_of (take 340 (0xde ∷ 0xad ∷ [])))
    × (length (hexdump (0xde ∷ 0xad ∷ [])) < 1024)
uid_printed = hexdump_lem (0xde ∷ 0xad ∷ [])
