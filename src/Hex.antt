-- ===== src/Hex.antt =====
-- Bytes as hexadecimal text: `rfid_hexdump` of src/rfid.c and `hexread` of utils/common.c.
pub mod Printing
pub mod Reading
use librfid.Prelude.{
  ℕ, zero, suc, ◌+◌, ◌-◌, ◌^◌, Option, none, some, List, [], ◌∷◌, ◌&&◌, ltb, leb, ◌==◌, bit_and,
  bit_or, u8, u32, ◌<<<◌, ◌>>>◌, if◌then◌else◌,
}

-- The characters that the code knows, by their ASCII codes
abbrev pub space : ℕ
space = 0x20

abbrev pub colon : ℕ
colon = 0x3a

-- A digit as `%x` prints it
abbrev pub hex_digit : ℕ → ℕ
hex_digit n = if ltb n 10 then 0x30 + n else 0x61 + (n - 10)

-- The loop of `rfid_hexdump`, from the index `i` on: the text stops before the end of the 1024 bytes
-- of `string`.
unfoldable pub dump_from : ℕ → List ℕ → List ℕ
dump_from i [] = []
dump_from i (d ∷ bytes) =
    if leb 1020 i
    then []
    else space ∷ hex_digit (d >>> 4) ∷ hex_digit (bit_and d 0xf) ∷ dump_from (i + 3) bytes

-- `rfid_hexdump`: the characters before the final 0
unfoldable pub hexdump : List ℕ → List ℕ
unfolding dump_from
hexdump bytes = dump_from 0 bytes

-- `parse_hexdigit`
unfoldable pub parse_hexdigit : ℕ → ℕ
parse_hexdigit c =
    if leb c 0x39 && leb 0x30 c
    then c - 0x30
    else if leb c 0x66 && leb 0x61 c
    then 10 + (c - 0x61)
    else if leb c 0x46 && leb 0x41 c
    then 10 + (c - 0x41)
    else 0

-- Where the pair at `pos` begins, and how far it is from there to the next
abbrev pub skip_colon : List ℕ → List ℕ
skip_colon [] = []
skip_colon (c ∷ pos) = if c == colon then pos else c ∷ pos

abbrev pub step : List ℕ → ℕ
step [] = 2
step (c ∷ pos) = if c == colon then 3 else 2

-- The byte of two digits and the text behind, `none` beyond the end of the memory
unfoldable pub take_pair : List ℕ → Option (ℕ × List ℕ)
unfolding parse_hexdigit
take_pair [] = none
take_pair (a ∷ []) = none
take_pair (a ∷ b ∷ pos) = some (u8 (bit_or (parse_hexdigit a <<< 4) (parse_hexdigit b)), pos)

-- The loop of `hexread`: the text at `pos`, the distance of `pos` from the start, and `len - 2` with
-- its wrap-around. `none` stands for a read beyond the end of the memory.
unfoldable pub read_from : ℕ → List ℕ → ℕ → ℕ → Option (List ℕ)
unfolding take_pair
read_from zero pos at last = none
read_from (suc fuel) pos at last =
    if ltb last at then some [] else elim (take_pair (skip_colon pos)) [
      | none ↦ none
      | some (byte, behind) ↦ elim (read_from fuel behind (at + step pos) last) [
        | none ↦ none
        | some bytes ↦ some (byte ∷ bytes)
      ]
    ]

-- `hexread`, of the memory from `in` on and of `len`: the bytes that it stores. Each round takes two
-- characters, so one round more than there are characters is enough.
unfoldable pub hexread : ℕ → List ℕ → ℕ → Option (List ℕ)
unfolding read_from
hexread fuel text len = read_from fuel text 0 (u32 (len + 2 ^ 32 - 2))
