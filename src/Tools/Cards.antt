-- ===== src/Tools/Cards.antt =====
-- utils/librfid-tool.c: the pages of Mifare cards. A page that is printed is kept in a list, with its
-- number.
pub mod Sectors
pub mod Dump
use librfid.Prelude.{
  ℕ, zero, suc, ℤ, pos, negsuc, neg_einval, is_neg, ◌+◌, ◌-◌, ◌^◌, ◌%◌, Option, none, some, List,
  length, ltb, [], ◌∷◌, ◌++◌, replicate, take, store_front, Bool, true, false, not, ◌||◌, ◌==◌,
  if◌then◌else◌, u8,
}
use librfid.Control.{M, put_back, ok, fault, pure, leave_if, leave_neg, call, ◌>>=◌, ◌>>◌}
use librfid.Reader.{Reader}
use librfid.Layer2.Options.{GetOpt, Stored, nothing, uint8, uint, bytes}
use librfid.Tcl.Handle.{ProtocolHandle}
use librfid.MifareClassic.Pages.{opt_size, set_key, auth}
use librfid.MifareClassic.Sectors.{sector2block, sector_blocks}
use librfid.MifareUltralight.{page_max}
use librfid.Protocol

-- A page as it is printed: its number and its bytes
pub record Page : Type 0 where
  pub number : ℕ
  pub content : List ℕ

-- The program: the handle of the protocol, and what it has printed.
pub record Program (W : Type 0) : Type 0 where
  pub ph : ProtocolHandle W
  pub pages : List Page

-- How a function ends that may call `exit`: with a result, at its end without one, or with the program
pub data Ending : Type 0 where
  result : ℤ → Ending
  no_result : Ending
  exited : ℕ → Ending

-- `MIFARE_CL_KEYA_DEFAULT_INFINEON` and `RFID_CMD_MIFARE_AUTH1A`
abbrev pub default_key : List ℕ
default_key = replicate 6 0xff

abbrev pub auth1a : ℕ
auth1a = 0x60

-- The conversion of an `int` to an unsigned byte
abbrev pub to_u8 : ℤ → ℕ
to_u8 (pos n) = u8 n
to_u8 (negsuc n) = 255 - u8 n

-- The number of sectors by the size of the card
unfoldable pub num_sectors : ℕ → Option ℕ
num_sectors size =
    if size == 320
    then some 5
    else if size == 1024
    then some 16
    else if size == 4096
    then some 40
    else none

abbrev is_zero : ℤ → Bool
is_zero (pos n) = n == 0
is_zero (negsuc n) = false

-- The value of an `unsigned int`, if one was stored in it
abbrev as_uint : {S : Type 0} → Stored → M S ℕ
as_uint (uint n) = pure n
as_uint _ = λ s. fault

-- The first `n` bytes of a buffer, of which the list is the part that is initialised.
abbrev pub prefix : {S : Type 0} → List ℕ → ℕ → M S (List ℕ)
prefix buf n = if ltb (length buf) n then (λ s. fault) else pure (take n buf)

module _ {W : Type 0} (rdr : Reader W) where
  abbrev on_ph : {A : Type 0} → M (ProtocolHandle W) A → M (Program W) A
  on_ph m s = put_back (λ s' ph. record s' { ph = ph }) (m s.ph) s

  abbrev print_page : ℕ → List ℕ → M (Program W) (Unit {0})
  print_page n shown s =
      ok tt (record s { pages = s.pages ++ record { number = n; content = shown } ∷ [] })

  -- `mifare_ulight_write`
  unfoldable pub ulight_write : M (ProtocolHandle W) ℤ
  ulight_write = Protocol.write_page rdr 10 (0xa1 ∷ 0xa2 ∷ 0xa3 ∷ 0xa4 ∷ []) 4

  -- The loop of `mifare_ulight_blank` from page `i` on, with the rounds left.
  unfoldable pub blank_from : ℕ → ℕ → M (ProtocolHandle W) ℤ
  blank_from zero i = pure (pos 0)
  blank_from (suc rounds) i = do
    ret ← Protocol.write_page rdr i (0x00 ∷ 0x00 ∷ 0x00 ∷ 0x00 ∷ []) 4
    leave_neg ret
    blank_from rounds (i + 1)

  -- `mifare_ulight_blank`
  unfoldable pub ulight_blank : M (ProtocolHandle W) ℤ
  unfolding blank_from
  ulight_blank = call (blank_from (page_max + 1 - 4) 4)

  -- The loop of `mifare_ulight_read` from page `i` on, with the rounds left; `len` and `buf` are what
  -- the reads before left in the variables.
  unfoldable pub ulight_read_from : ℕ → ℕ → ℕ → List ℕ → M (Program W) ℤ
  ulight_read_from zero i len buf = pure (pos 0)
  ulight_read_from (suc rounds) i len buf = do
    p ← on_ph (Protocol.read_page rdr i len)
    leave_neg p.ret
    let buf' = store_front p.rx_data buf
    shown ← prefix buf' 4
    print_page i shown
    ulight_read_from rounds (i + 1) p.rx_len buf'

  -- `mifare_ulight_read`
  unfoldable pub ulight_read : M (Program W) ℤ
  unfolding ulight_read_from
  ulight_read = call (ulight_read_from (page_max + 1) 0 20 [])

  -- The loop of `mifare_classic_read_sector` from `block` on, with the rounds left; `len` and `buf` as
  -- above.
  unfoldable pub read_blocks : ℕ → ℕ → ℕ → List ℕ → M (Program W) ℤ
  read_blocks zero block len buf = pure (pos 0)
  read_blocks (suc rounds) block len buf = do
    p ← on_ph (Protocol.read_page rdr block len)
    leave_neg p.ret
    let buf' = store_front p.rx_data buf
    shown ← prefix buf' p.rx_len
    print_page block shown
    read_blocks rounds (block + 1) p.rx_len buf'

  abbrev sector_from : ℤ → ℤ → M (Program W) ℤ
  sector_from (pos first) (pos blocks) = call (read_blocks blocks first 20 [])
  sector_from _ _ = pure neg_einval

  -- `mifare_classic_read_sector`
  unfoldable pub classic_read_sector : ℕ → M (Program W) ℤ
  unfolding read_blocks
  classic_read_sector sector = sector_from (sector2block sector) (sector_blocks sector)

  -- One round of the loop of `mifare_classic_dump`, with the program's exit code if it ends there.
  unfoldable pub dump_sector : ℕ → M (Program W) (Option ℕ)
  unfolding classic_read_sector
  dump_sector sector = do
    rc ← on_ph (set_key rdr default_key)
    if is_neg rc then pure (some 1) else (do
      rc ← on_ph (auth rdr auth1a (to_u8 (sector2block sector)))
      if is_neg rc then pure (some 1) else (do _ ← classic_read_sector sector; pure none))

  -- The loop of `mifare_classic_dump` from `sector` on, with the rounds left. At its end the function
  -- has no `return`.
  unfoldable pub dump_from : ℕ → ℕ → M (Program W) Ending
  unfolding dump_sector
  dump_from zero sector = pure no_result
  dump_from (suc rounds) sector = do
    over ← dump_sector sector
    elim over [ some code ↦ pure (exited code) | none ↦ dump_from rounds (sector + 1) ]

  abbrev dump_of : Option ℕ → M (Program W) Ending
  dump_of none = pure (result neg_einval)
  dump_of (some sectors) = dump_from sectors 0

  -- `mifare_classic_dump`
  unfoldable pub classic_dump : M (Program W) Ending
  unfolding num_sectors dump_from
  classic_dump = do
    g ← on_ph (Protocol.getopt rdr opt_size 4)
    if not (is_zero g.ret)
        then pure (result neg_einval)
        else (do size ← as_uint g.stored; dump_of (num_sectors size))
