-- ===== src/Layer2/Iso15693/Frames.antt =====
-- `iso15693_build_acf` and the constants of include/librfid/rfid_layer2_iso15693.h.
use librfid.Prelude.{
  ℕ, ◌+◌, ◌-◌, ◌/◌, ◌%◌, List, [], ◌∷◌, ◌++◌, take, ◌==◌, bit_and, bit_or, ◌>>>◌, test,
  if◌then◌else◌,
}
use librfid.Layer2.Handle.{Iso15693Handle}

abbrev pub subc_two : ℕ
subc_two = 0x01

abbrev pub rate_high : ℕ
rate_high = 0x02

abbrev pub inv_table_5 : ℕ
inv_table_5 = 0x04

abbrev pub f4_selected : ℕ
f4_selected = 0x10

abbrev pub f4_address : ℕ
f4_address = 0x20

abbrev pub f4_custom : ℕ
f4_custom = 0x40

abbrev pub f5_afi_pres : ℕ
f5_afi_pres = 0x10

abbrev pub f5_nslots_1 : ℕ
f5_nslots_1 = 0x20

abbrev pub state_quiet : ℕ
state_quiet = 2

abbrev pub state_selected : ℕ
state_selected = 3

abbrev pub rf_error : ℕ
rf_error = 0x01

-- `data[i-1] &= byte`, on the last byte written
abbrev pub mask_last : ℕ → List ℕ → List ℕ
mask_last byte [] = []
mask_last byte (x ∷ []) = bit_and x byte ∷ []
mask_last byte (x ∷ y ∷ xs) = x ∷ mask_last byte (y ∷ xs)

-- `mask_len/8 + (mask_len%8)?1:0`, in which the sum is the condition
abbrev pub mask_bytes : ℕ → ℕ
mask_bytes mask_len = if mask_len / 8 + mask_len % 8 == 0 then 0 else 1

-- `iso15693_build_acf`: the bytes of the frame, of which the C function returns the number
unfoldable pub build_acf : ℕ → ℕ → ℕ → List ℕ → List ℕ
build_acf flags afi mask_len mask =
    flags
    ∷ 0x01
    ∷ mask_last (0xff >>> (8 - mask_len % 8)) (
        (if test flags f5_afi_pres then afi ∷ [] else [])
        ++ (mask_len ∷ take (mask_bytes mask_len) mask))

-- The flags of rate and subcarriers that each request repeats.
abbrev pub rate_flags : Iso15693Handle → ℕ
rate_flags v =
    bit_or (if v.vicc_fast == 0 then 0 else rate_high)
      (if v.vicc_two_subc == 0 then 0 else subc_two)

-- The flags of an inventory, as `iso15693_anticol` puts them together.
unfoldable pub inventory_flags : Iso15693Handle → ℕ
inventory_flags v =
    let flags = bit_or inv_table_5 (rate_flags v) in
    let flags' = if v.single_slot == 0 then flags else bit_or flags f5_nslots_1 in
    if v.use_afi == 0 then flags' else bit_or flags' f5_afi_pres

-- `iso15693_timing[..][ISO15693_T4]` and `[ISO15693_T4_WRITE]`
abbrev pub timing_t4 : Iso15693Handle → ℕ
timing_t4 v = if v.vicc_fast == 0 then 1216 else 304

abbrev pub timing_t4_write : ℕ
timing_t4_write = 20000
