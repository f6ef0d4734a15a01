-- ===== src/Layer2/Iso14443a/Rand.antt =====
-- The generator `random_bit`, the toggling of a bit of the identifier and the coding of the number
-- of valid bits. `unsigned long` is taken to have 64 bits.
use librfid.Prelude.{
  ℕ, zero, suc, ◌+◌, ◌-◌, ◌*◌, ◌/◌, ◌%◌, ◌^◌, List, get_or, set, ◌&&◌, ◌||◌, not, leb, ltb, ◌==◌,
  bit_and, bit_or, bit_xor, ◌<<<◌, ◌>>>◌, if◌then◌else◌, Option, none, some, u8,
}
use librfid.Layer2.Handle.{RandCtx}

abbrev pub ulong : ℕ → ℕ
ulong n = n % 2 ^ 64

-- The initial value of `randctx`
abbrev pub randctx : RandCtx
randctx = record { r0 = 0x22d4a017; r1 = 0x773a1f44; r2 = 0xc39e1460; r3 = 0x9cde8801 }

-- `random_bit`: the bit and the next state
unfoldable pub random_bit : RandCtx → ℕ × RandCtx
random_bit c =
    let r1 = ulong (ulong (c.r2 <<< 19) + (c.r2 >>> 13) + c.r3) in
    (bit_and r1 1, record { r0 = c.r1; r1 = r1; r2 = bit_xor c.r3 c.r1; r3 = ulong (c.r0 + r1) })

-- `rnd_toggle_bit_in_field`: the first bit is number 1
unfoldable pub rnd_toggle_bit_in_field : List ℕ → ℕ → ℕ → RandCtx → List ℕ × RandCtx
rnd_toggle_bit_in_field bitfield size bit c =
    if not (bit == 0) && leb bit (size * 8)
    then (let (rnd, c') = random_bit c in
        let bit' = bit - 1 in
        let byte = bit' / 8 in
        (set bitfield byte (bit_xor (get_or bitfield byte 0) (u8 (rnd <<< (bit' % 8)))), c'))
    else (bitfield, c)

-- `iso14443a_code_nvb_bits`: `none` is the -1 that leaves `*nvb` alone
unfoldable pub code_nvb_bits : ℕ → Option ℕ
code_nvb_bits bits =
    let byte_count = bits / 8 in
    let bit_count = bits % 8 in
    if ltb byte_count 2 || ltb 7 byte_count
    then none
    else some (bit_or (bit_and byte_count 0xf <<< 4) bit_count)

-- The calls of `iso14443a_code_nvb_bits` ignore its result.
unfoldable pub set_nvb : ℕ → ℕ → ℕ
unfolding code_nvb_bits
set_nvb bits nvb = elim (code_nvb_bits bits) [ none ↦ nvb | some x ↦ x ]

-- `for (ret = 0; ret < n; ret++) random_bit();`
unfoldable pub random_bits : ℕ → RandCtx → RandCtx
unfolding random_bit
random_bits zero c = c
random_bits (suc n) c = random_bits n (random_bit c).1
