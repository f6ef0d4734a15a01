-- ===== src/Access/Coding.antt =====
-- `mfcl_compile_access` and `mfcl_parse_access`. The loops over `b` have four rounds, written out.
pub mod RoundTrip
use librfid.Prelude.{ℕ, ◌+◌, ◌-◌, bit_and, bit_or, ◌^◌, ◌<<<◌, ◌>>>◌, test, if◌then◌else◌}

-- `struct mfcl_access_sect`: the condition of each of the sector's four blocks.
pub record AccessSect : Type 0 where
  pub block_0 : ℕ
  pub block_1 : ℕ
  pub block_2 : ℕ
  pub block_3 : ℕ

-- The four bytes `u_int8_t *encoded`.
pub record Encoded : Type 0 where
  pub byte_0 : ℕ
  pub byte_1 : ℕ
  pub byte_2 : ℕ
  pub byte_3 : ℕ

-- `if (ac->block[b] & mask) c |= (1 << b);` for each `b`
abbrev pub gather : AccessSect → ℕ → ℕ
gather ac mask =
    let c0 = if test ac.block_0 mask then bit_or 0 1 else 0 in
    let c1 = if test ac.block_1 mask then bit_or c0 2 else c0 in
    let c2 = if test ac.block_2 mask then bit_or c1 4 else c1 in
    if test ac.block_3 mask then bit_or c2 8 else c2

-- `~c & 0xf`, of a byte `c`
abbrev pub inverted : ℕ → ℕ
inverted c = bit_and (2 ^ 32 - 1 - c) 0xf

-- `mfcl_compile_access`
unfoldable pub compile_access : AccessSect → Encoded
compile_access ac =
    let c1 = gather ac 0x01 in
    let c2 = gather ac 0x02 in
    let c3 = gather ac 0x04 in
    record {
      byte_0 = bit_or (inverted c1) (inverted c2 <<< 4);
      byte_1 = bit_or (inverted c3) (c1 <<< 4);
      byte_2 = bit_or c2 (c3 <<< 4);
      byte_3 = 0;
    }

-- One round of the loop of `mfcl_parse_access`; `bit` is `1 << b`.
abbrev pub spread : ℕ → ℕ → ℕ → ℕ → ℕ
spread c1 c2 c3 bit =
    let x = if test c1 bit then 0x1 else 0 in
    let y = if test c2 bit then bit_or x 0x2 else x in if test c3 bit then bit_or y 0x4 else y

-- `mfcl_parse_access`
unfoldable pub parse_access : Encoded → AccessSect
parse_access e =
    let c1 = e.byte_1 >>> 4 in
    let c2 = bit_and e.byte_2 0xf in
    let c3 = e.byte_2 >>> 4 in
    record {
      block_0 = spread c1 c2 c3 1;
      block_1 = spread c1 c2 c3 2;
      block_2 = spread c1 c2 c3 4;
      block_3 = spread c1 c2 c3 8;
    }
