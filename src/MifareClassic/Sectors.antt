-- ===== src/MifareClassic/Sectors.antt =====
-- `mfcl_block2sector`, `mfcl_sector2block` and `mfcl_sector_blocks`, on bytes.
use librfid.Prelude.{ℕ, ℤ, pos, neg_einval, ◌+◌, ◌-◌, ◌*◌, ◌/◌, ltb, if◌then◌else◌}

abbrev pub blocks_p_sector_1k : ℕ
blocks_p_sector_1k = 4

abbrev pub blocks_p_sector_4k : ℕ
blocks_p_sector_4k = 16

abbrev pub small_sectors : ℕ
small_sectors = 32

abbrev pub large_sectors : ℕ
large_sectors = 4

unfoldable pub block2sector : ℕ → ℕ
block2sector block =
    if ltb block (small_sectors * blocks_p_sector_1k)
    then block / blocks_p_sector_1k
    else (block - small_sectors * blocks_p_sector_1k) / blocks_p_sector_4k

unfoldable pub sector2block : ℕ → ℤ
sector2block sector =
    if ltb sector small_sectors
    then pos (sector * blocks_p_sector_1k)
    else if ltb sector (small_sectors + large_sectors)
    then pos (small_sectors * blocks_p_sector_1k + (sector - small_sectors) * blocks_p_sector_4k)
    else neg_einval

unfoldable pub sector_blocks : ℕ → ℤ
sector_blocks sector =
    if ltb sector small_sectors
    then pos blocks_p_sector_1k
    else if ltb sector (small_sectors + large_sectors)
    then pos blocks_p_sector_4k
    else neg_einval
