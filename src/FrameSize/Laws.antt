-- ===== src/FrameSize/Laws.antt =====
-- The two conversions are inverse on the table, and the approximation is the best table entry.
use librfid.Prelude.{ℕ, ◌≤◌, ◌≡◌, ◌≢◌, ◌↔◌, some, get_elem?, arith}
use librfid.FrameSize.{fsdi_table, stored, refused, past_end, fsdi_to_fsd, fsd_to_fsdi, fsd_approx}

-- The code number `fsdi` converts to the size `fsd` exactly when `fsd` converts to `fsdi`.
pub fsdi_to_fsd-fsd_to_fsdi_iff :
    (fsdi fsd : ℕ) → (fsdi_to_fsd fsdi ≡ stored fsd) ↔ (fsd_to_fsdi fsd ≡ stored fsdi)
unfolding fsdi_to_fsd fsd_to_fsdi
fsdi_to_fsd-fsd_to_fsdi_iff fsdi fsd = ground arith

approx-le : (fsd : ℕ) → 16 ≤ fsd → fsd_approx fsd ≤ fsd
unfolding fsd_approx
approx-le fsd h = ground arith

approx-coded : (fsd : ℕ) → fsd_to_fsdi (fsd_approx fsd) ≢ refused
unfolding fsd_approx fsd_to_fsdi
approx-coded fsd = ground arith

row-le-approx :
    (fsd i row : ℕ) → get_elem? fsdi_table i ≡ some row → row ≤ fsd → row ≤ fsd_approx fsd
unfolding fsd_approx
row-le-approx fsd i row e h = ground arith

row-ge : (i row : ℕ) → get_elem? fsdi_table i ≡ some row → 16 ≤ row
row-ge i row e = ground arith

-- If some table entry is not above the size, then the approximation is not below that entry and not
-- above the size, and it has a code number.
pub fsd_approx-greatest :
    (fsd i row : ℕ)
    → get_elem? fsdi_table i ≡ some row
    → row ≤ fsd
    → (row ≤ fsd_approx fsd) × (fsd_approx fsd ≤ fsd) × (fsd_to_fsdi (fsd_approx fsd) ≢ refused)
fsd_approx-greatest fsd i row e h =
    (row-le-approx fsd i row e h, approx-le fsd (omega (arith, row-ge i row e)), approx-coded fsd)

-- The bound test lets exactly one code number through to a read behind the table: 9.
pub fsdi_to_fsd-past_end_iff : (fsdi : ℕ) → (fsdi_to_fsd fsdi ≡ past_end) ↔ (fsdi ≡ 9)
unfolding fsdi_to_fsd
fsdi_to_fsd-past_end_iff fsdi = ground arith
