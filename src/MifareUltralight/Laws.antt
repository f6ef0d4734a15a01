-- ===== src/MifareUltralight/Laws.antt =====
-- The lock bytes of a Mifare Ultralight card.
use librfid.Prelude.{
  ℕ, ◌^◌, ◌≤◌, ◌<◌, ◌≡◌, refl, some, none, [], ◌∷◌, true, ◌||◌, ◌==◌, leb, u8, holds_below,
  holds_below_at, arith, if◌then◌else◌, ltb,
}
use librfid.MifareUltralight.{lock_bytes, page_max}

shift_table : holds_below 16 (λ p. leb p 8 || u8 (2 ^ p) == 0) ≡ true
unfolding holds_below
shift_table = refl

u8_shift : (page : ℕ) → 8 < page → page < 16 → u8 (2 ^ page) ≡ 0
u8_shift page low high =
    let e = holds_below_at 16 (λ p. leb p 8 || u8 (2 ^ p) == 0) page shift_table high in
    ground arith

-- For the pages up to 15, the lock bytes below page 8 are undefined, those of page 8 have one bit, in
-- the fourth byte, and those of every page above are all zero.
pub lock_bytes_lem :
    (page : ℕ)
    → page ≤ page_max
    → lock_bytes page ≡ (
        if ltb page 8
        then none
        else if page == 8
        then some (0 ∷ 0 ∷ 0 ∷ 1 ∷ [])
        else some (0 ∷ 0 ∷ 0 ∷ 0 ∷ []))
unfolding lock_bytes
lock_bytes_lem page high = ground (arith, u8_shift page)
