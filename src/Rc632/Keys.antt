-- ===== src/Rc632/Keys.antt =====
-- The coding of keys by `rc632_mifare_transform_key`, src/rfid_asic_rc632.c.
use librfid.Prelude.{
  ℕ, ◌+◌, ◌-◌, ◌*◌, ◌<◌, ◌≡◌, refl, List, [], ◌∷◌, true, Bool, length, bit_and, ◌>>>◌, ◌==◌, arith,
  holds_below, holds_below_at, ◌&&◌, ltb,
}
use librfid.Rc632.Mifare.{coded_nibble, transform_key}

-- How the chip reads a coded key: the lower nibble of each byte counts, the upper is its complement.
abbrev pub decoded : List ℕ → List ℕ
decoded [] = []
decoded (hi ∷ []) = []
decoded (hi ∷ lo ∷ coded) = (bit_and hi 0x0f * 16 + bit_and lo 0x0f) ∷ decoded coded

-- Whether the upper nibble is the complement of the lower
abbrev is_coded : ℕ → Bool
is_coded b = b >>> 4 == 15 - bit_and b 0x0f

abbrev pub all_coded : List ℕ → Bool
all_coded [] = true
all_coded (b ∷ coded) = is_coded b && all_coded coded

-- Bytes
abbrev IsBytes : List ℕ → Type 0
IsBytes [] = Unit
IsBytes (b ∷ bytes) = (b < 256) × (IsBytes bytes)

both : {p q : Bool} → p ≡ true → q ≡ true → (p && q) ≡ true
both {p} {q} hp hq = rw (hp, hq) refl

nibble_table :
    holds_below 16 (λ n. bit_and (coded_nibble n) 0x0f == n && is_coded (coded_nibble n)) ≡ true
unfolding holds_below
nibble_table = refl

split_table :
    holds_below 256 (λ b. (b >>> 4) * 16 + bit_and b 0x0f == b && ltb (bit_and b 0x0f) 16) ≡ true
unfolding holds_below
split_table = refl

nibble_lem :
    (n : ℕ) → n < 16 → (bit_and (coded_nibble n) 0x0f ≡ n) × (is_coded (coded_nibble n) ≡ true)
nibble_lem n h =
    let e = holds_below_at 16 _ n nibble_table h in (ground (arith, e), ground (arith, e))

byte_lem : (b : ℕ) → b < 256 → ((b >>> 4) * 16 + bit_and b 0x0f ≡ b) × (bit_and b 0x0f < 16)
byte_lem b h =
    let e = holds_below_at 256 _ b split_table h in (ground (arith, e), ground (arith, e))

-- A key of bytes is coded in twice as many bytes, each of which has the complement of its lower
-- nibble above it, and the lower nibbles make up the key again.
pub transform_key_lem :
    (key : List ℕ)
    → IsBytes key
    → (decoded (transform_key key) ≡ key)
      × (all_coded (transform_key key) ≡ true)
      × (length (transform_key key) ≡ 2 * length key)
unfolding transform_key
transform_key_lem [] bytes = (refl, refl, omega arith)
transform_key_lem (b ∷ key) (byte, bytes) =
    let (d, c, l) = transform_key_lem key bytes in
    let (whole, low) = byte_lem b byte in
    let (hi, hi_coded) = nibble_lem (b >>> 4) (omega arith) in
    let (lo, lo_coded) = nibble_lem (bit_and b 0x0f) low in
    (rw (hi, lo, whole, d) refl, both hi_coded (both lo_coded c), omega (arith, l))
