-- ===== src/Hex/Reading.antt =====
-- What `hexread`, utils/common.c, makes of hexadecimal text.
use librfid.Prelude.{
  ℕ, zero, suc, ◌+◌, ◌-◌, ◌^◌, ◌<◌, ◌≤◌, ◌≡◌, refl, ap, some, List, [], ◌∷◌, true, false, not, ◌&&◌,
  ◌==◌, ltb, length, bit_and, bit_or, u8, u32, ◌<<<◌, ◌>>>◌, arith, holds_below, holds_below_at,
}
use librfid.Hex.{colon, hex_digit, parse_hexdigit, step, read_from, hexread}

-- A byte as two digits, with a colon before them or not
pub data Pair : Type 0 where
  plain : ℕ → Pair
  after_colon : ℕ → Pair

abbrev pub digits : ℕ → List ℕ → List ℕ
digits b text = hex_digit (b >>> 4) ∷ hex_digit (bit_and b 0xf) ∷ text

abbrev pub text_of : List Pair → List ℕ
text_of [] = []
text_of (plain b ∷ pairs) = digits b (text_of pairs)
text_of (after_colon b ∷ pairs) = colon ∷ digits b (text_of pairs)

abbrev pub bytes_of : List Pair → List ℕ
bytes_of [] = []
bytes_of (plain b ∷ pairs) = b ∷ bytes_of pairs
bytes_of (after_colon b ∷ pairs) = b ∷ bytes_of pairs

abbrev pub AreBytes : List Pair → Type 0
AreBytes [] = Unit
AreBytes (plain b ∷ pairs) = (b < 256) × (AreBytes pairs)
AreBytes (after_colon b ∷ pairs) = (b < 256) × (AreBytes pairs)

digit_table :
    holds_below 256 (λ b.
      u8 (
          bit_or
            (parse_hexdigit (hex_digit (b >>> 4)) <<< 4)
            (parse_hexdigit (hex_digit (bit_and b 0xf))))
        == b
      && not (hex_digit (b >>> 4) == colon))
    ≡ true
unfolding holds_below parse_hexdigit
digit_table = refl

module _ (b : ℕ) (byte : b < 256) where
  digits_byte :
      u8 (
        bit_or
          (parse_hexdigit (hex_digit (b >>> 4)) <<< 4)
          (parse_hexdigit (hex_digit (bit_and b 0xf))))
      ≡ b
  digits_byte = ground (arith, holds_below_at 256 _ b digit_table byte)

  no_colon : (hex_digit (b >>> 4) == colon) ≡ false
  no_colon = ground (arith, holds_below_at 256 _ b digit_table byte)

read_from-text_of :
    (fuel : ℕ) (pairs : List Pair) (at last : ℕ)
    → AreBytes pairs
    → length pairs < fuel
    → at + length (text_of pairs) ≡ last + 2
    → read_from fuel (text_of pairs) at last ≡ some (bytes_of pairs)
unfolding read_from
read_from-text_of zero pairs at last bytes enough whole = absurd (omega arith)
read_from-text_of (suc fuel) [] at last bytes enough whole =
    let e : ltb last at ≡ true = ground arith in rw (e) refl
read_from-text_of (suc fuel) (after_colon b ∷ pairs) at last (byte, bytes) enough whole =
    let e : ltb last at ≡ false = ground arith in
    rw (e, read_from-text_of fuel pairs (at + 3) last bytes (omega arith) (omega arith))
      (ap (λ x. some (x ∷ bytes_of pairs)) (digits_byte b byte))
read_from-text_of (suc fuel) (plain b ∷ pairs) at last (byte, bytes) enough whole =
    let e : ltb last at ≡ false = ground arith in
    let two : step (digits b (text_of pairs)) ≡ 2 = rw (no_colon b byte) refl in
    rw
      (
        e,
        no_colon b byte,
        two,
        read_from-text_of fuel pairs (at + 2) last bytes (omega arith) (omega arith),
      )
      (ap (λ x. some (x ∷ bytes_of pairs)) (digits_byte b byte))

text_long : (pairs : List Pair) → 0 < length pairs → 2 ≤ length (text_of pairs)
text_long [] some_pairs = absurd (omega arith)
text_long (plain b ∷ pairs) some_pairs = omega arith
text_long (after_colon b ∷ pairs) some_pairs = omega arith

-- Text of at least one byte, each written as two digits with a colon before them or not, is read
-- back as exactly these bytes.
pub hexread-text_of :
    (fuel : ℕ) (pairs : List Pair)
    → AreBytes pairs
    → 0 < length pairs
    → length pairs < fuel
    → length (text_of pairs) < 2 ^ 32
    → hexread fuel (text_of pairs) (length (text_of pairs)) ≡ some (bytes_of pairs)
unfolding hexread
hexread-text_of fuel pairs bytes some_pairs enough small =
    let long = text_long pairs some_pairs in
    read_from-text_of fuel pairs 0 (u32 (length (text_of pairs) + 2 ^ 32 - 2)) bytes enough
      (omega arith)
