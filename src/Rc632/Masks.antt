-- ===== src/Rc632/Masks.antt =====
-- Setting and clearing bits of a byte that are set or clear already.
use librfid.Prelude.{
  ℕ, ◌-◌, ◌<◌, ◌≡◌, refl, Bool, true, not, ◌||◌, ◌&&◌, ltb, ◌==◌, bit_and, bit_or, arith,
  holds_below, holds_below_at,
}

-- A test of two bytes that holds of all of them
abbrev both_below : (ℕ → ℕ → Bool) → Bool
both_below test = holds_below 256 (λ a. holds_below 256 (test a))

both_below_at :
    (test : ℕ → ℕ → Bool) (a b : ℕ) → both_below test ≡ true → a < 256 → b < 256 → test a b ≡ true
both_below_at test a b all small small' =
    holds_below_at 256 (test a) b (holds_below_at 256 (λ a. holds_below 256 (test a)) a all small)
      small'

abbrev set_already : ℕ → ℕ → Bool
set_already x mask = not (bit_and x mask == mask) || bit_or x mask == x

abbrev clear_already : ℕ → ℕ → Bool
clear_already x mask = not (bit_and x mask == 0) || bit_and x (0xff - mask) == x

abbrev byte_or : ℕ → ℕ → Bool
byte_or x mask = bit_and (bit_or x mask) 0xff == bit_or x mask && ltb (bit_or x mask) 256

abbrev byte_and : ℕ → ℕ → Bool
byte_and x mask = ltb (bit_and x mask) 256

set_table : both_below set_already ≡ true
unfolding holds_below
set_table = refl

clear_table : both_below clear_already ≡ true
unfolding holds_below
clear_table = refl

or_table : both_below byte_or ≡ true
unfolding holds_below
or_table = refl

and_table : both_below byte_and ≡ true
unfolding holds_below
and_table = refl

module _ (x mask : ℕ) (byte : x < 256) (byte' : mask < 256) where
  pub bit_or_set : bit_and x mask ≡ mask → bit_or x mask ≡ x
  bit_or_set e = ground (arith, both_below_at set_already x mask set_table byte byte')

  pub bit_and_clear : bit_and x mask ≡ 0 → bit_and x (0xff - mask) ≡ x
  bit_and_clear e = ground (arith, both_below_at clear_already x mask clear_table byte byte')

  pub bit_or_byte : bit_and (bit_or x mask) 0xff ≡ bit_or x mask
  bit_or_byte = ground (arith, both_below_at byte_or x mask or_table byte byte')

  pub bit_or_small : bit_or x mask < 256
  bit_or_small = ground (arith, both_below_at byte_or x mask or_table byte byte')

  pub bit_and_small : bit_and x mask < 256
  bit_and_small = ground (arith, both_below_at byte_and x mask and_table byte byte')
