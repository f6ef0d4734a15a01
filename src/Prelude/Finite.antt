-- ===== src/Prelude/Finite.antt =====
-- Facts about the numbers below a bound, by evaluation.
use Prim.Native.Nat.{ℕ, zero, suc, ◌<◌, compare, Ordering, bit_and}
use mathlib.Core.Path.{◌≡◌, refl}
use mathlib.Core.Bool.{Bool, true, false, ◌&&◌}
use native.Mathlib.Omega.{arith}

unfoldable pub holds_below : ℕ → (ℕ → Bool) → Bool
holds_below zero test = true
holds_below (suc last) test = holds_below last test && test last

pub holds_below_at :
    (bound : ℕ) (test : ℕ → Bool) (i : ℕ)
    → holds_below bound test ≡ true
    → i < bound
    → test i ≡ true
unfolding holds_below
holds_below_at zero test i all small = absurd (omega arith)
holds_below_at (suc last) test i all small = ground (holds_below_at last test i, arith)

-- A byte is not changed by the mask of a byte.
byte_table :
    holds_below 256 (λ x. elim (compare (bit_and x 0xff) x) [ Ordering.eq ↦ true | _ ↦ false ])
    ≡ true
unfolding holds_below
byte_table = refl

pub bit_and_byte : (x : ℕ) → x < 256 → bit_and x 0xff ≡ x
bit_and_byte x h = ground (arith, holds_below_at 256 _ x byte_table h)
