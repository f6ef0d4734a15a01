-- ===== src/Prelude/Int.antt =====
-- C's `int`: a function result, of which the code mostly asks whether it is negative.
use Prim.Native.Nat.{ℕ, ◌-◌, ◌^◌}
use librfid.Prelude.Tests.{ltb, if◌then◌else◌}
use mathlib.Core.Bool.{Bool, true, false}

-- `negsuc n` is -(n + 1).
pub data ℤ : Type 0 where
  pos : ℕ → ℤ
  negsuc : ℕ → ℤ

abbrev pub is_neg : ℤ → Bool
is_neg (pos n) = false
is_neg (negsuc n) = true

abbrev pub minus_one : ℤ
minus_one = negsuc 0

-- The error codes of errno.h that the library returns negated.
abbrev pub neg_eperm : ℤ
neg_eperm = negsuc 0

abbrev pub neg_eio : ℤ
neg_eio = negsuc 4

abbrev pub neg_e2big : ℤ
neg_e2big = negsuc 6

abbrev pub neg_eacces : ℤ
neg_eacces = negsuc 12

abbrev pub neg_enodev : ℤ
neg_enodev = negsuc 18

abbrev pub neg_einval : ℤ
neg_einval = negsuc 21

abbrev pub neg_enotsup : ℤ
neg_enotsup = negsuc 94

abbrev pub neg_etimedout : ℤ
neg_etimedout = negsuc 109

-- `(int) n`, of an `unsigned int`
abbrev pub as_int : ℕ → ℤ
as_int n = if ltb n (2 ^ 31) then pos n else negsuc (2 ^ 32 - n - 1)
