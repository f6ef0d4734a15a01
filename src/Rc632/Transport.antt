-- ===== src/Rc632/Transport.antt =====
-- The functions through which the driver of src/rfid_asic_rc632.c reaches the chip: the pointers
-- `fn` of `struct rfid_asic_rc632_transport`, include/librfid/rfid_asic_rc632.h. They are a parameter
-- of the driver, which the transports of the readers fill; `W` is the state of the chip and of what
-- stands between.
use librfid.Prelude.{
  ℕ, ℤ, Bool, Option, none, some, List, if◌then◌else◌, ltb, take, drop, length, ◌+◌,
}
use librfid.Control.{M, ◌>>=◌, ◌>>◌, pure, undefined, leave_neg}

-- What `reg_read` leaves behind: its result, and the value if it stored one.
pub record RegRead : Type 0 where
  pub ret : ℤ
  pub val : Option ℕ

-- What `fifo_read` leaves behind: its result and the bytes that it stored.
pub record FifoRead : Type 0 where
  pub ret : ℤ
  pub bytes : List ℕ

pub record Transport (W : Type 0) : Type 0 where
  pub reg_write : ℕ → ℕ → M W ℤ
  pub reg_read : ℕ → M W RegRead
  pub fifo_write : List ℕ → ℕ → M W ℤ  -- the bytes and the flags
  pub fifo_read : ℕ → M W FifoRead

-- The value of a variable, if one was stored in it.
abbrev pub value : {S A : Type 0} → Option A → M S A
value none = undefined
value (some x) = pure x

-- `ret = ...; if (ret < 0) return ret;`
abbrev pub check : {S : Type 0} → M S ℤ → M S (Unit {0})
check m = m >>= leave_neg

-- `if (test) ...;`
abbrev pub when : {S : Type 0} → Bool → M S (Unit {0}) → M S (Unit {0})
when test m = if test then m else pure tt

-- The `n` bytes at `buf + at`, which are the memory's as far as `buf` goes.
abbrev pub slice : {S : Type 0} → List ℕ → ℕ → ℕ → M S (List ℕ)
slice buf at n = if ltb (length buf) (at + n) then undefined else pure (take n (drop at buf))

module _ {W : Type 0} (t : Transport W) where
  -- A register read, of which only a failure matters.
  abbrev pub check_read : ℕ → M W (Unit {0})
  check_read reg = do r ← t.reg_read reg; leave_neg r.ret

  -- A register read whose value is used next.
  abbrev pub load : ℕ → M W ℕ
  load reg = do r ← t.reg_read reg; leave_neg r.ret; value r.val
