-- ===== src/Rc632/Prescaler.antt =====
-- `best_prescaler`, src/rfid_asic_rc632.c: the settings of the chip's timer for a timeout.
use librfid.Prelude.{
  ℕ, zero, suc, ◌+◌, ◌-◌, ◌*◌, ◌/◌, ◌%◌, ◌^◌, Option, none, some, ◌||◌, ltb, leb, if◌then◌else◌,
}

-- The best settings so far: `best_prescaler`, `best_divisor` and `smallest_diff`.
pub record Setting : Type 0 where
  pub prescaler : ℕ
  pub divisor : ℕ
  pub diff : ℕ

abbrev pub u64 : ℕ → ℕ
u64 n = n % 2 ^ 64

-- The frequency of the timer's clock with the prescaler `i`, in Hz.
unfoldable pub clk : ℕ → ℕ
clk i = 13560000 / 2 ^ i

-- `tmp_div`, incremented
unfoldable pub div_of : ℕ → ℕ → ℕ
unfolding clk
div_of timeout i = u64 (clk i * timeout) / 1000000 + 1

-- `res`: the time that the timer takes, in microseconds
unfoldable pub period : ℕ → ℕ → ℕ
unfolding clk div_of
period timeout i = 1000000 / (clk i / div_of timeout i)

-- `if (diff < smallest_diff)`; `none` stands for a `smallest_diff` of LLONG_MAX.
abbrev pub better : Setting → Option Setting → Option Setting
better s none = some s
better s (some b) = if ltb s.diff b.diff then some s else some b

-- The body of the loop; a difference from 2^63 on is a negative `int64_t`.
unfoldable pub consider : ℕ → ℕ → Option Setting → Option Setting
unfolding clk div_of period
consider timeout i best =
    let d = div_of timeout i in
    if ltb 0xff d || ltb (clk i) d
    then best
    else let diff = u64 (period timeout i + 2 ^ 64 - timeout) in
      if leb (2 ^ 63) diff
      then best
      else better (record { prescaler = i; divisor = d; diff = diff }) best

-- The rounds of the loop for the prescalers below `n`.
unfoldable pub search_below : ℕ → ℕ → Option Setting
unfolding consider
search_below zero timeout = none
search_below (suc n) timeout = consider timeout n (search_below n timeout)

-- `best_prescaler`: the prescaler and the divisor, `none` if the divisor stays uninitialised.
unfoldable pub best_prescaler : ℕ → Option Setting
unfolding search_below
best_prescaler timeout = search_below 21 timeout
