-- ===== src/Rc632/Timing.antt =====
-- For which timeouts `best_prescaler`, src/rfid_asic_rc632.c, finds settings of the timer.
use librfid.Prelude.{
  ℕ, ◌+◌, ◌*◌, ◌/◌, ◌%◌, ◌^◌, ◌≤◌, ◌<◌, ◌≡◌, ◌↔◌, refl, sym, ap, ◌∙◌, Option, none, some, arith,
}
use native.Mathlib.Nat.{
  div-le_self, div-mul-le_self, le-div_iff_mul-le, mul-le-mul_left, mul-le-mul_right,
}
use native.Mathlib.Decide.{dec_le}
use librfid.Rc632.Prescaler.{Setting, clk, div_of, period, best_prescaler}
use librfid.Rc632.Search.{Fits, setting, IsShortest, IsBest, search-IsBest}

-- A divisor that rounds up makes the time long enough.
rounded_up : (d t : ℕ) → 0 < d → d < 13 → 12 * t < 1000000 * d → t ≤ 1000000 / (12 / d)
rounded_up d t nonzero small less =
    let quotient : 0 < 12 / d = (le-div_iff_mul-le nonzero).1 (omega arith) in
    let bound : 1000000 * (12 / d * d) ≤ 1000000 * 12 =
      mul-le-mul_left 1000000 (div-mul-le_self 12 d) in
    let times : 12 * t * (12 / d) ≤ 1000000 * d * (12 / d) =
      mul-le-mul_right (12 / d) (omega arith) in
    (le-div_iff_mul-le quotient).1 (grind (arith, bound, times))

-- The slowest clock makes every timeout below a second.
Fits-slowest : (timeout : ℕ) → timeout < 1000000 → Fits timeout 20
unfolding div_of period clk
Fits-slowest timeout small = (
  omega arith,
  omega arith,
  rounded_up ((12 * timeout) % 2 ^ 64 / 1000000 + 1) timeout (omega arith) (omega arith)
      (omega arith),
)

clk_bound : (i : ℕ) → clk i ≤ 13560000
unfolding clk
clk_bound i = div-le_self 13560000 (2 ^ i)

-- No clock makes a timeout of a second or more.
Fits-never : (timeout i : ℕ) → timeout < 2 ^ 40 → 1000000 ≤ timeout → ¬ Fits timeout i
unfolding div_of
Fits-never timeout i small long (byte, clocked, _) =
    let million : 0 < 1000000 = omega arith in
    let slow : clk i ≤ 13560000 = clk_bound i in
    let product : clk i * timeout ≤ 13560000 * timeout = mul-le-mul_right timeout slow in
    let second : clk i * 1000000 ≤ clk i * timeout = mul-le-mul_left (clk i) long in
    let enough : clk i ≤ clk i * timeout / 1000000 = (le-div_iff_mul-le million).1 second in
    omega arith

div_of_enough : (timeout i : ℕ) → timeout < 2 ^ 40 → clk i * timeout < 1000000 * div_of timeout i
unfolding div_of
div_of_enough timeout i small =
    let product : clk i * timeout ≤ 13560000 * timeout = mul-le-mul_right timeout (clk_bound i) in
    omega arith

found_of_best :
    (timeout : ℕ) (best : Option Setting)
    → IsBest 21 timeout best
    → timeout < 1000000
    → (i : ℕ) × (best ≡ some (setting timeout i)) × (IsShortest 21 timeout i)
found_of_best timeout none never small =
    absurd (never 20 (omega arith) (Fits-slowest timeout small))
found_of_best timeout (some s) (i, e, shortest) small = (i, ap some e, shortest)

pub best_prescaler-IsShortest :
    (timeout : ℕ)
    → timeout < 1000000
    → (i : ℕ) × (best_prescaler timeout ≡ some (setting timeout i))
      × (IsShortest 21 timeout i)
      × (clk i * timeout < 1000000 * div_of timeout i)
unfolding best_prescaler
best_prescaler-IsShortest timeout small =
    let (i, e, shortest) = found_of_best timeout _ (search-IsBest 21 timeout (omega arith)) small in
    (i, e, shortest, div_of_enough timeout i (omega arith))

none_of_best :
    (timeout : ℕ) (best : Option Setting)
    → IsBest 21 timeout best
    → timeout < 2 ^ 40
    → 1000000 ≤ timeout
    → best ≡ none
none_of_best timeout none never small long = refl
none_of_best timeout (some s) (i, e, (low, fits, least)) small long =
    absurd (Fits-never timeout i small long fits)

-- For timeouts below 2^40 microseconds, the divisor stays uninitialised exactly from one second on.
pub best_prescaler-none_iff :
    (timeout : ℕ) → timeout < 2 ^ 40 → (best_prescaler timeout ≡ none) ↔ (1000000 ≤ timeout)
unfolding best_prescaler
best_prescaler-none_iff timeout small = (
  λ e. elim (dec_le 1000000 timeout) [
    | yes long ↦ long
    | no short ↦
        let (i, found, _) =
          found_of_best timeout _ (search-IsBest 21 timeout small) (omega arith) in
        let clash : none ≡ some (setting timeout i) = sym e ∙ found in ground arith
  ],
  λ long. none_of_best timeout _ (search-IsBest 21 timeout small) small long,
)
