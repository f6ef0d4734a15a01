-- ===== src/Rc632/Search.antt =====
-- The search of `best_prescaler`, src/rfid_asic_rc632.c, for the timer's settings, against a
-- description of the best.
use librfid.Prelude.{
  ℕ, zero, suc, ◌-◌, ◌/◌, ◌^◌, ◌≤◌, ◌<◌, ◌≡◌, ◌⊎◌, inl, inr, refl, sym, Option, none, some, arith,
}
use mathlib.Core.Path.{subst}
use native.Mathlib.Nat.{div-le_self}
use native.Mathlib.Decide.{dec_lt}
use librfid.Rc632.Prescaler.{Setting, clk, div_of, period, better, consider, search_below}

-- Whether a prescaler can make the timeout: the divisor fits its register and the clock, and the
-- time is not too short.
abbrev pub Fits : ℕ → ℕ → Type 0
Fits timeout i =
    (div_of timeout i ≤ 0xff) × (div_of timeout i ≤ clk i) × (timeout ≤ period timeout i)

abbrev pub setting : ℕ → ℕ → Setting
setting timeout i = record {
  prescaler = i;
  divisor = div_of timeout i;
  diff = period timeout i - timeout;
}

period_bound : (timeout i : ℕ) → period timeout i ≤ 1000000
unfolding period
period_bound timeout i = div-le_self 1000000 (clk i / div_of timeout i)

consider-Fits :
    (timeout i : ℕ) (best : Option Setting)
    → Fits timeout i
    → consider timeout i best ≡ better (setting timeout i) best
unfolding consider
consider-Fits timeout i best (byte, clocked, long) = ground (arith, period_bound timeout i)

consider_skips :
    (timeout i : ℕ) (best : Option Setting)
    → timeout < 2 ^ 40
    → (0xff < div_of timeout i) ⊎ (clk i < div_of timeout i) ⊎ (period timeout i < timeout)
    → consider timeout i best ≡ best
unfolding consider
consider_skips timeout i best small bad = ground (arith, period_bound timeout i)

Fits-or_not :
    (timeout i : ℕ)
    → (Fits timeout i)
      ⊎ ((0xff < div_of timeout i) ⊎ (clk i < div_of timeout i) ⊎ (period timeout i < timeout))
Fits-or_not timeout i = elim (dec_lt 0xff (div_of timeout i)) [
  | yes p ↦ inr (inl p)
  | no byte ↦ elim (dec_lt (clk i) (div_of timeout i)) [
    | yes p ↦ inr (inr (inl p))
    | no clocked ↦ elim (dec_lt (period timeout i) timeout) [
      | yes p ↦ inr (inr (inr p))
      | no long ↦ inl (omega arith, omega arith, omega arith)
    ]
  ]
]

unfit :
    (timeout i : ℕ)
    → (0xff < div_of timeout i) ⊎ (clk i < div_of timeout i) ⊎ (period timeout i < timeout)
    → ¬ Fits timeout i
unfit timeout i bad (byte, clocked, long) = ground arith

-- The prescaler `i` is below `n`, can make the timeout, and of those that can it makes the shortest
-- time.
abbrev pub IsShortest : ℕ → ℕ → ℕ → Type 0
IsShortest n timeout i =
    (i < n)
    × (Fits timeout i)
    × ((j : ℕ) → j < n → Fits timeout j → period timeout i ≤ period timeout j)

-- What the search below `n` finds: the settings of the shortest, or that there is none.
abbrev pub IsBest : ℕ → ℕ → Option Setting → Type 0
IsBest n timeout none = (j : ℕ) → j < n → ¬ Fits timeout j
IsBest n timeout (some s) = (i : ℕ) × (s ≡ setting timeout i) × (IsShortest n timeout i)

below_suc : (j n : ℕ) → j < suc n → (j < n) ⊎ (j ≡ n)
below_suc j n h = elim (dec_lt j n) [ yes p ↦ inl p | no p ↦ inr (omega arith) ]

-- What holds of the prescalers below `n` and of `n` holds of those below the next.
all_below : (n : ℕ) (P : ℕ → Type 0) → ((j : ℕ) → j < n → P j) → P n → (j : ℕ) → j < suc n → P j
all_below n P old new j h = elim (below_suc j n h) [ inl p ↦ old j p | inr e ↦ subst P (sym e) new ]

skip :
    (n timeout : ℕ) (best : Option Setting)
    → ¬ Fits timeout n
    → IsBest n timeout best
    → IsBest (suc n) timeout best
skip n timeout none bad old = all_below n (λ j. ¬ Fits timeout j) old bad
skip n timeout (some s) bad (i, e, (low, fits, least)) = (
  i,
  e,
  (
    omega arith,
    fits,
    all_below n (λ j. Fits timeout j → period timeout i ≤ period timeout j) least
        (λ f. absurd (bad f)),
  ),
)

better_shorter :
    (timeout n i : ℕ)
    → period timeout n - timeout < period timeout i - timeout
    → better (setting timeout n) (some (setting timeout i)) ≡ some (setting timeout n)
better_shorter timeout n i shorter = ground arith

better_longer :
    (timeout n i : ℕ)
    → period timeout i - timeout ≤ period timeout n - timeout
    → better (setting timeout n) (some (setting timeout i)) ≡ some (setting timeout i)
better_longer timeout n i longer = ground arith

take_up :
    (n timeout : ℕ) (best : Option Setting)
    → Fits timeout n
    → IsBest n timeout best
    → IsBest (suc n) timeout (better (setting timeout n) best)
take_up n timeout none fits old = (
  n,
  refl,
  (
    omega arith,
    fits,
    all_below n (λ j. Fits timeout j → period timeout n ≤ period timeout j)
        (λ j low f. absurd (old j low f)) (λ f. omega arith),
  ),
)
take_up n timeout (some s) fits (i, e, (low, fits', least)) =
    subst (λ s'. IsBest (suc n) timeout (better (setting timeout n) (some s'))) (sym e)
      (elim (dec_lt (period timeout n - timeout) (period timeout i - timeout)) [
        | yes shorter ↦ subst (IsBest (suc n) timeout) (sym (better_shorter timeout n i shorter)) (
          n,
          refl,
          (
            omega arith,
            fits,
            all_below n (λ j. Fits timeout j → period timeout n ≤ period timeout j)
                (λ j low f. grind (arith, least j low f)) (λ f. omega arith),
          ),
        )
        | no longer ↦
            subst (IsBest (suc n) timeout) (sym (better_longer timeout n i (omega arith))) (
              i,
              refl,
              (
                omega arith,
                fits',
                all_below n (λ j. Fits timeout j → period timeout i ≤ period timeout j) least
                    (λ f. omega arith),
              ),
            )
      ])

pub search-IsBest : (n timeout : ℕ) → timeout < 2 ^ 40 → IsBest n timeout (search_below n timeout)
unfolding search_below
search-IsBest zero timeout small = λ j low. absurd (omega arith)
search-IsBest (suc n) timeout small = elim (Fits-or_not timeout n) [
  | inl fits ↦
      subst (IsBest (suc n) timeout) (sym (consider-Fits timeout n _ fits))
        (take_up n timeout _ fits (search-IsBest n timeout small))
  | inr bad ↦
      subst (IsBest (suc n) timeout) (sym (consider_skips timeout n _ small bad))
        (skip n timeout _ (unfit timeout n bad) (search-IsBest n timeout small))
]
