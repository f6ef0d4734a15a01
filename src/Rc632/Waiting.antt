-- ===== src/Rc632/Waiting.antt =====
-- `rc632_wait_idle`, src/rfid_asic_rc632.c, does not wait longer than its timeout.
use librfid.Prelude.{
  ℕ, zero, suc, ℤ, pos, neg_etimedout, ◌+◌, ◌*◌, ◌/◌, ◌≤◌, ◌<◌, ◌≡◌, refl, Option, none, some, Bool,
  true, false, arith, ltb, ◌==◌, is_neg, test, if◌then◌else◌,
}
use librfid.Control.{
  Run, M, ok, returned, fault, out_of_fuel, and_then, settle, ◌>>=◌, ◌>>◌, leave_if,
}
use librfid.Rc632.Transport.{Transport, value}
use librfid.Rc632.Reg
use librfid.Rc632.Bit
use librfid.Rc632.Registers.{clear_irqs}
use librfid.Rc632.Timer.{
  poll_idle, wait_idle, look_at_status, timer_relax_factor, usleep_per_cycle, value_or, later,
}
use librfid.Rc632.Prescaler.{u64}

-- Whether the fuel of a loop ran out
abbrev pub is_out_of_fuel : {S A : Type 0} → Run S A → Bool
is_out_of_fuel (ok a s) = false
is_out_of_fuel (returned r s) = false
is_out_of_fuel fault = false
is_out_of_fuel out_of_fuel = true

-- A transport without loops of its own: its functions come back.
abbrev pub ComesBack : {W : Type 0} → Transport W → Type 0
ComesBack {W} t =
    ((reg val : ℕ) (w : W) → is_out_of_fuel (t.reg_write reg val w) ≡ false)
    × ((reg : ℕ) (w : W) → is_out_of_fuel (t.reg_read reg w) ≡ false)

-- Code that never runs out of fuel, whatever the state.
abbrev IsBounded : {S A : Type 0} → M S A → Type 0
IsBounded {S} m = (s : S) → is_out_of_fuel (m s) ≡ false

module _ {S : Type 0} where
  and_then_bounded :
      {A B : Type 0} (m : Run S A) (k : A → M S B)
      → is_out_of_fuel m ≡ false
      → ((a : A) → IsBounded (k a))
      → is_out_of_fuel (and_then m k) ≡ false
  and_then_bounded (ok a s) k first rest = rest a s
  and_then_bounded (returned r s) k first rest = refl
  and_then_bounded fault k first rest = refl
  and_then_bounded out_of_fuel k first rest = ground arith

  bind-IsBounded :
      {A B : Type 0} (m : M S A) (k : A → M S B)
      → IsBounded m
      → ((a : A) → IsBounded (k a))
      → IsBounded (m >>= k)
  bind-IsBounded m k first rest s = and_then_bounded (m s) k (first s) rest

  if_IsBounded :
      {A : Type 0} (m n : M S A) (b : Bool)
      → IsBounded m
      → IsBounded n
      → IsBounded (if b then m else n)
  if_IsBounded m n true first second = first
  if_IsBounded m n false first second = second

  value-IsBounded : (v : Option ℕ) → IsBounded (value {S = S} v)
  value-IsBounded none s = refl
  value-IsBounded (some x) s = refl

  leave_if-IsBounded : (b : Bool) (r : ℤ) → IsBounded (leave_if {S = S} b r)
  leave_if-IsBounded true r s = refl
  leave_if-IsBounded false r s = refl

  -- Code behind `if (test) return r;` counts only where the test fails.
  abort-IsBounded :
      {A : Type 0} (b : Bool) (r : ℤ) (m : M S A)
      → (b ≡ false → IsBounded m)
      → IsBounded (leave_if {S = S} b r >> m)
  abort-IsBounded true r m rest s = refl
  abort-IsBounded false r m rest s = rest refl s

module _ {W : Type 0} (t : Transport W) (back : ComesBack t) where
  look-IsBounded : IsBounded (look_at_status t)
  unfolding look_at_status clear_irqs
  look-IsBounded = bind-IsBounded _ _ (back.1 Reg.primary_status) (λ p.
      bind-IsBounded _ _ (value-IsBounded p.val) (λ foo.
        bind-IsBounded _ _
          (if_IsBounded _ _ (test foo Bit.stat_err)
            (bind-IsBounded _ _ (back.1 Reg.error_flag)
              (λ r. value-IsBounded (later r.val (some foo))))
            (λ s. refl))
          (λ e.
            if_IsBounded _ _ (test e Bit.stat_irq)
              (bind-IsBounded _ _ (back.1 Reg.interrupt_rq) (λ r.
                bind-IsBounded _ _ (back.0 Reg.interrupt_rq _)
                  (λ r. leave_if-IsBounded (is_neg r) r)))
              (λ s. refl))))

  poll_idle-IsBounded :
      (fuel cmd cycles limit : ℕ)
      → cycles < limit + 2
      → limit + 2 ≤ fuel + cycles
      → IsBounded (poll_idle t fuel cmd cycles limit)
  unfolding poll_idle
  poll_idle-IsBounded zero cmd cycles limit below enough w = absurd (omega arith)
  poll_idle-IsBounded (suc fuel) cmd cycles limit below enough w =
      bind-IsBounded _ _ (back.1 Reg.command)
        (λ r. bind-IsBounded _ _ (leave_if-IsBounded (is_neg r.ret) r.ret) (λ _.
          bind-IsBounded _ _ look-IsBounded (λ _.
            bind-IsBounded _ _ (leave_if-IsBounded (value_or r.val cmd == 0) (pos 0)) (λ _.
              abort-IsBounded (ltb limit cycles) neg_etimedout _ (λ go_on.
                poll_idle-IsBounded fuel _ (cycles + 1) limit (ground arith) (ground arith))))))
        w

  settle_bounded : (m : Run W ℤ) → is_out_of_fuel m ≡ false → is_out_of_fuel (settle m) ≡ false
  settle_bounded (ok a s) h = refl
  settle_bounded (returned r s) h = refl
  settle_bounded fault h = refl
  settle_bounded out_of_fuel h = h

  -- Let the functions of the transport come back. Then the loop that polls the chip ends, whatever
  -- the chip answers: with ten times the timeout taken in steps of 128 microseconds, two rounds more
  -- than there are steps are enough.
  pub wait_idle_ends :
      (fuel timeout : ℕ)
      → u64 (timeout * timer_relax_factor) / usleep_per_cycle + 2 ≤ fuel
      → (w : W) → is_out_of_fuel (wait_idle t fuel timeout w) ≡ false
  unfolding wait_idle
  wait_idle_ends fuel timeout enough w = settle_bounded _ (
      poll_idle-IsBounded fuel 0xff 0 (u64 (timeout * timer_relax_factor) / usleep_per_cycle)
        (omega arith) (omega arith) w)
