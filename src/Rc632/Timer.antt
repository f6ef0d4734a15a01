-- ===== src/Rc632/Timer.antt =====
-- The timer of the chip and the loops that wait for it to be idle, src/rfid_asic_rc632.c.
use librfid.Prelude.{
  ℕ, zero, suc, ℤ, pos, negsuc, neg_eio, neg_etimedout, ◌+◌, ◌-◌, ◌*◌, ◌/◌, ◌^◌, Option, none, some,
  true, false, not, ◌&&◌, ◌==◌, ltb, bit_and, bit_or, test, as_int, if◌then◌else◌,
}
use librfid.Control.{M, out_of_fuel, ◌>>=◌, ◌>>◌, pure, undefined, leave_if, leave_neg, call}
use librfid.Rc632.Reg
use librfid.Rc632.Bit
use librfid.Rc632.Transport.{Transport, value, check, check_read, load, when}
use librfid.Rc632.Registers.{clear_irqs}
use librfid.Rc632.Prescaler.{best_prescaler, u64}

-- `TIMER_RELAX_FACTOR`
abbrev pub timer_relax_factor : ℕ
timer_relax_factor = 10

abbrev pub usleep_per_cycle : ℕ
usleep_per_cycle = 128

-- `a | b`, of C's `int`
abbrev pub int_bits : ℤ → ℕ
int_bits (pos n) = n
int_bits (negsuc n) = 2 ^ 32 - n - 1

abbrev pub int_or : ℤ → ℤ → ℤ
int_or a b = as_int (bit_or (int_bits a) (int_bits b))

abbrev pub value_or : Option ℕ → ℕ → ℕ
value_or none was = was
value_or (some x) was = x

-- A variable after a read that stored a value or did not.
abbrev pub later : Option ℕ → Option ℕ → Option ℕ
later none was = was
later (some x) was = some x

module _ {W : Type 0} (t : Transport W) where
  -- `rc632_timer_set`
  unfoldable pub timer_set : ℕ → M W ℤ
  unfolding best_prescaler clear_irqs
  timer_set timeout = call (do
    let best = best_prescaler (u64 (timeout * timer_relax_factor))
    check (t.reg_write Reg.timer_clock (elim best [ none ↦ 0 | some b ↦ bit_and b.prescaler 0x1f ]))
    t.reg_write Reg.timer_control (bit_or Bit.tmr_start_tx_end Bit.tmr_stop_rx_begin)
    a ← clear_irqs t Bit.irq_timer
    b ← t.reg_write Reg.interrupt_en (bit_or Bit.irq_set Bit.irq_timer)
    divisor ← elim best [ none ↦ undefined | some b ↦ pure b.divisor ]
    c ← t.reg_write Reg.timer_reload divisor
    pure (int_or (int_or a b) c))

  -- The tests of `rc632_wait_idle_timer` on the status: an error, and the timer's interrupt.
  unfoldable pub check_error : ℕ → M W (Unit {0})
  check_error stat = when (test stat Bit.stat_err) (do
    err ← load t Reg.error_flag
    leave_if
        (test err
          (bit_or (bit_or Bit.err_flag_col_err Bit.err_flag_parity_err) Bit.err_flag_framing_err))
        neg_eio)

  unfoldable pub check_timer : ℕ → M W (Unit {0})
  unfolding clear_irqs
  check_timer stat = when (test stat Bit.stat_irq) (do
    irq ← load t Reg.interrupt_rq
    when (test irq Bit.irq_timer && not (test irq Bit.irq_rx))
        (do clear_irqs t Bit.irq_timer; leave_if true neg_etimedout))

  -- The loop of `rc632_wait_idle_timer`; `stat` is what the variable holds.
  unfoldable pub poll_timer : ℕ → Option ℕ → M W ℤ
  unfolding check_error check_timer clear_irqs
  poll_timer zero stat w = out_of_fuel
  poll_timer (suc fuel) stat w =
      (do
        r ← t.reg_read Reg.primary_status
        s ← value (later r.val stat)
        check_error s
        check_timer s
        cmd ← load t Reg.command
        elim (cmd == 0) [
          | true ↦ (do clear_irqs t Bit.irq_rx; pure (pos 0))
          | false ↦ poll_timer fuel (later r.val stat)
        ])
        w

  -- `rc632_wait_idle_timer`
  unfoldable pub wait_idle_timer : ℕ → M W ℤ
  unfolding poll_timer
  wait_idle_timer fuel = call (do
    check_read t Reg.interrupt_en
    check (
        t.reg_write Reg.interrupt_en
          (bit_or (bit_or (bit_or Bit.irq_set Bit.irq_timer) Bit.irq_idle) Bit.irq_rx))
    poll_timer fuel none)

  -- The block of `rc632_wait_idle` on the status; `foo` takes on the error flags.
  unfoldable pub look_at_status : M W (Unit {0})
  unfolding clear_irqs
  look_at_status = do
    p ← t.reg_read Reg.primary_status
    foo ← value p.val
    e ←
        (if test foo Bit.stat_err
          then (do r ← t.reg_read Reg.error_flag; value (later r.val (some foo)))
          else pure foo)
    when (test e Bit.stat_irq) (do t.reg_read Reg.interrupt_rq; check (clear_irqs t 0xff))

  -- The loop of `rc632_wait_idle`; `cmd` is what the variable holds.
  unfoldable pub poll_idle : ℕ → ℕ → ℕ → ℕ → M W ℤ
  unfolding look_at_status
  poll_idle zero cmd cycles limit w = out_of_fuel
  poll_idle (suc fuel) cmd cycles limit w =
      (do
        r ← t.reg_read Reg.command
        leave_neg r.ret
        look_at_status
        let cmd' = value_or r.val cmd
        leave_if (cmd' == 0) (pos 0)
        leave_if (ltb limit cycles) neg_etimedout
        poll_idle fuel cmd' (cycles + 1) limit)
        w

  -- `rc632_wait_idle`
  unfoldable pub wait_idle : ℕ → ℕ → M W ℤ
  unfolding poll_idle
  wait_idle fuel timeout =
      call (poll_idle fuel 0xff 0 (u64 (timeout * timer_relax_factor) / usleep_per_cycle))
