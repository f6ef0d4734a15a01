-- ===== src/Rc632/Safety.antt =====
-- Sending a frame through the chip, src/rfid_asic_rc632.c, when the bus works.
use librfid.Prelude.{
  ℕ, suc, ℤ, neg_eio, ◌*◌, ◌≤◌, ◌<◌, ◌≡◌, ◌≢◌, sym, Option, none, some, List, ◌==◌, is_neg, length,
  ltb, u8, arith, if◌then◌else◌,
}
use mathlib.Core.Path.{subst}
use librfid.Control.{M, fault, undefined, pure}
use librfid.Control.Outcome.{no_fault, Outcome, Ensures, Any, bind_lem, pure_lem, if_lem, call_lem}
use librfid.Reader.{
  FrameType, frame_14443a_regular, frame_14443b_regular, frame_mifare, frame_15693,
  frame_15693_icode1,
}
use librfid.Rc632.Reg
use librfid.Rc632.Bit
use librfid.Rc632.Transport.{Transport, value, check}
use librfid.Rc632.Registers.{clear_irqs}
use librfid.Rc632.Timer.{timer_set, timer_relax_factor}
use librfid.Rc632.Prescaler.{u64, Setting}
use librfid.Rc632.Timing.{best_prescaler-IsShortest}
use librfid.Rc632.Fifo.{fetch, start_transceive, transceive, fifo_size}
use librfid.Rc632.Iso14443a.{ab_frame, ab_transceive, channel_red}
use librfid.Rc632.Filling.{straight_line, send_at_once, start_transceive_at_once}
use librfid.Rc632.Working.{
  HasValue, Works, check_safe, seq_safe, read_safe, nothing, wait_idle_timer_safe,
}

module _ {W : Type 0} (t : Transport W) (F : Type 0) (works : Works F t) where
  -- With the settings that are found, the timer is set.
  timer_of :
      (best : Option Setting) (s : Setting)
      → best ≡ some s
      → Ensures F Any (elim best as (λ _. M W ℕ) [ none ↦ undefined | some b ↦ pure b.divisor ])
  timer_of none s e = ground arith
  timer_of (some b) s e = pure_lem F Any b.divisor tt

  timer_set_safe : (timeout : ℕ) → timeout < 100000 → Ensures F Any (timer_set t timeout)
  unfolding timer_set clear_irqs
  timer_set_safe timeout short =
      let (i, e, _, _) =
        best_prescaler-IsShortest (u64 (timeout * timer_relax_factor)) (omega arith) in
      call_lem F _ (
        seq_safe t F works (check (t.reg_write Reg.timer_clock _)) _
          (check_safe t F works _ (works.0 Reg.timer_clock _))
          (seq_safe t F works (t.reg_write Reg.timer_control _) _ (works.0 Reg.timer_control _) (
            bind_lem F Any Any (clear_irqs t Bit.irq_timer) _ (works.0 Reg.interrupt_rq _) (λ a _.
              bind_lem F Any Any (t.reg_write Reg.interrupt_en _) _ (works.0 Reg.interrupt_en _)
                (λ b _. bind_lem F Any Any _ _ (timer_of _ _ e) (λ divisor _.
                  bind_lem F Any Any (t.reg_write Reg.timer_reload divisor) _
                    (works.0 Reg.timer_reload divisor) (λ c _. pure_lem F Any _ tt)))))))

  straight_line_safe :
      (fuel : ℕ) (buf : List ℕ) (timer : ℕ)
      → timer < 100000
      → Ensures F Any (straight_line t fuel buf timer)
  unfolding straight_line send_at_once
  straight_line_safe fuel buf timer short = call_lem F _ (
      seq_safe t F works (t.reg_write Reg.command _) _ (works.0 Reg.command _) (
        seq_safe t F works (t.reg_write Reg.interrupt_rq _) _ (works.0 Reg.interrupt_rq _) (
          seq_safe t F works (t.reg_read Reg.primary_status) _
            (read_safe t F works Reg.primary_status)
            (seq_safe t F works (t.reg_read Reg.error_flag) _ (read_safe t F works Reg.error_flag) (
              seq_safe t F works (check (timer_set t timer)) _
                (check_safe t F works _ (timer_set_safe timer short))
                (seq_safe t F works (send_at_once t buf) _
                  (seq_safe t F works (check (t.fifo_write buf 3)) _
                    (check_safe t F works _ (works.2 buf 3))
                    (seq_safe t F works (check (t.reg_write Reg.command _)) _
                      (check_safe t F works _ (works.0 Reg.command _)) (nothing t F works)))
                  (wait_idle_timer_safe t F works fuel)))))))

  fetch_safe : (empty : ℤ) (room : ℕ) → Ensures F Any (fetch t empty room)
  unfolding fetch
  fetch_safe empty room =
      bind_lem F HasValue Any (t.reg_read Reg.fifo_length) _ (works.1 Reg.fifo_length) (λ r (x, e).
        if_lem F Any (is_neg r.ret) _ _ (λ _. pure_lem F Any _ tt)
          (λ _.
            bind_lem F Any Any (value r.val) _
              (subst (λ v. Ensures F Any (value {S = W} v)) (sym e) (pure_lem F Any x tt))
              (λ avail _.
                if_lem F Any (avail == 0) _ _
                  (λ _.
                    seq_safe t F works (t.reg_read Reg.primary_status) _
                      (read_safe t F works Reg.primary_status)
                      (seq_safe t F works (t.reg_read Reg.error_flag) _
                        (read_safe t F works Reg.error_flag)
                        (seq_safe t F works (t.reg_read Reg.channel_redundancy) _
                          (read_safe t F works Reg.channel_redundancy) (pure_lem F Any _ tt))))
                  (λ _.
                    bind_lem F Any Any (t.fifo_read _) _ (works.3 _)
                      (λ f _. pure_lem F Any _ tt)))))

  transceive_safe :
      (fuel : ℕ) (buf : List ℕ) (room timer : ℕ)
      → length buf ≤ fifo_size
      → timer < 100000
      → Ensures F Any (transceive t (suc fuel) buf (length buf) room timer)
  unfolding transceive
  transceive_safe fuel buf room timer fits short =
      bind_lem F Any Any (start_transceive t (suc fuel) buf (length buf) timer) _
        (λ w.
          subst (Outcome F Any) (sym (start_transceive_at_once t fuel buf timer w fits))
            (straight_line_safe (suc fuel) buf timer short w))
        (λ ret _.
          if_lem F Any (is_neg ret) _ _ (λ _. pure_lem F Any _ tt) (λ _. fetch_safe neg_eio room))

  ab_frame_safe :
      (fuel red : ℕ) (tx : List ℕ) (room timeout : ℕ)
      → length tx ≤ fifo_size
      → timeout < 100000
      → Ensures F Any (ab_frame t (suc fuel) red tx room timeout)
  unfolding ab_frame
  ab_frame_safe fuel red tx room timeout fits short =
      let rxl : ℕ = if ltb 0xff room then 0xff else room in
      let whole : u8 (length tx) ≡ length tx = omega arith in
      bind_lem F Any Any (t.reg_write Reg.channel_redundancy red) _
        (works.0 Reg.channel_redundancy red)
        (λ ret _.
          if_lem F Any (is_neg ret) _ _ (λ _. pure_lem F Any _ tt)
            (λ _.
              bind_lem F Any Any (transceive t (suc fuel) tx (u8 (length tx)) rxl timeout) _
                (subst (λ n. Ensures F Any (transceive t (suc fuel) tx n rxl timeout)) (sym whole)
                  (transceive_safe fuel tx rxl timeout fits short))
                (λ r _. pure_lem F Any _ tt)))

  pub ab_transceive-Ensures :
      (fuel : ℕ) (frametype : FrameType) (tx : List ℕ) (room timeout : ℕ)
      → length tx ≤ fifo_size
      → timeout < 100000
      → Ensures F Any (ab_transceive t (suc fuel) frametype tx room timeout)
  unfolding ab_transceive channel_red
  ab_transceive-Ensures fuel frame_14443a_regular tx room timeout fits short =
      ab_frame_safe fuel _ tx room timeout fits short
  ab_transceive-Ensures fuel frame_14443b_regular tx room timeout fits short =
      ab_frame_safe fuel _ tx room timeout fits short
  ab_transceive-Ensures fuel frame_mifare tx room timeout fits short =
      ab_frame_safe fuel _ tx room timeout fits short
  ab_transceive-Ensures fuel frame_15693 tx room timeout fits short =
      ab_frame_safe fuel _ tx room timeout fits short
  ab_transceive-Ensures fuel frame_15693_icode1 tx room timeout fits short = pure_lem F Any _ tt

-- Let the bus work: no function of the transport has a fault, and a read of a register stores a
-- value. Then transmitting a frame of at most 64 bytes with a timeout below 100 milliseconds and
-- receiving the answer has no fault either, whatever the frame's type, whatever the chip answers and
-- however often it is asked.
pub ab_transceive_safe :
    {W : Type 0} (t : Transport W) (fuel : ℕ) (frametype : FrameType) (tx : List ℕ)
    (room timeout : ℕ) (w : W)
    → Works ⊥ t
    → length tx ≤ fifo_size
    → timeout < 100000
    → ab_transceive t (suc fuel) frametype tx room timeout w ≢ fault
ab_transceive_safe t fuel frametype tx room timeout w works fits short =
    no_fault _ (ab_transceive-Ensures t ⊥ works fuel frametype tx room timeout fits short w)
