-- ===== src/Rc632/Filling.antt =====
-- How `rc632_transceive`, src/rfid_asic_rc632.c, brings data to the FIFO of the chip.
use librfid.Prelude.{
  ℕ, suc, ℤ, pos, ◌+◌, ◌-◌, ◌%◌, ◌≤◌, ◌<◌, ◌≡◌, refl, sym, ap, ◌∙◌, List, true, false, length, take,
  take-length, arith, ltb, ◌==◌, if◌then◌else◌,
}
use librfid.Control.{M, ok, fault, and_then, settle, ◌>>◌, pure, call}
use librfid.Control.Outcome.{and_then_cong, and_then_assoc}
use librfid.Rc632.Reg
use librfid.Rc632.Bit
use librfid.Rc632.Transport.{Transport, load, check, slice}
use librfid.Rc632.Timer.{timer_set, wait_idle_timer}
use librfid.Rc632.Fifo.{fill_fifo, refill, refill_len, start_transceive, fifo_size}

slice_all :
    {S : Type 0} (buf : List ℕ) (s : S)
    → length buf < 256
    → slice buf 0 (length buf % 256) s ≡ ok buf s
slice_all buf s small =
    let e : length buf % 256 ≡ length buf = omega arith in rw (e) (ground (arith, take-length buf))

module _ {W : Type 0} (t : Transport W) where
  -- What sending comes to for data that fits the FIFO.
  unfoldable pub send_at_once : List ℕ → M W (Unit {0})
  send_at_once buf = do
    check (t.fifo_write buf 3)
    check (t.reg_write Reg.command Bit.cmd_transceive)
    pure tt

  -- `rc632_transceive` without the loop
  unfoldable pub straight_line : ℕ → List ℕ → ℕ → M W ℤ
  unfolding send_at_once timer_set wait_idle_timer
  straight_line fuel buf timer = call (do
    t.reg_write Reg.command Bit.cmd_idle
    t.reg_write Reg.interrupt_rq 0x7f
    t.reg_read Reg.primary_status
    t.reg_read Reg.error_flag
    check (timer_set t timer)
    send_at_once buf
    wait_idle_timer t fuel)

  refill_end : (next : ℕ → ℤ → M W (Unit {0})) (n : ℕ) (s : W) → refill t next n (0 + n) s ≡ ok tt s
  unfolding refill
  refill_end next n s = ground arith

  fill_fifo_at_once :
      (fuel : ℕ) (buf : List ℕ) (w : W)
      → length buf ≤ fifo_size
      → fill_fifo t (suc fuel) buf (length buf) 0 (pos (length buf)) w ≡ send_at_once buf w
  unfolding fill_fifo send_at_once
  fill_fifo_at_once fuel buf w fits = rw (slice_all buf w (omega arith)) (
      and_then_cong (check (t.fifo_write buf 3) w) _ _ (λ _ s.
        and_then_cong (check (t.reg_write Reg.command Bit.cmd_transceive) s)
          (λ _.
            refill t (λ s c. fill_fifo t fuel buf (length buf) s c) (length buf) (0 + length buf))
          (λ _. pure tt)
          (λ _ s. refill_end (λ s c. fill_fifo t fuel buf (length buf) s c) (length buf) s)))

  in_one :
      (fuel : ℕ) (buf : List ℕ) (w : W)
      → length buf ≤ fifo_size
      → fill_fifo t
          (suc fuel)
          buf
          (length buf)
          0
          (pos (if ltb fifo_size (length buf) then fifo_size else length buf))
          w
        ≡ send_at_once buf w
  in_one fuel buf w fits =
      let e : (if ltb fifo_size (length buf) then fifo_size else length buf) ≡ length buf =
        ground arith in
      rw (e) (fill_fifo_at_once fuel buf w fits)

  -- Data of at most 64 bytes, the room of the FIFO, is written there once and whole, and then the
  -- transmission is started: what the loop does is the straight line of the two writes, with their
  -- errors.
  pub start_transceive_at_once :
      (fuel : ℕ) (buf : List ℕ) (timer : ℕ) (w : W)
      → length buf ≤ fifo_size
      → start_transceive t (suc fuel) buf (length buf) timer w
        ≡ straight_line (suc fuel) buf timer w
  unfolding start_transceive straight_line send_at_once
  start_transceive_at_once fuel buf timer w fits = ap settle (
      and_then_cong (t.reg_write Reg.command Bit.cmd_idle w) _ _ (λ _ s.
        and_then_cong (t.reg_write Reg.interrupt_rq 0x7f s) _ _ (λ _ s.
          and_then_cong (t.reg_read Reg.primary_status s) _ _ (λ _ s.
            and_then_cong (t.reg_read Reg.error_flag s) _ _ (λ _ s.
              and_then_cong (check (timer_set t timer) s) _ _ (λ _ s.
                ap (λ m. and_then m (λ _. wait_idle_timer t (suc fuel)))
                  (in_one fuel buf s fits)))))))

  go_on :
      (next : ℕ → ℤ → M W (Unit {0})) (sent fill : ℕ) (w : W)
      → fill < fifo_size
      → (elim (fill == fifo_size) as (λ _. M W (Unit {0})) [
        | true ↦ pure tt
        | false ↦ next sent (refill_len fill)
      ])
          w
        ≡ next sent (pos (fifo_size - fill)) w
  go_on next sent fill w free =
      let b : (fill == fifo_size) ≡ false = ground arith in
      let c : refill_len fill ≡ pos (fifo_size - fill) = ground arith in rw (b, c) refl

  refill_more :
      (next : ℕ → ℤ → M W (Unit {0})) (len sent fill : ℕ) (w w' : W)
      → sent < len
      → fill < fifo_size
      → load t Reg.fifo_length w ≡ ok fill w'
      → refill t next len sent w ≡ next sent (pos (fifo_size - fill)) w'
  unfolding refill
  refill_more next len sent fill w w' more free loaded =
      let a : ltb sent len ≡ true = ground arith in
      rw (refill, a, loaded) (go_on next sent fill w' free)

  over_read :
      (fuel : ℕ) (buf : List ℕ) (sent n : ℕ) (w : W)
      → n < 256
      → length buf < sent + n
      → fill_fifo t (suc fuel) buf (length buf) sent (pos n) w ≡ fault
  unfolding fill_fifo
  over_read fuel buf sent n w byte short =
      let a : n % 256 ≡ n = omega arith in
      let b : ltb (length buf) (sent + n) ≡ true = ground arith in rw (a, b) refl

  first_slice :
      (buf : List ℕ) (w : W)
      → fifo_size < length buf
      → slice buf 0 (64 % 256) w ≡ ok (take fifo_size buf) w
  first_slice buf w long = let e : ltb (length buf) 64 ≡ false = ground arith in rw (e) refl

  first_round :
      (fuel : ℕ) (buf : List ℕ) (w : W)
      → fifo_size < length buf
      → fill_fifo t (suc fuel) buf (length buf) 0 (pos fifo_size) w
        ≡ and_then
            (send_at_once (take fifo_size buf) w)
            (λ _. refill t (λ s c. fill_fifo t fuel buf (length buf) s c) (length buf) fifo_size)
  unfolding fill_fifo send_at_once
  first_round fuel buf w long =
      let next : ℕ → ℤ → M W (Unit {0}) = λ s c. fill_fifo t fuel buf (length buf) s c in
      let sent : M W (Unit {0}) = check (t.reg_write Reg.command Bit.cmd_transceive) in
      rw (first_slice buf w long) (
        and_then_cong (check (t.fifo_write (take fifo_size buf) 3) w)
          (λ _ s. and_then (sent s) (λ _. refill t next (length buf) fifo_size))
          (λ _ s.
            and_then (and_then (sent s) (λ _. pure tt)) (λ _. refill t next (length buf) fifo_size))
          (λ _ s. sym (and_then_assoc (sent s) (λ _. pure tt) _))
        ∙ sym (and_then_assoc (check (t.fifo_write (take fifo_size buf) 3) w) _ _))

  -- Let data be longer than the FIFO, let the first 64 bytes go out, and let the chip then report
  -- more room than there are bytes left. Then the code reads beyond the data.
  pub fill_fifo_over_read :
      (fuel : ℕ) (buf : List ℕ) (fill : ℕ) (w w' w'' : W)
      → fifo_size < length buf
      → fill < fifo_size
      → length buf < fifo_size + (fifo_size - fill)
      → send_at_once (take fifo_size buf) w ≡ ok tt w'
      → load t Reg.fifo_length w' ≡ ok fill w''
      → fill_fifo t (suc (suc fuel)) buf (length buf) 0 (pos fifo_size) w ≡ fault
  fill_fifo_over_read fuel buf fill w w' w'' long free rest first loaded =
      let next : ℕ → ℤ → M W (Unit {0}) = λ s c. fill_fifo t (suc fuel) buf (length buf) s c in
      first_round (suc fuel) buf w long
      ∙ ap (λ m. and_then m (λ _. refill t next (length buf) fifo_size)) first
      ∙ refill_more next (length buf) fifo_size fill w' w'' long free loaded
      ∙ over_read fuel buf fifo_size (fifo_size - fill) w'' (omega arith) rest
