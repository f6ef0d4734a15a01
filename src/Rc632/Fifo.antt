-- ===== src/Rc632/Fifo.antt =====
-- Sending and receiving through the FIFO of the chip, src/rfid_asic_rc632.c.
use librfid.Prelude.{
  ℕ, zero, suc, ℤ, pos, negsuc, minus_one, neg_eio, is_neg, ◌+◌, ◌-◌, ◌%◌, Option, none, some, List,
  [], true, false, ◌==◌, ltb, if◌then◌else◌,
}
use librfid.Control.{M, out_of_fuel, ◌>>=◌, ◌>>◌, pure, call}
use librfid.Reader.{Reply}
use librfid.Rc632.Reg
use librfid.Rc632.Bit
use librfid.Rc632.Transport.{Transport, value, check, load, when, slice}
use librfid.Rc632.Registers.{set_bits}
use librfid.Rc632.Timer.{timer_set, wait_idle_timer, wait_idle}

-- The bytes that the FIFO holds
abbrev pub fifo_size : ℕ
fifo_size = 64

-- `64 - fifo_fill`, and `cur_buf += cur_len` for the index of `cur_buf`, which must not be negative.
abbrev pub refill_len : ℕ → ℤ
refill_len fill =
    if ltb fifo_size fill then negsuc (fill - fifo_size - 1) else pos (fifo_size - fill)

abbrev pub advance : ℕ → ℤ → Option ℕ
advance sent (pos n) = some (sent + n)
advance sent (negsuc n) = if ltb n sent then some (sent - n - 1) else none

-- The length as the FIFO takes it, a byte
abbrev pub len_byte : ℤ → ℕ
len_byte (pos n) = n % 256
len_byte (negsuc n) = 255 - n % 256

abbrev pub no_reply : ℤ → ℕ → Reply
no_reply ret room = record { ret = ret; bytes = []; rx_len = room }

module _ {W : Type 0} (t : Transport W) where
  -- `rc632_transmit`. The loop is written out: `buf - cur_buf` after the first 64 bytes is -64, so
  -- the second round writes (unsigned char) -64 bytes, steps back to `buf` and is the last.
  unfoldable pub transmit : ℕ → List ℕ → ℕ → ℕ → M W ℤ
  unfolding wait_idle
  transmit fuel buf len timeout = call (do
    first ← slice buf 0 (if ltb fifo_size len then fifo_size else len)
    check (t.fifo_write first 3)
    check (t.reg_write Reg.command Bit.cmd_transmit)
    when (ltb fifo_size len) (do second ← slice buf fifo_size 192; check (t.fifo_write second 3))
    wait_idle t fuel timeout)

  -- The end of the loop's body, with `sent` bytes sent: `next` is the next round.
  unfoldable pub refill : (ℕ → ℤ → M W (Unit {0})) → ℕ → ℕ → M W (Unit {0})
  refill next len sent = elim (ltb sent len) [
    | false ↦ pure tt
    | true ↦ (do
      fill ← load t Reg.fifo_length
      elim (fill == fifo_size) [ true ↦ pure tt | false ↦ next sent (refill_len fill) ])
  ]

  -- The loop of `rc632_transceive` that fills the FIFO: `cur` bytes from the index `sent` on.
  unfoldable pub fill_fifo : ℕ → List ℕ → ℕ → ℕ → ℤ → M W (Unit {0})
  unfolding refill
  fill_fifo zero buf len sent cur w = out_of_fuel
  fill_fifo (suc fuel) buf len sent cur w =
      (do
        chunk ← slice buf sent (len_byte cur)
        check (t.fifo_write chunk 3)
        when (sent == 0) (check (t.reg_write Reg.command Bit.cmd_transceive))
        sent' ← value (advance sent cur)
        refill (λ s c. fill_fifo fuel buf len s c) len sent')
        w

  -- `rc632_transceive` and `rc632_receive` from `rc632_wait_idle_timer` on: nothing received is the
  -- error `empty`.
  unfoldable pub fetch : ℤ → ℕ → M W Reply
  fetch empty room = do
    r ← t.reg_read Reg.fifo_length
    if is_neg r.ret then pure (no_reply r.ret room) else (do
      avail ← value r.val
      let rx_len = if ltb avail room then avail else room
      if avail == 0
          then (do
            t.reg_read Reg.primary_status
            t.reg_read Reg.error_flag
            t.reg_read Reg.channel_redundancy
            pure (no_reply empty rx_len))
          else (do
            f ← t.fifo_read rx_len
            pure (record { ret = f.ret; bytes = f.bytes; rx_len = rx_len })))

  -- `rc632_transceive` up to the wait for the answer.
  unfoldable pub start_transceive : ℕ → List ℕ → ℕ → ℕ → M W ℤ
  unfolding timer_set fill_fifo wait_idle_timer
  start_transceive fuel buf len timer = call (do
    t.reg_write Reg.command Bit.cmd_idle
    t.reg_write Reg.interrupt_rq 0x7f
    t.reg_read Reg.primary_status
    t.reg_read Reg.error_flag
    check (timer_set t timer)
    fill_fifo fuel buf len 0 (pos (if ltb fifo_size len then fifo_size else len))
    wait_idle_timer t fuel)

  -- `rc632_transceive`: what is sent is the first `len` bytes of `buf`. The flag `toggle`, which
  -- every caller clears, has no effect.
  unfoldable pub transceive : ℕ → List ℕ → ℕ → ℕ → ℕ → M W Reply
  unfolding start_transceive fetch
  transceive fuel buf len room timer = do
    ret ← start_transceive fuel buf len timer
    if is_neg ret then pure (no_reply ret room) else fetch neg_eio room

  -- `rc632_receive`
  unfoldable pub receive : ℕ → ℕ → ℕ → M W Reply
  unfolding timer_set set_bits wait_idle_timer fetch
  receive fuel room timer = do
    ret ← call (do
      t.reg_write Reg.command 0x00
      t.reg_write Reg.interrupt_rq 0x7f
      check (timer_set t timer)
      check (t.reg_write Reg.command Bit.cmd_receive)
      check (set_bits t Reg.control Bit.control_timer_start)
      wait_idle_timer t fuel)
    if is_neg ret then pure (no_reply ret room) else fetch minus_one room
