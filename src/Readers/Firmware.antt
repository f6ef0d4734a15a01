-- ===== src/Readers/Firmware.antt =====
-- src/rfid_reader_openpcd.c in front of a reader that serves registers.
use librfid.Prelude.{
  ℕ, ℤ, pos, ◌<◌, ◌≤◌, ◌≡◌, refl, sym, some, List, [], ◌∷◌, ◌==◌, length, overlay, length-overlay,
  get_elem?, arith, if◌then◌else◌,
}
use librfid.Control.{ok}
use librfid.Rc632.RegisterMap.{RegisterMap, stays_byte}
use librfid.Readers.OpenPcd.{
  BulkRead, Usb, reg_read, reg_write, xcv, send_command, recv_reply, openpcd_rat, cmd_read_reg,
  cmd_write_reg, flag_respond,
}

-- An answer of four bytes, the header, of which the last is the value
abbrev header_of : ℕ → ℕ → ℕ → ℕ → BulkRead
header_of a b c val = record { ret = pos 4; bytes = a ∷ b ∷ c ∷ val ∷ [] }

module _ {W : Type 0} (bulk_write : List ℕ → W → ℤ × W) (bulk_read : W → BulkRead × W)
    (regs : W → ℕ → ℕ) where
  -- What the reader documents of the commands for registers: each is taken whole and answered by a
  -- header, and the answer to a read has the register in it.
  abbrev pub IsServed : Type 0
  IsServed =
      ((reg val : ℕ) (w : W)
        → reg < 64
        → val < 256
        → (w1 : W) × (w2 : W) × (a : ℕ) × (b : ℕ) × (c : ℕ) × (d : ℕ) × (bulk_write
              (cmd_write_reg ∷ flag_respond ∷ reg ∷ val ∷ []) w
            ≡ (pos 4, w1))
          × (bulk_read w1 ≡ (header_of a b c d, w2))
          × ((r : ℕ) → regs w2 r ≡ (if r == reg then val else regs w r)))
      × ((reg : ℕ) (w : W)
          → reg < 64
          → (w1 : W) × (w2 : W) × (a : ℕ) × (b : ℕ) × (c : ℕ) × (bulk_write
                (cmd_read_reg ∷ flag_respond ∷ reg ∷ 0 ∷ []) w
              ≡ (pos 4, w1))
            × (bulk_read w1 ≡ (header_of a b c (regs w reg), w2))
            × ((r : ℕ) → regs w2 r ≡ regs w r))

  -- The registers hold bytes, and the buffer has room for a header.
  abbrev pub IsReady : Usb W → Type 0
  IsReady s = ((r : ℕ) → regs s.world r < 256) × (4 ≤ length s.rcv_buf)

  value_behind :
      (a b c val : ℕ) (buf : List ℕ)
      → 4 ≤ length buf
      → get_elem? (overlay (a ∷ b ∷ c ∷ val ∷ []) buf) 3 ≡ some val
  value_behind a b c val [] room = absurd (omega arith)
  value_behind a b c val (_ ∷ []) room = absurd (omega arith)
  value_behind a b c val (_ ∷ _ ∷ []) room = absurd (omega arith)
  value_behind a b c val (_ ∷ _ ∷ _ ∷ []) room = absurd (omega arith)
  value_behind a b c val (_ ∷ _ ∷ _ ∷ _ ∷ buf) room = refl

  module _ (served : IsServed) where
    pub reg_write_lem :
        (reg val : ℕ) (s : Usb W)
        → reg < 64
        → val < 256
        → (s' : Usb W) × (reg_write bulk_write bulk_read reg val s ≡ ok (pos 4) s')
          × ((r : ℕ) → regs s'.world r ≡ (if r == reg then val else regs s.world r))
          × (length s'.rcv_buf ≡ length s.rcv_buf)
    unfolding reg_write xcv send_command recv_reply
    reg_write_lem reg val s low byte =
        let (w1, w2, a, b, c, d, sent, answered, applied) = served.0 reg val s.world low byte in
        (
          record { world = w2; rcv_buf = overlay (a ∷ b ∷ c ∷ d ∷ []) s.rcv_buf },
          rw (sent, answered) refl,
          applied,
          length-overlay (a ∷ b ∷ c ∷ d ∷ []) s.rcv_buf,
        )

    pub reg_read_lem :
        (reg : ℕ) (s : Usb W)
        → reg < 64
        → 4 ≤ length s.rcv_buf
        → (s' : Usb W) × (reg_read bulk_write bulk_read reg s
            ≡ ok (record { ret = pos 4; val = some (regs s.world reg) }) s')
          × ((r : ℕ) → regs s'.world r ≡ regs s.world r)
          × (length s'.rcv_buf ≡ length s.rcv_buf)
    unfolding reg_read xcv send_command recv_reply
    reg_read_lem reg s low room =
        let (w1, w2, a, b, c, sent, answered, same) = served.1 reg s.world low in
        (
          record { world = w2; rcv_buf = overlay (a ∷ b ∷ c ∷ regs s.world reg ∷ []) s.rcv_buf },
          rw (sent, answered, value_behind a b c (regs s.world reg) s.rcv_buf room) refl,
          same,
          length-overlay (a ∷ b ∷ c ∷ regs s.world reg ∷ []) s.rcv_buf,
        )

    -- The reader makes its chip's registers a map.
    unfoldable pub openpcd_map : RegisterMap (Usb W) (openpcd_rat bulk_write bulk_read)
    unfolding openpcd_rat
    openpcd_map = record {
      view = λ s. regs s.world;
      IsReady = IsReady;
      byte = λ s reg ready. ready.0 reg;
      read_lem = λ reg s low ready.
          let (s', e, same, size) = reg_read_lem reg s low ready.1 in
          (4, s', e, ((λ r. rw (same r) (ready.0 r)), omega (arith, size, ready.1)), same);
      write_lem = λ reg val s low byte ready.
          let (s', e, applied, size) = reg_write_lem reg val s low byte in
          (
            4,
            s',
            e,
            (
              (λ r. rw (applied r) (stays_byte reg val (regs s.world r) r byte (ready.0 r))),
              omega (arith, size, ready.1),
            ),
            applied,
          );
    }

    -- A byte that is written to a register over USB is read back from it, and from every other
    -- register the byte that it had.
    pub read_back_over_usb :
        (reg val r : ℕ) (s : Usb W)
        → reg < 64
        → val < 256
        → r < 64
        → 4 ≤ length s.rcv_buf
        → (s1 : Usb W) × (s2 : Usb W) × (reg_write bulk_write bulk_read reg val s ≡ ok (pos 4) s1)
          × (reg_read bulk_write bulk_read r s1
              ≡ ok
                  (record { ret = pos 4; val = some (if r == reg then val else regs s.world r) })
                  s2)
    read_back_over_usb reg val r s low byte low' room =
        let (s1, e, applied, size) = reg_write_lem reg val s low byte in
        let (s2, e', _, _) = reg_read_lem r s1 low' (omega (arith, size, room)) in
        (s1, s2, e, rw (sym (applied r)) e')
