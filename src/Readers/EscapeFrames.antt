-- ===== src/Readers/EscapeFrames.antt =====
-- src/rfid_reader_cm5121.c in front of a reader that serves registers in escape frames.
use librfid.Prelude.{ℕ, pos, ◌<◌, ◌≡◌, refl, some, List, [], ◌∷◌, ◌==◌, if◌then◌else◌}
use librfid.Control.{ok}
use librfid.Rc632.RegisterMap.{RegisterMap, stays_byte}
use librfid.Readers.Cm5121.{Escape, header, send, reg_read, reg_write, cm5121_ccid}

module _ {W : Type 0} (escape : List ℕ → W → Escape × W) (regs : W → ℕ → ℕ) where
  -- What the reader documents of the frames for one register: a write succeeds and stores the value,
  -- and the answer to a read has the register behind one byte.
  abbrev pub IsAnswered : Type 0
  IsAnswered =
      ((reg val : ℕ) (w : W)
        → reg < 64
        → val < 256
        → (w' : W) × (bytes : List ℕ) × (escape (header 1 0 0 reg (val ∷ [])) w
            ≡ (record { ret = pos 0; bytes = bytes }, w'))
          × ((r : ℕ) → regs w' r ≡ (if r == reg then val else regs w r)))
      × ((reg : ℕ) (w : W)
          → reg < 64
          → (w' : W) × (a : ℕ) × (escape (header 0 1 0 reg []) w
              ≡ (record { ret = pos 0; bytes = a ∷ regs w reg ∷ [] }, w'))
            × ((r : ℕ) → regs w' r ≡ regs w r))

  -- The registers hold bytes.
  abbrev pub IsReady : W → Type 0
  IsReady w = (r : ℕ) → regs w r < 256

  module _ (answered : IsAnswered) where
    pub reg_write_lem :
        (reg val : ℕ) (w : W)
        → reg < 64
        → val < 256
        → (w' : W) × (reg_write escape reg val w ≡ ok (pos 0) w')
          × ((r : ℕ) → regs w' r ≡ (if r == reg then val else regs w r))
    unfolding reg_write send
    reg_write_lem reg val w low byte =
        let (w', bytes, e, applied) = answered.0 reg val w low byte in (w', rw (e) refl, applied)

    pub reg_read_lem :
        (reg : ℕ) (w : W)
        → reg < 64
        → (w' : W) × (reg_read escape reg w
            ≡ ok (record { ret = pos 0; val = some (regs w reg) }) w')
          × ((r : ℕ) → regs w' r ≡ regs w r)
    unfolding reg_read send
    reg_read_lem reg w low = let (w', a, e, same) = answered.1 reg w low in (w', rw (e) refl, same)

    -- The reader makes its chip's registers a map.
    unfoldable pub cm5121_map : RegisterMap W (cm5121_ccid escape)
    unfolding cm5121_ccid
    cm5121_map = record {
      view = regs;
      IsReady = IsReady;
      byte = λ w reg ready. ready reg;
      read_lem = λ reg w low ready.
          let (w', e, same) = reg_read_lem reg w low in
          (0, w', e, (λ r. rw (same r) (ready r)), same);
      write_lem = λ reg val w low byte ready.
          let (w', e, applied) = reg_write_lem reg val w low byte in
          (
            0,
            w',
            e,
            (λ r. rw (applied r) (stays_byte reg val (regs w r) r byte (ready r))),
            applied,
          );
    }
