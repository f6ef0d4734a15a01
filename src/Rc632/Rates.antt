-- ===== src/Rc632/Rates.antt =====
-- The rates that a reader sets, src/rfid_reader_rc632_common.c, and the tables that
-- `rc632_iso14443a_set_speed`, src/rfid_asic_rc632.c, reads for them.
use librfid.Prelude.{
  ℕ, zero, suc, pos, neg_einval, ◌<◌, ◌≡◌, ◌≢◌, refl, Bool, true, false, ◌==◌, bit_and,
  if◌then◌else◌, arith,
}
use librfid.Control.{fault, ◌>>◌, pure, leave_if, undefined}
use librfid.Control.Outcome.{Ensures, Any, bind_lem, pure_lem, if_lem, call_lem, no_fault}
use librfid.Rc632.Reg
use librfid.Rc632.Bit
use librfid.Rc632.Transport.{Transport, check, load, when}
use librfid.Rc632.Registers.{set_bit_mask}
use librfid.Rc632.Speed
use librfid.Rc632.Layers
use librfid.Rc632.Working.{Works, seq_safe, check_safe, load_safe, leave_if_safe, when_safe}

module _ {W : Type 0} (t : Transport W) (F : Type 0) (works : Works F t) where
  set_bit_mask_safe : (reg mask val : ℕ) → Ensures F Any (set_bit_mask t reg mask val)
  unfolding set_bit_mask
  set_bit_mask_safe reg mask val = call_lem F _ (
      bind_lem F Any Any (load t reg) _ (load_safe t F works reg) (λ tmp _.
        seq_safe t F works (leave_if (bit_and tmp mask == val) (pos 0)) _
          (leave_if_safe t F works _ (pos 0)) (works.0 reg _)))

  masked : (reg mask val : ℕ) → Ensures F Any (check (set_bit_mask t reg mask val))
  masked reg mask val = check_safe t F works _ (set_bit_mask_safe reg mask val)

  written : (reg val : ℕ) → Ensures F Any (check (t.reg_write reg val))
  written reg val = check_safe t F works _ (works.0 reg val)

  -- The writes for a row of each table.
  rx_safe :
      (c : Speed.RxConfig)
      → Ensures F Any (do
        check (set_bit_mask t Reg.rx_control1 Bit.rxctrl1_subcp_mask c.subc_pulses)
        check (set_bit_mask t Reg.decoder_control Bit.decctrl_bpsk c.rx_coding)
        check (t.reg_write Reg.rx_threshold c.rx_threshold)
        when
            (c.rx_coding == Bit.decctrl_bpsk)
            (check (t.reg_write Reg.bpsk_dem_control c.bpsk_dem_ctrl))
        pure (pos 0))
  rx_safe c = seq_safe t F works _ _ (masked Reg.rx_control1 _ _) (
      seq_safe t F works _ _ (masked Reg.decoder_control _ _) (
        seq_safe t F works _ _ (written Reg.rx_threshold _) (
          seq_safe t F works _ _
            (when_safe t F works (c.rx_coding == Bit.decctrl_bpsk) _
              (written Reg.bpsk_dem_control _))
            (pure_lem F Any (pos 0) tt))))

  tx_safe :
      (c : Speed.TxConfig)
      → Ensures F Any (do
        check (set_bit_mask t Reg.coder_control Bit.cdrctrl_rate_mask c.rate)
        check (t.reg_write Reg.mod_width c.mod_width)
        pure (pos 0))
  tx_safe c =
      seq_safe t F works _ _ (masked Reg.coder_control _ _)
        (seq_safe t F works _ _ (written Reg.mod_width _) (pure_lem F Any (pos 0) tt))

  rate_safe : (tx rate : ℕ) → rate < 4 → Ensures F Any (Speed.set_speed t tx rate)
  unfolding Speed.set_speed
  rate_safe tx zero low =
      if_lem F Any (tx == 0) _ _ (λ _. call_lem F _ (rx_safe Speed.manchester))
        (λ _. call_lem F _ (tx_safe _))
  rate_safe tx (suc zero) low =
      if_lem F Any (tx == 0) _ _ (λ _. call_lem F _ (rx_safe _)) (λ _. call_lem F _ (tx_safe _))
  rate_safe tx (suc (suc zero)) low =
      if_lem F Any (tx == 0) _ _ (λ _. call_lem F _ (rx_safe _)) (λ _. call_lem F _ (tx_safe _))
  rate_safe tx (suc (suc (suc zero))) low =
      if_lem F Any (tx == 0) _ _ (λ _. call_lem F _ (rx_safe _)) (λ _. call_lem F _ (tx_safe _))
  rate_safe tx (suc (suc (suc (suc rate)))) low = absurd (omega arith)

  set_speed-Ensures : (tx speed : ℕ) → Ensures F Any (Layers.set_speed t tx speed)
  unfolding Layers.set_speed
  set_speed-Ensures tx speed =
      if_lem F Any (speed == 1) _ _ (λ _. rate_safe tx 0 (omega arith))
        (λ _.
          if_lem F Any (speed == 2) _ _ (λ _. rate_safe tx 1 (omega arith))
            (λ _.
              if_lem F Any (speed == 4) _ _ (λ _. rate_safe tx 2 (omega arith))
                (λ _.
                  if_lem F Any (speed == 8) _ _ (λ _. rate_safe tx 3 (omega arith))
                    (λ _. pure_lem F Any neg_einval tt))))

either_way :
    {S A : Type 0} (b : Bool) (s : S)
    → (if b then undefined {S = S} {A = A} else undefined) s ≡ fault
either_way true s = refl
either_way false s = refl

set_speed_past_end :
    {W : Type 0} (t : Transport W) (tx : ℕ) (w : W) → Speed.set_speed t tx 4 w ≡ fault
unfolding Speed.set_speed
set_speed_past_end t tx w = either_way (tx == 0) w

-- Over a bus that works, no speed that is asked of a reader makes the driver read beyond its tables
-- or has another fault; but the driver itself, asked for the rate 4, reads beyond them.
pub set_speed_safe :
    {W : Type 0} (t : Transport W) (tx speed : ℕ) (w : W)
    → Works ⊥ t
    → (Layers.set_speed t tx speed w ≢ fault) × (Speed.set_speed t tx 4 w ≡ fault)
set_speed_safe t tx speed w works =
    (no_fault _ (set_speed-Ensures t ⊥ works tx speed w), set_speed_past_end t tx w)
