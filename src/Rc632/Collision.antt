-- ===== src/Rc632/Collision.antt =====
-- What `rc632_iso14443a_transceive_acf`, src/rfid_asic_rc632.c, makes of an anticollision command.
use librfid.Prelude.{
  ℕ, ◌≤◌, ◌≡◌, ◌⊎◌, inl, inr, refl, sym, ap, ◌∙◌, Option, none, some, List, Bool, true, false, not,
  test, length, set, arith, length-set, length-overlay_at, is_neg, if◌then◌else◌,
}
use librfid.Control.{ok}
use librfid.Control.Outcome.{Outcome, Ensures, bind_lem, then_lem, pure_lem, if_lem, value_of}
use librfid.Reader.{AnticolCmd, AcfReply}
use librfid.Layer2.Iso14443a.Anticol.{bit_of_col_none, acf_bytes}
use librfid.Rc632.Reg
use librfid.Rc632.Bit
use librfid.Rc632.Transport.{Transport, value}
use librfid.Rc632.Fifo.{transceive}
use librfid.Rc632.Iso14443a.{transceive_acf, prepare_acf, finish_acf, merge_uid, tx_bytes_total}

-- The parts of a command that an exchange leaves alone: the level's code, the coded number of bits,
-- and how many bytes the identifier has.
abbrev pub IsKept : AnticolCmd → AcfReply → Type 0
IsKept acf r =
    (r.acf.sel_code ≡ acf.sel_code)
    × (r.acf.nvb ≡ acf.nvb)
    × (length r.acf.uid_bits ≡ length acf.uid_bits)

-- Where a collision may be reported: nowhere, or behind the two bytes of the command's header.
abbrev pub IsBehindHeader : AcfReply → Type 0
IsBehindHeader r = (r.bit_of_col ≡ bit_of_col_none) ⊎ (16 ≤ r.bit_of_col)

abbrev Good : AnticolCmd → AcfReply → Type 0
Good acf r = (IsKept acf r) × (IsBehindHeader r)

guarded : (b : Bool) (x y : List ℕ) → (if b then none else some x) ≡ some y → x ≡ y
guarded true x y e = ground arith
guarded false x y e = cc

module _ (nvb : ℕ) (rx : List ℕ) (rx_len : ℕ) (uid : List ℕ) where
  length-merge_uid :
      (uid' : List ℕ) → merge_uid nvb rx rx_len uid ≡ some uid' → length uid' ≡ length uid
  unfolding merge_uid
  length-merge_uid uid' e =
      sym (ap length (guarded _ _ uid' e))
      ∙ length-overlay_at _ _ (set uid _ _)
      ∙ length-set uid _ _

module _ {W : Type 0} (t : Transport W) (acf : AnticolCmd) where
  finish-Good :
      (acf' : AnticolCmd)
      → acf'.sel_code ≡ acf.sel_code
      → acf'.nvb ≡ acf.nvb
      → length acf'.uid_bits ≡ length acf.uid_bits
      → Ensures Unit (Good acf) (finish_acf t acf')
  unfolding finish_acf
  finish-Good acf' code nvb size = then_lem _ (t.reg_read Reg.error_flag) _ (λ r.
      if_lem Unit _ (is_neg r.ret) _ _ (λ _. pure_lem Unit _ _ ((code, nvb, size), inl refl))
        (λ _. then_lem _ (value r.val) _ (λ flags.
          if_lem Unit _ (not (test flags Bit.err_flag_col_err)) _ _
            (λ _. pure_lem Unit _ _ ((code, nvb, size), inl refl))
            (λ _. then_lem _ (t.reg_read Reg.coll_pos) _ (λ c.
              if_lem Unit _ (is_neg c.ret) _ _
                (λ _. pure_lem Unit _ _ ((code, nvb, size), inl refl))
                (λ _.
                  then_lem _ (value c.val) _
                    (λ boc. pure_lem Unit _ _ ((code, nvb, size), inr (omega arith)))))))))

  stored : (v : Option (List ℕ)) → Ensures Unit (λ uid. v ≡ some uid) (value {S = W} v)
  unfolding Outcome
  stored none s = tt
  stored (some uid) s = refl

  acf-Good : (fuel : ℕ) → Ensures Unit (Good acf) (transceive_acf t fuel acf)
  unfolding transceive_acf
  acf-Good fuel = then_lem _ (prepare_acf t acf.nvb) _ (λ ready.
      if_lem Unit _ (is_neg ready) _ _ (λ _. pure_lem Unit _ _ ((refl, refl, refl), inl refl))
        (λ _.
          then_lem _ (transceive t fuel (acf_bytes acf) (tx_bytes_total acf.nvb) 64 0x32) _ (λ r.
            if_lem Unit _ (is_neg r.ret) _ _ (λ _. pure_lem Unit _ _ ((refl, refl, refl), inl refl))
              (λ _.
                bind_lem Unit (λ uid. merge_uid acf.nvb r.bytes r.rx_len acf.uid_bits ≡ some uid) _
                  (value (merge_uid acf.nvb r.bytes r.rx_len acf.uid_bits)) _
                  (stored (merge_uid acf.nvb r.bytes r.rx_len acf.uid_bits))
                  (λ uid e.
                    finish-Good (record acf { uid_bits = uid }) refl refl
                      (length-merge_uid acf.nvb r.bytes r.rx_len acf.uid_bits uid e))))))

  -- Whatever the chip does, an anticollision exchange that ends leaves the code of the cascade level
  -- and the number of bits in the command as they were, and the identifier as long as it was; and a
  -- collision is reported nowhere or behind the two bytes of the command's header.
  pub transceive_acf_keeps :
      (fuel : ℕ) (w w' : W) (r : AcfReply)
      → transceive_acf t fuel acf w ≡ ok r w'
      → (IsKept acf r) × (IsBehindHeader r)
  transceive_acf_keeps fuel w w' r e = value_of Unit (Good acf) _ r w' e (acf-Good fuel w)
