-- ===== src/Rc632/RegisterMap.antt =====
-- The registers of the chip as a map, and what the functions of src/rfid_asic_rc632.c that change
-- bits, power and scripts of registers do to it.
use librfid.Prelude.{
  ℕ, ℤ, pos, ◌-◌, ◌<◌, ◌≡◌, refl, sym, ap, ◌∙◌, some, Bool, true, false, ◌==◌, bit_and, bit_or,
  arith, if◌then◌else◌, Bool-cases, inl, inr, ==_iff,
}
use librfid.Control.{Run, ok, settle, leave_if, ◌>>◌}
use librfid.Rc632.Transport.{Transport}
use librfid.Rc632.Registers.{set_bits, clear_bits, bit_clear}
use librfid.Rc632.Masks.{bit_or_set, bit_and_clear, bit_or_byte, bit_or_small, bit_and_small}

-- A transport behind which the registers are a map: a read gives what was written last. `view` is
-- the map, and `IsReady` what the transport keeps up.
pub record RegisterMap (W : Type 0) (t : Transport W) : Type 1 where
  pub view : W → ℕ → ℕ
  pub IsReady : W → Type 0
  pub byte : (w : W) (reg : ℕ) → IsReady w → view w reg < 256
  pub read_lem :
      (reg : ℕ) (w : W)
      → reg < 64
      → IsReady w
      → (n : ℕ) × (w' : W) × (t.reg_read reg w
          ≡ ok (record { ret = pos n; val = some (view w reg) }) w')
        × (IsReady w')
        × ((r : ℕ) → view w' r ≡ view w r)
  pub write_lem :
      (reg val : ℕ) (w : W)
      → reg < 64
      → val < 256
      → IsReady w
      → (n : ℕ) × (w' : W) × (t.reg_write reg val w ≡ ok (pos n) w')
        × (IsReady w')
        × ((r : ℕ) → view w' r ≡ (if r == reg then val else view w r))

-- A map of bytes is one after a byte was written.
pub stays_byte : (reg val x r : ℕ) → val < 256 → x < 256 → (if r == reg then val else x) < 256
stays_byte reg val x r byte byte' = ground arith

module _ {W : Type 0} (t : Transport W) (map : RegisterMap W t) where
  -- The run succeeds, and leaves the register `reg` with the value `val` and the others as they were.
  abbrev pub Leaves : Run W ℤ → W → ℕ → ℕ → Type 0
  Leaves m w reg val =
      (n : ℕ) × (w' : W) × (m ≡ ok (pos n) w')
      × (map.IsReady w')
      × ((r : ℕ) → map.view w' r ≡ (if r == reg then val else map.view w r))

  unchanged :
      (w w' : W) (reg val : ℕ)
      → map.view w reg ≡ val
      → ((r : ℕ) → map.view w' r ≡ map.view w r)
      → (r : ℕ) → map.view w' r ≡ (if r == reg then val else map.view w r)
  unchanged w w' reg val e same r = elim (Bool-cases (r == reg)) [
    | inl at ↦ let q : r ≡ reg = (==_iff r reg).0 at in rw (at) (same r ∙ ap (map.view w) q ∙ e)
    | inr other ↦ rw (other) (same r)
  ]

  skip_or_write :
      (b : Bool) (reg val : ℕ) (w w' : W)
      → reg < 64
      → val < 256
      → map.IsReady w'
      → ((r : ℕ) → map.view w' r ≡ map.view w r)
      → (b ≡ true → map.view w reg ≡ val)
      → Leaves (settle ((leave_if b (pos 0) >> t.reg_write reg val) w')) w reg val
  skip_or_write true reg val w w' low byte ready same done =
      (0, w', refl, ready, unchanged w w' reg val (done refl) same)
  skip_or_write false reg val w w' low byte ready same done =
      let (n, w'', e, ready', written) = map.write_lem reg val w' low byte ready in
      (n, w'', ap settle e, ready', λ r. written r ∙ ap (λ v. if r == reg then val else v) (same r))

  -- Behind a transport that makes the registers a map, setting bits of a register, which the code
  -- skips where they are set already, succeeds, makes the register the bitwise or of its value and the
  -- bits, and changes no other register.
  pub set_bits_lem :
      (reg val : ℕ) (w : W)
      → reg < 64
      → val < 256
      → map.IsReady w
      → Leaves (set_bits t reg val w) w reg (bit_or (map.view w reg) val)
  unfolding set_bits
  set_bits_lem reg val w low byte ready =
      let (n, w', e, ready', same) = map.read_lem reg w low ready in
      let v = map.view w reg in
      let whole : bit_and (bit_or v val) 0xff ≡ bit_or v val =
        bit_or_byte v val (map.byte w reg ready) byte in
      rw (e, whole)
        (skip_or_write (bit_and v val == val) reg (bit_or v val) w w' low
          (bit_or_small v val (map.byte w reg ready) byte) ready' same
          (λ done. sym (bit_or_set v val (map.byte w reg ready) byte ((==_iff _ _).0 done))))

  -- Behind a transport that makes the registers a map, clearing bits of a register, which the code
  -- skips where they are clear already, succeeds, leaves the other bits of the register as they were,
  -- and changes no other register.
  pub clear_bits_lem :
      (reg val : ℕ) (w : W)
      → reg < 64
      → val < 256
      → map.IsReady w
      → Leaves (clear_bits t reg val w) w reg (bit_clear (map.view w reg) val)
  unfolding clear_bits
  clear_bits_lem reg val w low byte ready =
      let (n, w', e, ready', same) = map.read_lem reg w low ready in
      let v = map.view w reg in
      let small = map.byte w reg ready in
      rw (e) (
        skip_or_write (bit_and v val == 0) reg (bit_clear v val) w w' low
          (bit_and_small v (0xff - val) small (omega arith)) ready' same
          (λ done. sym (bit_and_clear v val small byte ((==_iff _ _).0 done))))
