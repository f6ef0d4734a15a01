-- ===== src/Rc632/Settings.antt =====
-- What the initialisations of src/rfid_asic_rc632.c leave in the registers of the chip.
use librfid.Prelude.{
  ℕ, zero, suc, ℤ, pos, ◌<◌, ◌≡◌, refl, ap, ◌∙◌, List, [], ◌∷◌, Bool, true, false, ◌==◌, ◌&&◌, ltb,
  arith, if◌then◌else◌,
}
use librfid.Control.{Run, ok, settle}
use librfid.Rc632.Transport.{Transport}
use librfid.Rc632.Reg
use librfid.Rc632.Registers.{RegisterFile, run_script, execute_script}
use librfid.Rc632.RegisterMap.{RegisterMap}
use librfid.Rc632.Scripts.{
  set_to, iso14443a_script, iso14443b_writes, iso15693_fast_script, icode1_std_script, layer2_init,
  iso14443a_init, iso14443b_init, iso15693_init, icode1_init,
}

-- The registers after the writes of a script, of which the last to a register counts.
abbrev pub after : List RegisterFile → (ℕ → ℕ) → ℕ → ℕ
after [] regs r = regs r
after (f ∷ script) regs r = after script (λ q. if q == f.reg then f.val else regs q) r

-- The settings of a layer, by its number: the FIFO is flushed first, but for ICODE 1.
abbrev pub settings_of : ℕ → List RegisterFile
settings_of id =
    if id == 1
    then set_to Reg.control 1 ∷ iso14443a_script
    else if id == 2
    then iso14443b_writes
    else if id == 3
    then set_to Reg.control 1 ∷ iso15693_fast_script
    else icode1_std_script

-- Whether a script writes bytes to registers
abbrev is_sound : List RegisterFile → Bool
is_sound [] = true
is_sound (f ∷ script) = ltb f.reg 64 && (ltb f.val 256 && is_sound script)

after_cong :
    (script : List RegisterFile) (regs regs' : ℕ → ℕ)
    → ((r : ℕ) → regs r ≡ regs' r)
    → (r : ℕ) → after script regs r ≡ after script regs' r
after_cong [] regs regs' same r = same r
after_cong (f ∷ script) regs regs' same r =
    after_cong script _ _ (λ q. ap (λ x. if q == f.reg then f.val else x) (same q)) r

parts : (p q : Bool) → (p && q) ≡ true → (p ≡ true) × (q ≡ true)
parts true q h = (refl, h)
parts false q h = ground arith

module _ {W : Type 0} (t : Transport W) (map : RegisterMap W t) where
  -- The code returns 0 and the registers are as after the script.
  abbrev pub Applies : Run W ℤ → W → List RegisterFile → Type 0
  Applies m w script =
      (w' : W) × (m ≡ ok (pos 0) w')
      × (map.IsReady w')
      × ((r : ℕ) → map.view w' r ≡ after script (map.view w) r)

  run_script_lem :
      (script : List RegisterFile) (w : W)
      → is_sound script ≡ true
      → map.IsReady w
      → Applies (run_script t script w) w script
  unfolding run_script
  run_script_lem [] w sound ready = (w, refl, ready, λ r. refl)
  run_script_lem (f ∷ script) w sound ready =
      let (low, more) = parts (ltb f.reg 64) (ltb f.val 256 && is_sound script) sound in
      let (byte, rest) = parts (ltb f.val 256) (is_sound script) more in
      let (n, w1, e, ready1, written) =
        map.write_lem f.reg f.val w (ground arith) (ground arith) ready in
      let (w', e', ready', applied) = run_script_lem script w1 rest ready1 in
      (w', rw (e) e', ready', λ r. applied r ∙ after_cong script _ _ written r)

  -- A script whose last result is checked again.
  settled :
      (script : List RegisterFile) (w : W)
      → is_sound script ≡ true
      → map.IsReady w
      → Applies (execute_script t script w) w script
  unfolding execute_script
  settled script w sound ready =
      let (w', e, ready', applied) = run_script_lem script w sound ready in
      (w', ap settle e, ready', applied)

  -- The script behind the flush of the FIFO, whose result is checked or is not
  flushed :
      (script : List RegisterFile) (w : W)
      → is_sound script ≡ true
      → map.IsReady w
      → (n : ℕ) × (w1 : W) × (t.reg_write Reg.control 1 w ≡ ok (pos n) w1)
        × (Applies (execute_script t script w1) w (set_to Reg.control 1 ∷ script))
  flushed script w sound ready =
      let (n, w1, e, ready1, written) =
        map.write_lem Reg.control 1 w (omega arith) (omega arith) ready in
      let (w', e', ready', applied) = settled script w1 sound ready1 in
      (n, w1, e, (w', e', ready', λ r. applied r ∙ after_cong script _ _ written r))

  iso14443a_init_lem : (w : W) → map.IsReady w → Applies (iso14443a_init t w) w (settings_of 1)
  unfolding iso14443a_init
  iso14443a_init_lem w ready =
      let (n, w1, e, (w', e', ready', applied)) = flushed iso14443a_script w refl ready in
      (w', rw (e, e') refl, ready', applied)

  iso14443b_init_lem : (w : W) → map.IsReady w → Applies (iso14443b_init t w) w (settings_of 2)
  unfolding iso14443b_init
  iso14443b_init_lem w ready =
      let (w', e, ready', applied) = run_script_lem iso14443b_writes w refl ready in
      (w', ap settle e, ready', applied)

  iso15693_init_lem : (w : W) → map.IsReady w → Applies (iso15693_init t w) w (settings_of 3)
  unfolding iso15693_init
  iso15693_init_lem w ready =
      let (n, w1, e, (w', e', ready', applied)) = flushed iso15693_fast_script w refl ready in
      (w', rw (e, e') refl, ready', applied)

  icode1_init_lem : (w : W) → map.IsReady w → Applies (icode1_init t w) w (settings_of 4)
  unfolding icode1_init
  icode1_init_lem w ready =
      let (w', e, ready', applied) = settled icode1_std_script w refl ready in
      (w', rw (e) refl, ready', applied)

  -- Behind a transport that makes the registers a map, initialising the chip for one of the four
  -- layers, from whatever registers, returns 0 and leaves each register with the value that the
  -- layer's settings write to it last, and all others as they were.
  pub layer2_init_lem :
      (id : ℕ) (w : W)
      → 0 < id
      → id < 5
      → map.IsReady w
      → Applies (layer2_init t id w) w (settings_of id)
  unfolding layer2_init
  layer2_init_lem (suc zero) w some_id known ready = iso14443a_init_lem w ready
  layer2_init_lem (suc (suc zero)) w some_id known ready = iso14443b_init_lem w ready
  layer2_init_lem (suc (suc (suc zero))) w some_id known ready = iso15693_init_lem w ready
  layer2_init_lem (suc (suc (suc (suc zero)))) w some_id known ready = icode1_init_lem w ready
  layer2_init_lem zero w some_id known ready = absurd (omega arith)
  layer2_init_lem (suc (suc (suc (suc (suc id))))) w some_id known ready = absurd (omega arith)
