-- ===== src/Readers/Opening/UsbReaders.antt =====
-- The opening and closing of the readers on USB, src/rfid_reader_cm5121.c and src/rfid_reader_openpcd.c.
use librfid.Prelude.{ℕ, ℤ, is_neg, ◌≡◌, refl, Option, some, none, List, Bool, true, false}
use librfid.Control.{pure, ◌>>=◌}
use librfid.Control.Post.{Post, Post-bind, Post-branch, put_back-Post}
use librfid.Readers.OpenPcd.{BulkRead, Usb, openpcd_rat}
use librfid.Readers.Cm5121.{Escape, cm5121_ccid, enable_rc632}
use librfid.Readers.Opening.{
  Held, Memory, Device, UsbBus, close_ah, turn_on, with_blocks, free_blocks, find_opcd_device,
  open_found, openpcd_open, openpcd_close, cm5121_open, cm5121_close, after_enable, after_source,
  after_claim, after_configuration, after_open, on_world, asks,
}
use librfid.Readers.Opening.Blocks.{
  Blocks, Nothing, AllOrNone, Begun, turn_on-Post, with_blocks-Post, checked-Post, close_ah-Post,
  weaken,
}

module _ {W : Type 0} (source_init : W → ℤ × W) (escape : List ℕ → W → Escape × W) where
  after_enable-Post :
      (device : Bool) (mem : Memory) (ret : ℤ) (v : Held W)
      → Begun device v
      → Post (AllOrNone device) (after_enable source_init escape mem ret v)
  unfolding after_enable
  after_enable-Post device mem ret v begun =
      checked-Post device ret (turn_on (cm5121_ccid escape) mem) v begun
        (turn_on-Post device (cm5121_ccid escape) mem v begun)

  after_source-Post :
      (device : Bool) (mem : Memory) (ret : ℤ) (v : Held W)
      → Begun device v
      → Post (AllOrNone device) (after_source source_init escape mem ret v)
  unfolding after_source
  after_source-Post device mem ret v begun =
      checked-Post device ret
        (on_world (enable_rc632 escape) >>= after_enable source_init escape mem) v begun
        (Post-bind (λ _ x. Begun device x) (AllOrNone device) (on_world (enable_rc632 escape) v)
          (after_enable source_init escape mem)
          (put_back-Post (λ _ x. Begun device x) (λ s' w. record s' { world = w })
            (enable_rc632 escape v.world) v (λ a w. begun))
          (λ ret' x begun'. after_enable-Post device mem ret' x begun'))

  pub cm5121_open-Post :
      (mem : Memory) (s : Held W)
      → Blocks false s
      → Post (AllOrNone s.device) (cm5121_open source_init escape mem s)
  unfolding cm5121_open
  cm5121_open-Post mem s none_yet =
      with_blocks-Post s.device mem (asks source_init >>= after_source source_init escape mem) s
        none_yet refl
        (λ u begun.
          after_source-Post s.device mem (source_init u.world).0
            (record u { world = (source_init u.world).1 }) begun)

  pub cm5121_close-Post : (s : Held W) → Post Nothing (cm5121_close source_init escape s)
  unfolding cm5121_close free_blocks
  cm5121_close-Post s =
      Post-bind (λ _ u. u.ah ≡ false) Nothing (close_ah (cm5121_ccid escape) s) _
        (close_ah-Post (cm5121_ccid escape) s) (λ _ u closed. unfold Post in (refl, refl, closed))

abbrev pub Made : {W : Type 0} → Bool → Held W → Type 0
Made made s = Blocks made s

module _ {W : Type 0} (usb : UsbBus (Usb W)) (bulk_write : List ℕ → W → ℤ × W)
    (bulk_read : W → BulkRead × W) where
  after_claim-Post :
      (mem : Memory) (ret : ℤ) (s : Held (Usb W))
      → Blocks false s
      → Post Made (after_claim usb bulk_write bulk_read mem ret s)
  unfolding after_claim
  after_claim-Post mem ret s none_yet =
      let t = openpcd_rat bulk_write bulk_read in
      Post-branch Made (is_neg ret) _ (with_blocks mem (turn_on t mem)) s
        (λ _. unfold Post in none_yet)
        (λ _.
          weaken (AllOrNone s.device) Made (with_blocks mem (turn_on t mem) s) (λ _ _ all. all.0)
            (with_blocks-Post s.device mem (turn_on t mem) s none_yet refl
              (turn_on-Post s.device t mem)))

  after_configuration-Post :
      (mem : Memory) (ret : ℤ) (s : Held (Usb W))
      → Blocks false s
      → Post Made (after_configuration usb bulk_write bulk_read mem ret s)
  unfolding after_configuration
  after_configuration-Post mem ret s none_yet =
      Post-branch Made (is_neg ret) _
        (asks (usb.claim_interface) >>= after_claim usb bulk_write bulk_read mem) s
        (λ _. unfold Post in none_yet)
        (λ _.
          after_claim-Post mem (usb.claim_interface s.world).0
            (record s { world = (usb.claim_interface s.world).1 }) none_yet)

  open_found-Post :
      (mem : Memory) (found : Option Device) (s : Held (Usb W))
      → Blocks false s
      → Post Made (open_found usb bulk_write bulk_read mem found s)
  unfolding open_found after_open
  open_found-Post mem none s none_yet = unfold Post in none_yet
  open_found-Post mem (some d) s none_yet =
      settled (usb.open_device d s.world).0 (record s { world = (usb.open_device d s.world).1 })
        none_yet
    where
      settled :
          (there : Bool) (u : Held (Usb W))
          → Blocks false u
          → Post Made (after_open usb bulk_write bulk_read mem there u)
      settled false u none_yet = unfold Post in none_yet
      settled true u none_yet =
          after_configuration-Post mem (usb.set_configuration u.world).0
            (record u { world = (usb.set_configuration u.world).1; device = true }) none_yet

  pub openpcd_open-Post :
      (mem : Memory) (s : Held (Usb W))
      → Blocks false s
      → Post Made (openpcd_open usb bulk_write bulk_read mem s)
  unfolding openpcd_open
  openpcd_open-Post mem s none_yet =
      let w = (usb.find_busses s.world).1 in
      let w' = (usb.find_devices w).1 in
      Post-branch Made (is_neg (usb.find_busses s.world).0) (pure false) _ (record s { world = w })
        (λ _. unfold Post in none_yet)
        (λ _.
          Post-branch Made (is_neg (usb.find_devices w).0) (pure false) _ (record s { world = w' })
            (λ _. unfold Post in none_yet)
            (λ _.
              open_found-Post mem (find_opcd_device (usb.busses w')) (record s { world = w' })
                none_yet))

  pub openpcd_close-Post :
      (s : Held (Usb W)) → Post Nothing (openpcd_close usb bulk_write bulk_read s)
  unfolding openpcd_close free_blocks
  openpcd_close-Post s =
      Post-bind (λ _ u. u.ah ≡ false) Nothing (close_ah (openpcd_rat bulk_write bulk_read) s) _
        (close_ah-Post (openpcd_rat bulk_write bulk_read) s)
        (λ _ u closed. unfold Post in (refl, refl, closed))
