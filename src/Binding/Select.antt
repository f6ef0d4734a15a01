-- ===== src/Binding/Select.antt =====
-- The pointers over `openpcd_select_card`, python/openpcd.c.
use librfid.Prelude.{
  ℤ, pos, negsuc, is_neg, ◌≡◌, ◌⊎◌, inl, inr, refl, Bool, true, false, not, if◌then◌else◌,
}
use librfid.Control.{fault, ◌>>=◌}
use librfid.Reader.{Reader}
use librfid.Layer2.Dispatch as Layer2
use librfid.Layer2.Dispatch.{Bounds, opt_uid}
use librfid.Tcl.Handle.{ProtocolHandle}
use librfid.Protocol
use librfid.Protocol.{Stack}
use librfid.Binding.{
  PcdState, alone, on_ph, on_l2h, drop_ph, make_ph, give_up, not_opened, after_open, after_init,
  after_layer2, pcd_error, select_card,
}
use librfid.Control.Post.{Post, Post-bind}
use librfid.Binding.Shape.{
  no_card, layer2_only, card, shape, In, on_ph_kept, on_l2h_alone, drop_ph-Post, drop_l2h-Post,
  MadeOrNot, started, make_ph-Post,
}

-- After a call that selects a card: it succeeded and both handles are there, or it failed and neither is.
abbrev pub SelectedOrNot : {W : Type 0} → ℤ → PcdState W → Type 0
SelectedOrNot ret s =
    ((is_neg ret ≡ false) × (shape s ≡ card)) ⊎ ((is_neg ret ≡ true) × (shape s ≡ no_card))

module _ {W : Type 0} (rdr : Reader W) where
  give_up-Post :
      (res : ℤ) (s : PcdState W)
      → is_neg res ≡ true
      → shape s ≡ layer2_only
      → Post SelectedOrNot (give_up rdr res s)
  unfolding give_up Post
  give_up-Post res s neg c =
      Post-bind (In layer2_only) SelectedOrNot (on_l2h (Layer2.fini rdr) s) _
        (on_l2h_alone (Layer2.fini rdr) s c) (λ _ t only. inr (neg, drop_l2h-Post t only))

  closing :
      (res : ℤ) (s : PcdState W)
      → is_neg res ≡ true
      → shape s ≡ layer2_only
      → Post SelectedOrNot ((on_l2h (Layer2.close rdr) >>= λ _. give_up rdr res) s)
  closing res s neg c =
      Post-bind (In layer2_only) SelectedOrNot (on_l2h (Layer2.close rdr) s) _
        (on_l2h_alone (Layer2.close rdr) s c) (λ _ t only. give_up-Post res t neg only)

  not_opened-Post : (s : PcdState W) → shape s ≡ card → Post SelectedOrNot (not_opened rdr s)
  unfolding not_opened
  not_opened-Post s c =
      Post-bind (In card) SelectedOrNot (on_ph (Protocol.fini rdr) s) _
        (on_ph_kept (Protocol.fini rdr) s c)
        (λ _ t both.
          Post-bind (In layer2_only) SelectedOrNot (drop_ph t) _ (drop_ph-Post t both)
            (λ _ u only. closing (pcd_error 8) u refl only))

  after_open-Post :
      (rc : ℤ) (s : PcdState W) → shape s ≡ card → Post SelectedOrNot (after_open rdr rc s)
  after_open-Post (pos n) s c = unfold Post in inl (refl, c)
  after_open-Post (negsuc n) s c = not_opened-Post s c

  after_init-Post :
      (made : Bool) (s : PcdState W) → MadeOrNot made s → Post SelectedOrNot (after_init rdr made s)
  unfolding after_init
  after_init-Post false s c = closing (pcd_error 7) s refl c
  after_init-Post true s c =
      Post-bind (In card) SelectedOrNot (on_ph (Protocol.open_protocol rdr) s) _
        (on_ph_kept (Protocol.open_protocol rdr) s c) (λ rc t both. after_open-Post rc t both)

  after_layer2-Post :
      (allocated : Bool) (block : ProtocolHandle W) (rc : ℤ) (s : PcdState W)
      → shape s ≡ layer2_only
      → Post SelectedOrNot (after_layer2 rdr allocated block rc s)
  unfolding after_layer2
  after_layer2-Post allocated block (negsuc n) s c = give_up-Post (pcd_error 6) s refl c
  after_layer2-Post allocated block (pos n) s c =
      Post-bind MadeOrNot SelectedOrNot (make_ph (Protocol.init rdr 3 allocated) block s) _
        (make_ph-Post (Protocol.init rdr 3 allocated) block s) after_init-Post

  opened_layer2 :
      (n : Bounds) (allocated made : Bool) (block : ProtocolHandle W) (s : PcdState W)
      → shape s ≡ layer2_only
      → Post SelectedOrNot (
          (if not made
              then (λ s. fault)
              else (do rc ← on_l2h (Layer2.open_l2 rdr n); after_layer2 rdr allocated block rc))
            s)
  opened_layer2 n allocated false block s c = unfold Post in tt
  opened_layer2 n allocated true block s c =
      Post-bind (In layer2_only) SelectedOrNot (on_l2h (Layer2.open_l2 rdr n) s) _
        (on_l2h_alone (Layer2.open_l2 rdr n) s c) (after_layer2-Post allocated block)

  pub select_card-Post :
      (n : Bounds) (allocated allocated' given : Bool) (block : ProtocolHandle W) (s : PcdState W)
      → shape s ≡ no_card
      → Post SelectedOrNot (select_card rdr n allocated allocated' block given s)
  unfolding select_card
  select_card-Post n allocated allocated' false block s c = unfold Post in inr (refl, c)
  select_card-Post n allocated allocated' true block s c =
      let t = record s { l2h = alone block.l2h } in
      Post-bind (In layer2_only) SelectedOrNot (on_l2h (Layer2.init rdr 1 allocated) t) _
        (on_l2h_alone (Layer2.init rdr 1 allocated) t (started block.l2h s.l2h s.ph c))
        (λ made u only. opened_layer2 n allocated' made block u only)
