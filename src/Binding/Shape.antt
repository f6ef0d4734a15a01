-- ===== src/Binding/Shape.antt =====
-- Where the two pointers of python/openpcd.c lead, through the steps of a call.
use librfid.Prelude.{◌≡◌, ◌≢◌, refl, Option, none, some, Bool, true, false, if◌then◌else◌}
use librfid.Control.{M, Run, ok, returned, fault, out_of_fuel}
use librfid.Layer2.Handle.{Layer2Handle}
use librfid.Tcl.Handle.{ProtocolHandle, on_l2}
use librfid.Binding.{
  PcdState, Layer2Pointer, null, alone, shared, on_ph, on_l2h, drop_l2h, drop_ph, make_ph, ph_of,
  l2h_of, set_ph, set_alone, with_world_of, unshare, init_on, make_ph_of,
}
use librfid.Control.Post.{Post, put_back-Post}

-- Where the two pointers lead
pub data Shape : Type 0 where
  no_card : Shape
  layer2_only : Shape
  card : Shape
  broken : Shape

abbrev pub shape_of : {W : Type 0} → Layer2Pointer W → Option (ProtocolHandle W) → Shape
shape_of null none = no_card
shape_of (alone h) none = layer2_only
shape_of shared (some p) = card
shape_of _ _ = broken

abbrev pub shape : {W : Type 0} → PcdState W → Shape
shape s = shape_of s.l2h s.ph

abbrev pub In : {W A : Type 0} → Shape → A → PcdState W → Type 0
In σ a s = shape s ≡ σ

alone_no_card :
    {W : Type 0} (h : Layer2Handle W) (p : Option (ProtocolHandle W)) → shape_of (alone h) p ≢ card
alone_no_card h none c = cc
alone_no_card h (some p) c = cc

module _ {W A : Type 0} where
  ph_kept :
      (m : M (ProtocolHandle W) A) (l : Layer2Pointer W) (p : Option (ProtocolHandle W))
      (s : PcdState W)
      → s.l2h ≡ l
      → shape_of l p ≡ card
      → Post (In card) (ph_of m p s)
  ph_kept m null none s e c = cc
  ph_kept m null (some p) s e c = cc
  ph_kept m (alone h) none s e c = cc
  ph_kept m (alone h) (some p) s e c = cc
  ph_kept m shared none s e c = cc
  ph_kept m shared (some p) s e c =
      put_back-Post (In card) set_ph (m (with_world_of s.world p)) s (λ a t. rw e refl)

  pub on_ph_kept :
      (m : M (ProtocolHandle W) A) (s : PcdState W) → shape s ≡ card → Post (In card) (on_ph m s)
  unfolding on_ph
  on_ph_kept m s c = ph_kept m s.l2h s.ph s refl c

  l2h_alone :
      (m : M (Layer2Handle W) A) (l : Layer2Pointer W) (p : Option (ProtocolHandle W))
      (s : PcdState W)
      → s.ph ≡ p
      → shape_of l p ≡ layer2_only
      → Post (In layer2_only) (l2h_of m l s)
  l2h_alone m null none s e c = cc
  l2h_alone m null (some p) s e c = cc
  l2h_alone m (alone h) (some p) s e c = cc
  l2h_alone m shared none s e c = cc
  l2h_alone m shared (some p) s e c = cc
  l2h_alone m (alone h) none s e c =
      put_back-Post (In layer2_only) set_alone (m (record h { world = s.world })) s
        (λ a t. rw e refl)

  pub on_l2h_alone :
      (m : M (Layer2Handle W) A) (s : PcdState W)
      → shape s ≡ layer2_only
      → Post (In layer2_only) (on_l2h m s)
  unfolding on_l2h
  on_l2h_alone m s c = l2h_alone m s.l2h s.ph s refl c

  l2h_shared :
      (m : M (Layer2Handle W) A) (l : Layer2Pointer W) (s : PcdState W)
      → s.l2h ≡ l
      → shape_of l s.ph ≡ card
      → Post (In card) (l2h_of m l s)
  unfolding Post
  l2h_shared m null s e c = tt
  l2h_shared m (alone h) s e c = absurd (alone_no_card h s.ph c)
  l2h_shared m shared s e c = ph_kept (on_l2 m) shared s.ph s e c

  pub on_l2h_shared :
      (m : M (Layer2Handle W) A) (s : PcdState W) → shape s ≡ card → Post (In card) (on_l2h m s)
  unfolding on_l2h
  on_l2h_shared m s c = l2h_shared m s.l2h s refl c

module _ {W : Type 0} where
  unshared :
      (l : Layer2Pointer W) (p : Option (ProtocolHandle W))
      → shape_of l p ≡ card
      → shape_of (unshare l p) none ≡ layer2_only
  unshared null none c = cc
  unshared null (some p) c = cc
  unshared (alone h) none c = cc
  unshared (alone h) (some p) c = cc
  unshared shared none c = cc
  unshared shared (some p) c = refl

  pub drop_ph-Post : (s : PcdState W) → shape s ≡ card → Post (In layer2_only) (drop_ph s)
  unfolding Post drop_ph
  drop_ph-Post s c = unshared s.l2h s.ph c

  no_ph :
      (l : Layer2Pointer W) (p : Option (ProtocolHandle W)) → shape_of l p ≡ layer2_only → p ≡ none
  no_ph null none c = refl
  no_ph null (some p) c = cc
  no_ph (alone h) none c = refl
  no_ph (alone h) (some p) c = cc
  no_ph shared none c = refl
  no_ph shared (some p) c = cc

  pub drop_l2h-Post : (s : PcdState W) → shape s ≡ layer2_only → Post (In no_card) (drop_l2h s)
  unfolding Post
  drop_l2h-Post s c = rw (no_ph s.l2h s.ph c) refl

  abbrev pub MadeOrNot : Bool → PcdState W → Type 0
  MadeOrNot made s = shape s ≡ (if made then card else layer2_only)

  init_on-Post :
      (r : Run (ProtocolHandle W) Bool) (s : PcdState W) (h : Layer2Handle W)
      → Post MadeOrNot (init_on r s h)
  unfolding Post
  init_on-Post (ok true p) s h = refl
  init_on-Post (ok false p) s h = refl
  init_on-Post (returned r p) s h = tt
  init_on-Post fault s h = tt
  init_on-Post out_of_fuel s h = tt

  pub started :
      (h : Layer2Handle W) (l : Layer2Pointer W) (p : Option (ProtocolHandle W))
      → shape_of l p ≡ no_card
      → shape_of (alone h) p ≡ layer2_only
  started h l none c = refl
  started h null (some p) c = cc
  started h (alone h') (some p) c = cc
  started h shared (some p) c = cc

  make_ph_of-Post :
      (m : M (ProtocolHandle W) Bool) (block : ProtocolHandle W) (l : Layer2Pointer W)
      (s : PcdState W)
      → Post MadeOrNot (make_ph_of m block l s)
  unfolding Post
  make_ph_of-Post m block null s = tt
  make_ph_of-Post m block shared s = tt
  make_ph_of-Post m block (alone h) s = unfold Post in (init_on-Post _ s h)

  pub make_ph-Post :
      (m : M (ProtocolHandle W) Bool) (block : ProtocolHandle W) (s : PcdState W)
      → Post MadeOrNot (make_ph m block s)
  unfolding make_ph
  make_ph-Post m block s = make_ph_of-Post m block s.l2h s
