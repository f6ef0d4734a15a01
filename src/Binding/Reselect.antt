-- ===== src/Binding/Reselect.antt =====
-- A card that is selected while another is, python/openpcd.c.
use librfid.Prelude.{
  ℤ, pos, negsuc, ◌≡◌, ◌≢◌, refl, Option, none, some, Bool, true, false, not, if◌then◌else◌,
}
use librfid.Control.{M, Run, ok, returned, fault, out_of_fuel, ◌>>=◌}
use librfid.Reader.{Reader}
use librfid.Layer2.Handle.{Layer2Handle}
use librfid.Layer2.Dispatch as Layer2
use librfid.Layer2.Dispatch.{Bounds}
use librfid.Tcl.Handle.{ProtocolHandle, on_l2}
use librfid.Protocol
use librfid.Protocol.{Stack}
use librfid.Binding.{
  PcdState, Layer2Pointer, null, alone, shared, is_some, set_ph, set_alone, with_world_of, ph_of,
  l2h_of, on_ph, on_l2h, drop_ph, make_ph, give_up, not_opened, after_open, after_init,
  after_layer2, pcd_error, select_card, release_l2h, deselect_card, unshare,
}
use librfid.Control.Post.{Post, Post-bind, put_back-Post, ended}
use librfid.Binding.Shape.{card, shape_of, shape}

abbrev HasPh : {W A : Type 0} → A → PcdState W → Type 0
HasPh a s = is_some s.ph ≡ true

-- The protocol's handle is there and that of the second layer is not.
abbrev pub IsDangling : {W : Type 0} → PcdState W → Type 0
IsDangling s = (s.l2h ≡ null) × (is_some s.ph ≡ true)

abbrev Dangles : {W A : Type 0} → A → PcdState W → Type 0
Dangles a s = IsDangling s

-- Where a run ends with the result -6, the state dangles.
abbrev DanglesAt6 : {W : Type 0} → ℤ → PcdState W → Type 0
DanglesAt6 ret s = ret ≡ pcd_error 6 → IsDangling s

abbrev Always : {S A : Type 0} → A → S → Type 0
Always a s = Unit

abbrev Never : {S A : Type 0} → A → S → Type 0
Never a s = ⊥

Post-Always : {S A : Type 0} (m : Run S A) → Post Always m
unfolding Post
Post-Always (ok a s) = tt
Post-Always (returned r s) = tt
Post-Always fault = tt
Post-Always out_of_fuel = tt

module _ {W A : Type 0} where
  ph_of-HasPh :
      (m : M (ProtocolHandle W) A) (p : Option (ProtocolHandle W)) (s : PcdState W)
      → Post HasPh (ph_of m p s)
  unfolding Post
  ph_of-HasPh m none s = tt
  ph_of-HasPh m (some p) s =
      unfold Post in (put_back-Post HasPh set_ph (m (with_world_of s.world p)) s (λ a t. refl))

  l2h_of-HasPh :
      (m : M (Layer2Handle W) A) (l : Layer2Pointer W) (s : PcdState W)
      → is_some s.ph ≡ true
      → Post HasPh (l2h_of m l s)
  unfolding Post
  l2h_of-HasPh m null s has = tt
  l2h_of-HasPh m (alone h) s has =
      put_back-Post HasPh set_alone (m (record h { world = s.world })) s (λ a t. has)
  l2h_of-HasPh m shared s has = ph_of-HasPh (on_l2 m) s.ph s

  ph_of-IsDangling :
      (m : M (ProtocolHandle W) A) (p : Option (ProtocolHandle W)) (s : PcdState W)
      → s.l2h ≡ null
      → Post Dangles (ph_of m p s)
  unfolding Post
  ph_of-IsDangling m none s e = tt
  ph_of-IsDangling m (some p) s e =
      put_back-Post Dangles set_ph (m (with_world_of s.world p)) s (λ a t. (e, refl))

module _ {W : Type 0} where
  card-HasPh :
      (l : Layer2Pointer W) (p : Option (ProtocolHandle W)) → shape_of l p ≡ card → is_some p ≡ true
  card-HasPh l (some p) c = refl
  card-HasPh null none c = cc
  card-HasPh (alone h) none c = cc
  card-HasPh shared none c = cc

  still_null : (l : Layer2Pointer W) (p : Option (ProtocolHandle W)) → l ≡ null → unshare l p ≡ null
  still_null null p e = refl
  still_null (alone h) p e = cc
  still_null shared none e = cc
  still_null shared (some p) e = cc

module _ {W : Type 0} (rdr : Reader W) where
  give_up-IsDangling :
      (s : PcdState W) → is_some s.ph ≡ true → Post DanglesAt6 (give_up rdr (pcd_error 6) s)
  unfolding give_up on_l2h
  give_up-IsDangling s has =
      Post-bind HasPh DanglesAt6 (on_l2h (Layer2.fini rdr) s) _
        (l2h_of-HasPh (Layer2.fini rdr) s.l2h s has)
        (λ _ t still. unfold Post in (λ _. (refl, still)))

  give_up-other : (n : ℤ) (s : PcdState W) → n ≢ pcd_error 6 → Post DanglesAt6 (give_up rdr n s)
  unfolding give_up
  give_up-other n s other =
      Post-bind Always DanglesAt6 (on_l2h (Layer2.fini rdr) s) _ (Post-Always _)
        (λ _ t _. unfold Post in (λ e. absurd (other e)))

  close-other :
      (n : ℤ) (s : PcdState W)
      → n ≢ pcd_error 6
      → Post DanglesAt6 ((on_l2h (Layer2.close rdr) >>= λ _. give_up rdr n) s)
  close-other n s other =
      Post-bind Always DanglesAt6 (on_l2h (Layer2.close rdr) s) _ (Post-Always _)
        (λ _ t _. give_up-other n t other)

  after_open-other : (rc : ℤ) (s : PcdState W) → Post DanglesAt6 (after_open rdr rc s)
  unfolding not_opened
  after_open-other (pos n) s = unfold Post in (λ e. cc)
  after_open-other (negsuc n) s =
      Post-bind Always DanglesAt6 (on_ph (Protocol.fini rdr) s) _ (Post-Always _) (λ _ t _.
        Post-bind Always DanglesAt6 (drop_ph t) _ (Post-Always _)
          (λ _ u _. close-other (pcd_error 8) u (λ e. cc)))

  after_init-other : (made : Bool) (s : PcdState W) → Post DanglesAt6 (after_init rdr made s)
  unfolding after_init
  after_init-other false s = close-other (pcd_error 7) s (λ e. cc)
  after_init-other true s =
      Post-bind Always DanglesAt6 (on_ph (Protocol.open_protocol rdr) s) _ (Post-Always _)
        (λ rc t _. after_open-other rc t)

  after_layer2-IsDangling :
      (allocated : Bool) (block : ProtocolHandle W) (rc : ℤ) (s : PcdState W)
      → is_some s.ph ≡ true
      → Post DanglesAt6 (after_layer2 rdr allocated block rc s)
  unfolding after_layer2
  after_layer2-IsDangling allocated block (negsuc n) s has = give_up-IsDangling s has
  after_layer2-IsDangling allocated block (pos n) s has =
      Post-bind Always DanglesAt6 (make_ph (Protocol.init rdr 3 allocated) block s) _
        (Post-Always _) (λ made t _. after_init-other made t)

  opened-IsDangling :
      (n : Bounds) (allocated made : Bool) (block : ProtocolHandle W) (s : PcdState W)
      → is_some s.ph ≡ true
      → Post DanglesAt6 (
          (if not made
              then (λ s. fault)
              else (do rc ← on_l2h (Layer2.open_l2 rdr n); after_layer2 rdr allocated block rc))
            s)
  unfolding on_l2h
  opened-IsDangling n allocated false block s has = unfold Post in tt
  opened-IsDangling n allocated true block s has =
      Post-bind HasPh DanglesAt6 (on_l2h (Layer2.open_l2 rdr n) s) _
        (l2h_of-HasPh (Layer2.open_l2 rdr n) s.l2h s has)
        (λ rc t still. after_layer2-IsDangling allocated block rc t still)

  select_card-IsDangling :
      (n : Bounds) (allocated allocated' : Bool) (block : ProtocolHandle W) (s : PcdState W)
      → is_some s.ph ≡ true
      → Post DanglesAt6 (select_card rdr n allocated allocated' block true s)
  unfolding select_card on_l2h
  select_card-IsDangling n allocated allocated' block s has =
      let t = record s { l2h = alone block.l2h } in
      Post-bind HasPh DanglesAt6 (on_l2h (Layer2.init rdr 1 allocated) t) _
        (l2h_of-HasPh (Layer2.init rdr 1 allocated) t.l2h t has)
        (λ made u still. opened-IsDangling n allocated' made block u still)

  on_null :
      {A : Type 0} (m : M (Layer2Handle W) A) (s : PcdState W)
      → s.l2h ≡ null
      → Post Never (on_l2h m s)
  unfolding on_l2h Post
  on_null m s e = rw e tt

  release-IsDangling : (s : PcdState W) → s.l2h ≡ null → Post Never (release_l2h rdr s)
  unfolding release_l2h
  release-IsDangling s e =
      Post-bind Never Never (on_l2h (Layer2.close rdr) s) _ (on_null (Layer2.close rdr) s e)
        (λ _ t never. absurd never)

  deselect-IsDangling :
      (stack : Stack) (s : PcdState W) → IsDangling s → Post Never (deselect_card rdr stack true s)
  unfolding deselect_card on_ph
  deselect-IsDangling stack s (e, has) = rw has (
      Post-bind Dangles Never (ph_of (Protocol.close rdr stack) s.ph s) _
        (ph_of-IsDangling (Protocol.close rdr stack) s.ph s e)
        (λ _ t d.
          Post-bind Dangles Never (ph_of (Protocol.fini rdr) t.ph t) _
            (ph_of-IsDangling (Protocol.fini rdr) t.ph t d.0)
            (λ _ u d'.
              release-IsDangling (record u { l2h = unshare u.l2h u.ph; ph = none })
                (still_null u.l2h u.ph d'.0))))

  -- Where a card is selected already and the selection of another ends with the result -6, the state
  -- that is left has the handle of the protocol and none of the second layer, and to deselect the card
  -- from there never comes to a result.
  pub select_card_again :
      (n : Bounds) (allocated allocated' : Bool) (block : ProtocolHandle W) (stack : Stack)
      (s t u : PcdState W) (ret : ℤ)
      → shape s ≡ card
      → select_card rdr n allocated allocated' block true s ≡ ok (pcd_error 6) t
      → IsDangling t × (deselect_card rdr stack true t ≢ ok ret u)
  select_card_again n allocated allocated' block stack s t u ret c e =
      let has = card-HasPh s.l2h s.ph c in
      let left : IsDangling t =
        ended DanglesAt6 _ (pcd_error 6) t e
          (select_card-IsDangling n allocated allocated' block s has) refl in
      (left, λ done. ended Never _ ret u done (deselect-IsDangling stack t left))
