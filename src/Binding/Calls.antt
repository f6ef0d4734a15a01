-- ===== src/Binding/Calls.antt =====
-- The pointers over the other calls of python/openpcd.c.
use librfid.Prelude.{
  ℕ, ℤ, pos, negsuc, is_neg, ◌≡◌, ◌⊎◌, inl, inr, refl, Option, none, some, List, Bool, true, false,
  not, if◌then◌else◌, arith, ◌==◌, ◌||◌, ltb, u8, take,
}
use librfid.Control.{Run, ok, pure, ◌>>◌}
use librfid.Reader.{Reader}
use librfid.Layer2.Dispatch as Layer2
use librfid.Layer2.Dispatch.{Bounds, opt_uid}
use librfid.Tcl.Handle.{ProtocolHandle}
use librfid.MifareClassic.Pages.{set_key, auth}
use librfid.Protocol
use librfid.Protocol.{Stack}
use librfid.Binding.{
  PcdState, Layer2Pointer, null, alone, shared, on_ph, on_l2h, drop_l2h, drop_ph, release_l2h,
  deselect_card, cl_auth, read_at, read_of, write_at, write_of, get_card_id, choose_key, is_some,
}
use librfid.Control.Post.{Post, Post-bind, Post-ok, Post-if, Post-branch}
use librfid.Binding.Shape.{
  no_card, layer2_only, card, shape_of, shape, In, on_ph_kept, on_l2h_alone, on_l2h_shared,
  drop_ph-Post, drop_l2h-Post,
}

-- Between calls a card is selected, or there is none.
abbrev pub IsSound : {W : Type 0} → PcdState W → Type 0
IsSound s = (shape s ≡ no_card) ⊎ (shape s ≡ card)

abbrev pub Keeps : {W A : Type 0} → A → PcdState W → Type 0
Keeps a s = IsSound s

module _ {W : Type 0} where
  without_ph :
      (l : Layer2Pointer W) (p : Option (ProtocolHandle W))
      → shape_of l p ≡ no_card
      → is_some p ≡ false
  without_ph l none c = refl
  without_ph null (some p) c = cc
  without_ph (alone h) (some p) c = cc
  without_ph shared (some p) c = cc

  has_card : (s : PcdState W) → IsSound s → not (is_some s.ph) ≡ false → shape s ≡ card
  has_card s (inr c) e = c
  has_card s (inl c) e = ground (arith, without_ph s.l2h s.ph c)

  -- A call that wants a card is only made where there is one.
  with_card :
      {A : Type 0} (s : PcdState W) (x y : Run (PcdState W) A)
      → IsSound s
      → Post Keeps x
      → (shape s ≡ card → Post Keeps y)
      → Post Keeps (if not (is_some s.ph) then x else y)
  with_card s x y sound first second =
      Post-if Keeps (not (is_some s.ph)) x y (λ _. first) (λ e. second (has_card s sound e))

module _ {W : Type 0} (rdr : Reader W) where
  release_kept : (s : PcdState W) → shape s ≡ layer2_only → Post Keeps (release_l2h rdr s)
  unfolding release_l2h
  release_kept s c =
      Post-bind (In layer2_only) Keeps (on_l2h (Layer2.close rdr) s) _
        (on_l2h_alone (Layer2.close rdr) s c)
        (λ _ t c1.
          Post-bind (In layer2_only) Keeps (on_l2h (Layer2.fini rdr) t)
            (λ _. drop_l2h >> pure (pos 0)) (on_l2h_alone (Layer2.fini rdr) t c1)
            (λ _ u c2.
              Post-bind (In no_card) Keeps (drop_l2h u) (λ _. pure (pos 0)) (drop_l2h-Post u c2)
                (λ _ v c3. Post-ok Keeps _ v (inl c3))))

  pub deselect_kept :
      (stack : Stack) (given : Bool) (s : PcdState W)
      → IsSound s
      → Post Keeps (deselect_card rdr stack given s)
  unfolding deselect_card
  deselect_kept stack false s sound = Post-ok Keeps _ s sound
  deselect_kept stack true s sound = with_card s _ _ sound (Post-ok Keeps _ s sound) (λ c.
      Post-bind (In card) Keeps (on_ph (Protocol.close rdr stack) s) _
        (on_ph_kept (Protocol.close rdr stack) s c)
        (λ _ s1 c1.
          Post-bind (In card) Keeps (on_ph (Protocol.fini rdr) s1) _
            (on_ph_kept (Protocol.fini rdr) s1 c1)
            (λ _ s2 c2.
              Post-bind (In layer2_only) Keeps (drop_ph s2) (λ _. release_l2h rdr)
                (drop_ph-Post s2 c2) (λ _ s3 c3. release_kept s3 c3))))

  abbrev Authenticated : ℤ → PcdState W → Type 0
  Authenticated rc s = IsSound s × (is_neg rc ≡ false → shape s ≡ card)

  fails : (n : ℕ) (s : PcdState W) → IsSound s → Post Authenticated (ok (negsuc n) s)
  fails n s sound = Post-ok Authenticated _ s (sound, λ e. cc)

  cl_auth_kept : (page : ℕ) (s : PcdState W) → IsSound s → Post Authenticated (cl_auth rdr page s)
  unfolding cl_auth
  cl_auth_kept page s sound =
      Post-if Authenticated (page == 0 || ltb 255 page) _ _ (λ _. fails 0 s sound)
        (λ _.
          Post-if Authenticated (not (is_some s.ph)) _ _ (λ _. fails 11 s sound)
            (λ e.
              let c = has_card s sound e in
              Post-bind (In card) Authenticated (on_ph (set_key rdr s.key) s) _
                (on_ph_kept (set_key rdr s.key) s c)
                (λ rc t c1.
                  Post-branch Authenticated (is_neg rc) _ _ t (λ _. fails 1 t (inr c1))
                    (λ _.
                      Post-bind (In card) Authenticated (on_ph (auth rdr (u8 s.cl_auth) page) t) _
                        (on_ph_kept (auth rdr (u8 s.cl_auth) page) t c1)
                        (λ rc' u c2. Post-ok Authenticated _ u (inr c2, λ _. c2))))))

  read_at_kept :
      (junk : List ℕ) (page len : ℕ) (s : PcdState W)
      → IsSound s
      → Post Keeps (read_at rdr junk page len s)
  unfolding read_at
  read_at_kept junk page len s sound =
      Post-bind Authenticated Keeps (cl_auth rdr page s) _ (cl_auth_kept page s sound)
        (λ res t (sound', passed).
          Post-branch Keeps (is_neg res) _ _ t (λ _. Post-ok Keeps _ t sound')
            (λ e.
              Post-bind (In card) Keeps (on_ph (Protocol.read_page rdr page 16) t) _
                (on_ph_kept (Protocol.read_page rdr page 16) t (passed e))
                (λ p u c. Post-ok Keeps _ u (inr c))))

  write_at_kept :
      (content : List ℕ) (page len : ℕ) (s : PcdState W)
      → IsSound s
      → Post Keeps (write_at rdr content page len s)
  unfolding write_at
  write_at_kept content page len s sound =
      Post-bind Authenticated Keeps (cl_auth rdr page s) _ (cl_auth_kept page s sound)
        (λ res t (sound', passed).
          Post-branch Keeps (is_neg res) _ _ t (λ _. Post-ok Keeps _ t sound')
            (λ e.
              Post-bind (In card) Keeps (on_ph (Protocol.write_page rdr page _ 16) t) _
                (on_ph_kept (Protocol.write_page rdr page _ 16) t (passed e))
                (λ p u c. Post-ok Keeps _ u (inr c))))

  pub card_id_kept :
      (given : Bool) (s : PcdState W) → IsSound s → Post Keeps (get_card_id rdr given s)
  unfolding get_card_id
  card_id_kept false s sound = Post-ok Keeps _ s sound
  card_id_kept true s sound = with_card s _ _ sound (Post-ok Keeps _ s sound) (λ c.
      Post-bind (In card) Keeps (on_l2h (Layer2.getopt rdr opt_uid 4) s) _
        (on_l2h_shared (Layer2.getopt rdr opt_uid 4) s c) (λ g t c1. Post-ok Keeps _ t (inr c1)))

  pub read_of_kept :
      (junk : List ℕ) (given : Bool) (at : Option (ℕ × ℕ)) (s : PcdState W)
      → IsSound s
      → Post Keeps (read_of rdr junk given at s)
  read_of_kept junk given none s sound = Post-ok Keeps _ s sound
  read_of_kept junk false (some (page, len)) s sound = Post-ok Keeps _ s sound
  read_of_kept junk true (some (page, len)) s sound = read_at_kept junk page len s sound

  pub write_of_kept :
      (content : List ℕ) (given : Bool) (at : Option (ℕ × ℕ)) (s : PcdState W)
      → IsSound s
      → Post Keeps (write_of rdr content given at s)
  write_of_kept content given none s sound = Post-ok Keeps _ s sound
  write_of_kept content false (some (page, len)) s sound = Post-ok Keeps _ s sound
  write_of_kept content true (some (page, len)) s sound = write_at_kept content page len s sound

  pub choose_key_kept :
      (given : Bool) (key_id : ℕ) (key : List ℕ) (s : PcdState W)
      → IsSound s
      → Post Keeps (choose_key rdr given key_id key s)
  unfolding choose_key
  choose_key_kept given key_id key s sound =
      Post-if Keeps (not given) _ _ (λ _. Post-ok Keeps _ s sound)
        (λ _.
          Post-if Keeps (key_id == 0) _ _
            (λ _. Post-ok Keeps (pos 0) (record s { cl_auth = 0x60; key = take 6 key }) sound)
            (λ _.
              Post-if Keeps (key_id == 1) _ _
                (λ _. Post-ok Keeps (pos 0) (record s { cl_auth = 0x61; key = take 6 key }) sound)
                (λ _. Post-ok Keeps _ s sound)))
