-- ===== src/Binding/Pointers.antt =====
-- The pointers to the handles in python/openpcd.c, over any sequence of calls.
use librfid.Prelude.{ℕ, ℤ, ◌≡◌, inl, inr, refl, List, Bool}
use librfid.Control.{ok}
use librfid.Reader.{Reader}
use librfid.Layer2.Dispatch.{Bounds}
use librfid.Tcl.Handle.{ProtocolHandle}
use librfid.Protocol.{Stack}
use librfid.Binding.{
  PcdState, PcdRead, select_card, deselect_card, read, write, get_card_id, choose_key, opened,
}
use librfid.Control.Post.{ended}
use librfid.Binding.Shape.{no_card, shape}
use librfid.Binding.Select.{SelectedOrNot, select_card-Post}
use librfid.Binding.Calls.{
  IsSound, Keeps, deselect_kept, card_id_kept, read_of_kept, write_of_kept, choose_key_kept,
}

-- A call of the library that ends. A card is only selected where none is.
pub data Step {W : Type 0} (rdr : Reader W) (s t : PcdState W) : Type 0 where
  select :
      (n : Bounds) (allocated allocated' given : Bool) (block : ProtocolHandle W) (ret : ℤ)
      → shape s ≡ no_card
      → select_card rdr n allocated allocated' block given s ≡ ok ret t
      → Step rdr s t
  deselect :
      (stack : Stack) (given : Bool) (ret : ℤ)
      → deselect_card rdr stack given s ≡ ok ret t
      → Step rdr s t
  read_page :
      (junk : List ℕ) (given : Bool) (page len : ℤ) (r : PcdRead)
      → read rdr junk given page len s ≡ ok r t
      → Step rdr s t
  write_page :
      (content : List ℕ) (given : Bool) (page len ret : ℤ)
      → write rdr content given page len s ≡ ok ret t
      → Step rdr s t
  card_id : (given : Bool) (r : PcdRead) → get_card_id rdr given s ≡ ok r t → Step rdr s t
  set_key_to :
      (given : Bool) (key_id : ℕ) (key : List ℕ) (ret : ℤ)
      → choose_key rdr given key_id key s ≡ ok ret t
      → Step rdr s t

pub data Reach {W : Type 0} (rdr : Reader W) (s : PcdState W) : PcdState W → Type 0 where
  here : Reach rdr s s
  next : {t u : PcdState W} → Reach rdr s t → Step rdr t u → Reach rdr s u

SelectedOrNot-IsSound : {W : Type 0} (ret : ℤ) (s : PcdState W) → SelectedOrNot ret s → IsSound s
SelectedOrNot-IsSound ret s (inl (_, c)) = inr c
SelectedOrNot-IsSound ret s (inr (_, c)) = inl c

module _ {W : Type 0} (rdr : Reader W) where
  Step-IsSound : (s t : PcdState W) → Step rdr s t → IsSound s → IsSound t
  unfolding read write
  Step-IsSound s t (select n allocated allocated' given block ret none_yet e) sound =
      SelectedOrNot-IsSound ret t (
        ended SelectedOrNot _ ret _ e
          (select_card-Post rdr n allocated allocated' given block s none_yet))
  Step-IsSound s t (deselect stack given ret e) sound =
      ended Keeps _ ret _ e (deselect_kept rdr stack given _ sound)
  Step-IsSound s t (read_page junk given page len r e) sound =
      ended Keeps _ r _ e (read_of_kept rdr junk given _ _ sound)
  Step-IsSound s t (write_page content given page len ret e) sound =
      ended Keeps _ ret _ e (write_of_kept rdr content given _ _ sound)
  Step-IsSound s t (card_id given r e) sound = ended Keeps _ r _ e (card_id_kept rdr given _ sound)
  Step-IsSound s t (set_key_to given key_id key ret e) sound =
      ended Keeps _ ret _ e (choose_key_kept rdr given key_id key _ sound)

  Reach-IsSound : {s t : PcdState W} → IsSound s → Reach rdr s t → IsSound t
  Reach-IsSound sound here = sound
  Reach-IsSound sound (next before step) = Step-IsSound _ _ step (Reach-IsSound sound before)

  -- After any sequence of calls that end, on a reader just opened, with a card selected only where
  -- none is, either both handles are there and the protocol's stands on that of the second layer, or
  -- neither is.
  pub opened-IsSound : (w : W) (s : PcdState W) → Reach rdr (opened rdr w) s → IsSound s
  unfolding opened
  opened-IsSound w s run = Reach-IsSound (inl refl) run
