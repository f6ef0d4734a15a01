-- ===== src/Readers/Opening/Blocks.antt =====
-- The blocks that a reader is made of, and how its opening gives them back.
use librfid.Prelude.{ℤ, is_neg, ◌≡◌, refl, Bool, true, false, not, if◌then◌else◌}
use librfid.Control.{M, Run, ok, returned, fault, out_of_fuel, modify, pure, ◌>>=◌, ◌>>◌}
use librfid.Control.Post.{Post, Post-bind, Post-branch, put_back-Post}
use librfid.Rc632.Transport.{Transport}
use librfid.Rc632.Memory.{open_asic, close_asic}
use librfid.Readers.Opening.{
  Held, Memory, open_ah, close_ah, turn_on, with_blocks, on_world, out_rath,
}

-- Of the three blocks all are there, or none is.
abbrev pub Blocks : {W : Type 0} → Bool → Held W → Type 0
Blocks b s = (s.rh ≡ b) × (s.rath ≡ b) × (s.ah ≡ b)

-- All or none as the result says, and the device as it was
abbrev pub AllOrNone : {W : Type 0} → Bool → Bool → Held W → Type 0
AllOrNone device made s = Blocks made s × (s.device ≡ device)

-- The two blocks of a reader without a chip
abbrev pub Begun : {W : Type 0} → Bool → Held W → Type 0
Begun device s = (s.rh ≡ true) × (s.rath ≡ true) × (s.ah ≡ false) × (s.device ≡ device)

abbrev Chip : {W : Type 0} → Bool → Bool → Held W → Type 0
Chip device made s = (s.rh ≡ true) × (s.rath ≡ true) × (s.ah ≡ made) × (s.device ≡ device)

module _ {W : Type 0} (device : Bool) where
  pub unwound : (s : Held W) → Begun device s → Post (AllOrNone device) (out_rath s)
  unfolding Post
  unwound s (rh, rath, ah, d) = ((refl, refl, ah), d)

  open_ah-Post :
      (t : Transport W) (allocated : Bool) (s : Held W)
      → Begun device s
      → Post (Chip device) (open_ah t allocated s)
  unfolding open_ah
  open_ah-Post t false s begun = unfold Post in begun
  open_ah-Post t true s (rh, rath, ah, d) =
      Post-bind (λ _ u. Chip device true u) (Chip device)
        (on_world (open_asic t) (record s { ah = true }))
        (λ made. if made then pure true else (do modify (λ s. record s { ah = false }); pure false))
        (put_back-Post (λ _ u. Chip device true u) (λ s' w. record s' { world = w })
          (open_asic t s.world) (record s { ah = true }) (λ made w. (rh, rath, refl, d)))
        (λ made u (rh', rath', ah', d'). ah_settled made u (rh', rath', d') ah')
    where
      ah_settled :
          (made : Bool) (u : Held W)
          → (u.rh ≡ true) × (u.rath ≡ true) × (u.device ≡ device)
          → u.ah ≡ true
          → Post (Chip device) (
              (if made then pure true else (do modify (λ s. record s { ah = false }); pure false))
                u)
      ah_settled true u (rh, rath, d) ah = unfold Post in (rh, rath, ah, d)
      ah_settled false u (rh, rath, d) ah = unfold Post in (rh, rath, refl, d)

  pub turn_on-Post :
      (t : Transport W) (mem : Memory) (s : Held W)
      → Begun device s
      → Post (AllOrNone device) (turn_on t mem s)
  unfolding turn_on
  turn_on-Post t mem s begun =
      Post-bind (Chip device) (AllOrNone device) (open_ah t mem.ah s) _
        (open_ah-Post t mem.ah s begun) (λ made u chip. settled made u chip)
    where
      settled :
          (made : Bool) (u : Held W)
          → Chip device made u
          → Post (AllOrNone device) ((if made then pure true else out_rath) u)
      settled true u (rh, rath, ah, d) = unfold Post in ((rh, rath, ah), d)
      settled false u chip = unwound u chip

  pub with_blocks-Post :
      (mem : Memory) (rest : M (Held W) Bool) (s : Held W)
      → Blocks false s
      → s.device ≡ device
      → ((u : Held W) → Begun device u → Post (AllOrNone device) (rest u))
      → Post (AllOrNone device) (with_blocks mem rest s)
  unfolding with_blocks
  with_blocks-Post mem rest s (rh, rath, ah) d rest_fine =
      Post-branch (AllOrNone device) (not mem.rh) _ _ s (λ _. unfold Post in ((rh, rath, ah), d))
        (λ _.
          Post-branch (AllOrNone device) (not mem.rath) _ _ (record s { rh = true })
            (λ _. unfold Post in ((refl, rath, ah), d))
            (λ _. rest_fine (record s { rh = true; rath = true }) (refl, refl, ah, d)))

module _ {W : Type 0} (device : Bool) where
  pub checked-Post :
      (ret : ℤ) (rest : M (Held W) Bool) (v : Held W)
      → Begun device v
      → Post (AllOrNone device) (rest v)
      → Post (AllOrNone device) ((if is_neg ret then out_rath else rest) v)
  checked-Post ret rest v begun fine =
      Post-branch (AllOrNone device) (is_neg ret) out_rath rest v (λ _. unwound device v begun)
        (λ _. fine)

-- Nothing is allocated.
abbrev pub Nothing : {W A : Type 0} → A → Held W → Type 0
Nothing a s = Blocks false s

-- A session: a reader is opened and, if that succeeded, closed.
abbrev pub session : {W : Type 0} → M (Held W) Bool → M (Held W) (Unit {0}) → M (Held W) (Unit {0})
session start finish = do made ← start; if made then finish else pure tt

pub close_ah-Post :
    {W : Type 0} (t : Transport W) (s : Held W) → Post (λ _ u. u.ah ≡ false) (close_ah t s)
unfolding close_ah Post
close_ah-Post t s =
    Post-bind (λ _ u. Unit) (λ _ u. u.ah ≡ false) (on_world (close_asic t) s) _
      (unfold Post in
        (put_back-Post (λ _ u. Unit) (λ s' w. record s' { world = w }) (close_asic t s.world) s
          (λ a w. tt)))
      (λ _ u _. refl)

pub session-Post :
    {W : Type 0} (Q : Bool → Held W → Type 0) (R : Unit {0} → Held W → Type 0)
    (start : M (Held W) Bool) (finish : M (Held W) (Unit {0})) (s : Held W)
    → ((u : Held W) → Q false u → R tt u)
    → Post Q (start s)
    → ((u : Held W) → Post R (finish u))
    → Post R (session start finish s)
session-Post {W} Q R start finish s unopened opened closed =
    Post-bind Q R (start s) (λ made. if made then finish else pure tt) opened settled
  where
    settled : (made : Bool) (u : Held W) → Q made u → Post R ((if made then finish else pure tt) u)
    settled true u q = closed u
    settled false u q = unfold Post in (unopened u q)

pub weaken :
    {S A : Type 0} (P Q : A → S → Type 0) (r : Run S A)
    → ((a : A) (s : S) → P a s → Q a s)
    → Post P r
    → Post Q r
unfolding Post
weaken P Q (ok a s) more p = more a s p
weaken P Q (returned r s) more p = tt
weaken P Q fault more p = tt
weaken P Q out_of_fuel more p = tt
