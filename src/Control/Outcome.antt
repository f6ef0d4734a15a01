-- ===== src/Control/Outcome.antt =====
-- What a piece of code comes to, by its parts.
use librfid.Prelude.{ℤ, Bool, true, false, ◌≡◌, ◌≢◌, refl, if◌then◌else◌}
use mathlib.Core.Path.{subst}
use librfid.Control.{
  Run, M, ok, returned, fault, out_of_fuel, and_then, settle, ◌>>=◌, ◌>>◌, leave_if, pure, call,
}

-- A run that may have a fault only if `F`, and whose value, if it has one, has the property `P`.
unfoldable pub Outcome : {S A : Type 0} → Type 0 → (A → Type 0) → Run S A → Type 0
Outcome F P (ok a s) = P a
Outcome F P (returned r s) = Unit
Outcome F P fault = F
Outcome F P out_of_fuel = Unit

-- The same of code, in every state.
abbrev pub Ensures : {S A : Type 0} → Type 0 → (A → Type 0) → M S A → Type 0
Ensures {S} F P m = (s : S) → Outcome F P (m s)

abbrev pub Any : {A : Type 0} → A → Type 0
Any a = Unit

module _ {S : Type 0} (F : Type 0) where
  and_then-Outcome :
      {A B : Type 0} (P : A → Type 0) (Q : B → Type 0) (m : Run S A) (k : A → M S B)
      → Outcome F P m
      → ((a : A) → P a → Ensures F Q (k a))
      → Outcome F Q (and_then m k)
  unfolding Outcome
  and_then-Outcome P Q (ok a s) k first rest = rest a first s
  and_then-Outcome P Q (returned r s) k first rest = tt
  and_then-Outcome P Q fault k first rest = first
  and_then-Outcome P Q out_of_fuel k first rest = tt

  pub bind_lem :
      {A B : Type 0} (P : A → Type 0) (Q : B → Type 0) (m : M S A) (k : A → M S B)
      → Ensures F P m
      → ((a : A) → P a → Ensures F Q (k a))
      → Ensures F Q (m >>= k)
  bind_lem P Q m k first rest s = and_then-Outcome P Q (m s) k (first s) rest

  pub pure_lem : {A : Type 0} (P : A → Type 0) (a : A) → P a → Ensures F P (pure {S = S} a)
  unfolding Outcome
  pure_lem P a p s = p

  pub if_lem :
      {A : Type 0} (P : A → Type 0) (b : Bool) (m n : M S A)
      → (b ≡ true → Ensures F P m)
      → (b ≡ false → Ensures F P n)
      → Ensures F P (if b then m else n)
  if_lem P true m n first second = first refl
  if_lem P false m n first second = second refl

  -- Behind `if (test) return r;` the test has failed.
  pub leave_if_lem :
      {A : Type 0} (P : A → Type 0) (b : Bool) (r : ℤ) (m : M S A)
      → (b ≡ false → Ensures F P m)
      → Ensures F P (leave_if {S = S} b r >> m)
  unfolding Outcome
  leave_if_lem P true r m rest s = tt
  leave_if_lem P false r m rest s = rest refl s

  settle-Outcome : (m : Run S ℤ) → Outcome F Any m → Outcome F Any (settle m)
  unfolding Outcome
  settle-Outcome (ok a s) h = tt
  settle-Outcome (returned r s) h = tt
  settle-Outcome fault h = h
  settle-Outcome out_of_fuel h = tt

  pub call_lem : (m : M S ℤ) → Ensures F Any m → Ensures F Any (call m)
  call_lem m h s = settle-Outcome (m s) (h s)

-- Where a fault is allowed, nothing is lost by forgetting the value.
pub anything : {S A : Type 0} (m : Run S A) → Outcome Unit Any m
unfolding Outcome
anything (ok a s) = tt
anything (returned r s) = tt
anything fault = tt
anything out_of_fuel = tt

-- The value of a run that ended.
pub value_of :
    {S A : Type 0} (F : Type 0) (P : A → Type 0) (m : Run S A) (a : A) (s : S)
    → m ≡ ok a s
    → Outcome F P m
    → P a
unfolding Outcome
value_of F P m a s e h = subst (Outcome F P) e h

-- Code behind code of which nothing is known.
pub then_lem :
    {S A B : Type 0} (Q : B → Type 0) (m : M S A) (k : A → M S B)
    → ((a : A) → Ensures Unit Q (k a))
    → Ensures Unit Q (m >>= k)
then_lem Q m k rest = bind_lem Unit Any Q m k (λ s. anything (m s)) (λ a _. rest a)

-- Two continuations that agree
pub and_then_cong :
    {S A B : Type 0} (m : Run S A) (k l : A → M S B)
    → ((a : A) (s : S) → k a s ≡ l a s)
    → and_then m k ≡ and_then m l
and_then_cong (ok a s) k l agree = agree a s
and_then_cong (returned r s) k l agree = refl
and_then_cong fault k l agree = refl
and_then_cong out_of_fuel k l agree = refl

pub and_then_assoc :
    {S A B C : Type 0} (m : Run S A) (k : A → M S B) (l : B → M S C)
    → and_then (and_then m k) l ≡ and_then m (λ a s. and_then (k a s) l)
and_then_assoc (ok a s) k l = refl
and_then_assoc (returned r s) k l = refl
and_then_assoc fault k l = refl
and_then_assoc out_of_fuel k l = refl

pub forget :
    {S A : Type 0} (F : Type 0) (P : A → Type 0) (m : Run S A) → Outcome F P m → Outcome F Any m
unfolding Outcome
forget F P (ok a s) h = tt
forget F P (returned r s) h = tt
forget F P fault h = h
forget F P out_of_fuel h = tt

pub no_fault : {S A : Type 0} (m : Run S A) → Outcome ⊥ Any m → m ≢ fault
unfolding Outcome
no_fault m h e = absurd (subst (Outcome ⊥ Any) e h)
