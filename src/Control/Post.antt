-- ===== src/Control/Post.antt =====
-- What holds of the value and of the state that a piece of code ends with.
use librfid.Prelude.{◌≡◌, refl, Bool, true, false, if◌then◌else◌}
use mathlib.Core.Path.{subst}
use librfid.Control.{M, Run, ok, returned, fault, out_of_fuel, and_then, put_back}

-- A run that, if it ends with a value, ends with a value and in a state for which `Q` holds
unfoldable pub Post : {S A : Type 0} → (A → S → Type 0) → Run S A → Type 0
Post Q (ok a s) = Q a s
Post Q _ = Unit

pub Post-bind :
    {S A B : Type 0} (P : A → S → Type 0) (Q : B → S → Type 0) (m : Run S A) (k : A → M S B)
    → Post P m
    → ((a : A) (s : S) → P a s → Post Q (k a s))
    → Post Q (and_then m k)
unfolding Post
Post-bind P Q (ok a s) k first rest = rest a s first
Post-bind P Q (returned r s) k first rest = tt
Post-bind P Q fault k first rest = tt
Post-bind P Q out_of_fuel k first rest = tt

pub Post-ok : {S A : Type 0} (Q : A → S → Type 0) (a : A) (s : S) → Q a s → Post Q (ok a s)
unfolding Post
Post-ok Q a s q = q

pub Post-if :
    {S A : Type 0} (Q : A → S → Type 0) (b : Bool) (x y : Run S A)
    → (b ≡ true → Post Q x)
    → (b ≡ false → Post Q y)
    → Post Q (if b then x else y)
Post-if Q true x y first second = first refl
Post-if Q false x y first second = second refl

pub Post-branch :
    {S A : Type 0} (Q : A → S → Type 0) (b : Bool) (x y : M S A) (s : S)
    → (b ≡ true → Post Q (x s))
    → (b ≡ false → Post Q (y s))
    → Post Q ((if b then x else y) s)
Post-branch Q true x y s first second = first refl
Post-branch Q false x y s first second = second refl

pub put_back-Post :
    {S T A : Type 0} (Q : A → S → Type 0) (update : S → T → S) (r : Run T A) (s : S)
    → ((a : A) (t : T) → Q a (update s t))
    → Post Q (put_back update r s)
unfolding Post
put_back-Post Q update (ok a t) s always = always a t
put_back-Post Q update (returned r t) s always = tt
put_back-Post Q update fault s always = tt
put_back-Post Q update out_of_fuel s always = tt

pub ended :
    {S A : Type 0} (Q : A → S → Type 0) (m : Run S A) (a : A) (s : S)
    → m ≡ ok a s
    → Post Q m
    → Q a s
unfolding Post
ended Q m a s e p = subst (Post Q) e p
