-- ===== src/Control.antt =====
-- The control flow of a C function that returns an `int`: it reads and changes a state, may leave
-- early with a `return`, and may meet a fault (a null pointer, an access out of bounds).
pub mod Outcome
pub mod Post
use librfid.Prelude.{ℕ, ℤ, is_neg, Bool, if◌then◌else◌, List, get_elem?, none, some}

-- What running a piece of code in the state `S` comes to: it falls through with a value, it has
-- executed `return r`, it is undefined, or the fuel of a loop ran out.
pub data Run (S A : Type 0) : Type 0 where
  ok : A → S → Run S A
  returned : ℤ → S → Run S A
  fault : Run S A
  out_of_fuel : Run S A

abbrev pub M : Type 0 → Type 0 → Type 0
M S A = S → Run S A

module _ {S A B : Type 0} where
  abbrev pub and_then : Run S A → (A → M S B) → Run S B
  and_then (ok a s) k = k a s
  and_then (returned r s) k = returned r s
  and_then fault k = fault
  and_then out_of_fuel k = out_of_fuel

  infixl 5 ◌>>=◌ ◌>>◌
  abbrev pub ◌>>=◌ : M S A → (A → M S B) → M S B
  m >>= k = λ s. and_then (m s) k

  abbrev pub ◌>>◌ : M S A → M S B → M S B
  m >> n = m >>= λ _. n

abbrev pub pure : {S A : Type 0} → A → M S A
pure a s = ok a s

-- `return r;`
abbrev pub leave : {S A : Type 0} → ℤ → M S A
leave r s = returned r s

abbrev pub get : {S : Type 0} → M S S
get s = ok s s

abbrev pub put : {S : Type 0} → S → M S (Unit {0})
put s' s = ok tt s'

abbrev pub modify : {S : Type 0} → (S → S) → M S (Unit {0})
modify f s = ok tt (f s)

abbrev pub undefined : {S A : Type 0} → M S A
undefined s = fault

-- `if (test) return r;`
abbrev pub leave_if : {S : Type 0} → Bool → ℤ → M S (Unit {0})
leave_if test r s = if test then returned r s else ok tt s

-- `if (ret < 0) return ret;`
abbrev pub leave_neg : {S : Type 0} → ℤ → M S (Unit {0})
leave_neg r = leave_if (is_neg r) r

-- A call of a function: its `return` ends the callee alone.
abbrev pub settle : {S : Type 0} → Run S ℤ → Run S ℤ
settle (ok r s) = ok r s
settle (returned r s) = ok r s
settle fault = fault
settle out_of_fuel = out_of_fuel

abbrev pub call : {S : Type 0} → M S ℤ → M S ℤ
call m s = settle (m s)

-- Code that works on a part of the state, run on the whole.
abbrev pub put_back : {S T A : Type 0} → (S → T → S) → Run T A → S → Run S A
put_back update (ok a t) s = ok a (update s t)
put_back update (returned r t) s = returned r (update s t)
put_back update fault s = fault
put_back update out_of_fuel s = out_of_fuel

-- A read of a buffer, of which the list is the part that is initialised.
abbrev pub read : {S : Type 0} → List ℕ → ℕ → M S ℕ
read buf i s = elim (get_elem? buf i) [ none ↦ fault | some x ↦ ok x s ]
