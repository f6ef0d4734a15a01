-- ===== src/Prelude/Lists.antt =====
-- C arrays as lists with native indices.
use Prim.Native.Nat.{ℕ, zero, suc, ◌+◌, ◌-◌, ◌≤◌, ◌<◌, min}
use mathlib.Core.Path.{◌≡◌, refl, ap}
use mathlib.Core.Logic.{◌≢◌}
use mathlib.Core.List.{List, [], ◌∷◌, ◌++◌}
use mathlib.Core.Option.{Option, none, some}
use native.Mathlib.Omega.{arith}

module _ {ℓ} {A : Type ℓ} where
  abbrev pub length : List A → ℕ
  length [] = 0
  length (x ∷ xs) = suc (length xs)

  abbrev pub get_elem? : List A → ℕ → Option A
  get_elem? [] i = none
  get_elem? (x ∷ xs) zero = some x
  get_elem? (x ∷ xs) (suc i) = get_elem? xs i

  abbrev pub get_or : List A → ℕ → A → A
  get_or [] i d = d
  get_or (x ∷ xs) zero d = x
  get_or (x ∷ xs) (suc i) d = get_or xs i d

  -- A write out of bounds changes nothing.
  abbrev pub set : List A → ℕ → A → List A
  set [] i v = []
  set (x ∷ xs) zero v = v ∷ xs
  set (x ∷ xs) (suc i) v = x ∷ set xs i v

  abbrev pub take : ℕ → List A → List A
  take zero xs = []
  take (suc n) [] = []
  take (suc n) (x ∷ xs) = x ∷ take n xs

  abbrev pub drop : ℕ → List A → List A
  drop zero xs = xs
  drop (suc n) [] = []
  drop (suc n) (x ∷ xs) = drop n xs

  abbrev pub replicate : ℕ → A → List A
  replicate zero a = []
  replicate (suc n) a = a ∷ replicate n a

  -- `memcpy(buf, src, length src)`: what of `src` fits is written over the front of `buf`.
  abbrev pub overlay : List A → List A → List A
  overlay [] buf = buf
  overlay (x ∷ src) [] = []
  overlay (x ∷ src) (_ ∷ buf) = x ∷ overlay src buf

  pub length-append : (xs ys : List A) → length (xs ++ ys) ≡ length xs + length ys
  length-append [] ys = omega arith
  length-append (x ∷ xs) ys = omega (arith, length-append xs ys)

  pub length-take : (n : ℕ) (xs : List A) → length (take n xs) ≡ min n (length xs)
  length-take zero xs = omega arith
  length-take (suc n) [] = omega arith
  length-take (suc n) (x ∷ xs) = omega (arith, length-take n xs)

  pub length-drop : (n : ℕ) (xs : List A) → length (drop n xs) ≡ length xs - n
  length-drop zero xs = omega arith
  length-drop (suc n) [] = omega arith
  length-drop (suc n) (x ∷ xs) = omega (arith, length-drop n xs)

  pub take-append-drop : (n : ℕ) (xs : List A) → take n xs ++ drop n xs ≡ xs
  take-append-drop zero xs = refl
  take-append-drop (suc n) [] = refl
  take-append-drop (suc n) (x ∷ xs) = ap (λ r. x ∷ r) (take-append-drop n xs)

  pub length-overlay : (src buf : List A) → length (overlay src buf) ≡ length buf
  length-overlay [] buf = refl
  length-overlay (x ∷ src) [] = refl
  length-overlay (x ∷ src) (y ∷ buf) = ap suc (length-overlay src buf)

  pub length-set : (xs : List A) (i : ℕ) (v : A) → length (set xs i v) ≡ length xs
  length-set [] i v = refl
  length-set (x ∷ xs) zero v = refl
  length-set (x ∷ xs) (suc i) v = ap suc (length-set xs i v)

  pub set-set : (xs : List A) (i : ℕ) (v w : A) → set (set xs i v) i w ≡ set xs i w
  set-set [] i v w = refl
  set-set (x ∷ xs) zero v w = refl
  set-set (x ∷ xs) (suc i) v w = ap (λ r. x ∷ r) (set-set xs i v w)

  pub get_elem?-of_lt : (xs : List A) (i : ℕ) → i < length xs → (x : A) × (get_elem? xs i ≡ some x)
  get_elem?-of_lt [] i h = absurd (omega arith)
  get_elem?-of_lt (x ∷ xs) zero h = (x, refl)
  get_elem?-of_lt (x ∷ xs) (suc i) h = get_elem?-of_lt xs i (omega arith)

  -- `memcpy(buf + at, src, length src)`
  abbrev pub overlay_at : ℕ → List A → List A → List A
  overlay_at zero src buf = overlay src buf
  overlay_at (suc n) src [] = []
  overlay_at (suc n) src (y ∷ buf) = y ∷ overlay_at n src buf

  pub length-overlay_at : (n : ℕ) (src buf : List A) → length (overlay_at n src buf) ≡ length buf
  length-overlay_at zero src buf = length-overlay src buf
  length-overlay_at (suc n) src [] = refl
  length-overlay_at (suc n) src (y ∷ buf) = ap suc (length-overlay_at n src buf)

  -- Bytes stored from the start of a buffer on, over what it held; `buf` is what is initialised.
  abbrev pub store_front : List A → List A → List A
  store_front src buf = src ++ drop (length src) buf

  pub take-length : (xs : List A) → take (length xs) xs ≡ xs
  take-length [] = refl
  take-length (x ∷ xs) = ap (λ r. x ∷ r) (take-length xs)

  pub take-overlay :
      (src buf : List A) → length src ≤ length buf → take (length src) (overlay src buf) ≡ src
  take-overlay [] buf h = refl
  take-overlay (x ∷ src) [] h = absurd (omega arith)
  take-overlay (x ∷ src) (y ∷ buf) h = ap (λ r. x ∷ r) (take-overlay src buf (omega arith))

  pub take-append : (xs ys : List A) → take (length xs) (xs ++ ys) ≡ xs
  take-append [] ys = refl
  take-append (x ∷ xs) ys = ap (λ r. x ∷ r) (take-append xs ys)

  pub get_or-set_other :
      (xs : List A) (i j : ℕ) (v d : A) → j ≢ i → get_or (set xs i v) j d ≡ get_or xs j d
  get_or-set_other [] i j v d other = refl
  get_or-set_other (x ∷ xs) zero zero v d other = absurd (other refl)
  get_or-set_other (x ∷ xs) zero (suc j) v d other = refl
  get_or-set_other (x ∷ xs) (suc i) zero v d other = refl
  get_or-set_other (x ∷ xs) (suc i) (suc j) v d other =
      get_or-set_other xs i j v d (λ e. other (ap suc e))

  pub drop-drop : (n m k : ℕ) (xs : List A) → m + n ≡ k → drop n (drop m xs) ≡ drop k xs
  drop-drop n zero k xs e = let e' : n ≡ k = omega arith in ap (λ j. drop j xs) e'
  drop-drop n (suc m) zero xs e = absurd (omega arith)
  drop-drop zero (suc m) (suc k) [] e = refl
  drop-drop (suc n) (suc m) (suc k) [] e = refl
  drop-drop n (suc m) (suc k) (x ∷ xs) e = drop-drop n m k xs (omega arith)
