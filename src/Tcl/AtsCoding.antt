-- ===== src/Tcl/AtsCoding.antt =====
-- An answer to select as ISO 14443-4 codes it.
use librfid.Prelude.{
  ℕ, suc, not, ◌+◌, ◌*◌, ◌<◌, ◌≡◌, refl, Option, some, none, List, [], ◌∷◌, ◌++◌, Bool, true, false,
  ◌&&◌, ◌==◌, test, bit_and, length, holds_below, holds_below_at, ◌>>>◌, arith, if◌then◌else◌,
}

-- An answer to select by ISO 14443-4: the coded size of the card's frames, TA, the two times of TB, the
-- two options of TC, and the historical bytes
pub record Ats : Type 0 where
  pub fsci : ℕ
  pub ta : Option ℕ
  pub tb : Option (ℕ × ℕ)  -- FWI and SFGI
  pub tc : Option (Bool × Bool)  -- card identifiers and node addresses
  pub historical : List ℕ

abbrev pub ta_bytes : Option ℕ → List ℕ
ta_bytes none = []
ta_bytes (some b) = b ∷ []

abbrev pub tb_bytes : Option (ℕ × ℕ) → List ℕ
tb_bytes none = []
tb_bytes (some (fwi, sfgi)) = (fwi * 16 + sfgi) ∷ []

abbrev pub tc_byte : Bool → Bool → ℕ
tc_byte cid nad = (if cid then 2 else 0) + (if nad then 1 else 0)

abbrev pub tc_bytes : Option (Bool × Bool) → List ℕ
tc_bytes none = []
tc_bytes (some (cid, nad)) = tc_byte cid nad ∷ []

abbrev pub there : {A : Type 0} → Option A → Bool
there none = false
there (some a) = true

abbrev pub t0_of : ℕ → Bool → Bool → Bool → ℕ
t0_of fsci a b c =
    fsci + (if a then 0x10 else 0) + (if b then 0x20 else 0) + (if c then 0x40 else 0)

-- What follows TL
abbrev pub behind_tl : Ats → List ℕ
behind_tl a =
    t0_of a.fsci (there a.ta) (there a.tb) (there a.tc)
    ∷ (ta_bytes a.ta ++ (tb_bytes a.tb ++ (tc_bytes a.tc ++ a.historical)))

-- The bytes of an answer; the first is their number.
abbrev pub text_of : Ats → List ℕ
text_of a = suc (length (behind_tl a)) ∷ behind_tl a

abbrev same : Bool → Bool → Bool
same true b = b
same false b = not b

abbrev t0_is : ℕ → Bool → Bool → Bool → Bool
t0_is fsci a b c =
    let t0 = t0_of fsci a b c in
    (bit_and t0 0x0f == fsci)
    && same (test t0 0x10) a
    && same (test t0 0x20) b
    && same (test t0 0x40) c

t0_table : (a b c : Bool) → holds_below 16 (λ f. t0_is f a b c) ≡ true
unfolding holds_below
t0_table true true true = refl
t0_table true true false = refl
t0_table true false true = refl
t0_table true false false = refl
t0_table false true true = refl
t0_table false true false = refl
t0_table false false true = refl
t0_table false false false = refl

all_same :
    (v w : ℕ) (p q r a b c : Bool)
    → (v == w) && same p a && same q b && same r c ≡ true
    → (v ≡ w) × (p ≡ a) × (q ≡ b) × (r ≡ c)
all_same v w p q r a b c e = ground arith

pub t0_parts :
    (fsci : ℕ) (a b c : Bool)
    → fsci < 16
    → (bit_and (t0_of fsci a b c) 0x0f ≡ fsci)
      × (test (t0_of fsci a b c) 0x10 ≡ a)
      × (test (t0_of fsci a b c) 0x20 ≡ b)
      × (test (t0_of fsci a b c) 0x40 ≡ c)
t0_parts fsci a b c small =
    let t0 = t0_of fsci a b c in
    all_same (bit_and t0 0x0f) fsci (test t0 0x10) (test t0 0x20) (test t0 0x40) a b c
      (holds_below_at 16 (λ f. t0_is f a b c) fsci (t0_table a b c) small)

abbrev nibbles : ℕ → ℕ → Bool
nibbles hi lo = (bit_and (hi * 16 + lo) 0x0f == lo) && (bit_and (hi * 16 + lo) 0xf0 >>> 4 == hi)

nibble_table : holds_below 16 (λ hi. holds_below 16 (nibbles hi)) ≡ true
unfolding holds_below
nibble_table = refl

pub tb_parts :
    (hi lo : ℕ)
    → hi < 16
    → lo < 16
    → (bit_and (hi * 16 + lo) 0x0f ≡ lo) × (bit_and (hi * 16 + lo) 0xf0 >>> 4 ≡ hi)
tb_parts hi lo small small' =
    ground (arith, holds_below_at 16 _ lo (holds_below_at 16 _ hi nibble_table small) small')
