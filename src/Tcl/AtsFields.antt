-- ===== src/Tcl/AtsFields.antt =====
-- What the fields of an answer to select are, by its coded bytes.
use librfid.Prelude.{
  ℕ, ◌+◌, ◌-◌, ◌*◌, ◌<◌, ◌≡◌, refl, ap, ◌∙◌, Option, some, none, List, ◌∷◌, ◌++◌, Bool, true, false,
  ltb, test, bit_and, bit_or, u8, get_or, length, drop, ◌>>>◌, arith, if◌then◌else◌,
}
use mathlib.Core.Path.{subst}
use librfid.Tcl.Handle.{TclHandle, nad_supported, cid_supported}
use librfid.Tcl.Ats.{fwi_to_fwt}
use librfid.Tcl.AtsCoding.{Ats, text_of, ta_bytes, tb_bytes, tc_bytes, tc_byte, there, tb_parts}
use librfid.Tcl.AtsParsing.{count}

-- The fields of a coded answer are in the range that their coding has.
abbrev pub TbFits : Option (ℕ × ℕ) → Type 0
TbFits none = Unit
TbFits (some (fwi, sfgi)) = (fwi < 16) × (sfgi < 16)

abbrev pub Fits : Ats → Type 0
Fits a = (a.fsci < 16) × TbFits a.tb × (length (text_of a) < 256)

abbrev ta_of : Option ℕ → ℕ
ta_of none = 0
ta_of (some b) = b

abbrev Times : ℕ → TclHandle → Option (ℕ × ℕ) → TclHandle → Type 0
Times fc th none th' = (th'.sfgt ≡ th.sfgt) × (th'.fwt ≡ th.fwt)
Times fc th (some (fwi, sfgi)) th' =
    (th'.sfgt ≡ u8 (fwi_to_fwt fc sfgi)) × (th'.fwt ≡ fwi_to_fwt fc fwi)

abbrev flags_of : Option (Bool × Bool) → ℕ → ℕ
flags_of none flags = flags
flags_of (some (cid, nad)) flags =
    let with_nad = if nad then bit_or flags nad_supported else flags in
    if cid then bit_or with_nad cid_supported else with_nad

-- The handle that the fields of the answer make of a handle
abbrev pub Parsed : ℕ → ℕ → ℕ → Ats → TclHandle → TclHandle → Type 0
Parsed fc mtu fsd a th th' =
    (th'.fsc ≡ (if ltb mtu fsd then mtu else fsd))
    × (th'.ta ≡ ta_of a.ta)
    × Times fc th a.tb th'
    × (th'.flags ≡ flags_of a.tc th.flags)
    × ((k : ℕ) × (th'.historical_bytes ≡ some k) × (drop k (text_of a) ≡ a.historical))
    × (th'.historical_len ≡ length a.historical)

tc_flags :
    (cid nad : Bool) (flags : ℕ)
    → (let with_nad = if test (tc_byte cid nad) 0x01 then bit_or flags nad_supported else flags in
        if test (tc_byte cid nad) 0x02 then bit_or with_nad cid_supported else with_nad)
      ≡ flags_of (some (cid, nad)) flags
tc_flags true true flags = refl
tc_flags true false flags = refl
tc_flags false true flags = refl
tc_flags false false flags = refl

-- What is behind T0, and where the parts of it are
abbrev pub rest_of : Option ℕ → Option (ℕ × ℕ) → Option (Bool × Bool) → List ℕ → List ℕ
rest_of ta tb tc historical = ta_bytes ta ++ (tb_bytes tb ++ (tc_bytes tc ++ historical))

pub behind_rest :
    (tl t0 : ℕ) (ta : Option ℕ) (tb : Option (ℕ × ℕ)) (tc : Option (Bool × Bool))
    (historical : List ℕ)
    → drop
        (2 + (count (there ta) + count (there tb) + count (there tc)))
        (tl ∷ t0 ∷ rest_of ta tb tc historical)
      ≡ historical
behind_rest tl t0 none none none historical = refl
behind_rest tl t0 none none (some c) historical = refl
behind_rest tl t0 none (some b) none historical = refl
behind_rest tl t0 none (some b) (some c) historical = refl
behind_rest tl t0 (some a) none none historical = refl
behind_rest tl t0 (some a) none (some c) historical = refl
behind_rest tl t0 (some a) (some b) none historical = refl
behind_rest tl t0 (some a) (some b) (some c) historical = refl

pub rest_length :
    (ta : Option ℕ) (tb : Option (ℕ × ℕ)) (tc : Option (Bool × Bool)) (historical : List ℕ)
    → length (rest_of ta tb tc historical)
      ≡ count (there ta) + count (there tb) + count (there tc) + length historical
rest_length none none none historical = omega arith
rest_length none none (some c) historical = omega arith
rest_length none (some b) none historical = omega arith
rest_length none (some b) (some c) historical = omega arith
rest_length (some a) none none historical = omega arith
rest_length (some a) none (some c) historical = omega arith
rest_length (some a) (some b) none historical = omega arith
rest_length (some a) (some b) (some c) historical = omega arith

pub ta_read :
    (ta : Option ℕ) (tail pad : List ℕ)
    → (if there ta then get_or ((ta_bytes ta ++ tail) ++ pad) 0 0 else 0) ≡ ta_of ta
ta_read none tail pad = refl
ta_read (some b) tail pad = refl

tb_at :
    (ta : Option ℕ) (hi lo : ℕ) (tail pad : List ℕ)
    → get_or ((ta_bytes ta ++ (hi * 16 + lo) ∷ tail) ++ pad) (count (there ta)) 0 ≡ hi * 16 + lo
tb_at none hi lo tail pad = refl
tb_at (some a) hi lo tail pad = refl

tc_at :
    (ta : Option ℕ) (tb : Option (ℕ × ℕ)) (c : ℕ) (tail pad : List ℕ)
    → get_or
        ((ta_bytes ta ++ (tb_bytes tb ++ c ∷ tail)) ++ pad)
        (count (there ta) + count (there tb))
        0
      ≡ c
tc_at none none c tail pad = refl
tc_at none (some b) c tail pad = refl
tc_at (some a) none c tail pad = refl
tc_at (some a) (some b) c tail pad = refl

-- The fields by the bytes behind T0, where `a`, `b` and `c` say which interface bytes are there
abbrev pub Stored : ℕ → ℕ → Bool → Bool → Bool → List ℕ → TclHandle → TclHandle → Type 0
Stored fc tl a b c rest th th' =
    let tb = get_or rest (count a) 0 in
    let tc = get_or rest (count a + count b) 0 in
    (th'.ta ≡ (if a then get_or rest 0 0 else 0))
    × ((th'.sfgt ≡ (if b then u8 (fwi_to_fwt fc (bit_and tb 0x0f)) else th.sfgt))
        × (th'.fwt ≡ (if b then fwi_to_fwt fc (bit_and tb 0xf0 >>> 4) else th.fwt)))
    × (th'.flags ≡ (
        if c
        then (let flags = if test tc 0x01 then bit_or th.flags nad_supported else th.flags in
            if test tc 0x02 then bit_or flags cid_supported else flags)
        else th.flags))
    × ((th'.historical_bytes ≡ some (2 + (count a + count b + count c)))
        × (th'.historical_len ≡ tl - (2 + (count a + count b + count c))))

pub stored_by :
    (fc tl : ℕ) (rest : List ℕ) (th th' : TclHandle) (p q r a b c : Bool)
    → p ≡ a
    → q ≡ b
    → r ≡ c
    → Stored fc tl p q r rest th th'
    → Stored fc tl a b c rest th th'
stored_by fc tl rest th th' p q r a b c e e' e'' s =
    subst (λ c'. Stored fc tl a b c' rest th th') e''
      (subst (λ b'. Stored fc tl a b' r rest th th') e'
        (subst (λ a'. Stored fc tl a' q r rest th th') e s))

pub tb-Times :
    (fc : ℕ) (th th' : TclHandle) (ta : Option ℕ) (tb : Option (ℕ × ℕ)) (tail pad : List ℕ)
    → TbFits tb
    → (let byte = get_or ((ta_bytes ta ++ (tb_bytes tb ++ tail)) ++ pad) (count (there ta)) 0 in
        (th'.sfgt ≡ (if there tb then u8 (fwi_to_fwt fc (bit_and byte 0x0f)) else th.sfgt))
        × (th'.fwt ≡ (if there tb then fwi_to_fwt fc (bit_and byte 0xf0 >>> 4) else th.fwt)))
    → Times fc th tb th'
tb-Times fc th th' ta none tail pad fits e = e
tb-Times fc th th' ta (some (hi, lo)) tail pad (small, small') (e, e') =
    let at = tb_at ta hi lo tail pad in
    let parts = tb_parts hi lo small small' in
    (
      e
          ∙ ap (λ b. u8 (fwi_to_fwt fc (bit_and b 0x0f))) at
          ∙ ap (λ n. u8 (fwi_to_fwt fc n)) (parts.0),
      e' ∙ ap (λ b. fwi_to_fwt fc (bit_and b 0xf0 >>> 4)) at ∙ ap (fwi_to_fwt fc) (parts.1),
    )

abbrev flags_by : ℕ → ℕ → ℕ
flags_by tc flags =
    let with_nad = if test tc 0x01 then bit_or flags nad_supported else flags in
    if test tc 0x02 then bit_or with_nad cid_supported else with_nad

pub flags_read :
    (flags flags' : ℕ) (ta : Option ℕ) (tb : Option (ℕ × ℕ)) (tc : Option (Bool × Bool))
    (tail pad : List ℕ)
    → flags' ≡ (
        if there tc
        then flags_by
            (get_or
              ((ta_bytes ta ++ (tb_bytes tb ++ (tc_bytes tc ++ tail))) ++ pad)
              (count (there ta) + count (there tb))
              0)
            flags
        else flags)
    → flags' ≡ flags_of tc flags
flags_read flags flags' ta tb none tail pad e = e
flags_read flags flags' ta tb (some (cid, nad)) tail pad e =
    e ∙ ap (λ c. flags_by c flags) (tc_at ta tb (tc_byte cid nad) tail pad) ∙ tc_flags cid nad flags
