-- ===== src/Tools/Mifare/BruteForce.antt =====
-- The search for a key in utils/mifare-tool.c.
use librfid.Prelude.{
  ℕ, zero, suc, ℤ, pos, negsuc, is_neg, ◌+◌, ◌≡◌, refl, ap, ◌∙◌, some, List, [], ◌∷◌, set, set-set,
  Bool, true, false, not, ◌&&◌, u8, if◌then◌else◌, get_or, ◌*◌,
}
use librfid.Control.{ok}
use librfid.Reader.{Reader}
use librfid.Tcl.Handle.{ProtocolHandle}
use librfid.MifareClassic.Pages.{set_key, auth}
use librfid.Tools.Cards.{auth1a}
use librfid.Tools.Mifare.{cl_auth, brute_from}

-- A reader with a card that answers in some worlds only. Each key is taken, which leaves the card as
-- it is. The authentication that follows succeeds if the card answers and the key opens the block; the
-- card answers afterwards if it did, and else it has dropped out.
abbrev pub IsLockedBy : {W : Type 0} → Reader W → ℕ → (List ℕ → Bool) → (W → Bool) → Type 0
IsLockedBy {W} rdr block opens answers =
    (f : List ℕ → W → ℤ × W) × (g : ℕ → ℕ → ℕ → W → ℤ × W) × (rdr.setkey ≡ some f)
    × (rdr.auth ≡ some g)
    × ((key : List ℕ) (w : W) → (is_neg (f key w).0 ≡ false) × (answers (f key w).1 ≡ answers w))
    × ((key : List ℕ) (serno : ℕ) (w : W)
        → let told = g auth1a serno block (f key w).1 in
          (is_neg told.0 ≡ not (answers w && opens key))
          × (answers told.1 ≡ (answers w && opens key)))

-- The keys that differ in their last byte, from `i` on
abbrev pub keys_from : List ℕ → ℕ → ℕ → List (List ℕ)
keys_from key zero i = []
keys_from key (suc n) i = set key 5 i ∷ keys_from key n (i + 1)

-- The keys before the first that does not fit
abbrev pub leading : (List ℕ → Bool) → List (List ℕ) → List (List ℕ)
leading opens [] = []
leading opens (key ∷ keys) = if opens key then key ∷ leading opens keys else []

keys_from-set : (n : ℕ) (key : List ℕ) (i j : ℕ) → keys_from (set key 5 j) n i ≡ keys_from key n i
keys_from-set zero key i j = refl
keys_from-set (suc n) key i j = cc (set-set key 5 j i, keys_from-set n key (i + 1) j)

neg_kept : (a : ℤ) → is_neg (if is_neg a then a else pos 0) ≡ is_neg a
neg_kept (pos n) = refl
neg_kept (negsuc n) = refl

no_keys :
    (opens : List ℕ → Bool) (answers : Bool)
    → leading opens [] ≡ (if answers then leading opens [] else [])
no_keys opens true = refl
no_keys opens false = refl

-- What is printed with a key, whether the card answers or not
pick :
    (key : List ℕ) (keys : List (List ℕ)) (answers opens : Bool) {neg after : Bool}
    → neg ≡ not (answers && opens)
    → after ≡ (answers && opens)
    → (let rest = if after then keys else [] in if neg then rest else key ∷ rest)
      ≡ (if answers then (if opens then key ∷ keys else []) else [])
pick key keys true true e e' = rw (e, e') refl
pick key keys true false e e' = rw (e, e') refl
pick key keys false opens e e' = rw (e, e') refl

module _ {W : Type 0} (rdr : Reader W) (page : ℕ) (opens : List ℕ → Bool) (answers : W → Bool)
    (locked : IsLockedBy rdr (u8 page) opens answers) where
  set_key_taken :
      (key : List ℕ) (h : ProtocolHandle W)
      → set_key rdr key h
        ≡ ok
            (locked.0 key h.l2h.world).0
            (record h { l2h = record (h.l2h) { world = (locked.0 key h.l2h.world).1 } })
  unfolding set_key
  set_key_taken key h = rw (locked.2) refl

  cl_auth_locked :
      (key : List ℕ) (h : ProtocolHandle W)
      → (r : ℤ) × (h' : ProtocolHandle W) × (cl_auth rdr key page h ≡ ok r h')
        × (is_neg r ≡ not (answers h.l2h.world && opens key))
        × (answers h'.l2h.world ≡ (answers h.l2h.world && opens key))
  unfolding cl_auth auth
  cl_auth_locked key h =
      let (f, g, e, e', taken, tells) = locked in
      let uid = λ (i : ℕ). get_or h.l2h.uid i 0 in
      let serno = uid 0 + 256 * uid 1 + 65536 * uid 2 + 16777216 * uid 3 in
      let (a, w) = g auth1a serno (u8 page) (f key h.l2h.world).1 in
      let (told, after) = tells key serno h.l2h.world in
      (
        (if is_neg a then a else pos 0),
        record h { l2h = record (h.l2h) { world = w } },
        rw (set_key_taken key h, (taken key h.l2h.world).0, e') refl,
        neg_kept a ∙ told,
        after,
      )

  brute_from_locked :
      (n : ℕ) (key : List ℕ) (i : ℕ) (h : ProtocolHandle W)
      → (h' : ProtocolHandle W) × (brute_from rdr n key page i h
          ≡ ok (if answers h.l2h.world then leading opens (keys_from key n i) else []) h')
  unfolding brute_from
  brute_from_locked zero key i h = (h, ap (λ keys. ok keys h) (no_keys opens (answers h.l2h.world)))
  brute_from_locked (suc n) key i h =
      let (r, h1, e, told, after) = cl_auth_locked (set key 5 i) h in
      let (h2, rest) = brute_from_locked n (set key 5 i) (i + 1) h1 in
      let keys = leading opens (keys_from key n (i + 1)) in
      (
        h2,
        rw (e, rest, keys_from-set n key (i + 1) i)
            (ap (λ k. ok k h2)
              (pick (set key 5 i) keys (answers h.l2h.world) (opens (set key 5 i)) told after)),
      )

  -- Let a card's block be opened by certain keys and by no others, let the card drop out at an
  -- authentication that fails and not answer from then on, and let the reader take every key, which
  -- leaves the card as it is. Then the search over a key's last byte, on a card that answers, ends, and
  -- it prints of the 256 keys those before the first that does not open the block, and none behind it.
  pub brute_from_lem :
      (key : List ℕ) (h : ProtocolHandle W)
      → answers h.l2h.world ≡ true
      → (h' : ProtocolHandle W) × (brute_from rdr 256 key page 0 h
          ≡ ok (leading opens (keys_from key 256 0)) h')
  brute_from_lem key h there = let (h', e) = brute_from_locked 256 key 0 h in (h', rw there at e)
