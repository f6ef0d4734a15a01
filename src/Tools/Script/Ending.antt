-- ===== src/Tools/Script/Ending.antt =====
-- The loop of utils/send_script.c ends.
use librfid.Prelude.{
  ℕ, zero, suc, ℤ, pos, negsuc, is_neg, false, ◌<◌, ◌≤◌, ◌≡◌, ◌≢◌, refl, ap, Option, some, none,
  none, List, [], ◌∷◌, length, arith, inl, inr, ◌⊎◌,
}
use librfid.Control.{Run, ok, returned, fault, out_of_fuel, and_then}
use librfid.Reader.{Reader}
use librfid.Protocol.{Stack}
use librfid.Tools.Script.{Session, take_line, next_line, send_line, run_script}
use librfid.Tools.Script.Reading.{after_line}

take_line-shrinks : (n : ℕ) (text : List ℕ) → length (take_line n text).1 ≤ length text
unfolding take_line
take_line-shrinks zero text = omega arith
take_line-shrinks (suc n) [] = omega arith
take_line-shrinks (suc n) (c ∷ text) = ground (arith, take_line-shrinks n text)

take_line-consumes :
    (n c : ℕ) (text : List ℕ) → length (take_line (suc n) (c ∷ text)).1 ≤ length text
unfolding take_line
take_line-consumes n c text = ground (arith, take_line-shrinks n text)

-- How much is left of a file
abbrev left : Option (List ℕ × List ℕ) → ℕ
left none = 0
left (some (line, rest)) = length rest

next_line-shrinks :
    (text line rest : List ℕ) → next_line text ≡ some (line, rest) → length rest < length text
unfolding next_line
next_line-shrinks [] line rest e = cc
next_line-shrinks (c ∷ text) line rest e = omega (arith, ap left e, take_line-consumes 1022 c text)

-- The program, with this text left of the script and in this session, comes to a line of the script
-- whose exchange with the card does not end: it is the next line, or the next line is sent with a
-- result that is not negative, and the program comes to such a line from there.
pub data Stuck {W : Type 0} (rdr : Reader W) (stack : Stack) : List ℕ → ℤ → Session W → Type 0 where
  at_once :
      {text line rest : List ℕ} {retval : ℤ} {s : Session W}
      → next_line text ≡ some (line, rest)
      → send_line rdr stack line retval s ≡ out_of_fuel
      → Stuck rdr stack text retval s
  later :
      {text line rest : List ℕ} {retval ret : ℤ} {s s' : Session W}
      → next_line text ≡ some (line, rest)
      → send_line rdr stack line retval s ≡ ok ret s'
      → is_neg ret ≡ false
      → Stuck rdr stack rest ret s'
      → Stuck rdr stack text retval s

ends_in :
    {S A B : Type 0} (run : Run S A) (k : A → S → Run S B) (P : Type 0)
    → ((a : A) (s : S) → run ≡ ok a s → (k a s ≢ out_of_fuel) ⊎ P)
    → (run ≡ out_of_fuel → P)
    → (and_then run k ≢ out_of_fuel) ⊎ P
ends_in (ok a s) k P next stuck = next a s refl
ends_in (returned r s) k P next stuck = inl (λ e. cc)
ends_in fault k P next stuck = inl (λ e. cc)
ends_in out_of_fuel k P next stuck = inr (stuck refl)

module _ {W : Type 0} (rdr : Reader W) (stack : Stack) where
  run_script-next :
      (fuel : ℕ) (text line rest : List ℕ) (retval : ℤ) (s : Session W)
      → next_line text ≡ some (line, rest)
      → run_script rdr stack (suc fuel) text retval s
        ≡ and_then (send_line rdr stack line retval s) (after_line rdr stack fuel rest)
  unfolding run_script
  run_script-next fuel text line rest retval s e = rw (e, run_script) refl

  after_line_ends :
      (fuel : ℕ) (rest : List ℕ) (ret : ℤ) (s : Session W) (P : Type 0)
      → (is_neg ret ≡ false → (run_script rdr stack fuel rest ret s ≢ out_of_fuel) ⊎ P)
      → (after_line rdr stack fuel rest ret s ≢ out_of_fuel) ⊎ P
  after_line_ends fuel rest (pos k) s P ends = ends refl
  after_line_ends fuel rest (negsuc k) s P ends = inl (λ e. cc)

  and_later :
      {text line rest : List ℕ} {retval ret : ℤ} {s s' : Session W} {Q : Type 0}
      → next_line text ≡ some (line, rest)
      → send_line rdr stack line retval s ≡ ok ret s'
      → is_neg ret ≡ false
      → Q ⊎ Stuck rdr stack rest ret s'
      → Q ⊎ Stuck rdr stack text retval s
  and_later e sent fine (inl q) = inl q
  and_later e sent fine (inr stuck) = inr (later e sent fine stuck)

  -- With more rounds than the script has characters, the loop over the script ends, or the program
  -- comes, through the lines before it, to a line of the script whose exchange with the card does not
  -- end.
  pub run_script_ends :
      (fuel : ℕ) (text : List ℕ) (retval : ℤ) (s : Session W)
      → length text < fuel
      → (run_script rdr stack fuel text retval s ≢ out_of_fuel) ⊎ Stuck rdr stack text retval s
  run_script_ends zero text retval s enough = absurd (omega arith)
  run_script_ends (suc fuel) [] retval s enough = inl (unfold run_script next_line in (λ e. cc))
  run_script_ends (suc fuel) (c ∷ text) retval s enough =
      let line = (take_line 1023 (c ∷ text)).0 in
      let rest = (take_line 1023 (c ∷ text)).1 in
      let e : next_line (c ∷ text) ≡ some (line, rest) = unfold next_line in refl in
      let shorter = next_line-shrinks (c ∷ text) line rest e in
      rw (run_script-next fuel (c ∷ text) line rest retval s e) (
        ends_in (send_line rdr stack line retval s) (after_line rdr stack fuel rest) _
          (λ ret s' sent.
            after_line_ends fuel rest ret s' _
              (λ fine. and_later e sent fine (run_script_ends fuel rest ret s' (omega arith))))
          (λ stuck. at_once e stuck))
