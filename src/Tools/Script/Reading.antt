-- ===== src/Tools/Script/Reading.antt =====
-- What the loop of utils/send_script.c makes of a script.
use librfid.Prelude.{
  ℕ, zero, suc, ℤ, pos, negsuc, is_neg, ◌<◌, ◌≡◌, refl, ap, List, [], ◌∷◌, ◌++◌, true, false,
  length, arith, ◌∙◌,
}
use librfid.Control.{M, and_then, ◌>>=◌, pure}
use librfid.Control.Outcome.{and_then_cong}
use librfid.Reader.{Reader}
use librfid.Protocol.{Stack}
use librfid.Tools.Script.{
  Session, newline, slash, next_line, is_comment, send_line, send_command, run_script,
}
use librfid.Tools.Script.Lines.{
  Part, Line, comment, command, text_of, script_of, bytes_of, commands_of, InLine, AreParts,
  AreLines, text_of-InLine, next_line-line, c_string-line, command_of-text_of, no_comment,
  is_comment-slashes,
}

module _ {W : Type 0} (rdr : Reader W) (stack : Stack) where
  -- The commands are sent in turn, up to the first that fails.
  abbrev pub send_all : List (List ℕ) → ℤ → M (Session W) ℤ
  send_all [] retval = pure retval
  send_all (sbuf ∷ commands) retval = do
    ret ← send_command rdr stack sbuf
    elim (is_neg ret) [ true ↦ pure ret | false ↦ send_all commands ret ]

  send_line-comment :
      (text : List ℕ) (retval : ℤ)
      → InLine text
      → send_line rdr stack (slash ∷ slash ∷ (text ++ newline ∷ [])) retval ≡ pure retval
  unfolding send_line
  send_line-comment text retval inside =
      rw
        (ap is_comment (c_string-line (slash ∷ slash ∷ text) (refl, (refl, inside)))
          ∙ is_comment-slashes (text ++ newline ∷ []))
        refl

  send_line-command :
      (parts : List Part) (retval : ℤ)
      → AreParts parts
      → send_line rdr stack (text_of parts ++ newline ∷ []) retval
        ≡ send_command rdr stack (bytes_of parts)
  unfolding send_line
  send_line-command parts retval parts_are =
      rw
        (
          c_string-line (text_of parts) (text_of-InLine parts parts_are),
          no_comment parts parts_are,
          command_of-text_of parts parts_are,
        )
        refl

  -- What follows a line that came to `ret`
  abbrev pub after_line : ℕ → List ℕ → ℤ → M (Session W) ℤ
  after_line fuel rest ret = elim (is_neg ret) [
    | true ↦ pure ret
    | false ↦ run_script rdr stack fuel rest ret
  ]

  run_script-line :
      (fuel : ℕ) (text rest : List ℕ) (retval : ℤ) (s : Session W)
      → InLine text
      → length text < 1023
      → run_script rdr stack (suc fuel) (text ++ newline ∷ rest) retval s
        ≡ and_then (send_line rdr stack (text ++ newline ∷ []) retval s) (after_line fuel rest)
  unfolding run_script
  run_script-line fuel text rest retval s inside short =
      rw (next_line-line rest text inside short, run_script) refl

  after_line-fine :
      (fuel : ℕ) (rest : List ℕ) (ret : ℤ) (s : Session W)
      → is_neg ret ≡ false
      → after_line fuel rest ret s ≡ run_script rdr stack fuel rest ret s
  after_line-fine fuel rest (pos n) s fine = refl
  after_line-fine fuel rest (negsuc n) s fine = cc

  after_line-script :
      (fuel : ℕ) (lines : List Line) (ret : ℤ) (s : Session W)
      → (is_neg ret ≡ false
          → run_script rdr stack fuel (script_of lines) ret s ≡ send_all (commands_of lines) ret s)
      → after_line fuel (script_of lines) ret s
        ≡ (elim (is_neg ret) as (λ _. M (Session W) ℤ) [
          | true ↦ pure ret
          | false ↦ send_all (commands_of lines) ret
        ])
            s
  after_line-script fuel lines (pos n) s rest = rest refl
  after_line-script fuel lines (negsuc n) s rest = refl

  -- Let a script consist of comments, which begin with two slashes, and of commands, whose bytes are
  -- written as two digits each with any characters between them that are no digits and no slashes;
  -- let no character within a line be 0 or the end of a line, let no line have 1023 characters or
  -- more, and let the result so far not be negative. Then the program, with one round more than there
  -- are lines, does exactly what sending the commands in turn does, up to the first that fails,
  -- whatever the card and the user answer.
  pub run_script-script_of :
      (fuel : ℕ) (lines : List Line) (retval : ℤ) (s : Session W)
      → AreLines lines
      → is_neg retval ≡ false
      → length lines < fuel
      → run_script rdr stack fuel (script_of lines) retval s ≡ send_all (commands_of lines) retval s
  run_script-script_of zero lines retval s lines_are fine enough = absurd (omega arith)
  run_script-script_of (suc fuel) [] retval s lines_are fine enough =
      unfold run_script next_line in refl
  run_script-script_of (suc fuel) (comment text ∷ lines) retval s (is_line, short, rest) fine
        enough =
      run_script-line fuel (slash ∷ slash ∷ text) (script_of lines) retval s (refl, (refl, is_line))
        short
      ∙ ap (λ m. and_then (m s) (after_line fuel (script_of lines)))
          (send_line-comment text retval is_line)
      ∙ after_line-fine fuel (script_of lines) retval s fine
      ∙ (run_script-script_of fuel lines retval s rest fine (omega arith))
  run_script-script_of (suc fuel) (command parts ∷ lines) retval s (is_line, short, rest) fine
        enough =
      run_script-line fuel (text_of parts) (script_of lines) retval s (text_of-InLine parts is_line)
        short
      ∙ rw (send_line-command parts retval is_line) (
          and_then_cong (send_command rdr stack (bytes_of parts) s) _ _ (λ ret s'.
            after_line-script fuel lines ret s'
              (λ ok_so_far. run_script-script_of fuel lines ret s' rest ok_so_far (omega arith))))
