-- ===== src/Shell/Execute/Typing.antt =====
-- The line that is executed is the line that was typed.
use mathlib.Core.Path.{ap₂}
use master_os.Base.{
  ℕ, ◌+◌, ◌-◌, ◌<◌, ◌≡◌, ◌≢◌, refl, ◌∙◌, arith, true, false, Bool-cases, inl, inr, List, [], ◌∷◌,
  ◌++◌, length, take, All, ltb, ◌==◌, if◌then◌else◌, put,
}
use master_os.Device.{BlockDevice}
use master_os.Screen.{print}
use master_os.Text.{codes}
use master_os.Shell.History.{history_save, print_prompt}
use master_os.Shell.Actions.{System, Outcome, next, ◌>>◌, nothing, say, on_shell, on_arrays}
use master_os.Shell.Info.{Machine}
use master_os.Shell.Execute.{
  closed, shorter, longer, enter, end_line, back_space, type_char, shell_handle_char, handle_chars,
  shell_execute,
}
use master_os.Shell.Execute.Line.{
  edit, edited, IsLine, Kept, put_there, c_string-text, IsLine-shorter, IsLine-longer, Kept-refl,
  Kept-trans, after-nothing,
}

module _ (D : BlockDevice) (rounds : ℕ) (m : Machine D.Dev) where
  -- A key that edits the line.
  record IsEdited (line : List ℕ) (s : System D.Dev) (r : Outcome D.Dev) : Type 0 where
    state : System D.Dev
    goes_on : r ≡ next state
    holds : IsLine line state.shell
    kept : Kept s state

  back_space-IsEdited :
      (line : List ℕ) (s : System D.Dev)
      → IsLine line s.shell
      → IsEdited (take (length line - 1) line) s (back_space D rounds m s.shell.shell_len s)
  back_space-IsEdited [] s l =
      let empty : (s.shell.shell_len == 0) ≡ true = ground (arith, l.len) in
      rw empty (record { state = s; goes_on = refl; holds = l; kept = Kept-refl s })
  back_space-IsEdited (x ∷ line) s l =
      let more : (s.shell.shell_len == 0) ≡ false = ground (arith, l.len) in
      rw more (record {
        state = record s { shell = shorter s.shell; screen = print (8 ∷ []) s.screen };
        goes_on = refl;
        holds = IsLine-shorter (x ∷ line) s.shell l;
        kept = record { world = refl; history = refl; history_count = refl; prompt_name = refl };
      })

  type_char-IsEdited :
      (line : List ℕ) (c : ℕ) (s : System D.Dev)
      → c ≢ 0
      → IsLine line s.shell
      → IsEdited
          (if ltb (length line) 255 then line ++ c ∷ [] else line)
          s
          (type_char D rounds m c s.shell.shell_len s)
  type_char-IsEdited line c s some l = elim (Bool-cases (ltb (length line) 255)) [
    | inl e ↦
        let room : ltb s.shell.shell_len 255 ≡ true = rw l.len e in
        rw room (
          rw e (record {
            state = record s { shell = longer c s.shell; screen = print (c ∷ []) s.screen };
            goes_on = refl;
            holds = IsLine-longer line c s.shell some (ground arith) l;
            kept = record {
              world = refl;
              history = refl;
              history_count = refl;
              prompt_name = refl;
            };
          }))
    | inr e ↦
        let full : ltb s.shell.shell_len 255 ≡ false = rw l.len e in
        rw full (rw e (record { state = s; goes_on = refl; holds = l; kept = Kept-refl s }))
  ]

  shell_handle_char-IsEdited :
      (line : List ℕ) (c : ℕ) (s : System D.Dev)
      → c ≢ 0
      → c ≢ 0x0A
      → IsLine line s.shell
      → IsEdited (edit line c) s (shell_handle_char D rounds m c s)
  unfolding shell_handle_char
  shell_handle_char-IsEdited line c s some ne l =
      let not_end : (c == 0x0A) ≡ false = ground arith in
      rw not_end (elim (Bool-cases (c == 8)) [
        | inl e ↦ rw e (back_space-IsEdited line s l)
        | inr e ↦ rw e (type_char-IsEdited line c s some l)
      ])

  -- The line is kept in the history if there is something in it, handed to shell_execute, and
  -- cleared, between a new line and the prompt on the screen, in a state that differs from `s` by
  -- the line and the screen only.
  pub record IsExecuted (line : List ℕ) (s : System D.Dev) (r : Outcome D.Dev) : Type 0 where
    pub state : System D.Dev
    pub runs :
        r
        ≡ (say (codes "\r\n")
              >> ((if length line == 0 then nothing else on_arrays (history_save line))
                  >> (shell_execute D rounds m line
                      >> (on_shell (λ t. record t { shell_len = 0 }) >> print_prompt))))
            state
    pub kept : Kept s state

  end_line-IsExecuted :
      (line : List ℕ) (s : System D.Dev)
      → IsLine line s.shell
      → IsExecuted line s (end_line D rounds m s)
  end_line-IsExecuted line s l =
      let before = λ (i : ℕ) (lt : i < length line).
        put_there s.shell.shell_buf s.shell.shell_len 0 i (λ e. omega (arith, l.len, e, lt))
        ∙ l.text i lt in
      let end : put s.shell.shell_buf s.shell.shell_len 0 (0 + length line) ≡ 0 =
        ground (arith, l.len) in
      let text =
        c_string-text line (put s.shell.shell_buf s.shell.shell_len 0) 256 0 l.short
          (λ i lt. let e : 0 + i ≡ i = omega arith in rw e (before i lt)) l.no_end end in
      record {
        state = record s { shell = closed s.shell };
        runs = ap₂ (λ t n. enter D rounds m t n (record s { shell = closed s.shell })) text l.len;
        kept = record { world = refl; history = refl; history_count = refl; prompt_name = refl };
      }

  new_line-IsExecuted :
      (line : List ℕ) (s : System D.Dev)
      → IsLine line s.shell
      → IsExecuted line s (handle_chars D rounds m (0x0A ∷ []) s)
  unfolding handle_chars shell_handle_char
  new_line-IsExecuted line s l =
      let x = end_line-IsExecuted line s l in
      record {
        state = x.state;
        runs = after-nothing (end_line D rounds m s) ∙ x.runs;
        kept = x.kept;
      }

  -- Typing the keys and then a new line, where the buffer holds a line: the line as the keys edit
  -- it is kept if it is not empty, executed and cleared, where a backspace takes the last
  -- character and a line of 255 characters takes no more; until the new line the disk, the
  -- history and the prompt's name are as they were.
  pub handle_chars-IsExecuted :
      (keys line : List ℕ) (s : System D.Dev)
      → All (λ c. (c ≢ 0) × (c ≢ 0x0A)) keys
      → IsLine line s.shell
      → IsExecuted (edited line keys) s (handle_chars D rounds m (keys ++ 0x0A ∷ []) s)
  unfolding handle_chars
  handle_chars-IsExecuted [] line s plain l = new_line-IsExecuted line s l
  handle_chars-IsExecuted (c ∷ keys) line s plain l =
      let e = shell_handle_char-IsEdited line c s plain.0.0 plain.0.1 l in
      let x = handle_chars-IsExecuted keys (edit line c) e.state plain.1 e.holds in
      record { state = x.state; runs = rw e.goes_on x.runs; kept = Kept-trans e.kept x.kept }
