-- ===== src/Shell/History.antt =====
-- shell.c: history_save, cmd_history, and the prompt.
pub mod Recent
use master_os.Base.{
  ℕ, zero, suc, ◌+◌, ◌-◌, Option, none, some, List, [], ◌∷◌, ltb, ◌==◌, if◌then◌else◌,
}
use master_os.Text.{codes}
use master_os.Stdio.{print_uint}
use master_os.Screen.{Screen, set_color}
use master_os.Shell.Actions.{Shell, System, next, Action, ◌>>◌, nothing, say, on_screen}

-- `for (int i = history_count; i > 0; i--) k_strcpy(history[i], history[i-1]);`
unfoldable pub shift_rows : (i : ℕ) → (ℕ → List ℕ) → ℕ → List ℕ
shift_rows zero rows = rows
shift_rows (suc i) rows = shift_rows i (λ j. if j == suc i then rows i else rows j)

abbrev pub with_row : List ℕ → Shell → Shell
with_row cmd s = record s {
  history = λ j. if j == 0 then cmd else shift_rows s.history_count s.history j;
  history_count = s.history_count + 1;
}

-- With ten rows kept the loop begins with a write to row 10, behind the array: `none`. So the
-- test of `history_count` at the end holds whenever it is reached.
unfoldable pub history_save : List ℕ → Shell → Option Shell
unfolding shift_rows
history_save cmd s = if ltb s.history_count 10 then some (with_row cmd s) else none

module _ {Dev : Type 0} where
  abbrev pub print_row : (x : ℕ) → List ℕ → Action Dev
  print_row x row = do say (print_uint x); say (codes " "); say row; say (codes "\r\n")

  -- The loop of `cmd_history`, from row `x` on.
  unfoldable pub print_rows : (ℕ → List ℕ) → (left x : ℕ) → Action Dev
  print_rows rows zero x = nothing
  print_rows rows (suc left) x = print_row x (rows x) >> print_rows rows left (x + 1)

  abbrev pub history_with : (count : ℕ) → (ℕ → List ℕ) → Action Dev
  history_with count rows =
      if count == 0 then say (codes "No history yet...\r\n") else print_rows rows count 0

  unfoldable pub cmd_history : Action Dev
  unfolding print_rows
  cmd_history s = history_with s.shell.history_count s.shell.history s

  abbrev pub prompt_with : (name path : List ℕ) (saved : ℕ) → Action Dev
  prompt_with name path saved = do
    on_screen (set_color 2 0)
    say name
    on_screen (set_color 7 0)
    say (codes "@")
    on_screen (set_color 10 0)
    say (codes "MasterOS")
    on_screen (set_color 7 0)
    say (codes ":")
    on_screen (set_color 14 0)
    say path
    on_screen (set_color 7 0)
    say (codes "> ")
    on_screen (λ t. record t { color = saved })

  unfoldable pub print_prompt : Action Dev
  print_prompt s = prompt_with s.shell.prompt_name s.world.vars.current_path s.screen.color s
