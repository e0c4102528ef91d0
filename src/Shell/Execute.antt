-- ===== src/Shell/Execute.antt =====
-- shell.c: shell_execute, and the handler of the keys.
pub mod Safety
pub mod Line
pub mod Typing
use Prim.Native.String.{String}
use master_os.Base.{
  ℕ, zero, suc, ◌+◌, ◌-◌, Bool, true, false, Option, none, some, List, [], ◌∷◌, ltb, ◌==◌,
  if◌then◌else◌, put,
}
use master_os.Base.Int.{is_zero}
use master_os.Text.{codes}
use master_os.Device.{BlockDevice}
use master_os.Shell.Actions.{Shell, System, Action, ◌>>◌, nothing, say, on_shell, on_arrays}
use master_os.Shell.Words.{k_arg, k_first_word, k_strcmp, c_string}
use master_os.Shell.History.{history_save, cmd_history, print_prompt}
use master_os.Shell.Files.{
  cmd_cd, cmd_mkdir, cmd_rmdir, cmd_dir, cmd_type, cmd_del, cmd_ren, cmd_copy, cmd_create,
}
use master_os.Shell.Info.{
  Machine, cmd_help, cmd_cls, cmd_ver, cmd_echo, cmd_setprompt, cmd_reboot, cmd_shutdown, cmd_halt,
  cpuid, cmd_color, cmd_colorhelp, cmd_time, cmd_mfetch, cmd_run,
}

-- `k_strcmp(verb, "...") == 0`
abbrev pub is : List ℕ → String → Bool
is verb name = is_zero (k_strcmp verb (codes name))

-- `shell_buf[shell_len] = '\0';` and the other changes of the line. `SHELL_BUFFER_SIZE - 1` is 255.
abbrev pub closed : Shell → Shell
closed s = record s { shell_buf = put s.shell_buf s.shell_len 0 }

abbrev pub clear_line : Shell → Shell
clear_line s = record s { shell_len = 0 }

abbrev pub shorter : Shell → Shell
shorter s = record s { shell_len = s.shell_len - 1 }

abbrev pub longer : ℕ → Shell → Shell
longer c s = record s { shell_buf = put s.shell_buf s.shell_len c; shell_len = s.shell_len + 1 }

module _ (D : BlockDevice) (rounds : ℕ) (m : Machine D.Dev) where
  unfoldable pub dispatch : (verb : List ℕ) → (arg : Option (List ℕ)) → Action D.Dev
  dispatch verb arg =
      if is verb "help"
      then cmd_help
      else if is verb "cls"
      then cmd_cls
      else if is verb "echo"
      then cmd_echo arg
      else if is verb "ver"
      then cmd_ver
      else if is verb "dir"
      then cmd_dir D rounds
      else if is verb "type"
      then cmd_type D rounds arg
      else if is verb "halt"
      then cmd_halt
      else if is verb "mfetch"
      then cmd_mfetch D rounds m
      else if is verb "del"
      then cmd_del D rounds arg
      else if is verb "ren"
      then cmd_ren D rounds arg
      else if is verb "copy"
      then cmd_copy D rounds arg
      else if is verb "create"
      then cmd_create D rounds arg
      else if is verb "time"
      then cmd_time m arg
      else if is verb "history"
      then cmd_history
      else if is verb "color"
      then cmd_color arg
      else if is verb "run"
      then cmd_run D rounds m arg
      else if is verb "cpuid"
      then cpuid m
      else if is verb "reboot"
      then cmd_reboot
      else if is verb "shutdown"
      then cmd_shutdown
      else if is verb "setprompt"
      then cmd_setprompt arg
      else if is verb "cd"
      then cmd_cd D rounds arg
      else if is verb "mkdir"
      then cmd_mkdir D rounds arg
      else if is verb "rmdir"
      then cmd_rmdir D rounds arg
      else if is verb "colorhelp"
      then cmd_colorhelp
      else do
        say (codes "Unknown command: ")
        say verb
        say (codes "\r\n")
        say (codes "Type 'help' for a list of commands.\r\n")

  unfoldable pub shell_execute : List ℕ → Action D.Dev
  unfolding dispatch k_first_word k_arg
  shell_execute [] = nothing
  shell_execute (c ∷ cmd) = dispatch (k_first_word (c ∷ cmd) 32) (k_arg (c ∷ cmd))

  -- The new line: the command is kept and executed, and the next line begins.
  abbrev pub enter : (cmd : List ℕ) (len : ℕ) → Action D.Dev
  enter cmd len = do
    say (codes "\r\n")
    if len == 0 then nothing else on_arrays (history_save cmd)
    shell_execute cmd
    on_shell clear_line
    print_prompt

  abbrev pub end_line : Action D.Dev
  end_line s =
      enter (c_string (closed s.shell).shell_buf 256 0) s.shell.shell_len
        (record s { shell = closed s.shell })

  abbrev pub back_space : (len : ℕ) → Action D.Dev
  back_space len = if len == 0 then nothing else (do on_shell shorter; say (8 ∷ []))

  abbrev pub type_char : (c len : ℕ) → Action D.Dev
  type_char c len = if ltb len 255 then (do on_shell (longer c); say (c ∷ [])) else nothing

  unfoldable pub shell_handle_char : ℕ → Action D.Dev
  unfolding shell_execute history_save print_prompt c_string
  shell_handle_char c s =
      if c == 0x0A
      then end_line s
      else if c == 8
      then back_space s.shell.shell_len s
      else type_char c s.shell.shell_len s

  -- Keys one after the other.
  unfoldable pub handle_chars : List ℕ → Action D.Dev
  unfolding shell_handle_char
  handle_chars [] = nothing
  handle_chars (c ∷ cs) = shell_handle_char c >> handle_chars cs
