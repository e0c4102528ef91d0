-- ===== src/Shell/Info/Safety.antt =====
-- The other commands leave the screen and the line in order.
use master_os.Base.{length, ltb, ℕ, zero, suc, ◌+◌, Option, none, some, List}
use master_os.Device.{BlockDevice}
use master_os.Screen.{reset}
use master_os.Shell.Actions.{stopped, ended_by_port, say, on_arrays}
use master_os.Shell.History.{
  history_save, with_row, print_row, print_rows, cmd_history, history_with, print_prompt,
  prompt_with,
}
use master_os.Shell.Info.{
  Machine, help_lines, color_lines, cmd_help, cmd_cls, cmd_ver, cmd_echo, cmd_setprompt, cmd_reboot,
  cmd_shutdown, cmd_halt, cpuid, cmd_color, color_from, cmd_colorhelp, cmd_time, cmd_mfetch,
  cmd_run, exec_run, say_system,
}
use master_os.Shell.Rules.{
  stands, ends, Keeps, seq-Keeps, nothing-Keeps, say-Keeps, on_screen-Keeps, for_each-Keeps,
  keeping, set_color-Keeps, reset-IsValid, color_back-Keeps, on_arrays-Keeps,
}

module _ {Dev : Type 0} where
  prompt_with-Keeps :
      (name path : List ℕ) (color : ℕ) → Keeps {Dev = Dev} (prompt_with name path color)
  prompt_with-Keeps name path color = search (keeping, set_color-Keeps, color_back-Keeps) depth 40

  pub print_prompt-Keeps : Keeps {Dev = Dev} print_prompt
  unfolding print_prompt
  print_prompt-Keeps = record {
    keeps = λ s v.
        (prompt_with-Keeps s.shell.prompt_name s.world.vars.current_path s.screen.color).keeps s v;
  }

  print_row-Keeps : (x : ℕ) (row : List ℕ) → Keeps {Dev = Dev} (print_row x row)
  print_row-Keeps x row = search keeping depth 40

  print_rows-Keeps : (rows : ℕ → List ℕ) (left x : ℕ) → Keeps {Dev = Dev} (print_rows rows left x)
  unfolding print_rows
  print_rows-Keeps rows zero x = nothing-Keeps
  print_rows-Keeps rows (suc left) x =
      seq-Keeps (print_row-Keeps x (rows x)) (print_rows-Keeps rows left (x + 1))

  history_with-Keeps : (count : ℕ) (rows : ℕ → List ℕ) → Keeps {Dev = Dev} (history_with count rows)
  history_with-Keeps count rows = search (keeping, print_rows-Keeps) depth 40

  pub cmd_history-Keeps : Keeps {Dev = Dev} cmd_history
  unfolding cmd_history
  cmd_history-Keeps = record {
    keeps = λ s v. (history_with-Keeps s.shell.history_count s.shell.history).keeps s v;
  }

  pub history_save-Keeps : (cmd : List ℕ) → Keeps {Dev = Dev} (on_arrays (history_save cmd))
  unfolding history_save
  history_save-Keeps cmd = on_arrays-Keeps (λ t. ltb t.history_count 10) (with_row cmd) (λ t lt. lt)

  pub cmd_help-Keeps : Keeps {Dev = Dev} cmd_help
  unfolding cmd_help
  cmd_help-Keeps = for_each-Keeps say say-Keeps help_lines

  pub cmd_colorhelp-Keeps : Keeps {Dev = Dev} cmd_colorhelp
  unfolding cmd_colorhelp
  cmd_colorhelp-Keeps = for_each-Keeps say say-Keeps color_lines

  pub cmd_cls-Keeps : Keeps {Dev = Dev} cmd_cls
  unfolding cmd_cls
  cmd_cls-Keeps = on_screen-Keeps reset reset-IsValid

  pub cmd_ver-Keeps : Keeps {Dev = Dev} cmd_ver
  unfolding cmd_ver
  cmd_ver-Keeps = search keeping depth 40

  pub cmd_echo-Keeps : (arg : Option (List ℕ)) → Keeps {Dev = Dev} (cmd_echo arg)
  unfolding cmd_echo
  cmd_echo-Keeps none = search keeping depth 40
  cmd_echo-Keeps (some arg) = search keeping depth 40

  pub cmd_setprompt-Keeps : (arg : Option (List ℕ)) → Keeps {Dev = Dev} (cmd_setprompt arg)
  unfolding cmd_setprompt
  cmd_setprompt-Keeps none = search keeping depth 40
  cmd_setprompt-Keeps (some arg) =
      on_arrays-Keeps (λ t. ltb (length arg) 32) (λ t. record t { prompt_name = arg }) (λ t lt. lt)

  by_port-Keeps : (port value : ℕ) → Keeps {Dev = Dev} (λ s. ended_by_port port value)
  by_port-Keeps port value = record { keeps = λ s v. ends }

  pub cmd_reboot-Keeps : Keeps {Dev = Dev} cmd_reboot
  unfolding cmd_reboot
  cmd_reboot-Keeps = search (keeping, by_port-Keeps) depth 40

  pub cmd_shutdown-Keeps : Keeps {Dev = Dev} cmd_shutdown
  unfolding cmd_shutdown
  cmd_shutdown-Keeps = search (keeping, by_port-Keeps) depth 40

  halt-Keeps : Keeps {Dev = Dev} (λ s. stopped s)
  halt-Keeps = record { keeps = λ s v. stands v }

  pub cmd_halt-Keeps : Keeps {Dev = Dev} cmd_halt
  unfolding cmd_halt
  cmd_halt-Keeps = search (keeping, halt-Keeps) depth 40

  pub cpuid-Keeps : (m : Machine Dev) → Keeps (cpuid m)
  unfolding cpuid
  cpuid-Keeps m = search keeping depth 40

  color_from-Keeps : (fg : ℕ) (arg : Option (List ℕ)) → Keeps {Dev = Dev} (color_from fg arg)
  color_from-Keeps fg none = search keeping depth 40
  color_from-Keeps fg (some arg) = set_color-Keeps _ _

  pub cmd_color-Keeps : (arg : Option (List ℕ)) → Keeps {Dev = Dev} (cmd_color arg)
  unfolding cmd_color
  cmd_color-Keeps none = search keeping depth 40
  cmd_color-Keeps (some arg) = color_from-Keeps _ _

  pub cmd_time-Keeps : (m : Machine Dev) (arg : Option (List ℕ)) → Keeps (cmd_time m arg)
  unfolding cmd_time
  cmd_time-Keeps m none = search keeping depth 40
  cmd_time-Keeps m (some arg) = search keeping depth 40

  say_system-Keeps :
      (m : Machine Dev) (total used count : ℕ) → Keeps (say_system m total used count)
  say_system-Keeps m total used count = search (keeping, cpuid-Keeps) depth 40

module _ (D : BlockDevice) (rounds : ℕ) (m : Machine D.Dev) where
  pub cmd_mfetch-Keeps : Keeps (cmd_mfetch D rounds m)
  unfolding cmd_mfetch
  cmd_mfetch-Keeps = search (keeping, say_system-Keeps) depth 40

  module _ (runs : (bytes : List ℕ) → Keeps (m.program bytes)) where
    exec_run-Keeps : (filename : List ℕ) → Keeps (exec_run D rounds m filename)
    unfolding exec_run
    exec_run-Keeps filename = search (keeping, runs) depth 40

    pub cmd_run-Keeps : (arg : Option (List ℕ)) → Keeps (cmd_run D rounds m arg)
    unfolding cmd_run
    cmd_run-Keeps none = search keeping depth 40
    cmd_run-Keeps (some arg) = exec_run-Keeps arg
