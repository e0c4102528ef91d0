-- ===== src/Shell/Info.antt =====
-- shell.c: the commands that print something about the system, and those that set a colour, the
-- prompt, or end the run. What they ask of other parts is the record `Machine`.
pub mod Safety
use master_os.Base.{
  ℕ, zero, suc, ◌+◌, ◌-◌, ◌*◌, ◌/◌, ◌^◌, Bool, true, false, Option, none, some, List, [], ◌∷◌,
  length, ltb, leb, ◌==◌, if◌then◌else◌, u8, mul32,
}
use master_os.Text.{codes}
use master_os.Device.{BlockDevice}
use master_os.Stdio.{print_uint, k_atoi}
use master_os.Screen.{Screen, reset, set_color}
use master_os.Rtc.{RtcTime}
use master_os.Fat.Read.{Fat12Entry, fat_list, fat_read}
use master_os.Fat.Change.{fat_get_total_kb, fat_get_used_kb}
use master_os.Shell.Actions.{
  Shell, System, Outcome, stopped, fault, ended_by_port, Action, ◌>>◌, nothing, say, on_screen,
  on_shell, on_arrays, call, for_each,
}
use master_os.Shell.Words.{k_arg}

-- The time that `rtc_read` gives, the text of `CGV`, the value of `GUS`, the memory that the boot
-- loader reports, and a loaded program's run.
pub record Machine (Dev : Type 0) : Type 0 where
  pub now : RtcTime
  pub vendor : List ℕ
  pub uptime : ℕ
  pub total_mem_kb : ℕ
  pub program : List ℕ → Action Dev

abbrev pub help_lines : List (List ℕ)
help_lines =
    codes "MasterOS Shell Commands:\r\n"
    ∷ codes "  help       - Show this help\r\n"
    ∷ codes "  cls        - Clear the screen\r\n"
    ∷ codes "  echo <msg> - Print a message\r\n"
    ∷ codes "  ver        - Show OS version\r\n"
    ∷ codes "  dir        - List files on disk\r\n"
    ∷ codes "  type <file>- Print file contents\r\n"
    ∷ codes "  mfetch     - Show system info\r\n"
    ∷ codes "  del <file> - Delete a file\r\n"
    ∷ codes "  ren <a> <b>- Rename a file\r\n"
    ∷ codes "  copy <a> <b>- Copy a file\r\n"
    ∷ codes "  halt       - Halt the system\r\n"
    ∷ codes "  create <file> <context> - Creates a file with the given context\r\n"
    ∷ codes "  time <timezone>  - Show the current time & date\r\n"
    ∷ codes "  history    - Shows past runned commands\r\n"
    ∷ codes
        "  color <text> <background> - Changes the system color (colorhelp for color codes) \r\n"
    ∷ codes "  run <program> - Runs the given .COM program\r\n"
    ∷ codes "  cpuid      - Shows CPU vendor string\r\n"
    ∷ codes "  reboot     - Reboots the system\r\n"
    ∷ codes "  shutdown   - Shuts down the system\r\n"
    ∷ codes "  setprompt <name> - Sets the shell prompt name\r\n"
    ∷ codes "  cd <dirname> - Change directory\r\n"
    ∷ codes "  mkdir <dirname> - Create a directory\r\n"
    ∷ codes "  rmdir <dirname> - Remove a directory\r\n"
    ∷ []

abbrev pub logo_lines : List (List ℕ)
logo_lines =
    codes "\r\n"
    ∷ codes "                     ########  ######## \r\n"
    ∷ codes " ######## #####    ###    ### ###    ## \r\n"
    ∷ codes "  ######### ####  ##      ### ######    \r\n"
    ∷ codes "  ###  ###  #### ###     ###    ######  \r\n"
    ∷ codes " ###  ###  #### ##     ### ##    ####   \r\n"
    ∷ codes " ################ ########  ########    \r\n"
    ∷ codes "\r\n"
    ∷ []

abbrev pub color_lines : List (List ℕ)
color_lines =
    codes "0 FOR BLACK\r\n"
    ∷ codes "1 FOR BLUE\r\n"
    ∷ codes "2 FOR GREEN\r\n"
    ∷ codes "3 FOR CYAN\r\n"
    ∷ codes "4 FOR RED\r\n"
    ∷ codes "5 FOR MAGENTA\r\n"
    ∷ codes "6 FOR BROWN\r\n"
    ∷ codes "7 FOR LIGHT GREY\r\n"
    ∷ codes "8 FOR DARK GREY\r\n"
    ∷ codes "9 FOR LIGHT BLUE\r\n"
    ∷ codes "10 FOR LIGHT CYAN\r\n"
    ∷ codes "11 FOR DARK CYAN\r\n"
    ∷ codes "12 FOR LIGHT MAGENTA\r\n"
    ∷ codes "13 FOR DARK MAGENTA\r\n"
    ∷ codes "14 FOR LIGHT BROWN\r\n"
    ∷ codes "15 FOR WHITE\r\n"
    ∷ codes "Usage: color <text> <background>\r\n"
    ∷ []

-- `t.hours = t.hours + offset; if (t.hours >= 24) t.hours -= 24;`
unfoldable pub shifted_hours : (hours offset : ℕ) → ℕ
shifted_hours hours offset = let h = u8 (hours + offset) in if leb 24 h then h - 24 else h

-- `(total_kb * 1024 > used_bytes) ? (total_kb - (used_bytes / 1024)) : 0`
abbrev pub free_kb : (total_kb used_bytes : ℕ) → ℕ
free_kb total_kb used_bytes =
    if ltb used_bytes (mul32 total_kb 1024) then total_kb - used_bytes / 1024 else 0

-- `k_strcpy(prompt_name, arg)` into an array of 32 bytes; `none` means a write behind it.
abbrev pub set_prompt_name : List ℕ → Shell → Option Shell
set_prompt_name arg s = if ltb (length arg) 32 then some (record s { prompt_name = arg }) else none

module _ {Dev : Type 0} where
  unfoldable pub cmd_help : Action Dev
  unfolding for_each
  cmd_help = for_each say help_lines

  unfoldable pub cmd_cls : Action Dev
  cmd_cls = on_screen reset

  unfoldable pub cmd_ver : Action Dev
  cmd_ver = say (codes "MasterOS v0.6.8 \"OSIX\"\r\n")

  unfoldable pub cmd_echo : Option (List ℕ) → Action Dev
  cmd_echo none = say (codes "\r\n")
  cmd_echo (some arg) = do say arg; say (codes "\r\n")

  unfoldable pub cmd_setprompt : Option (List ℕ) → Action Dev
  cmd_setprompt none = say (codes "Usage: setprompt <name>\r\n")
  cmd_setprompt (some arg) = on_arrays (set_prompt_name arg)

  unfoldable pub cmd_reboot : Action Dev
  cmd_reboot = do say (codes "Rebooting...\r\n"); λ s. ended_by_port 0x64 0xFE

  unfoldable pub cmd_shutdown : Action Dev
  cmd_shutdown = do say (codes "Shutting down...\r\n"); λ s. ended_by_port 0x604 0x2000

  unfoldable pub cmd_halt : Action Dev
  cmd_halt = do say (codes "System halted. You can power off now.\r\n"); λ s. stopped s

  unfoldable pub cpuid : Machine Dev → Action Dev
  cpuid m = do say (codes "CPU Vendor: "); say m.vendor; say (codes "\r\n")

  abbrev pub color_usage : Action Dev
  color_usage = say (codes "Usage: color <text> <background> colorhelp to color codes\r\n")

  -- `set_color` takes two `uint8_t`.
  abbrev pub color_from : (fg : ℕ) → Option (List ℕ) → Action Dev
  color_from fg none = color_usage
  color_from fg (some bg) = on_screen (set_color (u8 fg) (u8 (k_atoi bg)))

  unfoldable pub cmd_color : Option (List ℕ) → Action Dev
  unfolding k_arg k_atoi
  cmd_color none = color_usage
  cmd_color (some arg) = color_from (k_atoi arg) (k_arg arg)

  unfoldable pub cmd_colorhelp : Action Dev
  unfolding for_each
  cmd_colorhelp = for_each say color_lines

  abbrev pub say_time : RtcTime → (hours : ℕ) → Action Dev
  say_time t hours = do
    say (print_uint hours)
    say (codes ":")
    say (print_uint t.minutes)
    say (codes "  ")
    say (print_uint t.day)
    say (codes "/")
    say (print_uint t.month)
    say (codes "/")
    say (print_uint t.year)
    say (codes " \r\n")

  -- `k_atoi(arg)` reads a null pointer where there is no argument.
  unfoldable pub cmd_time : Machine Dev → Option (List ℕ) → Action Dev
  unfolding k_atoi shifted_hours
  cmd_time m none = λ s. fault
  cmd_time m (some arg) = say_time m.now (shifted_hours m.now.hours (k_atoi arg))

  abbrev pub say_system : Machine Dev → (total_kb used_bytes file_count : ℕ) → Action Dev
  say_system m total_kb used_bytes file_count = do
    say (codes "  Disk:    FAT12/16, ")
    say (print_uint used_bytes)
    say (codes " Bytes used / ")
    say (print_uint total_kb)
    say (codes " KB total (")
    say (print_uint (free_kb total_kb used_bytes))
    say (codes " KB free)\r\n")
    say (codes "  Files:   ")
    say (print_uint file_count)
    say (codes " file(s) in root\r\n")
    say (codes "  CPU:     ")
    cpuid m
    say (codes "  Uptime:  ")
    say (print_uint m.uptime)
    say (codes " seconds\r\n")
    say (codes "\r\n")

module _ (D : BlockDevice) (rounds : ℕ) (m : Machine D.Dev) where
  -- The two sizes cannot fail; a listing that fails counts no file.
  unfoldable pub cmd_mfetch : Action D.Dev
  unfolding for_each cpuid
  cmd_mfetch = do
    for_each say logo_lines
    say (codes "  OS:      ")
    say (codes "MasterOS v0.6.9 \"OSIX\"")
    say (codes "\r\n")
    say (codes "  Kernel:  Custom x86 (32-bit)\r\n")
    say (codes "  Shell:   mShell\r\n")
    say (codes "  Memory:  ")
    say (print_uint m.total_mem_kb)
    say (codes " KB\r\n")
    call (fat_get_total_kb D)
        (λ total.
          call (fat_get_used_kb D)
            (λ used.
              call (fat_list D rounds 64) (λ es. say_system m total used (length es))
                (say_system m total used 0))
            nothing)
        nothing

  -- drivers/device/exec.c: the file, of at most 64 KB, is loaded and run.
  unfoldable pub exec_run : List ℕ → Action D.Dev
  exec_run filename =
      call (fat_read D rounds filename (64 * 1024)) m.program
        (do say (codes "Program not found: "); say filename; say (codes "\r\n"))

  unfoldable pub cmd_run : Option (List ℕ) → Action D.Dev
  unfolding exec_run
  cmd_run none = say (codes "Usage: run <program.com>\r\n")
  cmd_run (some arg) = exec_run arg
