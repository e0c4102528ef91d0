-- ===== src/Shell/Files.antt =====
-- shell.c: the commands on files and directories. Those that work on the disk take the
-- `rounds` of the file system's loops.
pub mod Safety
use master_os.Base.{
  ℕ, zero, suc, ◌+◌, ◌-◌, ◌*◌, Bool, true, false, Option, none, some, List, [], ◌∷◌, length, get_or,
  ◌==◌, if◌then◌else◌, Bytes,
}
use master_os.Text.{codes}
use master_os.Device.{BlockDevice}
use master_os.Stdio.{print_uint}
use master_os.Fat.Read.{Fat12Entry, fat_list, fat_read}
use master_os.Fat.Remove.{fat_delete, fat_rmdir, fat_rename}
use master_os.Fat.Create.{fat_write, fat_mkdir}
use master_os.Fat.Change.{fat_cd}
use master_os.Shell.Actions.{System, Outcome, fault, Action, ◌>>◌, nothing, say, call, for_each}
use master_os.Shell.Words.{k_arg, k_first_word}

-- The bytes of a string or of a result, as a buffer.
abbrev pub buffer_of : List ℕ → Bytes
buffer_of s k = get_or s k 0

module _ {Dev : Type 0} where
  abbrev pub say_name : (before name : List ℕ) → Action Dev
  say_name before name = do say before; say name; say (codes "\r\n")

  -- A character of a file: carriage returns are left out, and put before each new line.
  abbrev pub say_char : ℕ → Action Dev
  say_char c = if c == 0x0D then nothing else if c == 0x0A then say (codes "\r\n") else say (c ∷ [])

  abbrev pub say_entry : Fat12Entry → Action Dev
  say_entry e = do
    if e.is_dir then (do say (codes "  [DIR] "); say e.name) else (do
      say (codes "  ")
      say e.name
      say (codes "  (")
      say (print_uint e.size)
      say (codes " bytes)"))
    say (codes "\r\n")

  abbrev pub say_listing : List Fat12Entry → Action Dev
  say_listing [] = say (codes "No files found.\r\n")
  say_listing (e ∷ es) = do say (codes "Directory listing:\r\n"); for_each say_entry (e ∷ es)

module _ (D : BlockDevice) (rounds : ℕ) where
  unfoldable pub cmd_cd : Option (List ℕ) → Action D.Dev
  cmd_cd none = say (codes "Usage: cd <dirname>\r\n")
  cmd_cd (some arg) =
      call (fat_cd D rounds arg) (λ _. nothing) (say_name (codes "Directory not found: ") arg)

  unfoldable pub cmd_mkdir : Option (List ℕ) → Action D.Dev
  cmd_mkdir none = say (codes "Usage: mkdir <dirname>\r\n")
  cmd_mkdir (some arg) =
      call (fat_mkdir D rounds arg) (λ _. say_name (codes "Created: ") arg)
        (say (codes "Failed to create directory.\r\n"))

  unfoldable pub cmd_rmdir : Option (List ℕ) → Action D.Dev
  cmd_rmdir none = say (codes "Usage: rmdir <dirname>\r\n")
  cmd_rmdir (some arg) =
      call (fat_rmdir D rounds arg) (λ _. say_name (codes "Removed: ") arg)
        (say_name (codes "Directory not found: ") arg)

  unfoldable pub cmd_dir : Action D.Dev
  unfolding for_each
  cmd_dir = call (fat_list D rounds 64) say_listing (say (codes "Error: could not read disk.\r\n"))

  unfoldable pub cmd_type : Option (List ℕ) → Action D.Dev
  unfolding for_each
  cmd_type none = say (codes "Usage: type <filename>\r\n")
  cmd_type (some arg) =
      call (fat_read D rounds arg (32 * 1024))
        (λ bytes. do for_each say_char bytes; say (codes "\r\n"))
        (say_name (codes "File not found: ") arg)

  unfoldable pub cmd_del : Option (List ℕ) → Action D.Dev
  cmd_del none = say (codes "Usage: del <filename>\r\n")
  cmd_del (some arg) =
      call (fat_delete D rounds arg) (λ _. say_name (codes "Deleted: ") arg)
        (say_name (codes "File not found: ") arg)

  abbrev pub rename_to : List ℕ → Option (List ℕ) → Action D.Dev
  rename_to old_name none = say (codes "Usage: ren <oldname> <newname>\r\n")
  rename_to old_name (some new_name) =
      call (fat_rename D rounds old_name new_name)
        (λ _. do
          say (codes "Renamed ")
          say old_name
          say (codes " to ")
          say new_name
          say (codes "\r\n"))
        (say_name (codes "File not found: ") old_name)

  unfoldable pub cmd_ren : Option (List ℕ) → Action D.Dev
  unfolding k_first_word k_arg
  cmd_ren none = say (codes "Usage: ren <oldname> <newname>\r\n")
  cmd_ren (some arg) = rename_to (k_first_word arg 32) (k_arg arg)

  abbrev pub say_copied : (source target : List ℕ) → ℕ → Action D.Dev
  say_copied source target n = do
    say (codes "Copied ")
    say source
    say (codes " to ")
    say target
    say (codes " (")
    say (print_uint n)
    say (codes " bytes)\r\n")

  abbrev pub copy_to : List ℕ → Option (List ℕ) → Action D.Dev
  copy_to source none = say (codes "Usage: copy <source> <destination>\r\n")
  copy_to source (some target) =
      call (fat_read D rounds source (32 * 1024))
        (λ bytes.
          call (fat_write D rounds target (buffer_of bytes) (length bytes))
            (λ _. say_copied source target (length bytes))
            (say (codes "Copy failed (disk full or error).\r\n")))
        (say_name (codes "Source not found: ") source)

  unfoldable pub cmd_copy : Option (List ℕ) → Action D.Dev
  unfolding k_first_word k_arg
  cmd_copy none = say (codes "Usage: copy <source> <destination>\r\n")
  cmd_copy (some arg) = copy_to (k_first_word arg 32) (k_arg arg)

  -- `k_strlen(context)` comes before the test of `context`: a null pointer is read.
  abbrev pub create_from : List ℕ → Option (List ℕ) → Action D.Dev
  create_from filename none = λ s. fault
  create_from filename (some context) =
      call (fat_write D rounds filename (buffer_of context) (length context)) (λ _. nothing) nothing

  unfoldable pub cmd_create : Option (List ℕ) → Action D.Dev
  unfolding k_first_word k_arg
  cmd_create none = say (codes "Usage: create <filename> <context>\r\n")
  cmd_create (some arg) = create_from (k_first_word arg 32) (k_arg arg)
