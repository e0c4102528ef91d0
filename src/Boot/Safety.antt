-- ===== src/Boot/Safety.antt =====
-- From the call of kmain to the keys that the shell reads, the cursor stays on the screen.
use master_os.Base.{ℕ, List}
use master_os.Device.{BlockDevice}
use master_os.Ata.{Controller}
use master_os.Screen.{Screen}
use master_os.Screen.Safety.{IsValid}
use master_os.Login
use master_os.Login.{Input}
use master_os.Login.Safety.{IsInput}
use master_os.Shell.Actions.{Outcome, after}
use master_os.Shell.Rules.{Leaves, Keeps}
use master_os.Shell.Info.{Machine}
use master_os.Shell.Execute.{handle_chars}
use master_os.Boot.{Kernel, Start, stands, locked_out, waits_for_keys, in_shell, Image}

module _ (D : BlockDevice) (Ports : Type 0) (rounds : ℕ) (m : Machine D.Dev) where
  -- The cursor is on the screen wherever the start has come to; in the shell it stays there, and
  -- the line stays within its buffer, whatever is read of the keys that are left.
  pub data IsSafe : Start D.Dev Ports → Type 0 where
    stand_safe : {k : Kernel D.Dev Ports} → IsValid k.screen → IsSafe (stands k)
    lock_safe : {k : Kernel D.Dev Ports} {i : Input} → IsInput i → IsSafe (locked_out k i)
    wait_safe : {k : Kernel D.Dev Ports} {i : Input} → IsInput i → IsSafe (waits_for_keys k i)
    shell_safe :
        {k : Kernel D.Dev Ports} {keys : List ℕ} {o : Outcome D.Dev}
        → Leaves (after o (handle_chars D rounds m keys))
        → IsSafe (in_shell k keys o)

module _ (C : Controller) (D : BlockDevice) (image : Image) (rounds : ℕ) (m : Machine D.Dev)
    (runs : (bytes : List ℕ) → Keeps (m.program bytes)) where
  abbrev Safe : Start D.Dev C.State → Type 0
  Safe = IsSafe D C.State rounds m
