-- ===== src/Fat/Monad.antt =====
-- The state of the file system, and its effects: a function of drivers/fs/fat.c either goes on
-- with a value, returns -1, or does not come back.
use master_os.Base.{ℕ, Bool, true, false, Option, none, some, List, Bytes, ◌==◌, if◌then◌else◌}
use master_os.Device.{BlockDevice}

-- `BPB`: the fields that the code reads.
pub record Bpb : Type 0 where
  pub bytes_per_sector : ℕ
  pub sectors_per_cluster : ℕ
  pub reserved_sectors : ℕ
  pub fat_count : ℕ
  pub root_entry_count : ℕ
  pub total_sectors_16 : ℕ
  pub sectors_per_fat : ℕ
  pub total_sectors_32 : ℕ

-- The file-scope variables of fat.c.
pub record Vars : Type 0 where
  pub bpb : Bpb
  pub initialized : Bool
  pub fat_start : ℕ
  pub root_start : ℕ
  pub data_start : ℕ
  pub root_sectors : ℕ
  pub current_dir_cluster : ℕ
  pub current_path : List ℕ

-- The functions that have a `static uint8_t fat_buf[18 * 512]` of their own.
pub data Owner : Type 0 where
  list read delete rename write mkdir cd rmdir : Owner

abbrev pub slot : Owner → ℕ
slot list = 0
slot read = 1
slot delete = 2
slot rename = 3
slot write = 4
slot mkdir = 5
slot cd = 6
slot rmdir = 7

-- `fat_bufs (slot f)` is the table buffer of function `f`, which keeps its bytes between calls.
pub record World (Dev : Type 0) : Type 0 where
  pub vars : Vars
  pub fat_bufs : ℕ → Bytes
  pub dev : Dev

-- `halted`: a loop that has used up its rounds, or a division by zero, which stops the system.
pub data Run (Dev A : Type 0) : Type 0 where
  done : A → World Dev → Run Dev A
  fail : World Dev → Run Dev A
  halted : Run Dev A

abbrev pub M : Type 0 → Type 0 → Type 0
M Dev A = World Dev → Run Dev A

abbrev pub put_buf : (ℕ → Bytes) → ℕ → Bytes → ℕ → Bytes
put_buf bufs f buf g = if g == f then buf else bufs g

module _ {Dev : Type 0} where
  abbrev pub pure : {A : Type 0} → A → M Dev A
  pure a w = done a w

  abbrev pub and_then : {A B : Type 0} → Run Dev A → (A → M Dev B) → Run Dev B
  and_then (done a w) k = k a w
  and_then (fail w) k = fail w
  and_then halted k = halted

  infixl 5 ◌>>=◌ ◌>>◌
  abbrev pub ◌>>=◌ : {A B : Type 0} → M Dev A → (A → M Dev B) → M Dev B
  ◌>>=◌ m k w = and_then (m w) k

  abbrev pub ◌>>◌ : {B : Type 0} → M Dev (Unit {0}) → M Dev B → M Dev B
  ◌>>◌ m k w = and_then (m w) (λ _. k)

  -- `return -1;`
  abbrev pub failed : {A : Type 0} → M Dev A
  failed w = fail w

  abbrev pub stuck : {A : Type 0} → M Dev A
  stuck w = halted

  -- A call whose result is not looked at.
  abbrev pub settle : {A : Type 0} → Run Dev A → Run Dev (Unit {0})
  settle (done a w) = done tt w
  settle (fail w) = done tt w
  settle halted = halted

  abbrev pub ignored : {A : Type 0} → M Dev A → M Dev (Unit {0})
  ignored m w = settle (m w)

  abbrev pub get_vars : M Dev Vars
  get_vars w = done w.vars w

  abbrev pub set_vars : Vars → M Dev (Unit {0})
  set_vars v w = done tt (record w { vars = v })

  abbrev pub get_fat : Owner → M Dev Bytes
  get_fat f w = done (w.fat_bufs (slot f)) w

  abbrev pub set_fat : Owner → Bytes → M Dev (Unit {0})
  set_fat f buf w = done tt (record w { fat_bufs = put_buf w.fat_bufs (slot f) buf })

-- The calls of the disk driver.
module _ (D : BlockDevice) where
  abbrev pub after_read : World D.Dev → Option Bytes × D.Dev → Run D.Dev (Option Bytes)
  after_read w (r, d) = done r (record w { dev = d })

  abbrev pub try_read : ℕ → M D.Dev (Option Bytes)
  try_read lba w = after_read w (D.ata_read lba w.dev)

  abbrev pub after_write : World D.Dev → Bool × D.Dev → Run D.Dev (Unit {0})
  after_write w (true, d) = done tt (record w { dev = d })
  after_write w (false, d) = fail (record w { dev = d })

  -- `if (ata_write(lba, 1, buf) != 0) return -1;`
  abbrev pub write_sector : ℕ → Bytes → M D.Dev (Unit {0})
  write_sector lba buf w = after_write w (D.ata_write lba buf w.dev)

  abbrev pub or_fail : Option Bytes → M D.Dev Bytes
  or_fail none = failed
  or_fail (some buf) = pure buf

  -- `if (ata_read(lba, 1, buf) != 0) return -1;`
  abbrev pub read_sector : ℕ → M D.Dev Bytes
  read_sector lba = do r ← try_read lba; or_fail r
