-- ===== src/Device.antt =====
-- What the file system asks of the disk driver: drivers/fs/ata.h, called with one sector at a
-- time. The operations are parameters of the file system's model, and the device may fail.
use master_os.Base.{ℕ, ◌≡◌, Bool, true, Option, some, Bytes, ◌==◌, if◌then◌else◌}

-- `none` and `false` are the -1 of `ata_read` and `ata_write`.
pub record BlockDevice : Type 1 where
  pub Dev : Type 0
  pub ata_read : (lba : ℕ) → Dev → Option Bytes × Dev
  pub ata_write : (lba : ℕ) → Bytes → Dev → Bool × Dev

-- A sector is written whole, and the others keep their bytes.
abbrev pub put_sector : (ℕ → Bytes) → ℕ → Bytes → ℕ → Bytes
put_sector disk lba buf l = if l == lba then buf else disk l

-- A disk that answers every request: reads give the bytes last written and change none.
pub record IsHealthy (D : BlockDevice) : Type 0 where
  pub contents : D.Dev → ℕ → Bytes
  pub reads : (lba : ℕ) (d : D.Dev) → (D.ata_read lba d).0 ≡ some (contents d lba)
  pub reads_keep : (lba : ℕ) (d : D.Dev) → contents (D.ata_read lba d).1 ≡ contents d
  pub writes : (lba : ℕ) (buf : Bytes) (d : D.Dev) → (D.ata_write lba buf d).0 ≡ true
  pub writes_put :
      (lba : ℕ) (buf : Bytes) (d : D.Dev)
      → contents (D.ata_write lba buf d).1 ≡ put_sector (contents d) lba buf
