-- ===== src/Tests/Ram.antt =====
-- A disk in memory, with a small FAT12 volume: boot sector 0, one table sector 1, one sector of
-- root directory 2, and clusters of one sector from sector 3 on.
use master_os.Base.{ℕ, refl, true, false, Option, none, some, List, [], ◌∷◌, Bytes, put_bytes}
use master_os.Device.{BlockDevice, IsHealthy, put_sector}
use master_os.Fat.Monad.{World, Bpb, Run, done, fail, halted}

abbrev pub ram : BlockDevice
ram = record {
  Dev = ℕ → Bytes;
  ata_read = λ lba d. (some (d lba), d);
  ata_write = λ lba buf d. (true, put_sector d lba buf);
}

abbrev pub ram-IsHealthy : IsHealthy ram
ram-IsHealthy = record {
  contents = λ d. d;
  reads = λ lba d. refl;
  reads_keep = λ lba d. refl;
  writes = λ lba buf d. refl;
  writes_put = λ lba buf d. refl;
}

-- 512 bytes to a sector, one sector to a cluster, one table of one sector, 16 root entries.
abbrev pub boot_sector : Bytes
boot_sector = put_bytes (λ _. 0) 11 (0 ∷ 2 ∷ 1 ∷ 1 ∷ 0 ∷ 1 ∷ 16 ∷ 0 ∷ 64 ∷ 0 ∷ 0xF8 ∷ 1 ∷ 0 ∷ [])

abbrev pub blank_disk : ℕ → Bytes
blank_disk = put_sector (λ _ _. 0) 0 boot_sector

abbrev pub no_bpb : Bpb
no_bpb = record {
  bytes_per_sector = 0;
  sectors_per_cluster = 0;
  reserved_sectors = 0;
  fat_count = 0;
  root_entry_count = 0;
  total_sectors_16 = 0;
  sectors_per_fat = 0;
  total_sectors_32 = 0;
}

-- The values that the C variables start with.
abbrev pub power_on : World (ℕ → Bytes)
power_on = record {
  vars = record {
    bpb = no_bpb;
    initialized = false;
    fat_start = 0;
    root_start = 0;
    data_start = 0;
    root_sectors = 0;
    current_dir_cluster = 0;
    current_path = b'/' ∷ [];
  };
  fat_bufs = λ _ _. 0;
  dev = blank_disk;
}

abbrev pub answer : {A : Type 0} → Run (ℕ → Bytes) A → Option A
answer (done a w) = some a
answer (fail w) = none
answer halted = none

abbrev pub hello_txt : List ℕ
hello_txt = b'h' ∷ b'i' ∷ b'.' ∷ b't' ∷ b'x' ∷ b't' ∷ []

abbrev pub greeting : Bytes
greeting = put_bytes (λ _. 0) 0 (7 ∷ 8 ∷ 9 ∷ [])

-- A volume that holds `hi.txt`, 600 bytes in the clusters 2 and 4, and a directory `D` in cluster 5.
abbrev pub table : Bytes
table = put_bytes (λ _. 0) 3 (4 ∷ 0 ∷ 0 ∷ 0xFF ∷ 0xFF ∷ 0xFF ∷ [])

abbrev pub root_sector : Bytes
root_sector =
    put_bytes
      (put_bytes
        (put_bytes
          (put_bytes (λ _. 0) 0
            (b'H' ∷ b'I' ∷ b' ' ∷ b' ' ∷ b' ' ∷ b' ' ∷ b' ' ∷ b' ' ∷ b'T' ∷ b'X' ∷ b'T' ∷ 0x20
              ∷ []))
          26 (2 ∷ 0 ∷ 0x58 ∷ 2 ∷ 0 ∷ 0 ∷ []))
        32 (b'D' ∷ b' ' ∷ b' ' ∷ b' ' ∷ b' ' ∷ b' ' ∷ b' ' ∷ b' ' ∷ b' ' ∷ b' ' ∷ b' ' ∷ 0x10 ∷ []))
      58 (5 ∷ 0 ∷ [])

abbrev pub full_disk : ℕ → Bytes
full_disk =
    put_sector (put_sector (put_sector (put_sector blank_disk 1 table) 2 root_sector) 3 (λ _. 7)) 5
      (λ _. 9)

-- What `fat_init` makes of the boot sector.
abbrev pub mounted : World (ℕ → Bytes)
mounted = record {
  vars = record {
    bpb = record {
      bytes_per_sector = 512;
      sectors_per_cluster = 1;
      reserved_sectors = 1;
      fat_count = 1;
      root_entry_count = 16;
      total_sectors_16 = 64;
      sectors_per_fat = 1;
      total_sectors_32 = 0;
    };
    initialized = true;
    fat_start = 1;
    root_start = 2;
    data_start = 3;
    root_sectors = 1;
    current_dir_cluster = 0;
    current_path = b'/' ∷ [];
  };
  fat_bufs = λ _ _. 0;
  dev = full_disk;
}
