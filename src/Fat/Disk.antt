-- ===== src/Fat/Disk.antt =====
-- Sectors: the table and the directories on the disk (drivers/fs/fat.c: load_fat, write_fat,
-- read_dir_sector, fat_init, and the write-back of a directory sector).
pub mod Layout
pub mod Load
pub mod Store
use master_os.Base.{
  ℕ, zero, suc, ◌+◌, ◌-◌, ◌*◌, ◌/◌, ◌%◌, ◌^◌, Bool, true, false, ◌&&◌, ◌||◌, Option, none, some,
  ltb, leb, ◌==◌, if◌then◌else◌, u16, u32, add32, mul32, sub32, Bytes, get16, get32,
}
use master_os.Device.{BlockDevice}
use master_os.Fat.Monad.{
  Bpb, Vars, Owner, World, Run, done, fail, halted, M, pure, and_then, ◌>>=◌, ◌>>◌, failed, stuck,
  settle, ignored, get_vars, set_vars, get_fat, set_fat, try_read, read_sector, write_sector,
}
use master_os.Fat.Table.{fat_next_cluster}

-- `memcpy` of a sector to offset `at` of a table buffer, and the sector at an offset of one.
unfoldable pub copy_sector : Bytes → ℕ → Bytes → Bytes
copy_sector fat_buf at sector i =
    if leb at i && ltb i (at + 512) then sector (i - at) else fat_buf i

abbrev pub sector_at : Bytes → ℕ → Bytes
sector_at fat_buf at i = fat_buf (at + i)

-- `bpb.sectors_per_fat; if (fat_secs > 18) fat_secs = 18;`
abbrev pub fat_secs : Bpb → ℕ
fat_secs bpb = if ltb 18 bpb.sectors_per_fat then 18 else bpb.sectors_per_fat

-- `(uint32_t)(cluster - 2) * spc`, where the difference is an `int`.
abbrev pub cluster_lba : Vars → ℕ → ℕ → ℕ
cluster_lba v cluster soff = u32 (v.data_start + sub32 cluster 2 * v.bpb.sectors_per_cluster + soff)

-- The cluster walks of `read_dir_sector`, with its checks, and of the write-backs, without.
unfoldable pub nth_cluster : Bytes → ℕ → ℕ → Option ℕ
nth_cluster fat_buf zero cluster = some cluster
nth_cluster fat_buf (suc n) cluster =
    let next = fat_next_cluster fat_buf cluster in
    let rest = nth_cluster fat_buf n next in if ltb next 2 || leb 0xFF8 next then none else rest

unfoldable pub walk : Bytes → ℕ → ℕ → ℕ
walk fat_buf zero cluster = cluster
walk fat_buf (suc n) cluster = walk fat_buf n (fat_next_cluster fat_buf cluster)

-- The results 0, 1 and -1 of `read_dir_sector`.
pub data DirRead : Type 0 where
  sector : Bytes → DirRead
  end error : DirRead

module _ (D : BlockDevice) where
  unfoldable pub load_fat_from : Owner → ℕ → ℕ → ℕ → M D.Dev (Unit {0})
  load_fat_from f start zero s = pure tt
  load_fat_from f start (suc left) s = do
    buf ← read_sector D (add32 start s)
    fat_buf ← get_fat f
    set_fat f (copy_sector fat_buf (s * 512) buf)
    load_fat_from f start left (s + 1)

  -- The table read into the function's own buffer.
  unfoldable pub load_fat : Owner → M D.Dev (Unit {0})
  unfolding load_fat_from
  load_fat f = do v ← get_vars; load_fat_from f v.fat_start (fat_secs v.bpb) 0

  -- `if (!initialized) return -1;`, with which an operation begins.
  abbrev pub guarded : {A : Type 0} → M D.Dev A → M D.Dev A
  guarded op = do v ← get_vars; if v.initialized then op else failed

  unfoldable pub write_copy : Bytes → ℕ → ℕ → ℕ → M D.Dev (Unit {0})
  write_copy fat_buf start zero s = pure tt
  write_copy fat_buf start (suc left) s = do
    write_sector D (add32 start s) (sector_at fat_buf (s * 512))
    write_copy fat_buf start left (s + 1)

  unfoldable pub write_copies : Bytes → Vars → ℕ → ℕ → M D.Dev (Unit {0})
  write_copies fat_buf v zero f = pure tt
  write_copies fat_buf v (suc left) f = do
    write_copy fat_buf (u32 (v.fat_start + f * v.bpb.sectors_per_fat)) (fat_secs v.bpb) 0
    write_copies fat_buf v left (f + 1)

  unfoldable pub write_fat : Owner → M D.Dev (Unit {0})
  unfolding write_copies write_copy
  write_fat o = do v ← get_vars; fat_buf ← get_fat o; write_copies fat_buf v v.bpb.fat_count 0

  abbrev pub read_result : Option Bytes → DirRead
  read_result none = error
  read_result (some buf) = sector buf

  abbrev pub read_as_dir : ℕ → M D.Dev DirRead
  read_as_dir lba = do r ← try_read D lba; pure (read_result r)

  abbrev pub read_found : Vars → ℕ → Option ℕ → M D.Dev DirRead
  read_found v soff none = pure end
  read_found v soff (some cluster) = read_as_dir (cluster_lba v cluster soff)

  -- A cluster size of 0 makes the division by it fault.
  unfoldable pub read_dir_sector : Owner → ℕ → M D.Dev DirRead
  unfolding nth_cluster
  read_dir_sector f s = do
    v ← get_vars
    fat_buf ← get_fat f
    if v.current_dir_cluster == 0
        then (if leb v.root_sectors s then pure end else read_as_dir (add32 v.root_start s))
        else (if v.bpb.sectors_per_cluster == 0
            then stuck
            else read_found v (s % v.bpb.sectors_per_cluster)
                (nth_cluster fat_buf (s / v.bpb.sectors_per_cluster) (u16 v.current_dir_cluster)))

  -- `return ata_write(...)` of a changed directory sector.
  unfoldable pub write_dir_sector : Owner → ℕ → Bytes → M D.Dev (Unit {0})
  unfolding walk
  write_dir_sector f s buf = do
    v ← get_vars
    fat_buf ← get_fat f
    if v.current_dir_cluster == 0
        then write_sector D (add32 v.root_start s) buf
        else write_sector D
            (cluster_lba v
              (walk fat_buf (s / v.bpb.sectors_per_cluster) (u16 v.current_dir_cluster))
              (s % v.bpb.sectors_per_cluster))
            buf

  -- The fields of the packed `BPB` at the start of sector 0.
  unfoldable pub parse_bpb : Bytes → Bpb
  parse_bpb b = record {
    bytes_per_sector = get16 b 11;
    sectors_per_cluster = b 13;
    reserved_sectors = get16 b 14;
    fat_count = b 16;
    root_entry_count = get16 b 17;
    total_sectors_16 = get16 b 19;
    sectors_per_fat = get16 b 22;
    total_sectors_32 = get32 b 32;
  }

  abbrev pub geometry : Vars → Bpb → Vars
  geometry v b = record v {
    bpb = b;
    initialized = true;
    fat_start = b.reserved_sectors;
    root_start = b.reserved_sectors + b.fat_count * b.sectors_per_fat;
    root_sectors = (b.root_entry_count * 32 + (b.bytes_per_sector - 1)) / b.bytes_per_sector;
    data_start =
        b.reserved_sectors
        + b.fat_count * b.sectors_per_fat
        + (b.root_entry_count * 32 + (b.bytes_per_sector - 1)) / b.bytes_per_sector;
  }

  -- A sector size of 0 makes the division fault.
  unfoldable pub fat_init : M D.Dev (Unit {0})
  unfolding parse_bpb
  fat_init = do
    buf ← read_sector D 0
    v ← get_vars
    if (parse_bpb buf).bytes_per_sector == 0 then stuck else set_vars (geometry v (parse_bpb buf))
