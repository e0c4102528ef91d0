-- ===== src/Fat/Disk/Layout.antt =====
-- Where the parts of the volume lie, from `fat_init` on.
use native.Mathlib.Nat.{mul-le-mul, div-le_self, lt-div-mul-add, div-lt_iff_lt-mul}
use master_os.Base.{
  ℕ, ◌+◌, ◌*◌, ◌-◌, ◌/◌, ◌^◌, ◌<◌, ◌≤◌, ◌≡◌, ◌≢◌, refl, arith, true, false, ◌==◌, Bytes, IsBytes,
  get16, if◌then◌else◌,
}
use master_os.Device.{BlockDevice, IsHealthy}
use master_os.Fat.Monad.{World, Vars, M, ◌>>=◌, get_vars, set_vars, stuck}
use master_os.Fat.Rules.{Gives, gives, bind, read_sector-Gives}
use master_os.Fat.Disk.{parse_bpb, geometry, fat_init}

-- The copies of the table, then the root directory, then the data, in 32-bit sector numbers.
pub record IsLaidOut (v : Vars) : Type 0 where
  pub initialized : v.initialized ≡ true
  pub table : v.fat_start + v.bpb.fat_count * v.bpb.sectors_per_fat ≡ v.root_start
  pub root : v.root_start + v.root_sectors ≡ v.data_start
  pub small : v.data_start < 2 ^ 32

-- The word at a place of the boot sector, the low byte first.
abbrev pub word_at : Bytes → ℕ → ℕ
word_at boot i = boot i + 256 * boot (i + 1)

-- The variables are those of the volume whose boot sector is `boot`, by the places of the fields
-- in a FAT12 boot sector: the copies of the table lie behind the reserved sectors, the root
-- directory behind them, as the fewest sectors that hold its entries of 32 bytes, and the data
-- behind it.
pub record IsVolume (boot : Bytes) (v : Vars) : Type 0 where
  pub cluster : v.bpb.sectors_per_cluster ≡ boot 13
  pub copies : v.bpb.fat_count ≡ boot 16
  pub copy : v.bpb.sectors_per_fat ≡ word_at boot 22
  pub reserved : v.fat_start ≡ word_at boot 14
  pub after_tables : v.root_start ≡ word_at boot 14 + boot 16 * word_at boot 22
  pub enough : word_at boot 17 * 32 ≤ v.root_sectors * word_at boot 11
  pub fewest : (n : ℕ) → word_at boot 17 * 32 ≤ n * word_at boot 11 → v.root_sectors ≤ n
  pub after_root : v.data_start ≡ v.root_start + v.root_sectors

get16-lt : (buf : Bytes) (i : ℕ) → IsBytes buf → get16 buf i < 65536
get16-lt buf i bytes = omega (arith, bytes i, bytes (i + 1))

module _ {D : BlockDevice} (h : IsHealthy D) where
  -- The rest of `fat_init`, from the boot sector.
  mount_from : Bytes → M D.Dev (Unit {0})
  mount_from buf = do
    v ← get_vars
    if (parse_bpb D buf).bytes_per_sector == 0
        then stuck
        else set_vars (geometry D v (parse_bpb D buf))

  geometry-small :
      (buf : Bytes)
      → IsBytes buf
      → get16 buf 14
          + buf 16 * get16 buf 22
          + (get16 buf 17 * 32 + (get16 buf 11 - 1)) / get16 buf 11
        < 4294967296
  geometry-small buf bytes =
      let reserved : get16 buf 14 < 65536 = get16-lt buf 14 bytes in
      let tables : buf 16 * get16 buf 22 ≤ 256 * 65536 =
        mul-le-mul {n₂ = 256} {m₂ = 65536} (omega (arith, bytes 16))
          (omega (arith, get16-lt buf 22 bytes)) in
      omega (
        arith,
        get16-lt buf 17 bytes,
        get16-lt buf 11 bytes,
        div-le_self (get16 buf 17 * 32 + (get16 buf 11 - 1)) (get16 buf 11),
      )

  geometry-IsLaidOut :
      (v : Vars) (buf : Bytes) → IsBytes buf → IsLaidOut (geometry D v (parse_bpb D buf))
  unfolding parse_bpb
  geometry-IsLaidOut v buf bytes = record {
    initialized = refl;
    table = refl;
    root = refl;
    small = geometry-small buf bytes;
  }

  -- Rounding up.
  round_up-enough : (n m : ℕ) → 0 < m → n ≤ (n + (m - 1)) / m * m
  round_up-enough n m pos = omega (arith, lt-div-mul-add {a = n + (m - 1)} {b = m} pos)

  round_up-fewest : (n m k : ℕ) → 0 < m → n ≤ k * m → (n + (m - 1)) / m ≤ k
  round_up-fewest n m k pos le =
      let more : n + (m - 1) < (k + 1) * m = omega arith in
      let lt : (n + (m - 1)) / m < k + 1 =
        (div-lt_iff_lt-mul {k = m} {x = n + (m - 1)} {y = k + 1} pos).1 more in
      omega arith

  geometry-IsVolume :
      (v : Vars) (buf : Bytes)
      → (parse_bpb D buf).bytes_per_sector ≢ 0
      → IsVolume buf (geometry D v (parse_bpb D buf))
  unfolding parse_bpb
  geometry-IsVolume v buf some_size =
      let size : get16 buf 11 ≡ word_at buf 11 = omega arith in
      let entries : get16 buf 17 ≡ word_at buf 17 = omega arith in
      let sectors : get16 buf 22 ≡ word_at buf 22 = omega arith in
      record {
        cluster = refl;
        copies = refl;
        copy = sectors;
        reserved = omega arith;
        after_tables = rw sectors (omega arith);
        enough =
            rw (← size, ← entries)
              (round_up-enough (get16 buf 17 * 32) (get16 buf 11) (omega arith));
        fewest = λ n le.
            round_up-fewest (get16 buf 17 * 32) (get16 buf 11) n (omega arith)
              (rw (size, entries) le);
        after_root = refl;
      }

  mounted :
      {d : ℕ → Bytes} (buf : Bytes) (w : World D.Dev)
      → h.contents w.dev ≡ d
      → IsBytes buf
      → (parse_bpb D buf).bytes_per_sector ≢ 0
      → Gives
          (λ _ w'. IsVolume buf w'.vars × IsLaidOut w'.vars × (h.contents w'.dev ≡ d))
          (mount_from buf w)
  unfolding mount_from
  mounted buf w same bytes some_size =
      let size : ((parse_bpb D buf).bytes_per_sector == 0) ≡ false = ground arith in
      rw size
        (gives (geometry-IsVolume w.vars buf some_size, geometry-IsLaidOut w.vars buf bytes, same))

  -- On a disk that answers, whose boot sector holds bytes and gives a sector size, `fat_init`
  -- comes back with the geometry that the fields of the boot sector describe: the tables behind
  -- the reserved sectors, the root directory in the fewest sectors that hold its entries, the
  -- data behind it, all in 32 bits; the file system is ready and the disk as it was.
  pub fat_init-IsLaidOut :
      (w : World D.Dev)
      → IsBytes (h.contents w.dev 0)
      → (parse_bpb D (h.contents w.dev 0)).bytes_per_sector ≢ 0
      → Gives
          (λ _ w'.
            IsVolume (h.contents w.dev 0) w'.vars
            × IsLaidOut w'.vars
            × (h.contents w'.dev ≡ h.contents w.dev))
          (fat_init D w)
  unfolding fat_init mount_from
  fat_init-IsLaidOut w bytes some_size =
      bind {k = λ buf. mount_from buf} (read_sector-Gives h 0 w)
        (λ buf w1 p. rw p.0 (mounted (h.contents w.dev 0) w1 p.1.disk bytes some_size))
