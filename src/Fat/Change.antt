-- ===== src/Fat/Change.antt =====
-- drivers/fs/fat.c: fat_cd, and the figures about the disk (fat_get_total_kb, fat_get_used_kb).
use master_os.Base.{
  ℕ, zero, suc, ◌+◌, ◌/◌, ◌&&◌, ◌||◌, Bool, true, false, not, Option, none, some, List, [], ◌∷◌,
  ◌++◌, ◌==◌, length, ltb, if◌then◌else◌, add32, mul32, Bytes,
}
use master_os.Device.{BlockDevice}
use master_os.Fat.Monad.{
  Vars, Owner, M, pure, ◌>>=◌, ◌>>◌, failed, stuck, get_vars, set_vars, try_read,
}
use master_os.Fat.Disk.{load_fat}
use master_os.Fat.Dir.{
  is_directory, first_cluster, file_size, entry_first, entry_name, attributes, has_bits, Place,
  find_entry,
}

-- `name[0] == '.' && name[1] == '.' && name[2] == '\0'`
unfoldable pub is_parent : List ℕ → Bool
is_parent [] = false
is_parent (a ∷ []) = false
is_parent (a ∷ b ∷ []) = a == b'.' && b == b'.'
is_parent (a ∷ b ∷ c ∷ s) = a == b'.' && b == b'.' && c == 0

-- `current_path` after entering a directory: `/` is followed by the name at once.
unfoldable pub extend_path : List ℕ → List ℕ → List ℕ
extend_path [] name = b'/' ∷ name
extend_path (c ∷ []) name = b'/' ∷ name
extend_path (c ∷ d ∷ s) name = (c ∷ d ∷ s) ++ b'/' ∷ name

abbrev pub enter : Vars → Place → Vars
enter v p = record v {
  current_dir_cluster = first_cluster p.bytes p.at_entry;
  current_path = extend_path v.current_path (entry_name p.bytes p.at_entry);
}

-- The path and its final 0 are within the 256 bytes of `current_path`.
abbrev pub path_fits : Vars → Bool
path_fits v = ltb (length v.current_path) 256

abbrev pub to_root : Vars → Vars
to_root v = record v { current_dir_cluster = 0; current_path = b'/' ∷ [] }

-- Entries of one sector, from `i` on: the sum so far, and whether the directory ends here.
unfoldable pub sum_sizes : Bytes → (left i used : ℕ) → ℕ × Bool
sum_sizes buf zero i used = (used, false)
sum_sizes buf (suc left) i used =
    let skip = sum_sizes buf left (i + 1) used in
    let count = sum_sizes buf left (i + 1) (add32 used (file_size buf i)) in
    if entry_first buf i == 0x00
    then (used, true)
    else if entry_first buf i == 0xE5 || has_bits (attributes buf i) 0x08
    then skip
    else count

module _ (D : BlockDevice) where
  -- A path that is written behind its array is not followed.
  unfoldable pub cd_place : Option Place → M D.Dev (Unit {0})
  cd_place none = failed
  cd_place (some p) = do v ← get_vars; if path_fits (enter v p) then set_vars (enter v p) else stuck

  unfoldable pub fat_cd : (rounds : ℕ) (name : List ℕ) → M D.Dev (Unit {0})
  unfolding cd_place
  fat_cd rounds name = do
    v ← get_vars
    if not v.initialized then failed else if is_parent name then set_vars (to_root v) else do
      load_fat D Owner.cd
      found ← find_entry D Owner.cd (is_directory name) rounds 0
      cd_place found

  unfoldable pub fat_get_total_kb : M D.Dev ℕ
  fat_get_total_kb = do
    v ← get_vars
    let total =
        if v.bpb.total_sectors_16 == 0 then v.bpb.total_sectors_32 else v.bpb.total_sectors_16
    pure (if v.initialized then mul32 total v.bpb.bytes_per_sector / 1024 else 0)

  unfoldable pub used_from : ℕ → ℕ → ℕ → M D.Dev ℕ
  unfolding sum_sizes
  used_from zero s used = pure used
  used_from (suc left) s used = do
    v ← get_vars
    r ← try_read D (add32 v.root_start s)
    elim r [
      | none ↦ pure 0
      | some buf ↦
          let (used', at_end) = sum_sizes buf 16 0 used in
          if at_end then pure used' else used_from left (s + 1) used'
    ]

  -- Despite its name the sum is in bytes.
  unfoldable pub fat_get_used_kb : M D.Dev ℕ
  unfolding used_from
  fat_get_used_kb = do v ← get_vars; if v.initialized then used_from v.root_sectors 0 0 else pure 0

-- The assignments of `fat_set_current`.
unfoldable pub fat_set_current : {Dev : Type 0} → (cluster : ℕ) (path : List ℕ) → M Dev (Unit {0})
fat_set_current cluster path = do
  v ← get_vars
  set_vars (record v { current_dir_cluster = cluster; current_path = path })
