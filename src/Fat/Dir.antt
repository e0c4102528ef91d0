-- ===== src/Fat/Dir.antt =====
-- Directory sectors: the 32-byte entries of `RawDirEntry`, and the search that the functions of
-- drivers/fs/fat.c share: sector after sector, entry after entry, until an entry is taken, an
-- entry ends the directory, or no sector is left.
pub mod Found
pub mod Opened
pub mod Root
pub mod Search
use master_os.Base.{
  ℕ, zero, suc, ◌+◌, ◌*◌, ◌≤◌, Bool, true, false, ◌&&◌, ◌||◌, not, Option, none, some, List, [],
  ◌∷◌, ◌==◌, if◌then◌else◌, bit_and, add32, Bytes, bytes_at, get16, get32,
}
use master_os.Base.Int.{ℤ, pos, negsuc, is_zero}
use master_os.Device.{BlockDevice}
use master_os.Fat.Monad.{Owner, M, pure, and_then, ◌>>=◌, stuck}
use master_os.Fat.Names.{make_name, k_strcmp_nocase}
use master_os.Fat.Disk.{DirRead, sector, end, error, read_dir_sector}

abbrev pub entry_first : Bytes → ℕ → ℕ
entry_first buf i = buf (i * 32)

abbrev pub attributes : Bytes → ℕ → ℕ
attributes buf i = buf (i * 32 + 11)

abbrev pub first_cluster : Bytes → ℕ → ℕ
first_cluster buf i = get16 buf (i * 32 + 26)

abbrev pub file_size : Bytes → ℕ → ℕ
file_size buf i = get32 buf (i * 32 + 28)

abbrev pub entry_name : Bytes → ℕ → List ℕ
entry_name buf i = make_name (bytes_at buf (i * 32) 8) (bytes_at buf (i * 32 + 8) 3)

abbrev pub has_bits : ℕ → ℕ → Bool
has_bits attr mask = not (bit_and attr mask == 0)

abbrev pub named : List ℕ → Bytes → ℕ → Bool
named name buf i = is_zero (k_strcmp_nocase (entry_name buf i) name)

-- What a loop does at an entry: take it, go past it, or leave the directory.
pub data Verdict : Type 0 where
  taken skipped ended : Verdict

-- fat_read, fat_delete and fat_rename look for a file.
unfoldable pub is_file : List ℕ → Bytes → ℕ → Verdict
is_file name buf i =
    if entry_first buf i == 0x00
    then ended
    else if entry_first buf i == 0xE5
    then skipped
    else if has_bits (attributes buf i) 0x08
    then skipped
    else if has_bits (attributes buf i) 0x10
    then skipped
    else if named name buf i
    then taken
    else skipped

-- fat_cd and fat_rmdir look for a directory.
unfoldable pub is_directory : List ℕ → Bytes → ℕ → Verdict
is_directory name buf i =
    if entry_first buf i == 0x00
    then ended
    else if entry_first buf i == 0xE5
    then skipped
    else if not (has_bits (attributes buf i) 0x10)
    then skipped
    else if entry_first buf i == b'.'
    then skipped
    else if named name buf i
    then taken
    else skipped

-- fat_write and fat_mkdir look for a place.
unfoldable pub is_vacant : Bytes → ℕ → Verdict
is_vacant buf i = if entry_first buf i == 0x00 || entry_first buf i == 0xE5 then taken else skipped

pub data Scan : Type 0 where
  hit : ℕ → Scan
  last missed : Scan

-- `for (int i = 0; i < 512/32; i++)` at `i`, with `left` entries to go.
unfoldable pub scan_from : (Bytes → ℕ → Verdict) → Bytes → ℕ → ℕ → Scan
scan_from verdict buf zero i = missed
scan_from verdict buf (suc left) i = elim (verdict buf i) [
  | taken ↦ hit i
  | skipped ↦ scan_from verdict buf left (i + 1)
  | ended ↦ last
]

abbrev pub scan : (Bytes → ℕ → Verdict) → Bytes → Scan
scan verdict buf = scan_from verdict buf 16 0

-- An entry that was found: its sector in the directory, its index, and the sector's bytes.
pub record Place : Type 0 where
  pub at_sector : ℕ
  pub at_entry : ℕ
  pub bytes : Bytes

-- What a round does after the read of its sector; `rest` is the loop from the next sector on.
module _ {Dev : Type 0} (s : ℕ) (rest : M Dev (Option Place)) where
  abbrev pub after_scan : Bytes → Scan → M Dev (Option Place)
  after_scan buf (hit i) = pure (some (record { at_sector = s; at_entry = i; bytes = buf }))
  after_scan buf last = pure none
  after_scan buf missed = rest

  abbrev pub after_sector : (Bytes → ℕ → Verdict) → DirRead → M Dev (Option Place)
  after_sector verdict (sector buf) = after_scan buf (scan verdict buf)
  after_sector verdict end = pure none
  after_sector verdict error = pure none

module _ (D : BlockDevice) where
  -- `for (uint32_t s = 0; ; s++)` at `s`, with `rounds` rounds left.
  unfoldable pub find_entry : Owner → (Bytes → ℕ → Verdict) → ℕ → ℕ → M D.Dev (Option Place)
  unfolding scan_from
  find_entry f verdict zero s = stuck
  find_entry f verdict (suc rounds) s = do
    r ← read_dir_sector D f s
    after_sector s (find_entry f verdict rounds (add32 s 1)) verdict r
