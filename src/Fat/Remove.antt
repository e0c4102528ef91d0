-- ===== src/Fat/Remove.antt =====
-- drivers/fs/fat.c: fat_delete, fat_rmdir and fat_rename.
pub mod Renaming
pub mod Content
use master_os.Base.{ℕ, ◌*◌, ◌+◌, Option, none, some, List, Bytes, put, put_bytes}
use master_os.Device.{BlockDevice}
use master_os.Fat.Monad.{Owner, M, pure, ◌>>=◌, ◌>>◌, failed, stuck, ignored, get_fat, set_fat}
use master_os.Fat.Names.{split_83}
use master_os.Fat.Table.{free_chain}
use master_os.Fat.Disk.{load_fat, guarded, write_fat, write_dir_sector}
use master_os.Fat.Dir.{Verdict, is_file, is_directory, first_cluster, Place, find_entry}

-- `dir[i].name[0] = 0xE5;`
abbrev pub erased : Bytes → ℕ → Bytes
erased buf i = put buf (i * 32) 0xE5

-- The name and the extension of an entry, overwritten.
abbrev pub renamed : Bytes → ℕ → List ℕ × List ℕ → Bytes
renamed buf i (name, ext) = put_bytes (put_bytes buf (i * 32) name) (i * 32 + 8) ext

-- The rounds that are given to the loop that frees a chain.
abbrev pub chain_rounds : ℕ
chain_rounds = 4082

module _ (D : BlockDevice) where
  abbrev pub freed_or_stuck : Option Bytes → M D.Dev Bytes
  freed_or_stuck none = stuck
  freed_or_stuck (some fat_buf) = pure fat_buf

  -- Free the chain, write the table back whether or not that works, mark the entry.
  unfoldable pub remove_place : Owner → Option Place → M D.Dev (Unit {0})
  unfolding free_chain
  remove_place f none = failed
  remove_place f (some p) = do
    fat_buf ← get_fat f
    fat_buf' ← freed_or_stuck (free_chain chain_rounds fat_buf (first_cluster p.bytes p.at_entry))
    set_fat f fat_buf'
    ignored (write_fat D f)
    write_dir_sector D f p.at_sector (erased p.bytes p.at_entry)

  unfoldable pub remove_entry : Owner → (Bytes → ℕ → Verdict) → ℕ → M D.Dev (Unit {0})
  unfolding remove_place
  remove_entry f verdict rounds = do
    load_fat D f
    found ← find_entry D f verdict rounds 0
    remove_place f found

  unfoldable pub fat_delete : (rounds : ℕ) (name : List ℕ) → M D.Dev (Unit {0})
  unfolding remove_entry
  fat_delete rounds name = guarded D (remove_entry Owner.delete (is_file name) rounds)

  unfoldable pub fat_rmdir : (rounds : ℕ) (name : List ℕ) → M D.Dev (Unit {0})
  unfolding remove_entry
  fat_rmdir rounds name = guarded D (remove_entry Owner.rmdir (is_directory name) rounds)

  unfoldable pub rename_place : List ℕ → Option Place → M D.Dev (Unit {0})
  rename_place new_name none = failed
  rename_place new_name (some p) =
      write_dir_sector D Owner.rename p.at_sector (renamed p.bytes p.at_entry (split_83 new_name))

  unfoldable pub fat_rename : (rounds : ℕ) (old_name new_name : List ℕ) → M D.Dev (Unit {0})
  unfolding rename_place
  fat_rename rounds old_name new_name = guarded D (do
    load_fat D Owner.rename
    found ← find_entry D Owner.rename (is_file old_name) rounds 0
    rename_place new_name found)
