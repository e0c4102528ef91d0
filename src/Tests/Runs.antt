-- ===== src/Tests/Runs.antt =====
-- Runs of the operations of drivers/fs/fat.c on the disk in memory, from `fat_init` on.
use master_os.Base.{ℕ, ◌≡◌, refl, some, List, [], ◌∷◌, bytes_at}
use master_os.Fat.Monad.{M, ◌>>◌}
use master_os.Fat.Disk.{
  fat_init, load_fat, read_dir_sector, copy_sector, write_fat, write_dir_sector,
}
use master_os.Fat.Dir.{is_file, is_vacant}
use master_os.Fat.Names.{split_83, k_toupper, k_strcmp_nocase, make_name}
use master_os.Fat.Table.{fat_find_free_cluster, fat_next_cluster}
use master_os.Fat.Read.{fat_read, to_copy}
use master_os.Fat.Create.{fat_write}
use master_os.Fat.Remove.{fat_delete}
use master_os.Tests.Ram.{ram, power_on, answer, hello_txt, greeting}

abbrev write_then_read : M (ℕ → ℕ → ℕ) (List ℕ)
write_then_read = do
  fat_init ram
  fat_write ram 9 hello_txt greeting 3
  fat_read ram 9 hello_txt 100

-- A file that has been written is read back.
write_then_read_run : answer (write_then_read power_on) ≡ some (7 ∷ 8 ∷ 9 ∷ [])
unfolding fat_init fat_delete fat_write fat_read load_fat read_dir_sector is_file
    fat_find_free_cluster fat_next_cluster copy_sector write_fat is_vacant write_dir_sector split_83
    k_toupper k_strcmp_nocase make_name bytes_at to_copy
write_then_read_run = refl
