-- ===== src/Tests/Changes.antt =====
-- The theorems about changes of a volume at a concrete volume.
use master_os.Base.{◌≡◌, refl, arith, some, [], ◌∷◌, List, ℕ, Bytes, IsBytes, bytes_at}
use master_os.Fat.Monad.{Owner}
use master_os.Fat.Names.{k_toupper, k_strcmp_nocase, make_name}
use master_os.Fat.Rules.{Gives}
use master_os.Fat.Disk.{parse_bpb, write_fat, fat_init}
use master_os.Fat.Disk.Load.{loaded_table}
use master_os.Fat.Disk.Layout.{IsVolume, IsLaidOut, fat_init-IsLaidOut}
use master_os.Fat.Disk.Store.{IsStored, OnlyDisk, write_fat-IsStored}
use master_os.Fat.Dir.{is_file, is_directory, Place, scan_from}
use master_os.Fat.Dir.Search.{first_taken}
use master_os.Fat.Dir.Root.{AtRoot, root_dir}
use master_os.Fat.Table.{fat_next_cluster}
use master_os.Fat.Table.Chain.{Chain, stop, link}
use master_os.Fat.Remove.{fat_delete, fat_rename, fat_rmdir}
use master_os.Fat.Remove.Renaming.{IsRenamed, fat_rename-IsRenamed}
use master_os.Fat.Remove.Content.{fat_rmdir-IsRemoved, IsRemoved, fat_delete-IsRemoved}
use master_os.Tests.Ram.{
  ram, ram-IsHealthy, hello_txt, power_on, mounted, full_disk, blank_disk, root_sector,
}

at_root : AtRoot mounted
at_root = record { root = refl; small = omega arith }

mounted-IsLaidOut : IsLaidOut mounted.vars
mounted-IsLaidOut = record { initialized = refl; table = refl; root = refl; small = omega arith }

abbrev place : Place
place = record { at_sector = 0; at_entry = 0; bytes = root_sector }

hello_there : first_taken (is_file hello_txt) (root_dir ram-IsHealthy mounted) 1 0 ≡ some place
unfolding first_taken scan_from is_file k_strcmp_nocase make_name k_toupper bytes_at
hello_there = refl

abbrev loaded : Bytes
loaded = loaded_table ram-IsHealthy Owner.delete mounted

loaded-IsBytes : IsBytes loaded
unfolding loaded_table
loaded-IsBytes i = ground arith

entry_two : fat_next_cluster loaded 2 ≡ 4
unfolding fat_next_cluster loaded_table
entry_two = refl

entry_four : fat_next_cluster loaded 4 ≡ 0xFFF
unfolding fat_next_cluster loaded_table
entry_four = refl

loaded-Chain : Chain loaded 2 (2 ∷ 4 ∷ [])
loaded-Chain =
    link (omega arith, omega arith) refl
      (rw entry_two
        (link (omega arith, omega arith) refl (rw entry_four (stop (λ h. omega (arith, h))))))

write_fat-IsStored_example :
    Gives
      (λ _ w'.
        IsStored mounted.vars (mounted.fat_bufs 2) full_disk w'.dev
        × OnlyDisk ram-IsHealthy mounted w')
      (write_fat ram Owner.delete mounted)
write_fat-IsStored_example = write_fat-IsStored ram-IsHealthy Owner.delete mounted (omega arith)

boot-IsBytes : IsBytes (blank_disk 0)
boot-IsBytes i = ground arith

fat_init-IsLaidOut_example :
    Gives
      (λ _ w'. IsVolume (blank_disk 0) w'.vars × IsLaidOut w'.vars × (w'.dev ≡ blank_disk))
      (fat_init ram power_on)
unfolding parse_bpb
fat_init-IsLaidOut_example =
    fat_init-IsLaidOut ram-IsHealthy power_on boot-IsBytes (λ h. omega (arith, h))

abbrev new_txt : List ℕ
new_txt = b'n' ∷ b'e' ∷ b'w' ∷ b'.' ∷ b'm' ∷ b'd' ∷ []

fat_rename-IsRenamed_example :
    Gives
      (λ _ w'. IsRenamed ram-IsHealthy mounted place new_txt w')
      (fat_rename ram 9 hello_txt new_txt mounted)
fat_rename-IsRenamed_example =
    fat_rename-IsRenamed ram-IsHealthy 9 hello_txt new_txt place mounted refl at_root (omega arith)
      hello_there

fat_delete-IsRemoved_example :
    Gives
      (λ _ w'.
        ((out : Bytes) × IsRemoved mounted.vars place loaded (2 ∷ 4 ∷ []) out full_disk w'.dev)
        × (w'.vars ≡ mounted.vars))
      (fat_delete ram 9 hello_txt mounted)
fat_delete-IsRemoved_example =
    fat_delete-IsRemoved ram-IsHealthy 9 hello_txt place (2 ∷ 4 ∷ []) mounted at_root
      mounted-IsLaidOut (omega arith) loaded-IsBytes loaded-Chain (omega arith) hello_there

abbrev d_name : List ℕ
d_name = b'd' ∷ []

abbrev d_place : Place
d_place = record { at_sector = 0; at_entry = 1; bytes = root_sector }

d_there : first_taken (is_directory d_name) (root_dir ram-IsHealthy mounted) 1 0 ≡ some d_place
unfolding first_taken scan_from is_directory k_strcmp_nocase make_name k_toupper bytes_at
d_there = refl

abbrev rmdir_loaded : Bytes
rmdir_loaded = loaded_table ram-IsHealthy Owner.rmdir mounted

rmdir_loaded-IsBytes : IsBytes rmdir_loaded
unfolding loaded_table
rmdir_loaded-IsBytes i = ground arith

entry_five : fat_next_cluster rmdir_loaded 5 ≡ 0xFFF
unfolding fat_next_cluster loaded_table
entry_five = refl

five-Chain : Chain rmdir_loaded 5 (5 ∷ [])
five-Chain = link (omega arith, omega arith) refl (rw entry_five (stop (λ h. omega (arith, h))))

fat_rmdir-IsRemoved_example :
    Gives
      (λ _ w'.
        ((out : Bytes) × IsRemoved mounted.vars d_place rmdir_loaded (5 ∷ []) out full_disk w'.dev)
        × (w'.vars ≡ mounted.vars))
      (fat_rmdir ram 9 d_name mounted)
fat_rmdir-IsRemoved_example =
    fat_rmdir-IsRemoved ram-IsHealthy 9 d_name d_place (5 ∷ []) mounted at_root mounted-IsLaidOut
      (omega arith) rmdir_loaded-IsBytes five-Chain (omega arith) d_there
