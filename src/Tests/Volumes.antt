-- ===== src/Tests/Volumes.antt =====
-- The theorems about drivers/fs/fat.c at concrete volumes.
use master_os.Base.{◌≡◌, refl, arith, some, [], ◌∷◌, bytes_at, take, Bytes}
use Prim.Native.Nat.{min}
use master_os.Fat.Monad.{Owner}
use master_os.Fat.Names.{k_toupper, k_strcmp_nocase, make_name}
use master_os.Fat.Rules.{Gives, Same}
use master_os.Fat.Disk.Load.{loaded_table}
use master_os.Fat.Dir.{is_file, Place, scan_from, find_entry}
use master_os.Fat.Dir.Search.{first_taken}
use master_os.Fat.Dir.Root.{AtRoot, root_dir, Quiet, find_entry-Finds, find_entry-ends}
use master_os.Fat.Table.{fat_next_cluster}
use master_os.Fat.Table.Chain.{Chain, stop, link}
use master_os.Fat.Read.{fat_read}
use master_os.Fat.Read.Content.{chain_bytes}
use master_os.Fat.Read.File.{fat_read-content}
use master_os.Tests.Ram.{ram, ram-IsHealthy, hello_txt, mounted, full_disk, root_sector}

mounted-AtRoot : AtRoot mounted
mounted-AtRoot = record { root = refl; small = omega arith }

abbrev place : Place
place = record { at_sector = 0; at_entry = 0; bytes = root_sector }

hello_found : first_taken (is_file hello_txt) (root_dir ram-IsHealthy mounted) 1 0 ≡ some place
unfolding first_taken scan_from is_file k_strcmp_nocase make_name k_toupper bytes_at
hello_found = refl

abbrev loaded : Bytes
loaded = loaded_table ram-IsHealthy Owner.read mounted

next_of_two : fat_next_cluster loaded 2 ≡ 4
unfolding fat_next_cluster loaded_table
next_of_two = refl

next_of_four : fat_next_cluster loaded 4 ≡ 0xFFF
unfolding fat_next_cluster loaded_table
next_of_four = refl

hello-Chain : Chain loaded 2 (2 ∷ 4 ∷ [])
hello-Chain =
    link (omega arith, omega arith) refl
      (rw next_of_two
        (link (omega arith, omega arith) refl (rw next_of_four (stop (λ h. omega (arith, h))))))

-- 600 bytes: the cluster 2 and 88 bytes of the cluster 4.
fat_read-content_example :
    Gives
      (λ out w'.
        (out ≡ take (min 600 1000) (chain_bytes full_disk mounted.vars (2 ∷ 4 ∷ [])))
        × (w'.vars ≡ mounted.vars)
        × (w'.dev ≡ full_disk))
      (fat_read ram 9 hello_txt 1000 mounted)
fat_read-content_example =
    fat_read-content ram-IsHealthy 9 hello_txt 1000 place (2 ∷ 4 ∷ []) mounted refl mounted-AtRoot
      (omega arith) hello_found (omega arith) (omega arith) (omega arith) hello-Chain (omega arith)

find_entry-Finds_example :
    Gives
      (λ r w'.
        (r ≡ first_taken (is_file hello_txt) (root_dir ram-IsHealthy mounted) 1 0)
        × Same ram-IsHealthy mounted w')
      (find_entry ram Owner.read (is_file hello_txt) 9 0 mounted)
find_entry-Finds_example =
    find_entry-Finds ram-IsHealthy Owner.read (is_file hello_txt) 9 0 1 mounted mounted-AtRoot refl
      (omega arith)

find_entry-ends_example :
    Gives (λ _ w'. Quiet mounted w') (find_entry ram Owner.read (is_file hello_txt) 9 0 mounted)
find_entry-ends_example =
    find_entry-ends ram Owner.read (is_file hello_txt) 9 0 1 mounted mounted-AtRoot refl
      (omega arith)
