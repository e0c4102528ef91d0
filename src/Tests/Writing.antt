-- ===== src/Tests/Writing.antt =====
-- The theorems about fat_write at a concrete volume, whose free clusters are not in one row.
use master_os.Base.{
  ◌%◌, ◌<◌, ◌≡◌, refl, arith, none, some, [], ◌∷◌, ◌++◌, List, ℕ, Bytes, IsBytes, bytes_at,
}
use master_os.Fat.Monad.{Owner, ◌>>◌}
use master_os.Fat.Names.{k_toupper, k_strcmp_nocase, make_name}
use master_os.Fat.Names.RoundTrip.{dotted}
use master_os.Fat.Rules.{Gives}
use master_os.Fat.Disk.Layout.{IsLaidOut}
use master_os.Fat.Disk.Load.{loaded_table}
use master_os.Fat.Dir.{is_file, is_vacant, Place, scan_from}
use master_os.Fat.Dir.Search.{first_taken}
use master_os.Fat.Dir.Root.{AtRoot, root_dir}
use master_os.Fat.Table.{fat_next_cluster}
use master_os.Fat.Table.Supply.{free_below}
use master_os.Fat.Read.{fat_read}
use master_os.Fat.Create.{fat_write, fat_mkdir}
use master_os.Fat.Create.Content.Placed.{Fits}
use master_os.Fat.Create.Stored.{IsCreated}
use master_os.Fat.Create.Written.{fat_write-IsCreated}
use master_os.Fat.Create.Directory.{IsMade}
use master_os.Fat.Create.Directory.Making.{fat_mkdir-IsMade}
use master_os.Fat.Create.RoundTrip.{IsShortName, fat_read-fat_write}
use master_os.Tests.Ram.{ram, ram-IsHealthy, mounted, full_disk, root_sector}

at_root : AtRoot mounted
at_root = record { root = refl; small = omega arith }

laid_out : IsLaidOut mounted.vars
laid_out = record { initialized = refl; table = refl; root = refl; small = omega arith }

fits : Fits mounted.vars 8
fits = record {
  small = omega arith;
  in_table = omega arith;
  some_sectors = omega arith;
  in_range = omega arith;
}

abbrev before : Bytes
before = loaded_table ram-IsHealthy Owner.write mounted

before-IsBytes : IsBytes before
unfolding loaded_table
before-IsBytes i = ground arith

abbrev base : List ℕ
base = b'n' ∷ b'e' ∷ b'w' ∷ []

abbrev ext : List ℕ
ext = b'm' ∷ b'd' ∷ []

abbrev name : List ℕ
name = base ++ dotted ext

short_name : IsShortName base ext
short_name = record {
  base_chars = (
    (λ e. omega (arith, e), λ e. omega (arith, e), λ e. omega (arith, e)),
    (
      (λ e. omega (arith, e), λ e. omega (arith, e), λ e. omega (arith, e)),
      ((λ e. omega (arith, e), λ e. omega (arith, e), λ e. omega (arith, e)), tt),
    ),
  );
  ext_chars = (
    (λ e. omega (arith, e), λ e. omega (arith, e)),
    ((λ e. omega (arith, e), λ e. omega (arith, e)), tt),
  );
  eight = omega arith;
  three = omega arith;
  some = λ e. omega (arith, e);
  alive = λ e. omega (arith, e);
}

not_there : first_taken (is_file name) (root_dir ram-IsHealthy mounted) 1 0 ≡ none
unfolding first_taken scan_from is_file k_strcmp_nocase make_name k_toupper bytes_at
not_there = refl

abbrev third : Place
third = record { at_sector = 0; at_entry = 2; bytes = root_sector }

a_place : first_taken is_vacant (root_dir ram-IsHealthy mounted) 1 0 ≡ some third
unfolding first_taken scan_from is_vacant
a_place = refl

-- The clusters 3, 6 and 7.
three_free : free_below 8 before ≡ 3
unfolding free_below fat_next_cluster loaded_table
three_free = refl

abbrev counting : Bytes
counting i = i % 256

fat_write-IsCreated_example :
    Gives
      (λ _ w'.
        ((first : ℕ) × (xs : List ℕ) × (out : Bytes) × IsCreated mounted.vars 8 2 third name
            counting 600 before first xs out full_disk w'.dev)
        × (w'.vars ≡ mounted.vars))
      (fat_write ram 9 name counting 600 mounted)
fat_write-IsCreated_example =
    fat_write-IsCreated ram-IsHealthy name counting 600 8 2 third 9 mounted at_root laid_out
      (omega arith) fits before-IsBytes not_there a_place (omega arith) (omega (arith, three_free))

fat_read-fat_write_example :
    Gives
      (λ out w'. (out ≡ bytes_at counting 0 600) × (w'.vars ≡ mounted.vars))
      ((fat_write ram 9 name counting 600 >> fat_read ram 9 name 1024) mounted)
fat_read-fat_write_example =
    fat_read-fat_write ram-IsHealthy 9 base ext counting 600 1024 8 2 third mounted at_root laid_out
      (omega arith) (omega arith) fits before-IsBytes short_name not_there a_place (omega arith)
      (omega (arith, three_free)) (omega arith) (omega arith) (omega arith) (omega arith)

abbrev docs : List ℕ
docs = b'd' ∷ b'o' ∷ b'c' ∷ b's' ∷ []

abbrev before_mkdir : Bytes
before_mkdir = loaded_table ram-IsHealthy Owner.mkdir mounted

before_mkdir-IsBytes : IsBytes before_mkdir
unfolding loaded_table
before_mkdir-IsBytes i = ground arith

some_free : 0 < free_below 8 before_mkdir
unfolding free_below fat_next_cluster loaded_table
some_free = omega arith

fat_mkdir-IsMade_example :
    Gives
      (λ _ w'.
        ((c : ℕ) × (out : Bytes) × IsMade mounted.vars 8 third docs before_mkdir c out full_disk
            w'.dev)
        × (w'.vars ≡ mounted.vars))
      (fat_mkdir ram 9 docs mounted)
fat_mkdir-IsMade_example =
    fat_mkdir-IsMade ram-IsHealthy docs third 9 mounted at_root laid_out (omega arith) a_place 8
      fits before_mkdir-IsBytes some_free
