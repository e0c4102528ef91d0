-- ===== src/Fat/Remove/Renaming.antt =====
-- What a renaming leaves on the disk.
use mathlib.Core.Path.{ap₂}
use master_os.Base.{
  ℕ, ◌+◌, ◌*◌, ◌<◌, ◌≤◌, ◌≡◌, ◌≢◌, ◌==◌, sym, ◌⊎◌, inl, ◌∙◌, ap, arith, true, some, List, Bytes,
  add32, bytes_at, bytes_at_cong, put_bytes,
}
use master_os.Device.{BlockDevice, IsHealthy, put_sector}
use master_os.Fat.Monad.{World, Vars, Owner}
use master_os.Fat.Names.{split_83}
use master_os.Fat.Rules.{guarded-Gives, Gives, mono, write_sector-Gives, Wrote}
use master_os.Fat.Disk.{write_dir_sector}
use master_os.Fat.Dir.{is_file, Place}
use master_os.Fat.Dir.Search.{first_taken}
use master_os.Fat.Dir.Root.{AtRoot, root_dir}
use master_os.Fat.Dir.Opened.{IsOpened, opened, AtRoot-vars}
use master_os.Fat.Names.Lengths.{put_bytes_in, put_bytes_out, length-split_83}
use master_os.Fat.Remove.{renamed, rename_place, fat_rename}

module _ (buf : Bytes) (i : ℕ) (name : List ℕ) where
  abbrev base : List ℕ
  base = (split_83 name).0

  abbrev ext : List ℕ
  ext = (split_83 name).1

  renamed-name : bytes_at (renamed buf i (split_83 name)) (i * 32) 8 ≡ base
  renamed-name =
      bytes_at_cong (renamed buf i (split_83 name)) (put_bytes buf (i * 32) base) (i * 32) (i * 32)
        8
        (λ k lt.
          put_bytes_out (put_bytes buf (i * 32) base) (i * 32 + 8) ext (i * 32 + k)
            (inl (omega arith)))
      ∙ ap (bytes_at (put_bytes buf (i * 32) base) (i * 32)) (sym (length-split_83 name).0)
      ∙ put_bytes_in buf (i * 32) base

  renamed-ext : bytes_at (renamed buf i (split_83 name)) (i * 32 + 8) 3 ≡ ext
  renamed-ext =
      ap (bytes_at (renamed buf i (split_83 name)) (i * 32 + 8)) (sym (length-split_83 name).1)
      ∙ put_bytes_in (put_bytes buf (i * 32) base) (i * 32 + 8) ext

  renamed-rest :
      (k : ℕ) → (k < i * 32) ⊎ (i * 32 + 11 ≤ k) → renamed buf i (split_83 name) k ≡ buf k
  renamed-rest k out =
      put_bytes_out (put_bytes buf (i * 32) base) (i * 32 + 8) ext k
        (omega (arith, (length-split_83 name).1))
      ∙ put_bytes_out buf (i * 32) base k (omega (arith, (length-split_83 name).0))

module _ {D : BlockDevice} (h : IsHealthy D) where
  -- A directory sector that is written back in the root directory.
  pub write_dir_sector-Wrote :
      (f : Owner) (s : ℕ) (buf : Bytes) (w : World D.Dev)
      → AtRoot w
      → Gives (λ _ w'. Wrote h (add32 w.vars.root_start s) buf w w') (write_dir_sector D f s buf w)
  unfolding write_dir_sector
  write_dir_sector-Wrote f s buf w at =
      let here : (w.vars.current_dir_cluster == 0) ≡ true = ground (arith, at.root) in
      simp here (write_sector-Gives h (add32 w.vars.root_start s) buf w)

  pub written :
      {f : Owner} (s : ℕ) (buf : Bytes) (w w1 w' : World D.Dev)
      → IsOpened h f w w1
      → Wrote h (add32 w1.vars.root_start s) buf w1 w'
      → h.contents w'.dev ≡ put_sector (h.contents w.dev) (add32 w.vars.root_start s) buf
  written s buf w w1 w' o q =
      q.disk ∙ ap₂ (λ (v : Vars) d. put_sector d (add32 v.root_start s) buf) o.vars o.disk

  -- The eleven bytes of the name are the new name's, and every other byte is as it was.
  pub record IsRenamed (w : World D.Dev) (p : Place) (new_name : List ℕ) (w' : World D.Dev)
      : Type 0 where
    pub vars : w'.vars ≡ w.vars
    pub name_at :
        bytes_at (h.contents w'.dev (add32 w.vars.root_start p.at_sector)) (p.at_entry * 32) 8
        ≡ (split_83 new_name).0
    pub ext_at :
        bytes_at (h.contents w'.dev (add32 w.vars.root_start p.at_sector)) (p.at_entry * 32 + 8) 3
        ≡ (split_83 new_name).1
    pub rest :
        (k : ℕ)
        → (k < p.at_entry * 32) ⊎ (p.at_entry * 32 + 11 ≤ k)
        → h.contents w'.dev (add32 w.vars.root_start p.at_sector) k ≡ p.bytes k
    pub others :
        (l : ℕ) → l ≢ add32 w.vars.root_start p.at_sector → h.contents w'.dev l ≡ h.contents w.dev l

  -- On a disk that answers, renaming a file of the root directory overwrites the name and the
  -- extension of the first entry that has the old name by the new name's, and leaves every other
  -- byte of its sector, every other sector and the variables as they were.
  pub fat_rename-IsRenamed :
      (rounds : ℕ) (old_name new_name : List ℕ) (p : Place) (w : World D.Dev)
      → w.vars.initialized ≡ true
      → AtRoot w
      → w.vars.root_sectors < rounds
      → first_taken (is_file old_name) (root_dir h w) w.vars.root_sectors 0 ≡ some p
      → Gives (λ _ w'. IsRenamed w p new_name w') (fat_rename D rounds old_name new_name w)
  unfolding fat_rename rename_place
  fat_rename-IsRenamed rounds old_name new_name p w init at enough found =
      guarded-Gives D _ w init (
        opened h Owner.rename (is_file old_name) rounds w at enough λ r w1 e o.
          rw (e, found)
            (mono
              (write_dir_sector-Wrote Owner.rename p.at_sector
                (renamed p.bytes p.at_entry (split_83 new_name)) w1 (AtRoot-vars o.vars at))
              (λ _ w' q. stored w1 w' o q)))
    where
      here :
          (w1 w' : World D.Dev)
          → IsOpened h Owner.rename w w1
          → Wrote h
              (add32 w1.vars.root_start p.at_sector)
              (renamed p.bytes p.at_entry (split_83 new_name))
              w1
              w'
          → h.contents w'.dev (add32 w.vars.root_start p.at_sector)
            ≡ renamed p.bytes p.at_entry (split_83 new_name)
      here w1 w' o q =
          ap (λ d. d (add32 w.vars.root_start p.at_sector))
            (written p.at_sector (renamed p.bytes p.at_entry (split_83 new_name)) w w1 w' o q)
          ∙ ground arith

      stored :
          (w1 w' : World D.Dev)
          → IsOpened h Owner.rename w w1
          → Wrote h
              (add32 w1.vars.root_start p.at_sector)
              (renamed p.bytes p.at_entry (split_83 new_name))
              w1
              w'
          → IsRenamed w p new_name w'
      stored w1 w' o q = record {
        vars = q.vars ∙ o.vars;
        name_at =
            ap (λ b. bytes_at b (p.at_entry * 32) 8) (here w1 w' o q)
            ∙ renamed-name p.bytes p.at_entry new_name;
        ext_at =
            ap (λ b. bytes_at b (p.at_entry * 32 + 8) 3) (here w1 w' o q)
            ∙ renamed-ext p.bytes p.at_entry new_name;
        rest = λ k out.
            ap (λ b. b k) (here w1 w' o q) ∙ renamed-rest p.bytes p.at_entry new_name k out;
        others = λ l ne.
            ap (λ d. d l)
              (written p.at_sector (renamed p.bytes p.at_entry (split_83 new_name)) w w1 w' o q)
            ∙ ground arith;
      }
