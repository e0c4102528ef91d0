-- ===== src/Fat/Create/Directory.antt =====
-- What `fat_mkdir` leaves on the disk.
pub mod Making
use mathlib.Core.Path.{subst}
use native.Mathlib.Decide.{ℕ_discrete}
use master_os.Base.{
  ℕ, ◌+◌, ◌*◌, ◌-◌, ◌^◌, ◌<◌, ◌≤◌, ◌≡◌, ◌≢◌, refl, sym, ◌⊎◌, inl, inr, ◌∙◌, ap, arith, false, ◌==◌,
  if◌then◌else◌, none, some, List, Bytes, IsBytes, u16,
}
use master_os.Device.{BlockDevice, IsHealthy, put_sector}
use master_os.Fat.Monad.{
  World, Vars, M, Owner, slot, put_buf, get_vars, get_fat, set_fat, failed, write_sector, ◌>>=◌,
  ◌>>◌,
}
use master_os.Fat.Rules.{Gives, bind, mono, write_sector-Gives}
use master_os.Fat.Names.{split_83}
use master_os.Fat.Table.{fat_next_cluster, fat_set_cluster, fat_find_free_cluster}
use master_os.Fat.Table.Entry.{next_set_self, next_set_ne}
use master_os.Fat.Table.Free.{IsFree}
use master_os.Fat.Table.Supply.{free_below, find_free_some}
use master_os.Fat.Disk.{sector_at, fat_secs, cluster_lba, write_fat}
use master_os.Fat.Disk.Layout.{IsLaidOut}
use master_os.Fat.Disk.Load.{load_fat-IsLoaded, loaded_table, loaded_table_lem}
use master_os.Fat.Disk.Store.{write_fat-IsStored, IsStored}
use master_os.Fat.Dir.{is_vacant, Place, find_entry}
use master_os.Fat.Dir.Search.{first_taken}
use master_os.Fat.Dir.Root.{AtRoot, root_dir, find_entry-Finds}
use master_os.Fat.Dir.Opened.{AtRoot-vars}
use master_os.Fat.Remove.Renaming.{write_dir_sector-Wrote}
use master_os.Fat.Create.{total_clusters, new_entry, dot_entries, enter_place, fat_mkdir}
use master_os.Fat.Create.Content.Placed.{Fits, lba_of, cluster_lba_lem}
use master_os.Fat.Create.Content.Round.{world, as_world, fits-scanned, total-small}
use master_os.Fat.Create.Stored.{in_tables, in_copies}
use master_os.Fat.Create.Fields.{HasDots, IsNewEntry}
use master_os.Fat.Create.Vacant.{vacant_in, tables_small, same_root, entry_at}

-- The table `out` stands in every copy, data sector `lba` holds `dot`, sector `p.at_sector` of
-- the root directory holds `entry`, and no other sector has changed.
pub record IsEntered (v : Vars) (p : Place) (out : Bytes) (lba : ℕ) (dot entry : Bytes)
    (d d' : ℕ → Bytes) : Type 0 where
  pub copies :
      (f t : ℕ)
      → f < v.bpb.fat_count
      → t < fat_secs v.bpb
      → d' (v.fat_start + f * v.bpb.sectors_per_fat + t) ≡ sector_at out (t * 512)
  pub behind :
      (f t : ℕ)
      → f < v.bpb.fat_count
      → fat_secs v.bpb ≤ t
      → t < v.bpb.sectors_per_fat
      → d' (v.fat_start + f * v.bpb.sectors_per_fat + t)
        ≡ d (v.fat_start + f * v.bpb.sectors_per_fat + t)
  pub first_sector : d' lba ≡ dot
  pub directory : d' (v.root_start + p.at_sector) ≡ entry
  pub others :
      (l : ℕ)
      → (l < v.fat_start) ⊎ (v.root_start ≤ l)
      → l ≢ v.root_start + p.at_sector
      → l ≢ lba
      → d' l ≡ d l

-- A directory has been made: cluster `c`, which was free in `table`, ends its chain in `out`,
-- where the other entries are the same, its first sector has the entries `.` and `..`, and the
-- vacant entry `p` names it.
pub record IsMade (v : Vars) (n : ℕ) (p : Place) (name : List ℕ) (table : Bytes) (c : ℕ)
    (out : Bytes) (d d' : ℕ → Bytes) : Type 0 where
  pub low : 2 ≤ c
  pub high : c < n
  pub fresh : IsFree table c
  pub ends : fat_next_cluster out c ≡ 0xFFF
  pub kept : (e : ℕ) → e ≢ c → fat_next_cluster out e ≡ fat_next_cluster table e
  pub entered :
      IsEntered v p out
        (lba_of v c)
        (dot_entries c 0)
        (new_entry p.bytes p.at_entry (split_83 name) 0x10 c 0)
        d
        d'
  pub dots : HasDots (d' (lba_of v c)) c 0
  pub named :
      IsNewEntry
        (d' (v.root_start + p.at_sector))
        p.bytes
        p.at_entry
        (split_83 name).0
        (split_83 name).1
        0x10
        c
        0

pub IsEntered-intro :
    (v : Vars) (p : Place) (out : Bytes) (lba : ℕ) (dot entry : Bytes) (d d1 d2 d' : ℕ → Bytes)
    → IsLaidOut v
    → p.at_sector < v.root_sectors
    → v.data_start ≤ lba
    → IsStored v out d d1
    → d2 ≡ put_sector d1 lba dot
    → d' ≡ put_sector d2 (v.root_start + p.at_sector) entry
    → IsEntered v p out lba dot entry d d'
IsEntered-intro v p out lba dot entry d d1 d2 d' laid lt le stored e2 e = record {
  copies = λ f t lt lt'.
      let before : v.fat_start + f * v.bpb.sectors_per_fat + t < v.root_start =
        in_tables v f t laid lt lt' in
      last (v.fat_start + f * v.bpb.sectors_per_fat + t) (omega arith)
      ∙ data_last (v.fat_start + f * v.bpb.sectors_per_fat + t) (omega (arith, laid.root))
      ∙ stored.copies f t lt lt';
  behind = λ f t lt lo hi.
      let before : v.fat_start + f * v.bpb.sectors_per_fat + t < v.root_start =
        in_copies v f t laid lt hi in
      last (v.fat_start + f * v.bpb.sectors_per_fat + t) (omega arith)
      ∙ data_last (v.fat_start + f * v.bpb.sectors_per_fat + t) (omega (arith, laid.root))
      ∙ stored.behind f t lt lo hi;
  first_sector = last lba (omega (arith, laid.root)) ∙ ap (λ c. c lba) e2 ∙ ground arith;
  directory = ap (λ c. c (v.root_start + p.at_sector)) e ∙ ground arith;
  others =
      λ l out_of ne ne'. last l ne ∙ data_last l ne' ∙ stored.outside l (omega (arith, laid.table));
}
  where
    last : (l : ℕ) → l ≢ v.root_start + p.at_sector → d' l ≡ d2 l
    last l ne = ap (λ c. c l) e ∙ ground arith

    data_last : (l : ℕ) → l ≢ lba → d2 l ≡ d1 l
    data_last l ne = ap (λ c. c l) e2 ∙ ground arith
