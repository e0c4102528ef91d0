-- ===== src/Fat/Create/Directory/Making.antt =====
-- `fat_mkdir` in the root directory, from the call to the result.
use mathlib.Core.Path.{subst}
use master_os.Base.{
  ℕ, ◌+◌, ◌*◌, ◌^◌, ◌<◌, ◌≤◌, ◌≡◌, ◌≢◌, refl, sym, ◌∙◌, ap, arith, false, ◌==◌, if◌then◌else◌, some,
  List, Bytes, IsBytes, u16,
}
use master_os.Device.{BlockDevice, IsHealthy, put_sector}
use master_os.Fat.Monad.{
  World, Vars, M, Owner, slot, put_buf, get_vars, get_fat, set_fat, failed, write_sector, ◌>>=◌,
  ◌>>◌,
}
use master_os.Fat.Rules.{guarded-Gives, Gives, bind, mono, write_sector-Gives}
use master_os.Fat.Names.{split_83}
use master_os.Fat.Table.{fat_set_cluster, fat_find_free_cluster}
use master_os.Fat.Table.Entry.{next_set_self, next_set_ne}
use master_os.Fat.Table.Supply.{free_below, find_free_some}
use master_os.Fat.Disk.{cluster_lba, write_fat}
use master_os.Fat.Disk.Layout.{IsLaidOut}
use master_os.Fat.Disk.Load.{load_fat-IsLoaded, loaded_table, loaded_table_lem}
use master_os.Fat.Disk.Store.{write_fat-IsStored, IsStored}
use master_os.Fat.Dir.{is_vacant, Place, find_entry}
use master_os.Fat.Dir.Search.{first_taken}
use master_os.Fat.Dir.Root.{AtRoot, root_dir, find_entry-Finds}
use master_os.Fat.Dir.Opened.{AtRoot-vars}
use master_os.Fat.Remove.Renaming.{write_dir_sector-Wrote}
use master_os.Fat.Names.Lengths.{length-split_83}
use master_os.Fat.Create.{total_clusters, new_entry, dot_entries, enter_place, fat_mkdir}
use master_os.Fat.Create.Content.Placed.{Fits, lba_of, cluster_lba_lem}
use master_os.Fat.Create.Content.Round.{world, as_world, fits-scanned, total-small}
use master_os.Fat.Create.Vacant.{vacant_in, tables_small, same_root, entry_at}
use master_os.Fat.Create.Directory.{IsEntered, IsMade, IsEntered-intro}
use master_os.Fat.Create.Fields.{dot_entries-HasDots, new_entry-IsNewEntry}

module _ {D : BlockDevice} (h : IsHealthy D) (name : List ℕ) (p : Place) (rounds : ℕ)
    (w : World D.Dev) (at : AtRoot w) (laid : IsLaidOut w.vars)
    (enough : w.vars.root_sectors < rounds)
    (vacant : first_taken is_vacant (root_dir h w) w.vars.root_sectors 0 ≡ some p) where
  -- The rest of `fat_mkdir` after the choice of a cluster.
  finish : (c lba : ℕ) (dot : Bytes) → M D.Dev (Unit {0})
  finish c lba dot = do
    write_fat D Owner.mkdir
    write_sector D lba dot
    found ← find_entry D Owner.mkdir is_vacant rounds 0
    enter_place D Owner.mkdir name 0x10 c 0 found

  abbrev Enters : (c : ℕ) (out : Bytes) (lba : ℕ) (dot : Bytes) → World D.Dev → Type 0
  Enters c out lba dot w' =
      IsEntered w.vars p out lba dot (new_entry p.bytes p.at_entry (split_83 name) 0x10 c 0)
        (h.contents w.dev) (h.contents w'.dev)
      × (w'.vars ≡ w.vars)

  enter-Enters :
      (c : ℕ) (out : Bytes) (lba : ℕ) (dot : Bytes) (d1 : ℕ → Bytes) (w3 : World D.Dev)
      → w.vars.data_start ≤ lba
      → w3.vars ≡ w.vars
      → IsStored w.vars out (h.contents w.dev) d1
      → h.contents w3.dev ≡ put_sector d1 lba dot
      → Gives
          (λ _ w'. Enters c out lba dot w')
          ((find_entry D Owner.mkdir is_vacant rounds 0 >>= enter_place D Owner.mkdir name 0x10 c 0)
            w3)
  unfolding enter_place
  enter-Enters c out lba dot d1 w3 le ev stored e2 =
      bind {k = enter_place D Owner.mkdir name 0x10 c 0}
        (find_entry-Finds h Owner.mkdir is_vacant rounds 0 w.vars.root_sectors w3
          (AtRoot-vars ev at) (start w3.vars ev) enough)
        λ r w4 q4.
          rw
            (
              q4.0,
              same_root h p w laid vacant w3.vars (h.contents w3.dev) ev (λ l lo hi.
                  ap (λ c. c l) e2
                  ∙ untouched l lba d1 dot (omega arith)
                  ∙ stored.outside l (omega (arith, laid.table))),
            )
            (mono
              (write_dir_sector-Wrote h Owner.mkdir p.at_sector
                (new_entry p.bytes p.at_entry (split_83 name) 0x10 c 0) w4
                (AtRoot-vars (q4.1.vars ∙ ev) at))
              λ _ w5 r5. (
                IsEntered-intro w.vars p out lba dot
                    (new_entry p.bytes p.at_entry (split_83 name) 0x10 c 0) (h.contents w.dev) d1
                    (h.contents w3.dev) (h.contents w5.dev) laid
                    (vacant_in (root_dir h w) w.vars.root_sectors p vacant) le stored e2
                    (entry_at h p w laid vacant w4.vars (h.contents w3.dev) (h.contents w4.dev)
                      (h.contents w5.dev) (new_entry p.bytes p.at_entry (split_83 name) 0x10 c 0)
                      (q4.1.vars ∙ ev) q4.1.disk r5.disk),
                r5.vars ∙ q4.1.vars ∙ ev,
              ))
    where
      start : (v : Vars) → v ≡ w.vars → 0 + w.vars.root_sectors ≡ v.root_sectors
      start v e = omega (arith, ap (λ (u : Vars). u.root_sectors) e)

      untouched : (l lba : ℕ) (d : ℕ → Bytes) (buf : Bytes) → l ≢ lba → put_sector d lba buf l ≡ d l
      untouched l lba d buf ne = ground arith

  finish-Enters :
      (c lba : ℕ) (dot : Bytes) (w1 : World D.Dev)
      → w.vars.data_start ≤ lba
      → w1.vars ≡ w.vars
      → h.contents w1.dev ≡ h.contents w.dev
      → Gives (λ _ w'. Enters c (w1.fat_bufs (slot Owner.mkdir)) lba dot w') (finish c lba dot w1)
  unfolding finish
  finish-Enters c lba dot w1 le ev ed =
      bind
        {k = λ _.
          write_sector D lba dot
          >> (find_entry D Owner.mkdir is_vacant rounds 0
              >>= enter_place D Owner.mkdir name 0x10 c 0)}
        (write_fat-IsStored h Owner.mkdir w1 (small w1.vars ev))
        λ _ w2 q.
          bind
            {k = λ _.
              find_entry D Owner.mkdir is_vacant rounds 0
              >>= enter_place D Owner.mkdir name 0x10 c 0}
            (write_sector-Gives h lba dot w2)
            λ _ w3 r.
              enter-Enters c (w1.fat_bufs (slot Owner.mkdir)) lba dot (h.contents w2.dev) w3 le
                (r.vars ∙ q.1.vars ∙ ev)
                (subst (λ d. IsStored w.vars (w1.fat_bufs (slot Owner.mkdir)) d (h.contents w2.dev))
                  ed
                  (subst
                    (λ v.
                      IsStored v (w1.fat_bufs (slot Owner.mkdir)) (h.contents w1.dev)
                        (h.contents w2.dev))
                    ev q.0))
                r.disk
    where
      small :
          (v : Vars) → v ≡ w.vars → v.fat_start + v.bpb.fat_count * v.bpb.sectors_per_fat < 2 ^ 32
      small v e = rw e (tables_small h p w laid vacant)

  -- The choice of a cluster and what follows, from the loaded table.
  choose : M D.Dev (Unit {0})
  choose = do
    v ← get_vars
    fat_buf ← get_fat Owner.mkdir
    let cluster = fat_find_free_cluster fat_buf (total_clusters v.bpb)
    if cluster == 0 then failed else do
      set_fat Owner.mkdir (fat_set_cluster fat_buf cluster 0xFFF)
      finish cluster (cluster_lba v cluster 0) (dot_entries cluster (u16 v.current_dir_cluster))

  Makes : (n : ℕ) → World D.Dev → Type 0
  Makes n w' =
      ((c : ℕ) × (out : Bytes) × IsMade w.vars n p name (loaded_table h Owner.mkdir w) c out
          (h.contents w.dev) (h.contents w'.dev))
      × (w'.vars ≡ w.vars)

  choose-Makes :
      (n : ℕ) (bufs : ℕ → Bytes) (dev : D.Dev)
      → Fits w.vars n
      → h.contents dev ≡ h.contents w.dev
      → bufs (slot Owner.mkdir) ≡ loaded_table h Owner.mkdir w
      → IsBytes (loaded_table h Owner.mkdir w)
      → 0 < free_below n (loaded_table h Owner.mkdir w)
      → Gives (λ _ w'. Makes n w') (choose (world w.vars bufs dev))
  unfolding choose Makes
  choose-Makes n bufs dev fits ed et bytes supply =
      let table : Bytes = loaded_table h Owner.mkdir w in
      let c : ℕ = fat_find_free_cluster table (total_clusters w.vars.bpb) in
      let (some_c, lo, hi, free) =
        find_free_some n (total_clusters w.vars.bpb) table (fits-scanned w.vars n fits)
          (total-small w.vars) supply in
      let found : (c == 0) ≡ false = ground arith in
      let here : u16 w.vars.current_dir_cluster ≡ 0 = omega (arith, at.root) in
      rw (et, found, cluster_lba_lem w.vars n c fits lo hi, here)
        (mono
          (finish-Enters c (lba_of w.vars c) (dot_entries c 0)
            (world w.vars (put_buf bufs (slot Owner.mkdir) (fat_set_cluster table c 0xFFF)) dev)
            (omega arith) refl ed)
          λ _ w' (entered, vars). (
            (
              c,
              fat_set_cluster table c 0xFFF,
              record {
                low = lo;
                high = hi;
                fresh = free;
                ends = next_set_self table c 0xFFF bytes;
                kept = λ e ne. next_set_ne table c 0xFFF bytes e (λ q. ne (sym q));
                entered = entered;
                dots =
                    rw entered.first_sector
                      (dot_entries-HasDots c 0 (omega (arith, hi, fits.small)) (omega arith));
                named = rw entered.directory (
                    new_entry-IsNewEntry p.bytes p.at_entry (split_83 name).0 (split_83 name).1 0x10
                      c 0 (length-split_83 name).0 (length-split_83 name).1
                      (omega (arith, hi, fits.small)));
              },
            ),
            vars,
          ))

  -- On a disk that answers and a volume that is laid out as `fat_init` does it, `fat_mkdir` in the
  -- root directory comes back, when the directory has a vacant entry and a cluster is free: a
  -- cluster that was free ends a chain of its own in the stored table, its first sector has the
  -- entries `.` and `..` and then zeros, the first vacant entry names it, and no other entry of
  -- the table, no other byte of the directory's sector, no sector of the table that is not kept
  -- in memory and no other sector outside the table has changed.
  pub fat_mkdir-IsMade :
      (n : ℕ)
      → Fits w.vars n
      → IsBytes (loaded_table h Owner.mkdir w)
      → 0 < free_below n (loaded_table h Owner.mkdir w)
      → Gives
          (λ _ w'.
            ((c : ℕ) × (out : Bytes) × IsMade w.vars n p name
                (loaded_table h Owner.mkdir w)
                c
                out
                (h.contents w.dev)
                (h.contents w'.dev))
            × (w'.vars ≡ w.vars))
          (fat_mkdir D rounds name w)
  unfolding fat_mkdir choose finish Makes
  fat_mkdir-IsMade n fits bytes supply = guarded-Gives D _ w laid.initialized (
      bind {k = λ _. choose} (load_fat-IsLoaded h Owner.mkdir w) λ _ w1 l.
        subst (λ u. Gives (λ _ w'. Makes n w') (choose u))
          (sym (as_world w.vars w1.fat_bufs w1 l.vars refl))
          (choose-Makes n w1.fat_bufs w1.dev fits l.disk (loaded_table_lem h Owner.mkdir w w1 l)
            bytes supply))
