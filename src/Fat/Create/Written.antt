-- ===== src/Fat/Create/Written.antt =====
-- `fat_write` of a new file in the root directory, from the call to the result.
use mathlib.Core.Path.{ap₂, subst}
use master_os.Base.{
  ℕ, ◌+◌, ◌*◌, ◌^◌, ◌<◌, ◌≤◌, ◌≡◌, refl, sym, ◌∙◌, ap, arith, none, some, List, Bytes, IsBytes,
  add32,
}
use master_os.Device.{BlockDevice, IsHealthy}
use master_os.Fat.Monad.{World, Vars, M, Owner, get_vars, ◌>>=◌, ◌>>◌}
use master_os.Fat.Rules.{Gives, bind, mono}
use master_os.Fat.Table.Supply.{free_below, free_below-le}
use master_os.Fat.Table.Chain.{Chain}
use master_os.Fat.Disk.{write_fat}
use master_os.Fat.Disk.Layout.{IsLaidOut}
use master_os.Fat.Disk.Load.{load_fat-IsLoaded, loaded_table, loaded_table_lem}
use master_os.Fat.Disk.Store.{write_fat-IsStored, IsStored}
use master_os.Fat.Dir.{is_file, is_vacant, Place, find_entry}
use master_os.Fat.Dir.Search.{first_taken}
use master_os.Fat.Dir.Root.{AtRoot, root_dir, find_entry-Finds}
use master_os.Fat.Dir.Opened.{AtRoot-vars}
use master_os.Fat.Remove.Renaming.{write_dir_sector-Wrote}
use master_os.Fat.Create.{alloc_rounds, write_clusters, enter_place, store_file, fat_write}
use master_os.Fat.Create.Content.{IsSaved, write_clusters-IsSaved}
use master_os.Fat.Create.Content.Round.{world, as_world, fits-scanned}
use master_os.Fat.Create.Content.Placed.{Fits}
use master_os.Fat.Create.Entry.{with_file}
use master_os.Fat.Create.Absent.{absent_delete, loaded_table_cong}
use master_os.Fat.Create.Vacant.{vacant_in, tables_small, same_root, entry_at}
use master_os.Fat.Create.Stored.{IsCreated, IsCreated-intro, before_data}

module _ {D : BlockDevice} (h : IsHealthy D) (name : List ℕ) (data_bytes : Bytes) (size n k : ℕ)
    (p : Place) where
  -- The end of a run: the file has been made, and the variables are as before.
  abbrev pub Creates : World D.Dev → Unit {0} → World D.Dev → Type 0
  Creates w _ w' =
      ((first : ℕ) × (xs : List ℕ) × (out : Bytes) × IsCreated w.vars n k p name data_bytes size
          (loaded_table h Owner.write w) first xs out (h.contents w.dev) (h.contents w'.dev))
      × (w'.vars ≡ w.vars)

  -- The rest of `store_file` after the loop over the clusters.
  finish : (rounds first : ℕ) → M D.Dev (Unit {0})
  finish rounds first = do
    write_fat D Owner.write
    found ← find_entry D Owner.write is_vacant rounds 0
    enter_place D Owner.write name 0x00 first size found

  module _ (rounds : ℕ) (w : World D.Dev) (at : AtRoot w) (laid : IsLaidOut w.vars)
      (enough : w.vars.root_sectors < rounds) (fits : Fits w.vars n)
      (vacant : first_taken is_vacant (root_dir h w) w.vars.root_sectors 0 ≡ some p) where
    finish-Creates :
        (first : ℕ) (xs : List ℕ) (w2 : World D.Dev)
        → first < 2 ^ 16
        → Chain (w2.fat_bufs 4) first xs
        → IsSaved h data_bytes size w.vars n fits 0 k size
            (loaded_table h Owner.write w)
            (h.contents w.dev)
            xs
            w2
        → Gives (Creates w) (finish rounds first w2)
    unfolding finish enter_place
    finish-Creates first xs w2 small_first ch s =
        bind
          {k = λ _.
            find_entry D Owner.write is_vacant rounds 0
            >>= enter_place D Owner.write name 0x00 first size}
          (write_fat-IsStored h Owner.write w2 (small w2.vars s.vars))
          λ _ w3 q.
            let stored : IsStored w.vars (w2.fat_bufs 4) (h.contents w2.dev) (h.contents w3.dev) =
              subst (λ v. IsStored v (w2.fat_bufs 4) (h.contents w2.dev) (h.contents w3.dev)) s.vars
                q.0 in
            bind {k = enter_place D Owner.write name 0x00 first size}
              (find_entry-Finds h Owner.write is_vacant rounds 0 w.vars.root_sectors w3
                (AtRoot-vars (q.1.vars ∙ s.vars) at) (start w3.vars (q.1.vars ∙ s.vars)) enough)
              λ r w4 q4.
                rw
                  (
                    q4.0,
                    same_root h p w laid vacant w3.vars (h.contents w3.dev) (q.1.vars ∙ s.vars)
                        (λ l lo hi.
                          stored.outside l (omega (arith, laid.table))
                          ∙ s.placed.outside l (before_data w.vars xs l hi)),
                  )
                  (mono
                    (write_dir_sector-Wrote h Owner.write p.at_sector
                      (with_file p.bytes p.at_entry name first size) w4
                      (AtRoot-vars (q4.1.vars ∙ q.1.vars ∙ s.vars) at))
                    λ _ w5 r5. (
                      (
                        first,
                        xs,
                        w2.fat_bufs 4,
                        IsCreated-intro w.vars n k p name data_bytes size
                            (loaded_table h Owner.write w) first xs (w2.fat_bufs 4)
                            (h.contents w.dev) (h.contents w2.dev) (h.contents w3.dev)
                            (h.contents w5.dev) laid fits
                            (vacant_in (root_dir h w) w.vars.root_sectors p vacant) s.short
                            small_first ch s.taken s.placed stored
                            (entry_at h p w laid vacant w4.vars (h.contents w3.dev)
                              (h.contents w4.dev) (h.contents w5.dev)
                              (with_file p.bytes p.at_entry name first size)
                              (q4.1.vars ∙ q.1.vars ∙ s.vars) q4.1.disk r5.disk),
                      ),
                      r5.vars ∙ q4.1.vars ∙ q.1.vars ∙ s.vars,
                    ))
      where
        small :
            (v : Vars) → v ≡ w.vars → v.fat_start + v.bpb.fat_count * v.bpb.sectors_per_fat < 2 ^ 32
        small v e = rw e (tables_small h p w laid vacant)

        start : (v : Vars) → v ≡ w.vars → 0 + w.vars.root_sectors ≡ v.root_sectors
        start v e = omega (arith, ap (λ (u : Vars). u.root_sectors) e)

    -- `alloc_rounds` is enough for the clusters that are needed.
    rounds_enough : (buf : Bytes) → k ≤ free_below n buf → k < alloc_rounds D w.vars.bpb
    rounds_enough buf supply = omega (arith, free_below-le n buf, fits-scanned w.vars n fits)

    pub store_file-Creates :
        IsBytes (loaded_table h Owner.write w)
        → size ≤ k * (512 * w.vars.bpb.sectors_per_cluster)
        → k ≤ free_below n (loaded_table h Owner.write w)
        → Gives (Creates w) (store_file D rounds name data_bytes size w)
    unfolding store_file finish
    store_file-Creates bytes fit supply =
        bind {k = λ _. rest} (load_fat-IsLoaded h Owner.write w) λ _ w1 l.
          let table : w1.fat_bufs 4 ≡ loaded_table h Owner.write w =
            loaded_table_lem h Owner.write w w1 l in
          subst (λ u. Gives (Creates w) (rest u)) (sym (as_world w.vars w1.fat_bufs w1 l.vars refl))
            (bind {k = finish rounds}
              (write_clusters-IsSaved h data_bytes size w.vars n fits (alloc_rounds D w.vars.bpb) k
                w1.fat_bufs w1.dev (rw table bytes) fit (rw table supply)
                (rounds_enough (loaded_table h Owner.write w) supply))
              λ first w2 (xs, small_first, ch, s). finish-Creates first xs w2 small_first ch (
                subst
                  (λ b. IsSaved h data_bytes size w.vars n fits 0 k size b (h.contents w.dev) xs w2)
                  table
                  (subst
                    (λ d. IsSaved h data_bytes size w.vars n fits 0 k size (w1.fat_bufs 4) d xs w2)
                    l.disk s)))
      where
        rest : M D.Dev (Unit {0})
        rest = do
          v ← get_vars
          first ←
              write_clusters D data_bytes size (alloc_rounds D v.bpb)
                (record { bytes_left = size; first = 0; previous = 0 })
          finish rounds first

  -- On a disk that answers and a volume that is laid out as `fat_init` does it, writing a file
  -- of a new name in the root directory comes back, when the directory has a vacant entry and the
  -- table has the clusters: free clusters that hold the data form a chain in the stored table,
  -- the first vacant entry names the file, and no other byte of its sector has changed, no sector
  -- of the table that is not kept in memory, and no other sector outside the table.
  pub fat_write-IsCreated :
      (rounds : ℕ) (w : World D.Dev)
      → AtRoot w
      → IsLaidOut w.vars
      → w.vars.root_sectors < rounds
      → Fits w.vars n
      → IsBytes (loaded_table h Owner.write w)
      → first_taken (is_file name) (root_dir h w) w.vars.root_sectors 0 ≡ none
      → first_taken is_vacant (root_dir h w) w.vars.root_sectors 0 ≡ some p
      → size ≤ k * (512 * w.vars.bpb.sectors_per_cluster)
      → k ≤ free_below n (loaded_table h Owner.write w)
      → Gives
          (λ _ w'.
            ((first : ℕ) × (xs : List ℕ) × (out : Bytes) × IsCreated w.vars n k p name data_bytes
                size
                (loaded_table h Owner.write w)
                first
                xs
                out
                (h.contents w.dev)
                (h.contents w'.dev))
            × (w'.vars ≡ w.vars))
          (fat_write D rounds name data_bytes size w)
  unfolding fat_write
  fat_write-IsCreated rounds w at laid enough fits bytes absent vacant fit supply =
      simp (laid.initialized) (
        bind {k = λ _. store_file D rounds name data_bytes size}
          (absent_delete h rounds name w laid.initialized at enough absent)
          λ _ w1 o.
            let u : World D.Dev = world w.vars w1.fat_bufs w1.dev in
            let table : loaded_table h Owner.write u ≡ loaded_table h Owner.write w =
              loaded_table_cong h Owner.write w u refl o.disk (o.others 4 (omega arith)) in
            subst (λ x. Gives (Creates w) (store_file D rounds name data_bytes size x))
              (sym (as_world w.vars w1.fat_bufs w1 o.vars refl))
              (subst
                (λ (b : Bytes × (ℕ → Bytes)).
                  Gives
                    (λ _ w'.
                      ((first : ℕ) × (xs : List ℕ) × (out : Bytes) × IsCreated w.vars n k p name
                          data_bytes size b.0 first xs out b.1 (h.contents w'.dev))
                      × (w'.vars ≡ w.vars))
                    (store_file D rounds name data_bytes size u))
                (ap₂ (λ b d. (b, d)) table o.disk)
                (store_file-Creates rounds u (AtRoot-vars {w = w} {w' = u} refl at) laid enough fits
                  (ap
                      (λ d.
                        first_taken is_vacant (λ t. d (add32 w.vars.root_start t))
                          w.vars.root_sectors 0)
                      o.disk
                    ∙ vacant)
                  (rw table bytes) fit (rw table supply))))
