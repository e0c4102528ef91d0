-- ===== src/Fat/Remove/Content.antt =====
-- What a deletion leaves on the disk.
use native.Mathlib.Nat.{mul-le-mul_right}
use master_os.Base.{
  ℕ, ◌+◌, ◌*◌, ◌^◌, ◌<◌, ◌≤◌, ◌≡◌, ◌≢◌, ◌⊎◌, ◌∙◌, ap, arith, some, List, length, Bytes, IsBytes,
  add32,
}
use master_os.Device.{BlockDevice, IsHealthy, put_sector}
use master_os.Fat.Monad.{World, Vars, Owner, slot, Run, settle, put_buf}
use master_os.Fat.Rules.{guarded-Gives, Gives, gives, bind, mono}
use master_os.Fat.Table.{free_chain}
use master_os.Fat.Table.Chain.{Chain, IsFreed, free_chain-IsFreed}
use master_os.Fat.Disk.{sector_at, fat_secs}
use master_os.Fat.Disk.Layout.{IsLaidOut}
use master_os.Fat.Disk.Load.{loaded_table}
use master_os.Fat.Disk.Store.{IsStored, write_fat-IsStored}
use master_os.Fat.Dir.{Verdict, is_file, is_directory, first_cluster, Place}
use master_os.Fat.Dir.Search.{first_taken, first_taken-IsFirst}
use master_os.Fat.Dir.Root.{AtRoot, root_dir}
use master_os.Fat.Dir.Opened.{IsOpened, opened, AtRoot-vars}
use master_os.Fat.Remove.{erased, remove_place, remove_entry, fat_delete, fat_rmdir}
use master_os.Fat.Remove.Renaming.{write_dir_sector-Wrote}

module _ {Dev : Type 0} where
  settle-Gives :
      {A : Type 0} {P : World Dev → Type 0} {r : Run Dev A}
      → Gives (λ _ w'. P w') r
      → Gives (λ _ w'. P w') (settle r)
  settle-Gives (gives p) = gives p

taken_in :
    (verdict : Bytes → ℕ → Verdict) (dir : ℕ → Bytes) (n : ℕ) (p : Place)
    → first_taken verdict dir n 0 ≡ some p
    → p.at_sector < n
taken_in verdict dir n p e = (rw e at (first_taken-IsFirst verdict dir n 0 n (omega arith))).0

-- The table without the chain stands in every copy, as far as it is kept in memory, the first
-- byte of the entry marks it as deleted, and every other byte and sector is as it was.
pub record IsRemoved (v : Vars) (p : Place) (table : Bytes) (xs : List ℕ) (out : Bytes)
    (d d' : ℕ → Bytes) : Type 0 where
  pub freed : IsFreed table xs out
  pub copies :
      (f t : ℕ)
      → f < v.bpb.fat_count
      → t < fat_secs v.bpb
      → d' (v.fat_start + f * v.bpb.sectors_per_fat + t) ≡ sector_at out (t * 512)
  pub behind :
      (f t : ℕ)
      → f < v.bpb.fat_count
      → fat_secs v.bpb ≤ t
      → t < v.bpb.sectors_per_fat
      → d' (v.fat_start + f * v.bpb.sectors_per_fat + t)
        ≡ d (v.fat_start + f * v.bpb.sectors_per_fat + t)
  pub mark : d' (v.root_start + p.at_sector) (p.at_entry * 32) ≡ 0xE5
  pub unmarked : (k : ℕ) → k ≢ p.at_entry * 32 → d' (v.root_start + p.at_sector) k ≡ p.bytes k
  pub others :
      (l : ℕ) → (l < v.fat_start) ⊎ (v.root_start ≤ l) → l ≢ v.root_start + p.at_sector → d' l ≡ d l

fat_secs-le : (v : Vars) → fat_secs v.bpb ≤ v.bpb.sectors_per_fat
fat_secs-le v = ground arith

in_tables :
    (v : Vars) (f t : ℕ)
    → f < v.bpb.fat_count
    → t < fat_secs v.bpb
    → v.fat_start + f * v.bpb.sectors_per_fat + t
      < v.fat_start + v.bpb.fat_count * v.bpb.sectors_per_fat
in_tables v f t lt lt' = omega (arith, fat_secs-le v, mul-le-mul_right v.bpb.sectors_per_fat lt)

IsRemoved-intro :
    (v : Vars) (p : Place) (table : Bytes) (xs : List ℕ) (out : Bytes) (d d1 d' : ℕ → Bytes)
    → IsLaidOut v
    → IsFreed table xs out
    → IsStored v out d d1
    → d' ≡ put_sector d1 (v.root_start + p.at_sector) (erased p.bytes p.at_entry)
    → IsRemoved v p table xs out d d'
IsRemoved-intro v p table xs out d d1 d' laid freed stored e = record {
  freed = freed;
  copies = λ f t lt lt'.
      ap (λ c. c (v.fat_start + f * v.bpb.sectors_per_fat + t)) e
      ∙ before (v.fat_start + f * v.bpb.sectors_per_fat + t)
          (omega (arith, in_tables v f t lt lt', laid.table))
      ∙ stored.copies f t lt lt';
  behind = λ f t lt lo hi.
      ap (λ c. c (v.fat_start + f * v.bpb.sectors_per_fat + t)) e
      ∙ before (v.fat_start + f * v.bpb.sectors_per_fat + t)
          (omega (arith, mul-le-mul_right v.bpb.sectors_per_fat lt, laid.table))
      ∙ stored.behind f t lt lo hi;
  mark = ap (λ c. c (v.root_start + p.at_sector) (p.at_entry * 32)) e ∙ ground arith;
  unmarked = λ k ne. ap (λ c. c (v.root_start + p.at_sector) k) e ∙ ground arith;
  others =
      λ l out_of ne. ap (λ c. c l) e ∙ other l ne ∙ stored.outside l (omega (arith, laid.table));
}
  where
    other :
        (l : ℕ)
        → l ≢ v.root_start + p.at_sector
        → put_sector d1 (v.root_start + p.at_sector) (erased p.bytes p.at_entry) l ≡ d1 l
    other l ne = ground arith

    before :
        (l : ℕ)
        → l < v.root_start
        → put_sector d1 (v.root_start + p.at_sector) (erased p.bytes p.at_entry) l ≡ d1 l
    before l lt = other l (omega arith)

removed :
    (v v1 v2 : Vars) (p : Place) (table : Bytes) (xs : List ℕ) (out buf : Bytes)
    (d d1 d2 d3 : ℕ → Bytes)
    → IsLaidOut v
    → p.at_sector < v.root_sectors
    → IsFreed table xs out
    → buf ≡ out
    → v1 ≡ v
    → v2 ≡ v1
    → d1 ≡ d
    → IsStored v1 buf d1 d2
    → d3 ≡ put_sector d2 (add32 v2.root_start p.at_sector) (erased p.bytes p.at_entry)
    → IsRemoved v p table xs out d d3
removed v v1 v2 p table xs out buf d d1 d2 d3 laid lt freed eb e1 e2 ed stored e =
    let stored' : IsStored v out d d2 = rw (e1, eb, ed) at stored in
    let no_wrap : add32 v.root_start p.at_sector ≡ v.root_start + p.at_sector =
      omega (arith, laid.root, laid.small) in
    let here : add32 v2.root_start p.at_sector ≡ v.root_start + p.at_sector =
      ap (λ (u : Vars). add32 u.root_start p.at_sector) (e2 ∙ e1) ∙ no_wrap in
    IsRemoved-intro v p table xs out d d2 d3 laid freed stored'
      (e ∙ ap (λ n. put_sector d2 n (erased p.bytes p.at_entry)) here)

put_buf_self : (bufs : ℕ → Bytes) (n : ℕ) (buf : Bytes) → put_buf bufs n buf n ≡ buf
put_buf_self bufs n buf = ground arith

module _ {D : BlockDevice} (h : IsHealthy D) (f : Owner) (p : Place) (xs : List ℕ)
    (w : World D.Dev) where
  -- The run after the search.
  abbrev Removes : Run D.Dev (Unit {0}) → Type 0
  Removes = Gives (λ _ w'.
      ((out : Bytes) × IsRemoved w.vars p (loaded_table h f w) xs out (h.contents w.dev)
          (h.contents w'.dev))
      × (w'.vars ≡ w.vars))

  remove_place-Removes :
      (w1 : World D.Dev)
      → AtRoot w
      → IsLaidOut w.vars
      → p.at_sector < w.vars.root_sectors
      → IsBytes (loaded_table h f w)
      → Chain (loaded_table h f w) (first_cluster p.bytes p.at_entry) xs
      → length xs < 4082
      → IsOpened h f w w1
      → Removes (remove_place D f (some p) w1)
  unfolding remove_place
  remove_place-Removes w1 at laid lt bytes ch short o =
      let (out, e, freed) =
        free_chain-IsFreed 4082 (loaded_table h f w) (first_cluster p.bytes p.at_entry) xs bytes ch
          short in
      let e' : free_chain 4082 (w1.fat_bufs (slot f)) (first_cluster p.bytes p.at_entry)
          ≡ some out =
        ap (λ b. free_chain 4082 b (first_cluster p.bytes p.at_entry)) o.table ∙ e in
      rw e' (
        bind (settle-Gives (write_fat-IsStored h f (cleared out) (small w1.vars o.vars))) (λ _ w2 q.
          mono
            (write_dir_sector-Wrote h f p.at_sector (erased p.bytes p.at_entry) w2
              (AtRoot-vars (q.1.vars ∙ o.vars) at))
            (λ _ w3 r. (
              (
                out,
                removed w.vars w1.vars w2.vars p (loaded_table h f w) xs out _ (h.contents w.dev)
                    (h.contents w1.dev) (h.contents w2.dev) (h.contents w3.dev) laid lt freed
                    (put_buf_self w1.fat_bufs (slot f) out) o.vars q.1.vars o.disk q.0 r.disk,
              ),
              r.vars ∙ q.1.vars ∙ o.vars,
            ))))
    where
      cleared : Bytes → World D.Dev
      cleared out = record w1 { fat_bufs = put_buf w1.fat_bufs (slot f) out }

      small :
          (v : Vars) → v ≡ w.vars → v.fat_start + v.bpb.fat_count * v.bpb.sectors_per_fat < 2 ^ 32
      small v e = rw e (omega (arith, laid.table, laid.root, laid.small))

  module _ (rounds : ℕ) (at : AtRoot w) (laid : IsLaidOut w.vars)
      (enough : w.vars.root_sectors < rounds) (bytes : IsBytes (loaded_table h f w))
      (ch : Chain (loaded_table h f w) (first_cluster p.bytes p.at_entry) xs)
      (short : length xs < 4082) where
    remove_entry-Removes :
        (verdict : Bytes → ℕ → Verdict)
        → first_taken verdict (root_dir h w) w.vars.root_sectors 0 ≡ some p
        → Removes (remove_entry D f verdict rounds w)
    unfolding remove_entry
    remove_entry-Removes verdict found =
        opened h f verdict rounds w at enough
          λ r w1 e o. rw (e, found) (remove_place-Removes w1 at laid in_dir bytes ch short o)
      where
        in_dir : p.at_sector < w.vars.root_sectors
        in_dir = taken_in verdict (root_dir h w) w.vars.root_sectors p found

module _ {D : BlockDevice} (h : IsHealthy D) where
  -- On a disk that answers and a volume that is laid out as `fat_init` does it, deleting a file
  -- of the root directory whose table entries form a chain frees exactly the clusters of the
  -- chain in every copy of the table, as far as it is kept in memory, puts 0xE5 into the first byte
  -- of the first entry that has the name, and leaves the variables, the other bytes of that sector
  -- and all other sectors as they were.
  pub fat_delete-IsRemoved :
      (rounds : ℕ) (name : List ℕ) (p : Place) (xs : List ℕ) (w : World D.Dev)
      → AtRoot w
      → IsLaidOut w.vars
      → w.vars.root_sectors < rounds
      → IsBytes (loaded_table h Owner.delete w)
      → Chain (loaded_table h Owner.delete w) (first_cluster p.bytes p.at_entry) xs
      → length xs < 4082
      → first_taken (is_file name) (root_dir h w) w.vars.root_sectors 0 ≡ some p
      → Gives
          (λ _ w'.
            ((out : Bytes) × IsRemoved w.vars p
                (loaded_table h Owner.delete w)
                xs
                out
                (h.contents w.dev)
                (h.contents w'.dev))
            × (w'.vars ≡ w.vars))
          (fat_delete D rounds name w)
  unfolding fat_delete
  fat_delete-IsRemoved rounds name p xs w at laid enough bytes ch short found =
      guarded-Gives D _ w laid.initialized (
        remove_entry-Removes h Owner.delete p xs w rounds at laid enough bytes ch short
          (is_file name) found)

  -- On a disk that answers and a volume that is laid out as `fat_init` does it, removing a
  -- directory of the root directory whose table entries form a chain frees exactly the clusters
  -- of its own chain in every copy of the table, as far as it is kept in memory, whatever it holds,
  -- puts 0xE5 into the first byte of the first entry that has the name, and leaves the variables,
  -- the other bytes of that sector and all other sectors as they were.
  pub fat_rmdir-IsRemoved :
      (rounds : ℕ) (name : List ℕ) (p : Place) (xs : List ℕ) (w : World D.Dev)
      → AtRoot w
      → IsLaidOut w.vars
      → w.vars.root_sectors < rounds
      → IsBytes (loaded_table h Owner.rmdir w)
      → Chain (loaded_table h Owner.rmdir w) (first_cluster p.bytes p.at_entry) xs
      → length xs < 4082
      → first_taken (is_directory name) (root_dir h w) w.vars.root_sectors 0 ≡ some p
      → Gives
          (λ _ w'.
            ((out : Bytes) × IsRemoved w.vars p
                (loaded_table h Owner.rmdir w)
                xs
                out
                (h.contents w.dev)
                (h.contents w'.dev))
            × (w'.vars ≡ w.vars))
          (fat_rmdir D rounds name w)
  unfolding fat_rmdir
  fat_rmdir-IsRemoved rounds name p xs w at laid enough bytes ch short found =
      guarded-Gives D _ w laid.initialized (
        remove_entry-Removes h Owner.rmdir p xs w rounds at laid enough bytes ch short
          (is_directory name) found)
