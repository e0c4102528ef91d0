-- ===== src/Fat/Create.antt =====
-- drivers/fs/fat.c: fat_write and fat_mkdir.
pub mod Cluster
pub mod Chain
pub mod Entry
pub mod Fields
pub mod Found
pub mod Stored
pub mod Absent
pub mod Vacant
pub mod Written
pub mod Directory
pub mod Content
pub mod RoundTrip
use master_os.Base.{
  ℕ, zero, suc, ◌+◌, ◌-◌, ◌*◌, ◌/◌, not, Option, none, some, List, ◌∷◌, ltb, ◌==◌, if◌then◌else◌,
  u16, add32, Bytes, put, put_bytes, put16, put32, replicate,
}
use master_os.Device.{BlockDevice}
use master_os.Fat.Monad.{
  Bpb, Owner, M, pure, ◌>>=◌, ◌>>◌, failed, stuck, ignored, get_vars, get_fat, set_fat,
  write_sector,
}
use master_os.Fat.Names.{split_83, blanks}
use master_os.Fat.Table.{fat_set_cluster, fat_find_free_cluster}
use master_os.Fat.Disk.{fat_secs, cluster_lba, load_fat, guarded, write_fat, write_dir_sector}
use master_os.Fat.Dir.{is_vacant, Place, find_entry}
use master_os.Fat.Remove.{fat_delete}

-- `(fat_secs * 512 * 2) / 3`
abbrev pub total_clusters : Bpb → ℕ
total_clusters bpb = fat_secs bpb * 512 * 2 / 3

-- The 512 bytes of a data sector: `to_copy` bytes from `offset`, then zeros.
abbrev pub data_sector : Bytes → ℕ → ℕ → Bytes
data_sector data_bytes offset n k = if ltb k n then data_bytes (offset + k) else 0

-- The fields of a new directory entry.
abbrev pub new_entry : Bytes → ℕ → List ℕ × List ℕ → (attr cluster size : ℕ) → Bytes
new_entry buf i (name, ext) attr cluster size =
    let at = i * 32 in
    let named = put_bytes (put_bytes buf at name) (at + 8) ext in
    let cleared = put_bytes (put named (at + 11) attr) (at + 12) (replicate 10 0) in
    let undated = put16 (put16 cleared (at + 22) 0) (at + 24) 0 in
    put32 (put16 undated (at + 26) cluster) (at + 28) size

-- The first sector of a new directory: `.` and `..`.
abbrev pub dot_entries : (cluster parent : ℕ) → Bytes
dot_entries cluster parent =
    new_entry (new_entry (λ _. 0) 0 (b'.' ∷ blanks 7, blanks 3) 0x10 cluster 0) 1
      (b'.' ∷ b'.' ∷ blanks 6, blanks 3) 0x10 parent 0

-- The variables of the loop of `fat_write`.
pub record Progress : Type 0 where
  pub bytes_left : ℕ
  pub first : ℕ
  pub previous : ℕ

-- The links of a cluster that has been taken.
unfoldable pub link_cluster : Bytes → (previous cluster : ℕ) → Bytes
link_cluster fat_buf previous cluster =
    let linked = if previous == 0 then fat_buf else fat_set_cluster fat_buf previous cluster in
    fat_set_cluster linked cluster 0xFFF

module _ (D : BlockDevice) where
  -- The loop over the sectors of one cluster; the result is what is left to write.
  unfoldable pub write_cluster : Bytes → (size lba left sct bytes_left : ℕ) → M D.Dev ℕ
  write_cluster data_bytes size lba zero sct bytes_left = pure bytes_left
  write_cluster data_bytes size lba (suc left) sct bytes_left = do
    let n = if ltb bytes_left 512 then bytes_left else 512
    write_sector D (add32 lba sct) (data_sector data_bytes (size - bytes_left) n)
    if bytes_left - n == 0
        then pure 0
        else write_cluster data_bytes size lba left (sct + 1) (bytes_left - n)

  -- `while (bytes_left > 0)`: the result is the first cluster of the file.
  unfoldable pub write_clusters : Bytes → (size rounds : ℕ) → Progress → M D.Dev ℕ
  unfolding write_cluster
  write_clusters data_bytes size zero p = stuck
  write_clusters data_bytes size (suc rounds) p = if p.bytes_left == 0 then pure p.first else do
    v ← get_vars
    fat_buf ← get_fat Owner.write
    let cluster = fat_find_free_cluster fat_buf (total_clusters v.bpb)
    if cluster == 0 then failed else do
      set_fat Owner.write (link_cluster fat_buf p.previous cluster)
      left ←
          write_cluster data_bytes size (cluster_lba v cluster 0) v.bpb.sectors_per_cluster 0
            p.bytes_left
      write_clusters data_bytes size rounds (record {
        bytes_left = left;
        first = if p.first == 0 then cluster else p.first;
        previous = cluster;
      })

  unfoldable pub enter_place :
      Owner → List ℕ → (attr cluster size : ℕ) → Option Place → M D.Dev (Unit {0})
  enter_place f name attr cluster size none = failed
  enter_place f name attr cluster size (some p) =
      write_dir_sector D f p.at_sector
        (new_entry p.bytes p.at_entry (split_83 name) attr cluster size)

  -- The rounds of the allocation: each takes a cluster that was free.
  abbrev pub alloc_rounds : Bpb → ℕ
  alloc_rounds bpb = total_clusters bpb + 2

  -- What follows the deletion of the old file.
  unfoldable pub store_file :
      (rounds : ℕ) (name : List ℕ) (data_bytes : Bytes) (size : ℕ) → M D.Dev (Unit {0})
  unfolding write_clusters enter_place
  store_file rounds name data_bytes size = do
    load_fat D Owner.write
    v ← get_vars
    first ←
        write_clusters data_bytes size (alloc_rounds v.bpb)
          (record { bytes_left = size; first = 0; previous = 0 })
    write_fat D Owner.write
    found ← find_entry D Owner.write is_vacant rounds 0
    enter_place Owner.write name 0x00 first size found

  unfoldable pub fat_write :
      (rounds : ℕ) (name : List ℕ) (data_bytes : Bytes) (size : ℕ) → M D.Dev (Unit {0})
  unfolding store_file
  fat_write rounds name data_bytes size = do
    v ← get_vars
    if not v.initialized
        then failed
        else do ignored (fat_delete D rounds name); store_file rounds name data_bytes size

  unfoldable pub fat_mkdir : (rounds : ℕ) (name : List ℕ) → M D.Dev (Unit {0})
  unfolding enter_place
  fat_mkdir rounds name = guarded D (do
    load_fat D Owner.mkdir
    v ← get_vars
    fat_buf ← get_fat Owner.mkdir
    let cluster = fat_find_free_cluster fat_buf (total_clusters v.bpb)
    if cluster == 0 then failed else do
      set_fat Owner.mkdir (fat_set_cluster fat_buf cluster 0xFFF)
      write_fat D Owner.mkdir
      write_sector D (cluster_lba v cluster 0) (dot_entries cluster (u16 v.current_dir_cluster))
      found ← find_entry D Owner.mkdir is_vacant rounds 0
      enter_place Owner.mkdir name 0x10 cluster 0 found)
