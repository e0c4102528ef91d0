-- ===== src/Fat/Read.antt =====
-- drivers/fs/fat.c: fat_list and fat_read.
pub mod Content
pub mod File
use master_os.Base.{
  ℕ, zero, suc, ◌+◌, ◌-◌, ◌*◌, Bool, true, false, ◌&&◌, ◌||◌, not, Option, none, some, List, [],
  ◌∷◌, ◌++◌, length, ltb, leb, ◌==◌, if◌then◌else◌, add32, sub32, u32, Bytes, bytes_at,
}
use master_os.Device.{BlockDevice}
use master_os.Fat.Monad.{
  Vars, Owner, M, Run, World, pure, and_then, ◌>>=◌, ◌>>◌, failed, stuck, get_vars, get_fat,
  read_sector,
}
use master_os.Fat.Table.{fat_next_cluster}
use master_os.Fat.Disk.{sector, end, error, cluster_lba, load_fat, guarded, read_dir_sector}
use master_os.Fat.Dir.{
  entry_first, attributes, first_cluster, file_size, entry_name, has_bits, is_file, Place,
  find_entry,
}

-- `Fat12Entry`
pub record Fat12Entry : Type 0 where
  pub name : List ℕ
  pub size : ℕ
  pub first_cluster : ℕ
  pub is_dir : Bool

unfoldable pub listed : Bytes → ℕ → Fat12Entry
listed buf i = record {
  name = entry_name buf i;
  size = file_size buf i;
  first_cluster = first_cluster buf i;
  is_dir = has_bits (attributes buf i) 0x10;
}

abbrev pub is_hidden : Bytes → ℕ → Bool
is_hidden buf i =
    entry_first buf i == 0xE5 || has_bits (attributes buf i) 0x08 || entry_first buf i == b'.'

-- The inner loop of `fat_list` with `room` places left in `entries`: what it adds, and whether
-- it leaves by `goto done`.
unfoldable pub list_sector : Bytes → ℕ → ℕ → ℕ → List Fat12Entry × Bool
list_sector buf zero i room = ([], false)
list_sector buf (suc left) i zero = ([], false)
list_sector buf (suc left) i (suc room) =
    let skip = list_sector buf left (i + 1) (suc room) in
    let (es, at_end) = list_sector buf left (i + 1) room in
    if entry_first buf i == 0x00
    then ([], true)
    else if is_hidden buf i
    then skip
    else (listed buf i ∷ es, at_end)

-- How many bytes of a sector are copied: two caps, in 32-bit arithmetic.
unfoldable pub to_copy : ℕ → ℕ → ℕ → ℕ
to_copy file_size buf_size bytes_read =
    let n = if ltb file_size (add32 bytes_read 512) then sub32 file_size bytes_read else 512 in
    if ltb buf_size (add32 bytes_read n) then sub32 buf_size bytes_read else n

module _ (D : BlockDevice) where
  unfoldable pub list_from : ℕ → ℕ → ℕ → M D.Dev (List Fat12Entry)
  unfolding list_sector
  list_from zero s room = stuck
  list_from (suc rounds) s room = if room == 0 then pure [] else do
    r ← read_dir_sector D Owner.list s
    elim r [
      | sector buf ↦
          let (es, at_end) = list_sector buf 16 0 room in
          if at_end
          then pure es
          else do rest ← list_from rounds (add32 s 1) (room - length es); pure (es ++ rest)
      | end ↦ pure []
      | error ↦ pure []
    ]

  unfoldable pub fat_list : (rounds max : ℕ) → M D.Dev (List Fat12Entry)
  unfolding list_from
  fat_list rounds max = guarded D (do load_fat D Owner.list; list_from rounds 0 max)

  -- One round of the loop over the sectors of a cluster: copy, then stop or go on with `rest`.
  unfoldable pub copy_from :
      (file_size buf_size bytes_read : ℕ)
      → (ℕ → M D.Dev (List ℕ × Bool))
      → Bytes
      → M D.Dev (List ℕ × Bool)
  copy_from file_size buf_size bytes_read rest sector_buf =
      let n = to_copy file_size buf_size bytes_read in
      let bytes_read' = add32 bytes_read n in
      if leb file_size bytes_read' || leb buf_size bytes_read'
      then pure (bytes_at sector_buf 0 n, true)
      else (do out ← rest bytes_read'; pure (bytes_at sector_buf 0 n ++ out.0, out.1))

  -- The loop over the sectors of one cluster: the bytes that it copies, and whether it leaves by
  -- `goto read_done`.
  unfoldable pub read_cluster : ℕ → ℕ → ℕ → ℕ → ℕ → ℕ → M D.Dev (List ℕ × Bool)
  unfolding copy_from
  read_cluster file_size buf_size lba zero s bytes_read = pure ([], false)
  read_cluster file_size buf_size lba (suc left) s bytes_read = do
    sector_buf ← read_sector D (add32 lba s)
    copy_from file_size buf_size bytes_read (read_cluster file_size buf_size lba left (s + 1))
        sector_buf

  -- After a cluster: the file is read, or `rest` goes on after that many bytes.
  unfoldable pub after_cluster :
      (bytes_read : ℕ) → (ℕ → M D.Dev (List ℕ)) → List ℕ × Bool → M D.Dev (List ℕ)
  after_cluster bytes_read rest (bytes, true) = pure bytes
  after_cluster bytes_read rest (bytes, false) = do
    out ← rest (add32 bytes_read (length bytes))
    pure (bytes ++ out)

  -- The loop over the clusters of a file.
  unfoldable pub read_clusters : Vars → Bytes → ℕ → ℕ → ℕ → ℕ → ℕ → M D.Dev (List ℕ)
  unfolding read_cluster after_cluster
  read_clusters v fat_buf file_size buf_size zero cluster bytes_read = stuck
  read_clusters v fat_buf file_size buf_size (suc rounds) cluster bytes_read =
      if leb 2 cluster && leb cluster 0xFEF
      then (do
        out ←
            read_cluster file_size buf_size (cluster_lba v cluster 0) v.bpb.sectors_per_cluster 0
              bytes_read
        after_cluster bytes_read
            (read_clusters v fat_buf file_size buf_size rounds (fat_next_cluster fat_buf cluster))
            out)
      else pure []

  -- The contents of a file that was found.
  unfoldable pub read_file : ℕ → ℕ → Option Place → M D.Dev (List ℕ)
  unfolding read_clusters
  read_file rounds buf_size none = failed
  read_file rounds buf_size (some p) = do
    v ← get_vars
    fat_buf ← get_fat Owner.read
    let cluster = first_cluster p.bytes p.at_entry
    let size = file_size p.bytes p.at_entry
    if ltb cluster 2 || size == 0
        then pure []
        else read_clusters v fat_buf size buf_size rounds cluster 0

  -- The result lists the bytes that are stored to `buf`; its length is the C result.
  unfoldable pub fat_read : (rounds : ℕ) (name : List ℕ) (buf_size : ℕ) → M D.Dev (List ℕ)
  unfolding find_entry read_file
  fat_read rounds name buf_size = guarded D (do
    load_fat D Owner.read
    found ← find_entry D Owner.read (is_file name) rounds 0
    read_file rounds buf_size found)
