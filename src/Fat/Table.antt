-- ===== src/Fat/Table.antt =====
-- The 12-bit entries of the file allocation table, packed two to three bytes, and the scan for
-- a free cluster (drivers/fs/fat.c: fat_next_cluster, fat_set_cluster, fat_find_free_cluster,
-- and the loop of fat_delete and fat_rmdir that frees a chain).
pub mod Entry
pub mod Chain
pub mod Free
pub mod Supply
use master_os.Base.{
  ℕ, zero, suc, ◌+◌, ◌-◌, ◌*◌, ◌/◌, ◌≤◌, ◌<◌, bit_and, bit_or, Bool, true, false, ◌&&◌, Option,
  none, some, ltb, leb, ◌==◌, if◌then◌else◌, u8, u16, ◌<<<◌, ◌>>>◌, Bytes, put,
}

-- `cluster + (cluster / 2)`
abbrev pub offset : ℕ → ℕ
offset cluster = cluster + cluster / 2

unfoldable pub fat_next_cluster : Bytes → ℕ → ℕ
fat_next_cluster fat_buf cluster =
    let val = u16 (bit_or (fat_buf (offset cluster)) (fat_buf (offset cluster + 1) <<< 8)) in
    if bit_and cluster 1 == 0 then bit_and val 0x0FFF else val >>> 4

unfoldable pub fat_set_cluster : Bytes → ℕ → ℕ → Bytes
fat_set_cluster fat_buf cluster value =
    let at = offset cluster in
    if bit_and cluster 1 == 0
    then (let fat_buf' = put fat_buf at (bit_and value 0xFF) in
        put fat_buf' (at + 1)
          (bit_or (bit_and (fat_buf' (at + 1)) 0xF0) (bit_and (value >>> 8) 0x0F)))
    else (let fat_buf' =
          put fat_buf at (bit_or (bit_and (fat_buf at) 0x0F) (bit_and value 0x0F <<< 4)) in
        put fat_buf' (at + 1) (bit_and (value >>> 4) 0xFF))

-- The loop of `fat_find_free_cluster` at cluster `c`, with `left` clusters to look at.
unfoldable pub find_free_from : Bytes → ℕ → ℕ → ℕ
find_free_from fat_buf zero c = 0
find_free_from fat_buf (suc left) c =
    let rest = find_free_from fat_buf left (c + 1) in
    if fat_next_cluster fat_buf (u16 c) == 0 then u16 c else rest

unfoldable pub fat_find_free_cluster : Bytes → ℕ → ℕ
unfolding find_free_from
fat_find_free_cluster fat_buf total_clusters = find_free_from fat_buf total_clusters 2

-- `while (cluster >= 2 && cluster <= 0xFEF) { next = …; fat_set_cluster(…, 0x000); cluster = next; }`;
-- `none` means that the rounds ran out.
unfoldable pub free_chain : ℕ → Bytes → ℕ → Option Bytes
free_chain zero fat_buf cluster = none
free_chain (suc rounds) fat_buf cluster =
    let rest =
      free_chain rounds (fat_set_cluster fat_buf cluster 0x000)
        (fat_next_cluster fat_buf cluster) in
    if leb 2 cluster && leb cluster 0xFEF then rest else some fat_buf
