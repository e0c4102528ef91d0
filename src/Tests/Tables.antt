-- ===== src/Tests/Tables.antt =====
-- The theorems about the file allocation table at a concrete table.
use master_os.Base.{◌≡◌, refl, arith, some, [], ◌∷◌, Bytes, IsBytes, put_bytes}
use master_os.Fat.Table.{fat_next_cluster, fat_set_cluster, free_chain, fat_find_free_cluster}
use master_os.Fat.Table.Entry.{next_set_ne}
use master_os.Fat.Table.Chain.{Chain, stop, link, IsFreed, free_chain-IsFreed, free_chain_total}
use master_os.Fat.Table.Free.{IsFirstFree, find_free-IsFirstFree}
use master_os.Tests.Ram.{table}

table-IsBytes : IsBytes table
table-IsBytes j = ground arith

two : fat_next_cluster table 2 ≡ 4
unfolding fat_next_cluster
two = refl

four : fat_next_cluster table 4 ≡ 0xFFF
unfolding fat_next_cluster
four = refl

table-Chain : Chain table 2 (2 ∷ 4 ∷ [])
table-Chain =
    link (omega arith, omega arith) refl
      (rw two (link (omega arith, omega arith) refl (rw four (stop (λ h. omega (arith, h))))))

-- The clusters 4 and 5 share the byte 7.
next_set_ne_example : fat_next_cluster (fat_set_cluster table 4 0x123) 5 ≡ fat_next_cluster table 5
next_set_ne_example = next_set_ne table 4 0x123 table-IsBytes 5 (omega arith)

free_chain-IsFreed_example :
    (out : Bytes) × (free_chain 9 table 2 ≡ some out) × IsFreed table (2 ∷ 4 ∷ []) out
free_chain-IsFreed_example =
    free_chain-IsFreed 9 table 2 (2 ∷ 4 ∷ []) table-IsBytes table-Chain (omega arith)

-- Two clusters that lead to each other.
abbrev cycle : Bytes
cycle = put_bytes (λ _. 0) 3 (3 ∷ 0x20 ∷ 0 ∷ [])

cycle-IsBytes : IsBytes cycle
cycle-IsBytes j = ground arith

free_chain_total_example : (out : Bytes) × (free_chain 4082 cycle 2 ≡ some out) × IsBytes out
free_chain_total_example = free_chain_total cycle 2 cycle-IsBytes

find_free-IsFirstFree_example : IsFirstFree table 2 62 (fat_find_free_cluster table 60)
find_free-IsFirstFree_example = find_free-IsFirstFree table 60 (omega arith)
