-- ===== src/Fat/Table/Entry.antt =====
-- Reading and writing one entry: what is written is read back, and no other entry changes.
use master_os.Base.{ℕ, ◌+◌, ◌*◌, ◌/◌, ◌%◌, ◌≡◌, ◌≢◌, arith, Bytes, IsBytes}
use master_os.Base.Bits.{
  and_one, and_nibble, and_high_nibble, and_byte, and_twelve, or_fields, or_fields_high,
}
use master_os.Fat.Table.{offset, fat_next_cluster, fat_set_cluster}

-- The two bytes of an entry, as one number.
abbrev pub pair_at : Bytes → ℕ → ℕ
pair_at buf c = buf (offset c) + buf (offset c + 1) * 256

pub next_even :
    (buf : Bytes) (c : ℕ) → IsBytes buf → c % 2 ≡ 0 → fat_next_cluster buf c ≡ pair_at buf c % 4096
unfolding fat_next_cluster
next_even buf c bytes even = ground (
  arith,
  and_one c,
  bytes (offset c),
  bytes (offset c + 1),
  or_fields 8 (buf (offset c)) (buf (offset c + 1)),
  and_twelve (pair_at buf c),
)

pub next_odd :
    (buf : Bytes) (c : ℕ) → IsBytes buf → c % 2 ≡ 1 → fat_next_cluster buf c ≡ pair_at buf c / 16
unfolding fat_next_cluster
next_odd buf c bytes odd = ground (
  arith,
  and_one c,
  bytes (offset c),
  bytes (offset c + 1),
  or_fields 8 (buf (offset c)) (buf (offset c + 1)),
)

-- The bytes after a write: the two of the entry, and the others.
module _ (buf : Bytes) (c v : ℕ) (bytes : IsBytes buf) where
  pub set_even :
      c % 2 ≡ 0
      → (fat_set_cluster buf c v (offset c) ≡ v % 256)
        × (fat_set_cluster buf c v (offset c + 1) ≡ buf (offset c + 1) / 16 * 16 + v / 256 % 16)
  unfolding fat_set_cluster
  set_even even = ground (
    arith,
    and_one c,
    and_byte v,
    and_nibble (v / 256),
    bytes (offset c + 1),
    and_high_nibble (buf (offset c + 1)),
    or_fields_high 4 (v / 256 % 16) (buf (offset c + 1) / 16),
  )

  pub set_odd :
      c % 2 ≡ 1
      → (fat_set_cluster buf c v (offset c) ≡ buf (offset c) % 16 + v % 16 * 16)
        × (fat_set_cluster buf c v (offset c + 1) ≡ v / 16 % 256)
  unfolding fat_set_cluster
  set_odd odd = ground (
    arith,
    and_one c,
    and_byte (v / 16),
    and_nibble v,
    and_nibble (buf (offset c)),
    or_fields 4 (buf (offset c) % 16) (v % 16),
  )

  pub set_else : (j : ℕ) → j ≢ offset c → j ≢ offset c + 1 → fat_set_cluster buf c v j ≡ buf j
  unfolding fat_set_cluster
  set_else j ne ne' = ground arith

  pub fat_set_cluster-IsBytes : IsBytes (fat_set_cluster buf c v)
  fat_set_cluster-IsBytes j =
      ground (arith, bytes j, bytes (offset c), bytes (offset c + 1), set_else j, set_even, set_odd)

  -- What `fat_set_cluster` writes, `fat_next_cluster` reads back, cut to twelve bits.
  pub next_set_self : fat_next_cluster (fat_set_cluster buf c v) c ≡ v % 4096
  next_set_self = ground (
    arith,
    next_even (fat_set_cluster buf c v) c fat_set_cluster-IsBytes,
    next_odd (fat_set_cluster buf c v) c fat_set_cluster-IsBytes,
    set_even,
    set_odd,
    bytes (offset c),
    bytes (offset c + 1),
  )

  -- Writing one entry leaves every other entry as it was, also the one that shares a byte with it.
  pub next_set_ne :
      (d : ℕ) → c ≢ d → fat_next_cluster (fat_set_cluster buf c v) d ≡ fat_next_cluster buf d
  next_set_ne d ne = ground (
    arith,
    next_even (fat_set_cluster buf c v) d fat_set_cluster-IsBytes,
    next_odd (fat_set_cluster buf c v) d fat_set_cluster-IsBytes,
    next_even buf d bytes,
    next_odd buf d bytes,
    set_even,
    set_odd,
    bytes (offset c),
    bytes (offset c + 1),
    set_else (offset d),
    set_else (offset d + 1),
  )
