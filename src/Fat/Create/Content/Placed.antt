-- ===== src/Fat/Create/Content/Placed.antt =====
-- The sectors of the clusters of a chain: they do not overlap, and what they hold.
use native.Mathlib.Decide.{dec_le, dec_lt}
use native.Mathlib.Nat.{mul-le-mul_right}
use Prim.Native.Nat.{min}
use mathlib.Core.Path.{ap₂}
use master_os.Base.{
  ℕ, zero, suc, ◌+◌, ◌*◌, ◌-◌, ◌%◌, ◌^◌, ◌<◌, ◌≤◌, ◌≡◌, ◌≢◌, refl, sym, ◌⊎◌, inl, inr, ◌∙◌, ap,
  arith, true, false, List, [], ◌∷◌, ◌++◌, length, take, take-append_le, take-append_ge, take-all,
  Bytes, bytes_at, bytes_at-append, add32,
}
use master_os.Fat.Monad.{Vars}
use master_os.Fat.Table.{offset}
use master_os.Fat.Table.Chain.{has}
use master_os.Fat.Disk.{fat_secs, cluster_lba}
use master_os.Fat.Read.Content.{cluster_bytes, chain_bytes, length-cluster_bytes}
use master_os.Fat.Create.Cluster.{IsFilled}

-- The clusters below `n` have their entries in the loaded table and their sectors in 32 bits.
pub record Fits (v : Vars) (n : ℕ) : Type 0 where
  pub small : n ≤ 0xFF0
  pub in_table : offset n < fat_secs v.bpb * 512
  pub some_sectors : 0 < v.bpb.sectors_per_cluster
  pub in_range : v.data_start + n * v.bpb.sectors_per_cluster ≤ 2 ^ 32

-- The first sector of a cluster.
abbrev pub lba_of : Vars → ℕ → ℕ
lba_of v c = v.data_start + (c - 2) * v.bpb.sectors_per_cluster

module _ (v : Vars) (n c : ℕ) (fits : Fits v n) (lo : 2 ≤ c) (hi : c < n) where
  pub lba_of-le : lba_of v c + v.bpb.sectors_per_cluster ≤ 2 ^ 32
  lba_of-le =
      let le : (c - 2 + 1) * v.bpb.sectors_per_cluster ≤ n * v.bpb.sectors_per_cluster =
        mul-le-mul_right v.bpb.sectors_per_cluster (omega arith) in
      omega (arith, le, fits.in_range)

  pub cluster_lba_lem : cluster_lba v c 0 ≡ lba_of v c
  cluster_lba_lem =
      let two_off : (c + 2 ^ 32 - 2) % 2 ^ 32 ≡ c - 2 = omega (arith, fits.small) in
      rw two_off (omega (arith, lba_of-le, fits.some_sectors))

-- Sector `l` is in none of the clusters.
abbrev pub IsOutside : Vars → List ℕ → ℕ → Type 0
IsOutside v xs l =
    (c : ℕ) → has c xs ≡ true → (l < lba_of v c) ⊎ (lba_of v c + v.bpb.sectors_per_cluster ≤ l)

-- Two clusters have no sector in common.
lba_of-ne :
    (v : Vars) (c d l : ℕ)
    → 2 ≤ c
    → 2 ≤ d
    → c ≢ d
    → lba_of v c ≤ l
    → l < lba_of v c + v.bpb.sectors_per_cluster
    → (l < lba_of v d) ⊎ (lba_of v d + v.bpb.sectors_per_cluster ≤ l)
lba_of-ne v c d l lo lo' ne p q = elim (dec_lt c d) [
  | yes lt ↦
      let le : (c - 2 + 1) * v.bpb.sectors_per_cluster ≤ (d - 2) * v.bpb.sectors_per_cluster =
        mul-le-mul_right v.bpb.sectors_per_cluster (omega arith) in
      inl (omega arith)
  | no ge ↦
      let le : (d - 2 + 1) * v.bpb.sectors_per_cluster ≤ (c - 2) * v.bpb.sectors_per_cluster =
        mul-le-mul_right v.bpb.sectors_per_cluster (omega arith) in
      inr (omega arith)
]

pub cluster_bytes_cong :
    (d d' : ℕ → Bytes) (lba left s : ℕ)
    → lba + s + left ≤ 2 ^ 32
    → ((l : ℕ) → lba + s ≤ l → l < lba + s + left → d' l ≡ d l)
    → cluster_bytes d' lba left s ≡ cluster_bytes d lba left s
unfolding cluster_bytes
cluster_bytes_cong d d' lba zero s small same = refl
cluster_bytes_cong d d' lba (suc left) s small same =
    let at : add32 lba s ≡ lba + s = omega arith in
    rw (at, same (lba + s) (omega arith) (omega arith))
      (ap (bytes_at (d (lba + s)) 0 512 ++◌) (
        cluster_bytes_cong d d' lba left (s + 1) (omega arith)
          (λ l p q. same l (omega arith) (omega arith))))

-- From disk `d` to disk `d'` the last `rem` bytes of the data have been written to the clusters.
pub record IsPlaced (data_bytes : Bytes) (size : ℕ) (v : Vars) (xs : List ℕ) (rem : ℕ)
    (d d' : ℕ → Bytes) : Type 0 where
  pub bytes : take rem (chain_bytes d' v xs) ≡ bytes_at data_bytes (size - rem) rem
  pub outside : (l : ℕ) → IsOutside v xs l → d' l ≡ d l

module _ (data_bytes : Bytes) (size : ℕ) (v : Vars) where
  pub IsPlaced-none : (d : ℕ → Bytes) → IsPlaced data_bytes size v [] 0 d d
  unfolding chain_bytes bytes_at
  IsPlaced-none d = record { bytes = refl; outside = λ l p. refl }

  -- The bytes of a cluster, then those of the clusters after it.
  joined :
      (rem full : ℕ) (first rest : List ℕ)
      → length first ≡ full
      → rem ≤ size
      → take rem first ≡ bytes_at data_bytes (size - rem) (min rem full)
      → take (rem - full) rest ≡ bytes_at data_bytes (size - (rem - full)) (rem - full)
      → take rem (first ++ rest) ≡ bytes_at data_bytes (size - rem) rem
  joined rem full first rest len le e e' = elim (dec_le rem full) [
    | yes last ↦
        let all : min rem full ≡ rem = omega arith in
        take-append_le rem first rest (omega arith) ∙ e ∙ ap (bytes_at data_bytes (size - rem)) all
    | no more ↦
        let some : min rem full ≡ full = omega arith in
        let start : size - (rem - full) ≡ size - rem + full = omega arith in
        let sum : full + (rem - full) ≡ rem = omega arith in
        take-append_ge rem (rem - full) first rest (omega arith)
        ∙ ap₂ ◌++◌
            (sym (take-all rem first (omega arith))
              ∙ e
              ∙ ap (bytes_at data_bytes (size - rem)) some)
            (e' ∙ ap (λ (i : ℕ). bytes_at data_bytes i (rem - full)) start)
        ∙ bytes_at-append data_bytes (size - rem) full (rem - full)
        ∙ ap (bytes_at data_bytes (size - rem)) sum
  ]

  pub IsPlaced-cons :
      (n c rem : ℕ) (xs : List ℕ) (d d1 d' : ℕ → Bytes)
      → Fits v n
      → 2 ≤ c
      → c < n
      → rem ≤ size
      → has c xs ≡ false
      → ((e : ℕ) → has e xs ≡ true → 2 ≤ e)
      → IsFilled data_bytes size (lba_of v c) v.bpb.sectors_per_cluster 0 rem d d1
      → IsPlaced data_bytes size v xs (rem - 512 * v.bpb.sectors_per_cluster) d1 d'
      → IsPlaced data_bytes size v (c ∷ xs) rem d d'
  unfolding chain_bytes
  IsPlaced-cons n c rem xs d d1 d' fits lo hi le fresh above filled placed = record {
    bytes =
        rw (cluster_lba_lem v n c fits lo hi, kept)
          (joined rem (512 * v.bpb.sectors_per_cluster) _ (chain_bytes d' v xs)
            (length-cluster_bytes d1 (lba_of v c) v.bpb.sectors_per_cluster 0) le filled.bytes
            placed.bytes);
    outside = λ l out.
        placed.outside l (λ e m. out e (ground arith))
        ∙ filled.outside l (before l (out c (ground arith)));
  }
    where
      before :
          (l : ℕ)
          → (l < lba_of v c) ⊎ (lba_of v c + v.bpb.sectors_per_cluster ≤ l)
          → (l < lba_of v c + 0) ⊎ (lba_of v c + 0 + v.bpb.sectors_per_cluster ≤ l)
      before l (inl p) = inl (omega arith)
      before l (inr p) = inr (omega arith)

      other : (e : ℕ) → has e xs ≡ true → c ≢ e
      other e m same = cc (fresh, m, ap (λ (t : ℕ). has t xs) same)

      kept :
          cluster_bytes d' (lba_of v c) v.bpb.sectors_per_cluster 0
          ≡ cluster_bytes d1 (lba_of v c) v.bpb.sectors_per_cluster 0
      kept =
          cluster_bytes_cong d1 d' (lba_of v c) v.bpb.sectors_per_cluster 0
            (omega (arith, lba_of-le v n c fits lo hi))
            (λ l p q.
              placed.outside l
                (λ e m. lba_of-ne v c e l lo (above e m) (other e m) (omega arith) (omega arith)))
