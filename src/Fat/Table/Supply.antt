-- ===== src/Fat/Table/Supply.antt =====
-- How many clusters are free, and that the scan finds one as long as there are any.
use native.Mathlib.Decide.{ℕ_discrete}
use master_os.Base.{
  ℕ, zero, suc, ◌+◌, ◌-◌, ◌≤◌, ◌<◌, ◌^◌, ◌≡◌, ◌≢◌, refl, arith, false, true, ◌&&◌, leb, ◌==◌,
  if◌then◌else◌, Bool-cases, inl, inr, Bytes,
}
use master_os.Fat.Table.{fat_next_cluster, fat_find_free_cluster}
use master_os.Fat.Table.Free.{IsFree, find_free-IsFirstFree}

-- How many of the clusters from 2 up to below `n` are free.
unfoldable pub free_below : ℕ → Bytes → ℕ
free_below zero buf = 0
free_below (suc n) buf =
    free_below n buf + (if leb 2 n && fat_next_cluster buf n == 0 then 1 else 0)

pub free_below-le : (n : ℕ) (buf : Bytes) → free_below n buf ≤ n - 2
unfolding free_below
free_below-le zero buf = omega arith
free_below-le (suc n) buf = ground (arith, free_below-le n buf)

some_free :
    (n : ℕ) (buf : Bytes) → 0 < free_below n buf → (c : ℕ) × (2 ≤ c) × (c < n) × IsFree buf c
unfolding free_below
some_free zero buf h = absurd (omega arith)
some_free (suc n) buf h = elim (Bool-cases (leb 2 n && fat_next_cluster buf n == 0)) [
  | inl e ↦ (n, ground arith, omega arith, ground arith)
  | inr e ↦ let (c, lo, hi, free) = some_free n buf (ground arith) in (c, lo, omega arith, free)
]

-- While a cluster below `n` is free, the scan returns one.
pub find_free_some :
    (n total_clusters : ℕ) (buf : Bytes)
    → n ≤ total_clusters + 2
    → total_clusters + 2 ≤ 2 ^ 16
    → 0 < free_below n buf
    → (fat_find_free_cluster buf total_clusters ≢ 0)
      × (2 ≤ fat_find_free_cluster buf total_clusters)
      × (fat_find_free_cluster buf total_clusters < n)
      × IsFree buf (fat_find_free_cluster buf total_clusters)
find_free_some n total buf le small pos =
    let (c, lo, hi, free) = some_free n buf pos in
    let first = find_free-IsFirstFree buf total small in
    let found : fat_find_free_cluster buf total ≢ 0 = λ z. first.full z c lo (omega arith) free in
    (
      found,
      (first.found found).0,
      elim (Bool-cases (leb (fat_find_free_cluster buf total) c)) [
        | inl le ↦ ground arith
        | inr gt ↦ absurd (first.least found c lo (ground arith) free)
      ],
      (first.found found).2,
    )

-- The tables agree on which entries are free, but for entry `c`.
module _ (buf out : Bytes) (c : ℕ)
    (same : (d : ℕ) → d ≢ c → (fat_next_cluster out d == 0) ≡ (fat_next_cluster buf d == 0)) where
  free_below_above : (n : ℕ) → n ≤ c → free_below n out ≡ free_below n buf
  unfolding free_below
  free_below_above zero h = refl
  free_below_above (suc n) h = rw (free_below_above n (omega arith), same n (λ e. omega (arith, e)))

  -- A cluster that is taken is one free cluster less.
  pub free_below-take :
      (n : ℕ)
      → 2 ≤ c
      → c < n
      → IsFree buf c
      → ¬ IsFree out c
      → free_below n out + 1 ≡ free_below n buf
  unfolding free_below
  free_below-take zero lo h free used = absurd (omega arith)
  free_below-take (suc n) lo h free used = elim (ℕ_discrete n c) [
    | yes e ↦
        let before : (leb 2 n && fat_next_cluster buf n == 0) ≡ true = ground arith in
        let after : (leb 2 n && fat_next_cluster out n == 0) ≡ false = ground arith in
        rw (before, after) (omega (arith, free_below_above n (omega arith)))
    | no ne ↦ rw (same n ne) (ground (arith, free_below-take n lo (omega arith) free used))
  ]
