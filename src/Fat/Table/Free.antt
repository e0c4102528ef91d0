-- ===== src/Fat/Table/Free.antt =====
-- The scan for a free cluster, and the loop that frees a chain.
use master_os.Base.{
  ℕ, zero, suc, ◌+◌, ◌^◌, ◌≤◌, ◌<◌, ◌≡◌, ◌≢◌, refl, ◌⊎◌, inl, inr, arith, ◌==◌, Bool-cases, Bytes,
  u16,
}
use native.Mathlib.Decide.{ℕ_discrete}
use master_os.Fat.Table.{fat_next_cluster, find_free_from, fat_find_free_cluster}

abbrev pub IsFree : Bytes → ℕ → Type 0
IsFree buf c = fat_next_cluster buf c ≡ 0

-- What the scan of `[lo, hi)` returns.
pub record IsFirstFree (buf : Bytes) (lo hi result : ℕ) : Type 0 where
  pub found : result ≢ 0 → (lo ≤ result) × (result < hi) × IsFree buf result
  pub least : result ≢ 0 → (c : ℕ) → lo ≤ c → c < result → ¬ (IsFree buf c)
  pub full : result ≡ 0 → (c : ℕ) → lo ≤ c → c < hi → ¬ (IsFree buf c)

-- One round: the cluster is returned, or it is in use and the scan goes on.
scan_step :
    (buf : Bytes) (left c : ℕ)
    → c < 2 ^ 16
    → (IsFree buf c × (find_free_from buf (suc left) c ≡ c))
      ⊎ ((¬ IsFree buf c) × (find_free_from buf (suc left) c ≡ find_free_from buf left (c + 1)))
unfolding find_free_from
scan_step buf left c h =
    let e : u16 c ≡ c = omega arith in
    rw e (elim (Bool-cases (fat_next_cluster buf c == 0)) [
      | inl free ↦ inl (ground arith, rw free)
      | inr used ↦ inr (ground arith, rw used)
    ])

find_free_from-IsFirstFree :
    (buf : Bytes) (left c hi : ℕ)
    → c + left ≡ hi
    → 0 < c
    → hi ≤ 2 ^ 16
    → IsFirstFree buf c hi (find_free_from buf left c)
find_free_from-IsFirstFree buf zero c hi e p h =
    unfold find_free_from in
    record {
      found = λ ne. absurd (ne refl);
      least = λ ne. absurd (ne refl);
      full = λ z d lo lt. absurd (omega arith);
    }
find_free_from-IsFirstFree buf (suc left) c hi e p h = elim (scan_step buf left c (omega arith)) [
  | inl (free, r) ↦ rw r (record {
    found = λ ne. (omega arith, omega arith, free);
    least = λ ne d lo lt. absurd (omega arith);
    full = λ z. absurd (omega arith);
  })
  | inr (used, r) ↦
      rw r
        (skip used (find_free_from-IsFirstFree buf left (c + 1) hi (omega arith) (omega arith) h))
]
  where
    below : (d : ℕ) → ¬ IsFree buf c → c ≤ d → ((c + 1 ≤ d) → ¬ IsFree buf d) → ¬ IsFree buf d
    below d used lo later = elim (ℕ_discrete c d) [
      | yes e ↦ rw e at used
      | no ne ↦ later (omega arith)
    ]

    skip : {r : ℕ} → ¬ IsFree buf c → IsFirstFree buf (c + 1) hi r → IsFirstFree buf c hi r
    skip used rest = record {
      found = λ ne. (omega (arith, rest.found ne), omega (arith, rest.found ne), (rest.found ne).2);
      least = λ ne d lo lt. below d used lo (λ lo'. rest.least ne d lo' lt);
      full = λ z d lo lt. below d used lo (λ lo'. rest.full z d lo' lt);
    }

-- `fat_find_free_cluster` returns the lowest cluster from 2 up whose entry is 0, and 0 exactly
-- when there is none.
pub find_free-IsFirstFree :
    (buf : Bytes) (total_clusters : ℕ)
    → total_clusters + 2 ≤ 2 ^ 16
    → IsFirstFree buf 2 (total_clusters + 2) (fat_find_free_cluster buf total_clusters)
unfolding fat_find_free_cluster
find_free-IsFirstFree buf n h =
    find_free_from-IsFirstFree buf n 2 (n + 2) (omega arith) (omega arith) h
