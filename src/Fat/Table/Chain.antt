-- ===== src/Fat/Table/Chain.antt =====
-- The loop that frees the clusters of a deleted file or directory.
use native.Mathlib.Decide.{ℕ_discrete}
use master_os.Base.{
  ℕ, zero, suc, ◌+◌, ◌≤◌, ◌<◌, ◌≡◌, ◌≢◌, ◌∙◌, refl, ap, ◌⊎◌, inl, inr, arith, ◌==◌, Bool-cases,
  Bool, true, false, ◌||◌, ◌&&◌, leb, Option, some, List, [], ◌∷◌, length, if◌then◌else◌, Bytes,
  IsBytes,
}
use master_os.Fat.Table.{fat_next_cluster, fat_set_cluster, free_chain}
use master_os.Fat.Table.Entry.{next_set_self, next_set_ne, fat_set_cluster-IsBytes}
use master_os.Fat.Table.Free.{IsFree}

-- The cluster numbers that the loop goes on at, and the others.
abbrev pub IsCluster : ℕ → Type 0
IsCluster c = (2 ≤ c) × (c ≤ 0xFEF)

-- How many of the entries below `n` are in use.
used : ℕ → Bytes → ℕ
used zero buf = 0
used (suc n) buf = used n buf + (if fat_next_cluster buf n == 0 then 0 else 1)

used-le : (n : ℕ) (buf : Bytes) → used n buf ≤ n
unfolding used
used-le zero buf = omega arith
used-le (suc n) buf = ground (arith, used-le n buf)

module _ (buf : Bytes) (c : ℕ) (bytes : IsBytes buf) where
  used-set_above : (n : ℕ) → n ≤ c → used n (fat_set_cluster buf c 0) ≡ used n buf
  unfolding used
  used-set_above zero h = refl
  used-set_above (suc n) h =
      rw (used-set_above n (omega arith), next_set_ne buf c 0 bytes n (omega arith))

  used-set :
      (n : ℕ)
      → c < n
      → fat_next_cluster buf c ≢ 0
      → used n (fat_set_cluster buf c 0) + 1 ≡ used n buf
  unfolding used
  used-set zero h ne = absurd (omega arith)
  used-set (suc n) h ne = elim (ℕ_discrete c n) [
    | yes e ↦ ground (arith, next_set_self buf c 0 bytes, used-set_above n)
    | no d ↦ ground (arith, next_set_ne buf c 0 bytes n, used-set n)
  ]

  -- One round at a cluster that is in the range.
  free_chain_step :
      (rounds : ℕ)
      → IsCluster c
      → free_chain (suc rounds) buf c
        ≡ free_chain rounds (fat_set_cluster buf c 0) (fat_next_cluster buf c)
  unfolding free_chain
  free_chain_step rounds h = ground arith

free_chain_stop :
    (rounds : ℕ) (buf : Bytes) (c : ℕ) → ¬ IsCluster c → free_chain (suc rounds) buf c ≡ some buf
unfolding free_chain
free_chain_stop rounds buf c h = elim (Bool-cases (leb 2 c && leb c 0xFEF)) [
  | inl e ↦ absurd (h (ground arith, ground arith))
  | inr e ↦ rw e
]

dec-IsCluster : (c : ℕ) → (IsCluster c) ⊎ (¬ IsCluster c)
dec-IsCluster c = elim (Bool-cases (leb 2 c && leb c 0xFEF)) [
  | inl e ↦ inl (ground arith, ground arith)
  | inr e ↦ inr (λ h. ground arith)
]

free_chain_ends :
    (rounds : ℕ) (buf : Bytes) (c : ℕ)
    → IsBytes buf
    → used 0xFF0 buf + 1 < rounds
    → (out : Bytes) × (free_chain rounds buf c ≡ some out) × IsBytes out
free_chain_ends zero buf c bytes h = absurd (omega arith)
free_chain_ends (suc zero) buf c bytes h = absurd (omega arith)
free_chain_ends (suc (suc r)) buf c bytes h = elim (dec-IsCluster c) [
  | inr out ↦ (buf, free_chain_stop (suc r) buf c out, bytes)
  | inl in_range ↦
      rw (free_chain_step buf c bytes (suc r) in_range)
        (elim (ℕ_discrete (fat_next_cluster buf c) 0) [
          | yes e ↦ (
            fat_set_cluster buf c 0,
            rw e (free_chain_stop r _ 0 (λ h. omega arith)),
            fat_set_cluster-IsBytes buf c 0 bytes,
          )
          | no ne ↦
              free_chain_ends (suc r) (fat_set_cluster buf c 0) (fat_next_cluster buf c)
                (fat_set_cluster-IsBytes buf c 0 bytes)
                (omega (arith, used-set buf c bytes 0xFF0 (omega arith) ne))
        ])
]

-- The loop that frees a chain ends on every table, also where the entries form a cycle:
-- 4082 rounds are enough.
pub free_chain_total :
    (buf : Bytes) (c : ℕ)
    → IsBytes buf
    → (out : Bytes) × (free_chain 4082 buf c ≡ some out) × IsBytes out
free_chain_total buf c bytes = free_chain_ends 4082 buf c bytes (omega (arith, used-le 0xFF0 buf))

abbrev pub has : ℕ → List ℕ → Bool
has d [] = false
has d (x ∷ xs) = (d == x) || has d xs

-- From cluster `c` the entries lead through the distinct clusters `xs` to an end mark.
pub data Chain (buf : Bytes) : ℕ → List ℕ → Type 0 where
  stop : {c : ℕ} → ¬ IsCluster c → Chain buf c []
  link :
      {c : ℕ} {xs : List ℕ}
      → IsCluster c
      → has c xs ≡ false
      → Chain buf (fat_next_cluster buf c) xs
      → Chain buf c (c ∷ xs)

-- A chain does not depend on the entries outside it.
pub Chain-frame :
    (buf out : Bytes) {c : ℕ} {xs : List ℕ}
    → ((d : ℕ) → has d xs ≡ true → fat_next_cluster out d ≡ fat_next_cluster buf d)
    → Chain buf c xs
    → Chain out c xs
Chain-frame buf out same (stop h) = stop h
Chain-frame buf out same (link {c} {xs} h d rest) =
    link h d (rw (same c (ground arith)) (Chain-frame buf out (λ e m. same e (ground arith)) rest))

-- The clusters of a chain are freed, and no other entry changes.
pub record IsFreed (buf : Bytes) (xs : List ℕ) (out : Bytes) : Type 0 where
  pub freed : (d : ℕ) → has d xs ≡ true → IsFree out d
  pub kept : (d : ℕ) → has d xs ≡ false → fat_next_cluster out d ≡ fat_next_cluster buf d
  pub bytes : IsBytes out

IsFreed-link :
    (buf : Bytes) (c : ℕ) (xs : List ℕ) (out : Bytes)
    → IsBytes buf
    → has c xs ≡ false
    → IsFreed (fat_set_cluster buf c 0) xs out
    → IsFreed buf (c ∷ xs) out
IsFreed-link buf c xs out bytes fresh f = record {
  freed = λ d m. elim (ℕ_discrete d c) [
    | yes e ↦ rw e (f.kept c fresh ∙ next_set_self buf c 0 bytes)
    | no ne ↦ f.freed d (ground arith)
  ];
  kept = λ d m. f.kept d (ground arith) ∙ next_set_ne buf c 0 bytes d (ground arith);
  bytes = f.bytes;
}

-- With more rounds than the chain has clusters, the loop ends, every cluster of the chain is
-- free afterwards, and every other entry is as it was.
pub free_chain-IsFreed :
    (rounds : ℕ) (buf : Bytes) (c : ℕ) (xs : List ℕ)
    → IsBytes buf
    → Chain buf c xs
    → length xs < rounds
    → (out : Bytes) × (free_chain rounds buf c ≡ some out) × IsFreed buf xs out
free_chain-IsFreed zero buf c xs bytes ch h = absurd (omega arith)
free_chain-IsFreed (suc r) buf c xs bytes (stop e) h = (
  buf,
  free_chain_stop r buf c e,
  record { freed = λ d m. cc; kept = λ d m. refl; bytes = bytes },
)
free_chain-IsFreed (suc r) buf c _ bytes (link {xs = xs} e fresh rest) h =
    rw (free_chain_step buf c bytes r e) (
      step (
        free_chain-IsFreed r buf' (fat_next_cluster buf c) xs
          (fat_set_cluster-IsBytes buf c 0 bytes) (Chain-frame buf buf' same rest) (omega arith)))
  where
    buf' : Bytes
    buf' = fat_set_cluster buf c 0

    same : (d : ℕ) → has d xs ≡ true → fat_next_cluster buf' d ≡ fat_next_cluster buf d
    same d m = next_set_ne buf c 0 bytes d (λ ce. cc (ap (λ (t : ℕ). has t xs) ce))

    step :
        {run : Option Bytes}
        → (out : Bytes) × (run ≡ some out) × IsFreed buf' xs out
        → (out : Bytes) × (run ≡ some out) × IsFreed buf (c ∷ xs) out
    step (out, ran, f) = (out, ran, IsFreed-link buf c xs out bytes fresh f)
