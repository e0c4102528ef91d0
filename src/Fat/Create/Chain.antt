-- ===== src/Fat/Create/Chain.antt =====
-- The clusters that `fat_write` takes: the table entries of its loop.
use native.Mathlib.Decide.{ℕ_discrete}
use master_os.Base.{
  ℕ, ◌+◌, ◌≤◌, ◌<◌, ◌≡◌, ◌≢◌, refl, ◌∙◌, sym, arith, false, true, ◌==◌, List, [], ◌∷◌, Bytes,
  IsBytes, Bool-cases, inl, inr,
}
use master_os.Fat.Table.{fat_next_cluster}
use master_os.Fat.Table.Entry.{next_set_self, next_set_ne, fat_set_cluster-IsBytes}
use master_os.Fat.Table.Free.{IsFree}
use master_os.Fat.Table.Supply.{free_below, free_below-take}
use master_os.Fat.Table.Chain.{Chain, link, has}
use master_os.Fat.Create.{link_cluster}

-- A free cluster `c` that is taken after cluster `q`, which is 0 for the first one.
module _ (buf : Bytes) (q c : ℕ) (bytes : IsBytes buf) (lo : 2 ≤ c) (small : c < 4096)
    (c_free : IsFree buf c) (q_used : q ≢ 0 → ¬ IsFree buf q) where
  apart : q ≢ c
  apart e = q_used (omega arith) (rw e c_free)

  pub link_cluster-IsBytes : IsBytes (link_cluster buf q c)
  unfolding link_cluster
  link_cluster-IsBytes = elim (ℕ_discrete q 0) [
    | yes e ↦
        let first : (q == 0) ≡ true = ground arith in
        rw first (fat_set_cluster-IsBytes buf c 0xFFF bytes)
    | no ne ↦
        let later : (q == 0) ≡ false = ground arith in
        rw later (fat_set_cluster-IsBytes _ c 0xFFF (fat_set_cluster-IsBytes buf q c bytes))
  ]

  pub next_link_self : fat_next_cluster (link_cluster buf q c) c ≡ 0xFFF
  unfolding link_cluster
  next_link_self = elim (ℕ_discrete q 0) [
    | yes e ↦
        let first : (q == 0) ≡ true = ground arith in rw first (next_set_self buf c 0xFFF bytes)
    | no ne ↦
        let later : (q == 0) ≡ false = ground arith in
        rw later (next_set_self _ c 0xFFF (fat_set_cluster-IsBytes buf q c bytes))
  ]

  pub next_link_previous : q ≢ 0 → fat_next_cluster (link_cluster buf q c) q ≡ c
  unfolding link_cluster
  next_link_previous ne =
      let later : (q == 0) ≡ false = ground arith in
      rw later (
        next_set_ne _ c 0xFFF (fat_set_cluster-IsBytes buf q c bytes) q (λ e. apart (sym e))
        ∙ next_set_self buf q c bytes
        ∙ omega arith)

  pub next_link_else :
      (d : ℕ)
      → d ≢ c
      → (q ≢ 0 → d ≢ q)
      → fat_next_cluster (link_cluster buf q c) d ≡ fat_next_cluster buf d
  unfolding link_cluster
  next_link_else d ne ne' = elim (ℕ_discrete q 0) [
    | yes e ↦
        let first : (q == 0) ≡ true = ground arith in
        rw first (next_set_ne buf c 0xFFF bytes d (λ e'. ne (sym e')))
    | no some_q ↦
        let later : (q == 0) ≡ false = ground arith in
        rw later (
          next_set_ne _ c 0xFFF (fat_set_cluster-IsBytes buf q c bytes) d (λ e'. ne (sym e'))
          ∙ next_set_ne buf q c bytes d (λ e'. ne' some_q (sym e')))
  ]

  same_free :
      (d : ℕ)
      → d ≢ c
      → (fat_next_cluster (link_cluster buf q c) d == 0) ≡ (fat_next_cluster buf d == 0)
  same_free d ne = elim (ℕ_discrete q 0) [
    | yes e ↦ rw (next_link_else d ne (λ some_q. absurd (some_q e)))
    | no some_q ↦ elim (ℕ_discrete d q) [
      | yes here ↦ rw (here, next_link_previous some_q) (ground arith)
      | no other ↦ rw (next_link_else d ne (λ _. other))
    ]
  ]

  pub free_below-link : (n : ℕ) → c < n → free_below n (link_cluster buf q c) + 1 ≡ free_below n buf
  free_below-link n hi =
      free_below-take buf (link_cluster buf q c) c same_free n lo hi c_free
        (λ h. omega (arith, next_link_self, h))

-- From the table `buf` to the table `out` the free clusters `xs` below `n` have been taken; only
-- their entries and entry `q` have changed.
pub record IsTaken (n q : ℕ) (buf : Bytes) (xs : List ℕ) (out : Bytes) : Type 0 where
  pub fresh : (d : ℕ) → has d xs ≡ true → (2 ≤ d) × (d < n) × IsFree buf d
  pub kept :
      (d : ℕ) → (q ≢ 0 → d ≢ q) → has d xs ≡ false → fat_next_cluster out d ≡ fat_next_cluster buf d
  pub bytes : IsBytes out

pub IsTaken-none : (n q : ℕ) (buf : Bytes) → IsBytes buf → IsTaken n q buf [] buf
IsTaken-none n q buf bytes = record {
  fresh = λ d h. absurd (cc h);
  kept = λ d ne h. refl;
  bytes = bytes;
}

module _ (n q c : ℕ) (buf : Bytes) (bytes : IsBytes buf) (c_free : IsFree buf c)
    (q_used : q ≢ 0 → ¬ IsFree buf q) (lo : 2 ≤ c) (hi : c < n) (small : n ≤ 0xFF0) where
  -- Cluster `c` has not been taken again.
  pub taken_once :
      {xs : List ℕ} {out : Bytes} → IsTaken n c (link_cluster buf q c) xs out → has c xs ≡ false
  taken_once {xs} t = elim (Bool-cases (has c xs)) [
    | inl e ↦ absurd (
        omega (arith, next_link_self buf q c bytes lo (omega arith) c_free q_used, (t.fresh c e).2))
    | inr e ↦ e
  ]

  -- The chain after one cluster more.
  pub Chain-taken :
      {xs : List ℕ} {out : Bytes}
      → IsTaken n c (link_cluster buf q c) xs out
      → Chain out (fat_next_cluster out c) xs
      → Chain out c (c ∷ xs)
  Chain-taken t ch = link (lo, omega arith) (taken_once t) ch

  -- What stands in the entry of the cluster before.
  pub next_taken :
      {xs : List ℕ} {out : Bytes}
      → IsTaken n c (link_cluster buf q c) xs out
      → q ≢ 0
      → fat_next_cluster out q ≡ c
  next_taken {xs} t some_q = elim (Bool-cases (has q xs)) [
    | inl e ↦ absurd (
        omega (
          arith,
          next_link_previous buf q c bytes lo (omega arith) c_free q_used some_q,
          (t.fresh q e).2,
        ))
    | inr e ↦
        t.kept q (λ _. apart buf q c bytes lo (omega arith) c_free q_used) e
        ∙ next_link_previous buf q c bytes lo (omega arith) c_free q_used some_q
  ]

  pub IsTaken-cons :
      {xs : List ℕ} {out : Bytes}
      → IsTaken n c (link_cluster buf q c) xs out
      → IsTaken n q buf (c ∷ xs) out
  IsTaken-cons {xs} t = record {
    fresh = λ d m. elim (ℕ_discrete d c) [
      | yes e ↦ rw e (lo, hi, c_free)
      | no ne ↦ elim (ℕ_discrete d q) [
        | yes here ↦ absurd (
            q_not_fresh (rw here at (t.fresh d (later d ne m)).0)
              (rw here at (t.fresh d (later d ne m)).2))
        | no other ↦
            let (p0, p1, free) = t.fresh d (later d ne m) in
            (
              p0,
              p1,
              sym (next_link_else buf q c bytes lo (omega arith) c_free q_used d ne (λ _. other))
                  ∙ free,
            )
      ]
    ];
    kept = λ d ne m.
        t.kept d (λ _ e. other_than d m e) (ground arith)
        ∙ next_link_else buf q c bytes lo (omega arith) c_free q_used d (λ e. other_than d m e) ne;
    bytes = t.bytes;
  }
    where
      later : (d : ℕ) → d ≢ c → has d (c ∷ xs) ≡ true → has d xs ≡ true
      later d ne m = ground arith

      other_than : (d : ℕ) → has d (c ∷ xs) ≡ false → d ≢ c
      other_than d m e = ground arith

      q_not_fresh : 2 ≤ q → ¬ IsFree (link_cluster buf q c) q
      q_not_fresh some_q free = omega (
        arith,
        next_link_previous buf q c bytes lo (omega arith) c_free q_used (omega arith),
        free,
      )
