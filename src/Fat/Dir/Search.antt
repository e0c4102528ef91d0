-- ===== src/Fat/Dir/Search.antt =====
-- The search of a directory: what it finds, and that it ends.
use native.Mathlib.Decide.{ℕ_discrete}
use master_os.Base.{
  ℕ, zero, suc, ◌+◌, ◌<◌, ◌≤◌, ◌≡◌, refl, ◌⊎◌, inl, inr, arith, Option, none, some, Bytes,
}
use master_os.Fat.Dir.{
  Verdict, taken, skipped, ended, Scan, hit, last, missed, scan_from, scan, Place,
}

-- What a search of the entries from `lo` up to `hi` of one sector says of them.
abbrev pub IsScanned : (ℕ → Verdict) → (lo hi : ℕ) → Scan → Type 0
IsScanned v lo hi (hit i) =
    (lo ≤ i) × (i < hi) × (v i ≡ taken) × ((j : ℕ) → lo ≤ j → j < i → v j ≡ skipped)
IsScanned v lo hi last =
    (i : ℕ) × (lo ≤ i) × (i < hi) × (v i ≡ ended) × ((j : ℕ) → lo ≤ j → j < i → v j ≡ skipped)
IsScanned v lo hi missed = (j : ℕ) → lo ≤ j → j < hi → v j ≡ skipped

module _ (verdict : Bytes → ℕ → Verdict) (buf : Bytes) where
  from_here :
      (lo i : ℕ)
      → verdict buf lo ≡ skipped
      → ((j : ℕ) → lo + 1 ≤ j → j < i → verdict buf j ≡ skipped)
      → (j : ℕ) → lo ≤ j
      → j < i
      → verdict buf j ≡ skipped
  from_here lo i here later j p q = elim (ℕ_discrete lo j) [
    | yes e ↦ rw (← e) here
    | no ne ↦ later j (omega arith) q
  ]

  widen :
      (lo hi : ℕ) (r : Scan)
      → verdict buf lo ≡ skipped
      → IsScanned (verdict buf) (lo + 1) hi r
      → IsScanned (verdict buf) lo hi r
  widen lo hi (hit i) here p = (omega arith, omega arith, p.2, from_here lo i here p.3)
  widen lo hi last here (i, p, q, at, before) = (i, omega arith, q, at, from_here lo i here before)
  widen lo hi missed here p = from_here lo hi here p

  scan_from-IsScanned :
      (left i hi : ℕ) → i + left ≡ hi → IsScanned (verdict buf) i hi (scan_from verdict buf left i)
  unfolding scan_from
  scan_from-IsScanned zero i hi e = λ j p q. absurd (omega arith)
  scan_from-IsScanned (suc left) i hi e =
      split (scan_from-IsScanned left (i + 1) hi (omega arith)) (verdict buf i) refl
    where
      split :
          IsScanned (verdict buf) (i + 1) hi (scan_from verdict buf left (i + 1))
          → (v : Verdict) → verdict buf i ≡ v
          → IsScanned (verdict buf) i hi (elim v [
            | taken ↦ hit i
            | skipped ↦ scan_from verdict buf left (i + 1)
            | ended ↦ last
          ])
      split rest taken at = (omega arith, omega arith, at, λ j p q. absurd (omega arith))
      split rest skipped at = widen i hi _ at rest
      split rest ended at = (i, omega arith, omega arith, at, λ j p q. absurd (omega arith))

  pub scan-IsScanned : IsScanned (verdict buf) 0 16 (scan verdict buf)
  scan-IsScanned = scan_from-IsScanned 16 0 16 (omega arith)

-- The sectors of a directory, from sector `s` on, `left` of them.
unfoldable pub first_taken : (Bytes → ℕ → Verdict) → (ℕ → Bytes) → (left s : ℕ) → Option Place
first_taken verdict dir zero s = none
first_taken verdict dir (suc left) s = elim (scan verdict (dir s)) [
  | hit i ↦ some (record { at_sector = s; at_entry = i; bytes = dir s })
  | last ↦ none
  | missed ↦ first_taken verdict dir left (s + 1)
]

-- All sixteen entries of a sector are gone past.
abbrev pub AllSkipped : (Bytes → ℕ → Verdict) → Bytes → Type 0
AllSkipped verdict buf = (j : ℕ) → j < 16 → verdict buf j ≡ skipped

-- Every entry before entry `i` of sector `t` is gone past, from sector `s` on.
pub record Before (verdict : Bytes → ℕ → Verdict) (dir : ℕ → Bytes) (s t i : ℕ) : Type 0 where
  pub from : s ≤ t
  pub entry : i < 16
  pub sectors : (u : ℕ) → s ≤ u → u < t → AllSkipped verdict (dir u)
  pub entries : (j : ℕ) → j < i → verdict (dir t) j ≡ skipped

-- What a search of the sectors `[s, hi)` says: the first entry to take, or that an end mark
-- comes first, or that every entry is gone past.
abbrev pub IsFirst : (Bytes → ℕ → Verdict) → (ℕ → Bytes) → (s hi : ℕ) → Option Place → Type 0
IsFirst verdict dir s hi (some p) =
    (p.at_sector < hi)
    × (p.bytes ≡ dir p.at_sector)
    × (verdict (dir p.at_sector) p.at_entry ≡ taken)
    × Before verdict dir s p.at_sector p.at_entry
IsFirst verdict dir s hi none =
    ((t : ℕ) × (i : ℕ) × (t < hi) × (verdict (dir t) i ≡ ended) × Before verdict dir s t i)
    ⊎ ((u : ℕ) → s ≤ u → u < hi → AllSkipped verdict (dir u))

module _ (verdict : Bytes → ℕ → Verdict) (dir : ℕ → Bytes) where
  at_first :
      (s i : ℕ)
      → i < 16
      → ((j : ℕ) → 0 ≤ j → j < i → verdict (dir s) j ≡ skipped)
      → Before verdict dir s s i
  at_first s i h k = record {
    from = omega arith;
    entry = h;
    sectors = λ u p q. absurd (omega arith);
    entries = λ j q. k j (omega arith) q;
  }

  one_more :
      (s hi : ℕ)
      → AllSkipped verdict (dir s)
      → ((u : ℕ) → s + 1 ≤ u → u < hi → AllSkipped verdict (dir u))
      → (u : ℕ) → s ≤ u
      → u < hi
      → AllSkipped verdict (dir u)
  one_more s hi here later u p q = elim (ℕ_discrete s u) [
    | yes e ↦ rw (← e) here
    | no ne ↦ later u (omega arith) q
  ]

  later_sector :
      {s t i : ℕ}
      → AllSkipped verdict (dir s)
      → Before verdict dir (s + 1) t i
      → Before verdict dir s t i
  later_sector {s} {t} here b = record {
    from = omega (arith, b.from);
    entry = b.entry;
    sectors = one_more s t here b.sectors;
    entries = b.entries;
  }

  wider :
      (s hi : ℕ) (r : Option Place)
      → AllSkipped verdict (dir s)
      → IsFirst verdict dir (s + 1) hi r
      → IsFirst verdict dir s hi r
  wider s hi none here (inl (t, i, lt, at, b)) = inl (t, i, lt, at, later_sector here b)
  wider s hi none here (inr all) = inr (one_more s hi here all)
  wider s hi (some p) here q = (q.0, q.1, q.2, later_sector here q.3)

  -- The search of `left` sectors from sector `s` on gives the first entry to take, and comes back
  -- with none only at an end mark or where every entry is gone past.
  pub first_taken-IsFirst :
      (left s hi : ℕ) → s + left ≡ hi → IsFirst verdict dir s hi (first_taken verdict dir left s)
  unfolding first_taken
  first_taken-IsFirst zero s hi e = inr (λ u p q. absurd (omega arith))
  first_taken-IsFirst (suc left) s hi e =
      split (first_taken-IsFirst left (s + 1) hi (omega arith)) (scan verdict (dir s))
        (scan-IsScanned verdict (dir s))
    where
      split :
          IsFirst verdict dir (s + 1) hi (first_taken verdict dir left (s + 1))
          → (r : Scan) → IsScanned (verdict (dir s)) 0 16 r
          → IsFirst verdict dir s hi (elim r [
            | hit i ↦ some (record { at_sector = s; at_entry = i; bytes = dir s })
            | last ↦ none
            | missed ↦ first_taken verdict dir left (s + 1)
          ])
      split rest (hit i) p = (omega arith, refl, p.2, at_first s i p.1 p.3)
      split rest last (i, lo, lt, at, b) = inl (s, i, omega arith, at, at_first s i lt b)
      split rest missed p = wider s hi _ (λ j q. p j (omega arith) q) rest
