-- ===== src/Fat/Dir/Found.antt =====
-- A search finds an entry that is to be taken and that only skipped entries precede, and where
-- a new file's entry is found.
use master_os.Base.{
  ℕ, zero, suc, ◌+◌, ◌<◌, ◌≤◌, ◌≡◌, refl, ◌⊎◌, inl, inr, ap, arith, none, some, Bytes,
}
use mathlib.Core.Path.{ap₂}
use native.Mathlib.Decide.{ℕ_discrete}
use master_os.Fat.Dir.{Verdict, taken, skipped, hit, last, missed, scan_from, scan}
use master_os.Fat.Dir.Search.{first_taken, Before}

module _ (verdict : Bytes → ℕ → Verdict) where
  scan_from-missed :
      (buf : Bytes) (left lo : ℕ)
      → ((j : ℕ) → j < lo + left → verdict buf j ≡ skipped)
      → scan_from verdict buf left lo ≡ missed
  unfolding scan_from
  scan_from-missed buf zero lo all = refl
  scan_from-missed buf (suc left) lo all =
      rw (scan_from, all lo (omega arith))
        (scan_from-missed buf left (lo + 1) (λ j lt. all j (omega arith)))

  scan_from-hit :
      (buf : Bytes) (left lo i : ℕ)
      → lo ≤ i
      → i < lo + left
      → ((j : ℕ) → j < i → verdict buf j ≡ skipped)
      → verdict buf i ≡ taken
      → scan_from verdict buf left lo ≡ hit i
  unfolding scan_from
  scan_from-hit buf zero lo i le lt before here = absurd (omega arith)
  scan_from-hit buf (suc left) lo i le lt before here = elim (ℕ_discrete lo i) [
    | yes e ↦ let here' : verdict buf lo ≡ taken = rw e here in rw (scan_from, here') (ap hit e)
    | no ne ↦
        rw (scan_from, before lo (omega arith))
          (scan_from-hit buf left (lo + 1) i (omega arith) (omega arith) before here)
  ]

  pub first_taken-Before :
      (dir : ℕ → Bytes) (left s t i : ℕ)
      → Before verdict dir s t i
      → t < s + left
      → verdict (dir t) i ≡ taken
      → first_taken verdict dir left s
        ≡ some (record { at_sector = t; at_entry = i; bytes = dir t })
  unfolding first_taken
  first_taken-Before dir zero s t i b lt here = absurd (omega (arith, b.from))
  first_taken-Before dir (suc left) s t i b lt here = elim (ℕ_discrete s t) [
    | yes e ↦
        rw
          (
            e,
            first_taken,
            scan_from-hit (dir t) 16 0 i (omega arith) (omega (arith, b.entry)) b.entries here,
          )
          (ap (λ (u : ℕ). some (record { at_sector = u; at_entry = i; bytes = dir u })) e)
    | no ne ↦
        rw
          (
            first_taken,
            scan_from-missed (dir s) 16 0
                (λ j lt'. b.sectors s (omega arith) (omega (arith, b.from)) j (omega arith)),
          )
          (first_taken-Before dir left (s + 1) t i
            (record {
              from = omega (arith, b.from);
              entry = b.entry;
              sectors = λ u p q. b.sectors u (omega arith) q;
              entries = b.entries;
            })
            (omega arith) here)
  ]

-- Entry `j` of sector `u` comes before entry `i` of sector `t`.
abbrev pub Earlier : (u j t i : ℕ) → Type 0
Earlier u j t i = (u < t) ⊎ ((u ≡ t) × (j < i))

pub Before-skipped :
    (verdict : Bytes → ℕ → Verdict) (dir : ℕ → Bytes) (t i u j : ℕ)
    → Before verdict dir 0 t i
    → j < 16
    → Earlier u j t i
    → verdict (dir u) j ≡ skipped
Before-skipped verdict dir t i u j b lt (inl p) = b.sectors u (omega arith) p j lt
Before-skipped verdict dir t i u j b lt (inr (e, p)) = rw e (b.entries j p)

pub dec-Earlier : (u j t i : ℕ) → (Earlier u j t i) ⊎ ((t ≡ u) × (i ≡ j)) ⊎ (Earlier t i u j)
dec-Earlier u j t i = elim (ℕ_discrete u t) [
  | yes e ↦ elim (ℕ_discrete j i) [
    | yes e' ↦ inr (inl (omega arith, omega arith))
    | no ne ↦ ground arith
  ]
  | no ne ↦ ground arith
]

pub first_taken_cong :
    (verdict : Bytes → ℕ → Verdict) (dir dir' : ℕ → Bytes) (left s : ℕ)
    → ((u : ℕ) → u < s + left → dir' u ≡ dir u)
    → first_taken verdict dir' left s ≡ first_taken verdict dir left s
unfolding first_taken
first_taken_cong verdict dir dir' zero s same = refl
first_taken_cong verdict dir dir' (suc left) s same =
    ap₂
      (λ b rest. elim (scan verdict b) [
        | hit i ↦ some (record { at_sector = s; at_entry = i; bytes = b })
        | last ↦ none
        | missed ↦ rest
      ])
      (same s (omega arith))
      (first_taken_cong verdict dir dir' left (s + 1) (λ u lt. same u (omega arith)))
