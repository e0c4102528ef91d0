-- ===== src/Fat/Create/Found.antt =====
-- Where a search finds the entry of a new file.
use native.Mathlib.Decide.{ℕ_discrete}
use master_os.Base.{
  ℕ, ◌<◌, ◌≤◌, ◌≡◌, ◌≢◌, refl, sym, ◌∙◌, ◌⊎◌, inl, inr, ap, arith, ◌==◌, Bool-cases, none, some,
  List, Bytes,
}
use master_os.Fat.Dir.{taken, skipped, ended, entry_first, is_file, is_vacant, Place}
use master_os.Fat.Dir.Search.{first_taken, first_taken-IsFirst, Before, AllSkipped}
use master_os.Fat.Dir.Found.{first_taken-Before, Earlier, Before-skipped, dec-Earlier}
use master_os.Fat.Create.Entry.{with_file, is_file-others}

-- An entry that ends the search for a file is vacant.
ended_vacant :
    (wanted : List ℕ) (buf : Bytes) (i : ℕ) → is_file wanted buf i ≡ ended → is_vacant buf i ≡ taken
unfolding is_file is_vacant
ended_vacant wanted buf i e = elim (Bool-cases (entry_first buf i == 0x00)) [
  | inl z ↦ rw z
  | inr nz ↦ absurd (ground arith)
]

module _ (wanted : List ℕ) (dir : ℕ → Bytes) (n : ℕ) (p : Place)
    (absent : first_taken (is_file wanted) dir n 0 ≡ none)
    (vacant : first_taken is_vacant dir n 0 ≡ some p) where
  vacant_IsFirst :
      (p.at_sector < n)
      × (p.bytes ≡ dir p.at_sector)
      × (is_vacant (dir p.at_sector) p.at_entry ≡ taken)
      × Before is_vacant dir 0 p.at_sector p.at_entry
  vacant_IsFirst = rw vacant at (first_taken-IsFirst is_vacant dir n 0 n (omega arith))

  -- The entries before the first vacant place are no end marks and no files of the name.
  skipped_before :
      (u j : ℕ) → j < 16 → Earlier u j p.at_sector p.at_entry → is_file wanted (dir u) j ≡ skipped
  skipped_before u j lt early =
      of_search (rw absent at (first_taken-IsFirst (is_file wanted) dir n 0 n (omega arith)))
    where
      no_end :
          (t i : ℕ) → i < 16 → Earlier t i p.at_sector p.at_entry → is_file wanted (dir t) i ≢ ended
      no_end t i lt' early' e = cc (
        ended_vacant wanted (dir t) i e,
        Before-skipped is_vacant dir p.at_sector p.at_entry t i vacant_IsFirst.3 lt' early',
      )

      of_search :
          ((t : ℕ) × (i : ℕ) × (t < n)
              × (is_file wanted (dir t) i ≡ ended)
              × Before (is_file wanted) dir 0 t i)
            ⊎ ((v : ℕ) → 0 ≤ v → v < n → AllSkipped (is_file wanted) (dir v))
          → is_file wanted (dir u) j ≡ skipped
      of_search (inr all) = all u (omega arith) (omega (arith, vacant_IsFirst.0)) j lt
      of_search (inl (t, i, lt', e, b)) = elim (dec-Earlier u j t i) [
        | inl before ↦ Before-skipped (is_file wanted) dir t i u j b lt before
        | inr later ↦ absurd (no_end t i b.entry (omega arith) e)
      ]

  module _ (name : List ℕ) (first size : ℕ) (dir' : ℕ → Bytes)
      (others : (u : ℕ) → u ≢ p.at_sector → u < n → dir' u ≡ dir u)
      (here : dir' p.at_sector ≡ with_file p.bytes p.at_entry name first size) where
    still_skipped :
        (u j : ℕ)
        → j < 16
        → Earlier u j p.at_sector p.at_entry
        → is_file wanted (dir' u) j ≡ skipped
    still_skipped u j lt early = elim (ℕ_discrete u p.at_sector) [
      | yes e ↦
          let old : is_file wanted p.bytes j ≡ skipped =
            ap (λ b. is_file wanted b j) (vacant_IsFirst.1 ∙ sym (ap dir e))
            ∙ skipped_before u j lt early in
          ap (λ b. is_file wanted b j) (ap dir' e ∙ here)
          ∙ is_file-others p.bytes p.at_entry name first size wanted j (omega arith)
          ∙ old
      | no ne ↦
          ap (λ b. is_file wanted b j) (others u ne (omega (arith, vacant_IsFirst.0)))
          ∙ skipped_before u j lt early
    ]

    -- The first entry of the name is the new one.
    pub first_taken-new :
        is_file wanted (with_file p.bytes p.at_entry name first size) p.at_entry ≡ taken
        → first_taken (is_file wanted) dir' n 0
          ≡ some (record {
            at_sector = p.at_sector;
            at_entry = p.at_entry;
            bytes = with_file p.bytes p.at_entry name first size;
          })
    first_taken-new new =
        first_taken-Before (is_file wanted) dir' n 0 p.at_sector p.at_entry
          (record {
            from = omega arith;
            entry = vacant_IsFirst.3.entry;
            sectors = λ u lo lt j lt'. still_skipped u j lt' (inl lt);
            entries = λ j lt.
                still_skipped p.at_sector j (omega (arith, vacant_IsFirst.3.entry))
                  (inr (refl, lt));
          })
          (omega (arith, vacant_IsFirst.0)) (ap (λ b. is_file wanted b p.at_entry) here ∙ new)
        ∙ ap (λ b. some (record { at_sector = p.at_sector; at_entry = p.at_entry; bytes = b })) here
