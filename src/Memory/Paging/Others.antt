-- ===== src/Memory/Paging/Others.antt =====
-- memMapPage leaves the translations of all other pages.
use master_os.Base.{
  ℕ, ◌/◌, ◌%◌, ◌^◌, ◌<◌, ◌≡◌, ◌≢◌, refl, sym, ap, ◌∙◌, ◌⊎◌, inl, inr, arith, Bool-cases, true, none,
  ◌==◌, bit_and, bit_or,
}
use native.Mathlib.Decide.{ℕ_discrete}
use master_os.Base.Bits.{and_one}
use master_os.Memory.{alloc_page_frame}
use master_os.Memory.Paging.{
  Paging, frame_of, write_word, rec_page_table, clear_words, with_table, set_page, mem_map_page,
}
use master_os.Memory.Paging.Entries.{
  translate, written_here, written_elsewhere, table_entry-frame, clear_words-outside,
  clear_words-inside, table_entry, table_entry-short,
}
use master_os.Memory.Paging.Tables.{
  table_frame, alloc_page_frame-aligned, with_table-there, with_table-new, with_table-IsOpen,
}
use master_os.Memory.Paging.Translation.{IsMappable, mem_map_page_in_place}

-- No page table is the directory or the table of `v`, but the one that `v` has.
pub record IsApart (s : Paging) (v : ℕ) : Type 0 where
  pub from_dir :
      (j : ℕ)
      → j ≢ 1023
      → s.words (frame_of s.cr3) j % 2 ≡ 1
      → frame_of (s.words (frame_of s.cr3) j) ≢ frame_of s.cr3
  pub from_table :
      (j : ℕ)
      → j ≢ v / 2 ^ 22
      → s.words (frame_of s.cr3) j % 2 ≡ 1
      → frame_of (s.words (frame_of s.cr3) j) ≢ table_frame s v

-- Two memories that agree on what the translation of `w` reads.
translate-same :
    (cr3 : ℕ) (words words' : ℕ → ℕ → ℕ) (w : ℕ)
    → words' (cr3 / 4096) (w / 2 ^ 22) ≡ words (cr3 / 4096) (w / 2 ^ 22)
    → (words (cr3 / 4096) (w / 2 ^ 22) % 2 ≡ 1
        → words' (words (cr3 / 4096) (w / 2 ^ 22) / 4096) (w / 4096 % 1024)
          ≡ words (words (cr3 / 4096) (w / 2 ^ 22) / 4096) (w / 4096 % 1024))
    → translate cr3 words' w ≡ translate cr3 words w
unfolding translate
translate-same cr3 words words' w dir table =
    elim (Bool-cases (words (cr3 / 4096) (w / 2 ^ 22) % 2 == 0)) [
      | inl e ↦ rw (dir, e) refl
      | inr e ↦ rw (dir, e) (rw (table (ground arith)) refl)
    ]

-- An address whose page table is not there, or whose entry is 0, is not mapped.
translate-none :
    (cr3 : ℕ) (words : ℕ → ℕ → ℕ) (w : ℕ)
    → (words (cr3 / 4096) (w / 2 ^ 22) % 2 ≡ 0)
      ⊎ ((words (words (cr3 / 4096) (w / 2 ^ 22) / 4096) (w / 4096 % 1024) ≡ 0)
          × (words (cr3 / 4096) (w / 2 ^ 22) / 128 % 2 ≡ 0))
    → translate cr3 words w ≡ none
unfolding translate
translate-none cr3 words w (inl e) =
    let even : (words (cr3 / 4096) (w / 2 ^ 22) % 2 == 0) ≡ true = ground arith in rw even refl
translate-none cr3 words w (inr (e, short)) =
    elim (Bool-cases (words (cr3 / 4096) (w / 2 ^ 22) % 2 == 0)) [
      | inl even ↦ rw even refl
      | inr odd ↦ rw odd (rw (short, e) refl)
    ]

module _ (s : Paging) (v p flags w : ℕ) (other : v / 2 ^ 22 ≢ 1023) (small : flags < 4096)
    (plain : flags / 128 % 2 ≡ 0) (kernel : (bit_and flags 4 == 0) ≡ true)
    (self : frame_of (s.words (frame_of s.cr3) 1023) ≡ frame_of s.cr3)
    (apart : table_frame s v ≢ frame_of s.cr3) (a : IsApart s v) (elsewhere : w / 4096 ≢ v / 4096)
    (lower : w / 2 ^ 22 ≢ 1023) where
  abbrev dir : ℕ
  dir = frame_of s.cr3

  other_index : w / 2 ^ 22 ≡ v / 2 ^ 22 → w / 4096 % 1024 ≢ v / 4096 % 1024
  other_index e same = elsewhere (omega arith)

  -- The memory with a new page table.
  abbrev fresh : ℕ
  fresh = (alloc_page_frame s.frames).0

  abbrev linked : ℕ → ℕ → ℕ
  linked = write_word dir (v / 2 ^ 22) (table_entry fresh flags) s.words

  abbrev cleared : ℕ → ℕ → ℕ
  cleared = clear_words 1024 (frame_of fresh) 0 linked

  module _ (absent : (bit_and (s.words dir (v / 2 ^ 22)) 1 == 0) ≡ true) where
    fresh_apart : frame_of fresh ≢ dir
    fresh_apart = rw absent at apart

    cleared-dir : w / 2 ^ 22 ≢ v / 2 ^ 22 → cleared dir (w / 2 ^ 22) ≡ s.words dir (w / 2 ^ 22)
    cleared-dir ne =
        clear_words-outside 1024 (frame_of fresh) 0 linked dir (w / 2 ^ 22)
          (inl (λ e. fresh_apart (sym e)))
        ∙ written_elsewhere dir (v / 2 ^ 22) (table_entry fresh flags) s.words dir (w / 2 ^ 22)
            (inr ne)

    cleared-entry : cleared dir (v / 2 ^ 22) ≡ table_entry fresh flags
    cleared-entry =
        clear_words-outside 1024 (frame_of fresh) 0 linked dir (v / 2 ^ 22)
          (inl (λ e. fresh_apart (sym e)))
        ∙ written_here dir (v / 2 ^ 22) (table_entry fresh flags) s.words

    cleared-table : frame_of (cleared dir (v / 2 ^ 22)) ≡ frame_of fresh
    cleared-table = ap frame_of cleared-entry ∙ table_entry-frame fresh flags small

    cleared-same : w / 2 ^ 22 ≡ v / 2 ^ 22 → translate s.cr3 cleared w ≡ translate s.cr3 s.words w
    cleared-same e =
        translate-none s.cr3 cleared w (
          inr (
            rw e (
                rw cleared-table (
                  clear_words-inside 1024 (frame_of fresh) 0 linked (w / 4096 % 1024) (omega arith)
                    (omega arith))),
            rw e (
                ap (λ n. n / 128 % 2) cleared-entry
                ∙ table_entry-short fresh flags (alloc_page_frame-aligned s.frames) plain),
          ))
        ∙ sym (
            translate-none s.cr3 s.words w
              (inl (rw e (ground (arith, and_one (s.words dir (v / 2 ^ 22)))))))

    cleared-others : w / 2 ^ 22 ≢ v / 2 ^ 22 → translate s.cr3 cleared w ≡ translate s.cr3 s.words w
    cleared-others ne = translate-same s.cr3 s.words cleared w (cleared-dir ne) (λ odd.
        let there : frame_of (s.words dir (w / 2 ^ 22)) ≢ frame_of fresh =
          (rw absent at (a.from_table (w / 2 ^ 22) ne odd)) in
        clear_words-outside 1024 (frame_of fresh) 0 linked (frame_of (s.words dir (w / 2 ^ 22)))
          (w / 4096 % 1024) (inl there)
        ∙ written_elsewhere dir (v / 2 ^ 22) (table_entry fresh flags) s.words
            (frame_of (s.words dir (w / 2 ^ 22))) (w / 4096 % 1024)
            (inl (a.from_dir (w / 2 ^ 22) lower odd)))

  with_table-dir :
      w / 2 ^ 22 ≢ v / 2 ^ 22
      → (with_table (v / 2 ^ 22) flags s).words dir (w / 2 ^ 22) ≡ s.words dir (w / 2 ^ 22)
  with_table-dir ne = elim (Bool-cases (bit_and (s.words dir (v / 2 ^ 22)) 1 == 0)) [
    | inl absent ↦
        rw (with_table-new s v flags other small kernel self absent) (cleared-dir absent ne)
    | inr there ↦ rw (with_table-there s v flags other small kernel self there) refl
  ]

  with_table-others :
      translate s.cr3 (with_table (v / 2 ^ 22) flags s).words w ≡ translate s.cr3 s.words w
  with_table-others = elim (Bool-cases (bit_and (s.words dir (v / 2 ^ 22)) 1 == 0)) [
    | inl absent ↦
        rw (with_table-new s v flags other small kernel self absent)
          (elim (ℕ_discrete (w / 2 ^ 22) (v / 2 ^ 22)) [
            | yes e ↦ cleared-same absent e
            | no ne ↦ cleared-others absent ne
          ])
    | inr there ↦ rw (with_table-there s v flags other small kernel self there) refl
  ]

  -- The new entry, in the table of `v`.
  set_page-others :
      (s1 : Paging)
      → rec_page_table s1.cr3 s1.words (v / 2 ^ 22) ≡ table_frame s v
      → (w / 2 ^ 22 ≢ v / 2 ^ 22 → s1.words dir (w / 2 ^ 22) ≡ s.words dir (w / 2 ^ 22))
      → translate s.cr3 (set_page (v / 2 ^ 22) (v / 4096 % 1024) p flags s1).words w
        ≡ translate s.cr3 s1.words w
  unfolding set_page
  set_page-others s1 t dirs =
      let table = rec_page_table s1.cr3 s1.words (v / 2 ^ 22) in
      let entry = bit_or (bit_or (bit_or p 1) (s1.words table (v / 4096 % 1024))) flags in
      translate-same s.cr3 s1.words (write_word table (v / 4096 % 1024) entry s1.words) w
        (written_elsewhere table (v / 4096 % 1024) entry s1.words dir (w / 2 ^ 22)
          (inl (λ e. apart (sym (e ∙ t)))))
        (λ odd.
          written_elsewhere table (v / 4096 % 1024) entry s1.words
            (frame_of (s1.words dir (w / 2 ^ 22))) (w / 4096 % 1024)
            (elim (ℕ_discrete (w / 2 ^ 22) (v / 2 ^ 22)) [
              | yes same ↦ inr (other_index same)
              | no ne ↦
                  inl (λ e.
                    a.from_table (w / 2 ^ 22) ne (rw (← dirs ne) odd) (rw (← dirs ne) (e ∙ t)))
            ]))

-- Mapping a page in a state that IsMappable says: every other page below the tables themselves,
-- where no two entries of the directory lead to the table of `v` or to the directory, is
-- translated as before, the pages of 4 MB among them, or is still not mapped.
pub mem_map_page-others :
    (initial_page_dir page_dirs : ℕ) (s : Paging) (v p flags w : ℕ)
    → IsMappable initial_page_dir page_dirs s v
    → IsApart s v
    → flags < 4096
    → flags / 128 % 2 ≡ 0
    → (bit_and flags 4 == 0) ≡ true
    → w / 4096 ≢ v / 4096
    → w / 2 ^ 22 ≢ 1023
    → translate s.cr3 (mem_map_page initial_page_dir page_dirs v p flags s).words w
      ≡ translate s.cr3 s.words w
mem_map_page-others initial_page_dir page_dirs s v p flags w m a small plain kernel elsewhere
      lower =
    let o = with_table-IsOpen s v flags m.other small kernel m.self m.apart m.table plain in
    let s1 = with_table (v / 2 ^ 22) flags s in
    let t : rec_page_table s1.cr3 s1.words (v / 2 ^ 22) ≡ table_frame s v =
      ap (λ d. frame_of (s1.words d (v / 2 ^ 22))) o.table.self ∙ o.table.points in
    ap (λ k. translate s.cr3 k w)
      (mem_map_page_in_place initial_page_dir page_dirs s v p flags m.in_place m.unused o.dirs_used)
    ∙ set_page-others s v p flags w m.other small plain kernel m.self m.apart a elsewhere lower s1 t
        (with_table-dir s v p flags w m.other small plain kernel m.self m.apart a elsewhere lower)
    ∙ with_table-others s v p flags w m.other small plain kernel m.self m.apart a elsewhere lower
