-- ===== src/Memory/Paging/State.antt =====
-- The whole state after memMapPage has made a page table.
use native.Mathlib.Decide.{dec_lt}
use master_os.Base.{
  ℕ, ◌/◌, ◌%◌, ◌^◌, ◌<◌, ◌≡◌, ◌≢◌, refl, sym, ap, ◌∙◌, inl, inr, arith, true, false, ◌==◌, bit_and,
}
use master_os.Base.Bits.{and_ten}
use master_os.Memory.{alloc_page_frame}
use master_os.Memory.Paging.{
  Paging, kernel_start, frame_of, write_word, rec_page_table, clear_words, set_page, sync_page_dirs,
  leave_kernel, mem_map_page,
}
use master_os.Memory.Paging.Entries.{
  written_here, written_elsewhere, clear_words-outside, table_entry, table_entry-frame,
}
use master_os.Memory.Paging.Tables.{with_table-new}
use master_os.Memory.Paging.Translation.{
  IsInPlace, inner, sync_from_none, enter_kernel-low, enter_kernel-current,
}

module _ (initial_page_dir page_dirs : ℕ) where
  leave_kernel-state :
      (t : Paging)
      → initial_page_dir ≢ 0
      → ((i : ℕ) → t.dirs_used i ≡ 0)
      → leave_kernel initial_page_dir page_dirs initial_page_dir t ≡ t
  unfolding leave_kernel sync_page_dirs
  leave_kernel-state t ne unused =
      let same : (initial_page_dir == initial_page_dir) ≡ true = ground arith in
      let given : (initial_page_dir == 0) ≡ false = ground arith in
      let e = sync_from_none initial_page_dir page_dirs 256 0 t.dirs_used t.words unused in
      rw (given, same) (λ i. record t { words = e i })

  pub mem_map_page-state :
      (s : Paging) (v p flags : ℕ)
      → IsInPlace initial_page_dir page_dirs s v
      → ((i : ℕ) → (inner initial_page_dir page_dirs s v p flags).dirs_used i ≡ 0)
      → mem_map_page initial_page_dir page_dirs v p flags s
        ≡ inner initial_page_dir page_dirs s v p flags
  unfolding IsInPlace mem_map_page leave_kernel
  mem_map_page-state s v p flags place unused = elim place [
    | inl low ↦ rw (enter_kernel-low initial_page_dir page_dirs s v low, and_ten (v / 2 ^ 12)) refl
    | inr at ↦ elim (dec_lt v kernel_start) [
      | yes low ↦
          rw (enter_kernel-low initial_page_dir page_dirs s v low, and_ten (v / 2 ^ 12)) refl
      | no high ↦
          rw
            (
              enter_kernel-current initial_page_dir page_dirs s v (omega arith) at.0,
              and_ten (v / 2 ^ 12),
            )
            (leave_kernel-state (inner initial_page_dir page_dirs s v p flags) at.1 unused)
    ]
  ]

  module _ (s : Paging) (v p flags : ℕ) (other : v / 2 ^ 22 ≢ 1023) (small : flags < 4096)
      (kernel : (bit_and flags 4 == 0) ≡ true)
      (self : frame_of (s.words (frame_of s.cr3) 1023) ≡ frame_of s.cr3)
      (absent : (bit_and (s.words (frame_of s.cr3) (v / 2 ^ 22)) 1 == 0) ≡ true)
      (apart : frame_of (alloc_page_frame s.frames).0 ≢ frame_of s.cr3) where
    -- The memory with the new table, before the page is entered.
    abbrev linked : ℕ → ℕ → ℕ
    linked = clear_words 1024 (frame_of (alloc_page_frame s.frames).0) 0 (
        write_word (frame_of s.cr3) (v / 2 ^ 22) (table_entry (alloc_page_frame s.frames).0 flags)
          s.words)

    linked-dir :
        (j : ℕ)
        → linked (frame_of s.cr3) j
          ≡ write_word
              (frame_of s.cr3)
              (v / 2 ^ 22)
              (table_entry (alloc_page_frame s.frames).0 flags)
              s.words
              (frame_of s.cr3)
              j
    linked-dir j =
        clear_words-outside 1024 (frame_of (alloc_page_frame s.frames).0) 0 _ (frame_of s.cr3) j
          (inl (λ e. apart (sym e)))

    -- A new page table: a frame has been taken, and the directory has one entry more.
    pub record IsExtended (s' : Paging) : Type 0 where
      pub cr3 : s'.cr3 ≡ s.cr3
      pub dirs_used : s'.dirs_used ≡ s.dirs_used
      pub frames : s'.frames ≡ (alloc_page_frame s.frames).1
      pub entry :
          s'.words (frame_of s.cr3) (v / 2 ^ 22) ≡ table_entry (alloc_page_frame s.frames).0 flags
      pub others :
          (j : ℕ) → j ≢ v / 2 ^ 22 → s'.words (frame_of s.cr3) j ≡ s.words (frame_of s.cr3) j

    abbrev new_table : Paging
    new_table = record s { frames = (alloc_page_frame s.frames).1; words = linked }

    table_at : rec_page_table s.cr3 linked (v / 2 ^ 22) ≡ frame_of (alloc_page_frame s.frames).0
    table_at =
        let own : frame_of (linked (frame_of s.cr3) 1023) ≡ frame_of s.cr3 =
          ap frame_of (
            linked-dir 1023
            ∙ written_elsewhere (frame_of s.cr3) (v / 2 ^ 22)
                (table_entry (alloc_page_frame s.frames).0 flags) s.words (frame_of s.cr3) 1023
                (inr (λ e. other (sym e))))
          ∙ self in
        ap (λ d. frame_of (linked d (v / 2 ^ 22))) own
        ∙ ap frame_of (
            linked-dir (v / 2 ^ 22)
            ∙ written_here (frame_of s.cr3) (v / 2 ^ 22)
                (table_entry (alloc_page_frame s.frames).0 flags) s.words)
        ∙ table_entry-frame (alloc_page_frame s.frames).0 flags small

    pub inner-IsExtended : IsExtended (inner initial_page_dir page_dirs s v p flags)
    unfolding set_page
    inner-IsExtended = rw (with_table-new s v flags other small kernel self absent) (record {
      cr3 = refl;
      dirs_used = refl;
      frames = refl;
      entry =
          untouched (v / 2 ^ 22)
          ∙ linked-dir (v / 2 ^ 22)
          ∙ written_here (frame_of s.cr3) (v / 2 ^ 22)
              (table_entry (alloc_page_frame s.frames).0 flags) s.words;
      others = λ j ne.
          untouched j
          ∙ linked-dir j
          ∙ written_elsewhere (frame_of s.cr3) (v / 2 ^ 22)
              (table_entry (alloc_page_frame s.frames).0 flags) s.words (frame_of s.cr3) j (inr ne);
    })
      where
        untouched :
            (j : ℕ)
            → (set_page (v / 2 ^ 22) (v / 4096 % 1024) p flags new_table).words (frame_of s.cr3) j
              ≡ linked (frame_of s.cr3) j
        untouched j =
            written_elsewhere (rec_page_table s.cr3 linked (v / 2 ^ 22)) (v / 4096 % 1024) _ linked
              (frame_of s.cr3) j (inl (λ e. apart (sym (e ∙ table_at))))
