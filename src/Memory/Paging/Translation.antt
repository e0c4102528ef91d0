-- ===== src/Memory/Paging/Translation.antt =====
-- What the processor makes of an address after memMapPage.
use master_os.Base.{
  ℕ, zero, suc, ◌+◌, ◌*◌, ◌/◌, ◌%◌, ◌^◌, ◌<◌, ◌≤◌, ◌≡◌, ◌≢◌, refl, ap, ◌∙◌, ◌⊎◌, inl, inr, arith,
  true, false, some, leb, ◌==◌, bit_and, bit_or,
}
use master_os.Base.Bits.{and_ten}
use native.Mathlib.Decide.{dec_lt}
use master_os.Memory.Paging.{
  Paging, kernel_start, frame_of, sync_from, sync_page_dirs, mem_gcpd, enter_kernel, leave_kernel,
  with_table, set_page, mem_map_page,
}
use master_os.Memory.Paging.Entries.{translate}
use master_os.Memory.Paging.Tables.{
  table_frame, IsTable, old_entry, with_table-IsOpen, opened-translate,
}

module _ (initial_page_dir page_dirs : ℕ) where
  pub sync_from_none :
      (left i : ℕ) (used : ℕ → ℕ) (words : ℕ → ℕ → ℕ)
      → ((i : ℕ) → used i ≡ 0)
      → sync_from initial_page_dir page_dirs left i used words ≡ words
  unfolding sync_from
  sync_from_none zero i used words none_used = refl
  sync_from_none (suc left) i used words none_used =
      simp (none_used i) (sync_from_none left (i + 1) used words none_used)

  -- The call does not change the directory: the page is in the lower part, or the current
  -- directory is the kernel's.
  unfoldable pub IsInPlace : Paging → ℕ → Type 0
  IsInPlace s v = (v < kernel_start) ⊎ ((mem_gcpd s ≡ initial_page_dir) × (initial_page_dir ≢ 0))

  pub enter_kernel-low :
      (s : Paging) (v : ℕ) → v < kernel_start → enter_kernel initial_page_dir page_dirs v s ≡ (0, s)
  unfolding enter_kernel
  enter_kernel-low s v low = let below : leb kernel_start v ≡ false = ground arith in rw below refl

  pub enter_kernel-current :
      (s : Paging) (v : ℕ)
      → kernel_start ≤ v
      → mem_gcpd s ≡ initial_page_dir
      → enter_kernel initial_page_dir page_dirs v s ≡ (initial_page_dir, s)
  unfolding enter_kernel
  enter_kernel-current s v high current =
      let above : leb kernel_start v ≡ true = ground arith in
      let same : (initial_page_dir == initial_page_dir) ≡ true = ground arith in
      rw above (rw current (rw same refl))

  leave_kernel-current :
      (t : Paging)
      → initial_page_dir ≢ 0
      → ((i : ℕ) → t.dirs_used i ≡ 0)
      → (leave_kernel initial_page_dir page_dirs initial_page_dir t).words ≡ t.words
  unfolding leave_kernel sync_page_dirs
  leave_kernel-current t ne unused =
      let same : (initial_page_dir == initial_page_dir) ≡ true = ground arith in
      let given : (initial_page_dir == 0) ≡ false = ground arith in
      rw given (rw same (sync_from_none 256 0 t.dirs_used t.words unused))

  leave_kernel-none : (t : Paging) → (leave_kernel initial_page_dir page_dirs 0 t).words ≡ t.words
  unfolding leave_kernel
  leave_kernel-none t = refl

  -- What is done between the two changes of the directory.
  abbrev pub inner : Paging → ℕ → ℕ → ℕ → Paging
  inner s v p flags =
      set_page (v / 2 ^ 22) (v / 4096 % 1024) p flags (with_table (v / 2 ^ 22) flags s)

  inner-dirs_used :
      (s : Paging) (v p flags : ℕ)
      → (inner s v p flags).dirs_used ≡ (with_table (v / 2 ^ 22) flags s).dirs_used
  unfolding set_page
  inner-dirs_used s v p flags = refl

  pub mem_map_page_in_place :
      (s : Paging) (v p flags : ℕ)
      → IsInPlace s v
      → ((i : ℕ) → s.dirs_used i ≡ 0)
      → (with_table (v / 2 ^ 22) flags s).dirs_used ≡ s.dirs_used
      → (mem_map_page initial_page_dir page_dirs v p flags s).words ≡ (inner s v p flags).words
  unfolding IsInPlace mem_map_page
  mem_map_page_in_place s v p flags place unused kept = elim place [
    | inl low ↦
        rw (enter_kernel-low s v low, and_ten (v / 2 ^ 12)) (leave_kernel-none (inner s v p flags))
    | inr at ↦ elim (dec_lt v kernel_start) [
      | yes low ↦
          rw (enter_kernel-low s v low, and_ten (v / 2 ^ 12))
            (leave_kernel-none (inner s v p flags))
      | no high ↦
          rw (enter_kernel-current s v (omega arith) at.0, and_ten (v / 2 ^ 12))
            (leave_kernel-current (inner s v p flags) at.1
              (λ i. rw (inner-dirs_used s v p flags, kept) (unused i)))
    ]
  ]

  -- The state in which memMapPage is called.
  pub record IsMappable (s : Paging) (v : ℕ) : Type 0 where
    pub in_place : IsInPlace s v
    pub unused : (i : ℕ) → s.dirs_used i ≡ 0
    pub self : frame_of (s.words (frame_of s.cr3) 1023) ≡ frame_of s.cr3
    pub other : v / 2 ^ 22 ≢ 1023
    pub apart : table_frame s v ≢ frame_of s.cr3
    pub table : IsTable s v

  -- When the current directory is entered into itself and is the one to change, no other directory
  -- is in use, the page table of `v` is not the directory, and no page of 4 MB stands at `v`: after
  -- `memMapPage` for the kernel, without the flag of such a page, the processor takes `v` to the
  -- frame of the physical address, joined by `|` with the frame that the entry held before if the
  -- page table was there already.
  pub mem_map_page-translate :
      (s : Paging) (v p flags : ℕ)
      → IsMappable s v
      → flags < 4096
      → flags / 128 % 2 ≡ 0
      → (bit_and flags 4 == 0) ≡ true
      → translate s.cr3 (mem_map_page initial_page_dir page_dirs v p flags s).words v
        ≡ some (bit_or (p / 4096) (old_entry s v / 4096) * 4096 + v % 4096)
  mem_map_page-translate s v p flags m small plain kernel =
      let o = with_table-IsOpen s v flags m.other small kernel m.self m.apart m.table plain in
      ap (λ w. translate s.cr3 w v)
        (mem_map_page_in_place s v p flags m.in_place m.unused o.dirs_used)
      ∙ opened-translate s v flags m.other small kernel m.self p (with_table (v / 2 ^ 22) flags s)
          m.apart o
